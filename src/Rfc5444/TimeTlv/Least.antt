-- ===== src/Rfc5444/TimeTlv/Least.antt =====
-- The encoder picks the smallest time code whose value is not below the time.
use native.Mathlib.Nat.{pow-suc, pow-le-pow_right, mul-le-mul_right}
use native.Mathlib.Decide.{dec_lt}
use olsrd.Base.{
  ℕ, zero, suc, ◌+◌, ◌-◌, ◌*◌, ◌/◌, ◌^◌, ◌≤◌, ◌<◌, ◌≡◌, ◌≢◌, ◌||◌, refl, ap, ap₂, false, ◌∙◌, ◌⊎◌,
  inl, inr, bit_and, true, ◌&&◌, ◌==◌, ltb, leb, leb→le, arith, bit_and-mask, check_below,
  check_below_lem,
}
use olsrd.Rfc5444.Halving.{Halved, halve_above-Halved, halve_above}
use olsrd.Rfc5444.TimeTlv.{
  timetlv_min, timetlv_max, normalise, timetlv_encode, timetlv_decode, decode_fields, double_below,
}

decode_lem : (c : ℕ) → c ≢ 0 → c ≢ 255 → timetlv_decode c ≡ decode_fields (bit_and c 7) (c / 8)
unfolding timetlv_decode
decode_lem c h k = ground arith

decode_fields-large :
    (a k : ℕ) → a < 8 → k ≤ 21 → decode_fields a (10 + k) ≡ (1000 + 125 * a) * 2 ^ k
unfolding decode_fields
decode_fields-large a zero ha hk = omega arith
decode_fields-large a (suc k) ha hk =
    let small : 2 ^ suc k ≤ 2 ^ 21 = pow-le-pow_right (omega arith) hk in
    let product : (1000 + 125 * a) * 2 ^ suc k ≤ 2000 * 2 ^ 21 = grind arith in
    let index : 10 + suc k - 10 ≡ suc k = omega arith in
    let above : leb (10 + suc k) 10 ≡ false = ground arith in rw (above, index) (omega arith)

-- From exponent 10 on the decoder multiplies by a power of two.
decode-code :
    (a k : ℕ)
    → a < 8
    → k ≤ 21
    → a + (10 + k) * 8 ≢ 255
    → timetlv_decode (a + (10 + k) * 8) ≡ (1000 + 125 * a) * 2 ^ k
decode-code a k ha hk h =
    let low : bit_and (a + (10 + k) * 8) 7 ≡ a = omega (arith, bit_and-mask (a + (10 + k) * 8) 3) in
    let high : (a + (10 + k) * 8) / 8 ≡ 10 + k = omega arith in
    decode_lem (a + (10 + k) * 8) (omega arith) h
    ∙ (ap₂ decode_fields low high ∙ decode_fields-large a k ha hk)

ascending : check_below (λ c. leb (timetlv_decode c) (timetlv_decode (c + 1))) 254 ≡ true
unfolding timetlv_decode check_below
ascending = refl

small_times :
    check_below
      (λ t.
        ltb t 1
        || (leb t (timetlv_decode (timetlv_encode t))
            && (leb (timetlv_encode t) 254 && ltb (timetlv_decode (timetlv_encode t - 1)) t)))
      1000
    ≡ true
unfolding timetlv_decode timetlv_encode check_below normalise double_below halve_above
small_times = refl

decode_mono_upto : (c n : ℕ) → c + n < 255 → timetlv_decode c ≤ timetlv_decode (c + n)
decode_mono_upto c zero h = let e : c + 0 ≡ c = omega arith in rw e (omega arith)
decode_mono_upto c (suc n) h =
    let step : timetlv_decode (c + n) ≤ timetlv_decode (c + n + 1) =
      leb→le _ _ (check_below_lem _ 254 (c + n) (omega arith) ascending) in
    let e : c + suc n ≡ c + n + 1 = omega arith in
    rw e (omega (arith, step, decode_mono_upto c n (omega arith)))

-- A larger code other than 255 stands for no shorter time.
decode_mono : (c d : ℕ) → c ≤ d → d < 255 → timetlv_decode c ≤ timetlv_decode d
decode_mono c d h lt =
    let e : d ≡ c + (d - c) = omega arith in
    let step : timetlv_decode c ≤ timetlv_decode (c + (d - c)) =
      decode_mono_upto c (d - c) (omega arith) in
    omega (arith, step, ap timetlv_decode e)

-- What makes a code the least one of a time.
record Tight (t c : ℕ) : Type 0 where
  code_fits : c ≤ 254
  reaches : t ≤ timetlv_decode c
  misses : timetlv_decode (c - 1) < t

-- Below one second: by the table.
Tight-small : (t : ℕ) → timetlv_min ≤ t → t < 1000 → Tight t (timetlv_encode t)
Tight-small t low high = let row = check_below_lem _ 1000 t high small_times in ground arith

-- From one second on: by what the halving loop leaves.
code_79 : timetlv_decode 79 ≡ 937
unfolding timetlv_decode
code_79 = refl

module _ (t : ℕ) (low : 1000 ≤ t) (high : t ≤ timetlv_max) where
  normal : Halved 1875 t 10 21 (normalise t)
  unfolding normalise
  normal =
      let up : leb 1000 t ≡ true = ground arith in
      rw up (halve_above-Halved 1875 64 21 t 10 (omega arith) (omega arith))

  large :
      (d k : ℕ)
      → t ≤ d * 2 ^ k
      → (k ≡ 0) ⊎ ((j : ℕ) × (k ≡ suc j) × (1875 * 2 ^ j < t))
      → (938 ≤ d) × ((k ≡ 0) → 1000 ≤ d)
  large d k covers (inl e) = let c : t ≤ d * 2 ^ 0 = rw e at covers in omega arith
  large d k covers (inr (j, e, first)) =
      let c : t ≤ d * 2 ^ suc j = rw e at covers in
      elim (dec_lt 937 d) [
        | yes h ↦ (h, λ z. absurd (omega arith))
        | no h ↦
            let small : d * 2 ^ j ≤ 937 * 2 ^ j = grind arith in
            absurd (omega (arith, pow-suc 2 j, small, ap (λ p. d * p) (pow-suc 2 j)))
      ]

  wide : (938 ≤ (normalise t).0) × ((normal.rounds ≡ 0) → 1000 ≤ (normalise t).0)
  wide = large (normalise t).0 normal.rounds normal.covers normal.first

  -- The step within the octave: (d - 1000) / 125, rounded up.
  abbrev step : ℕ
  step = ((normalise t).0 + 124 - 1000) / 125

  step_bounds :
      (step ≤ 7)
      × ((normalise t).0 ≤ 1000 + 125 * step)
      × ((j : ℕ) → step ≡ suc j → 1000 + 125 * j < (normalise t).0)
  step_bounds = (omega (arith, normal.normal), omega (arith, wide), λ j e. omega (arith, wide))

  not_all_ones : (d k : ℕ) → d * 2 ^ k < t + 2 ^ k → k ≡ 21 → d ≤ 1750
  not_all_ones d k tight e = let c : d * 2 ^ 21 < t + 2 ^ 21 = rw e at tight in omega arith

  code_ne : step + (10 + normal.rounds) * 8 ≢ 255
  code_ne e = omega (
    arith,
    not_all_ones (normalise t).0 normal.rounds normal.tight
        (omega (arith, step_bounds, normal.few)),
    step_bounds,
  )

  encode_large : timetlv_encode t ≡ step + (10 + normal.rounds) * 8
  unfolding timetlv_encode
  encode_large =
      let not_low : ltb t timetlv_min ≡ false = ground arith in
      let not_high : ltb timetlv_max t ≡ false = ground arith in
      rw (not_low, not_high)
        (omega (arith, wide, normal.normal, normal.exponent, normal.few, step_bounds))

  value : timetlv_decode (timetlv_encode t) ≡ (1000 + 125 * step) * 2 ^ normal.rounds
  value =
      rw encode_large
        (decode-code step normal.rounds (omega (arith, step_bounds)) normal.few code_ne)

  below_octave :
      (d k : ℕ)
      → d ≤ 1000
      → d * 2 ^ k < t + 2 ^ k
      → (k ≡ 0) ⊎ ((j : ℕ) × (k ≡ suc j) × (1875 * 2 ^ j < t))
      → k ≤ 21
      → timetlv_decode ((10 + k) * 8 - 1) < t
  below_octave d k small tight (inl e) few =
      let code : (10 + k) * 8 - 1 ≡ 79 = omega arith in rw code (omega (arith, code_79))
  below_octave d k small tight (inr (j, e, first)) few =
      let code : (10 + k) * 8 - 1 ≡ 7 + (10 + j) * 8 = omega arith in
      rw code (omega (arith, decode-code 7 j (omega arith) (omega arith) (λ h. omega arith)))

  misses_at : (s : ℕ) → step ≡ s → timetlv_decode (s + (10 + normal.rounds) * 8 - 1) < t
  misses_at zero e =
      let code : zero + (10 + normal.rounds) * 8 - 1 ≡ (10 + normal.rounds) * 8 - 1 = omega arith in
      rw code (
        below_octave (normalise t).0 normal.rounds (omega (arith, step_bounds)) normal.tight
          normal.first normal.few)
  misses_at (suc s) e =
      let code : suc s + (10 + normal.rounds) * 8 - 1 ≡ s + (10 + normal.rounds) * 8 =
        omega arith in
      let here =
        decode-code s normal.rounds (omega (arith, step_bounds)) normal.few
          (λ h. omega (arith, normal.few, step_bounds)) in
      let under : 1001 + 125 * s ≤ (normalise t).0 = omega (arith, (step_bounds).2 s e) in
      let scaled = mul-le-mul_right (2 ^ normal.rounds) under in
      rw code (omega (arith, here, scaled, normal.tight))

  Tight-large : Tight t (timetlv_encode t)
  Tight-large =
      let scaled = mul-le-mul_right (2 ^ normal.rounds) (step_bounds).1 in
      record {
        code_fits = omega (arith, encode_large, code_ne, step_bounds, normal.few);
        reaches = omega (arith, value, normal.covers, scaled);
        misses = rw encode_large (misses_at step refl);
      }

Tight-encode : (t : ℕ) → timetlv_min ≤ t → t ≤ timetlv_max → Tight t (timetlv_encode t)
Tight-encode t low high = elim (dec_lt t 1000) [
  | yes small ↦ Tight-small t low small
  | no large ↦ Tight-large t (omega arith) high
]

-- The encoder maps each time from 1 ms to the maximum to the smallest code other than 255
-- (infinite) that stands for at least that time.
pub timetlv_encode-least :
    (t : ℕ)
    → timetlv_min ≤ t
    → t ≤ timetlv_max
    → (timetlv_encode t < 255)
      × (t ≤ timetlv_decode (timetlv_encode t))
      × ((c : ℕ) → c < 255 → t ≤ timetlv_decode c → timetlv_encode t ≤ c)
timetlv_encode-least t low high =
    let fit = Tight-encode t low high in
    (
      omega (arith, fit.code_fits),
      fit.reaches,
      λ c lt enough. elim (dec_lt c (timetlv_encode t)) [
        | yes less ↦ absurd (
            omega (
              arith,
              fit.misses,
              decode_mono c (timetlv_encode t - 1) (omega arith) (omega (arith, fit.code_fits)),
            ))
        | no least ↦ omega arith
      ],
    )

-- Of the codes below 255, those from 80 on survive decoding and encoding; the shorter ones come
-- back as the least code of the same time.
codes_table :
    check_below
      (λ c.
        let back = timetlv_encode (timetlv_decode c) in
        (back == c || ltb c 80) && timetlv_decode back == timetlv_decode c)
      255
    ≡ true
unfolding timetlv_decode timetlv_encode check_below normalise double_below halve_above
codes_table = refl

-- Decoding a code from 80 (one second) to 254 and encoding the time gives the code back.
pub timetlv_encode-decode : (c : ℕ) → 80 ≤ c → c < 255 → timetlv_encode (timetlv_decode c) ≡ c
timetlv_encode-decode c low lt = let row = check_below_lem _ 255 c lt codes_table in ground arith

-- Below 80 the rounding of the decoder makes codes coincide, but the time survives: decoding,
-- encoding and decoding again gives the same time for every code below 255.
timetlv_decode-encode-decode :
    (c : ℕ) → c < 255 → timetlv_decode (timetlv_encode (timetlv_decode c)) ≡ timetlv_decode c
timetlv_decode-encode-decode c lt = let row = check_below_lem _ 255 c lt codes_table in ground arith

-- What exceeds the longest time is coded as infinite, which decodes to the maximum of uint64_t.
pub timetlv_encode_infinite :
    (t : ℕ) → timetlv_max < t → timetlv_decode (timetlv_encode t) ≡ 2 ^ 64 - 1
unfolding timetlv_encode timetlv_decode
timetlv_encode_infinite t h = let e : timetlv_encode t ≡ 255 = ground arith in rw e
