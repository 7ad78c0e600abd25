-- ===== src/Rfc5444/Metric/Least.antt =====
-- The encoder picks the smallest code whose value is not below the metric.
use native.Mathlib.Nat.{pow-suc, pow-le-pow_right}
use native.Mathlib.Decide.{dec_lt}
use olsrd.Base.{
  ℕ, suc, ◌+◌, ◌*◌, ◌^◌, ◌≤◌, ◌<◌, ◌≡◌, ap, ap₂, ◌∙◌, ◌⊎◌, inl, inr, bit_and, some, arith,
  bit_and-mask, pow-pos,
}
use olsrd.Rfc5444.Halving.{Halved, halve_above-Halved}
use olsrd.Rfc5444.Metric.{
  MetricField, metric_min, metric_max, metric_infinite, normalise, to_field, metric_encode,
  metric_decode,
}

-- The 12 bits of the TLV value that matter.
abbrev pub metric_code : MetricField → ℕ
metric_code f = 256 * f.exponent + f.mantissa

-- A 4-bit exponent and a byte.
pub record IsField (f : MetricField) : Type 0 where
  pub exponent_fits : f.exponent < 16
  pub mantissa_fits : f.mantissa < 256

-- A field of a smaller exponent stays below all fields of the larger one.
step_down : (x e k : ℕ) → x < 256 → e < k → (257 + x) * 2 ^ e ≤ 256 * 2 ^ k
step_down x e k hx h =
    let doubled : 2 ^ suc e ≤ 2 ^ k = pow-le-pow_right (omega arith) h in
    let room : (257 + x) * 2 ^ e ≤ 512 * 2 ^ e = grind arith in
    omega (arith, doubled, pow-suc 2 e, room)

step_up : (x y e : ℕ) → x < y → (258 + x) * 2 ^ e ≤ (257 + y) * 2 ^ e
step_up x y e h = grind arith

smaller_code :
    (f g : MetricField)
    → IsField f
    → IsField g
    → metric_code g < metric_code f
    → (g.exponent < f.exponent) ⊎ ((g.exponent ≡ f.exponent) × (g.mantissa < f.mantissa))
smaller_code f g vf vg h = ground arith

-- The value of a field without the offset.
pub decode_value :
    (f : MetricField) → IsField f → metric_decode f + 256 ≡ (257 + f.mantissa) * 2 ^ f.exponent
unfolding metric_decode
decode_value f v =
    let e : bit_and f.exponent 15 ≡ f.exponent =
      omega (arith, bit_and-mask f.exponent 4, v.exponent_fits) in
    rw e (grind (arith, pow-pos f.exponent))

value_lower : (x e : ℕ) → 257 * 2 ^ e ≤ (257 + x) * 2 ^ e
value_lower x e = grind arith

-- A smaller code stands for a smaller value.
pub decode_mono :
    (f g : MetricField)
    → IsField f
    → IsField g
    → metric_code g < metric_code f
    → metric_decode g < metric_decode f
decode_mono f g vf vg h = elim (smaller_code f g vf vg h) [
  | inl e ↦ omega (
    arith,
    decode_value f vf,
    decode_value g vg,
    step_down g.mantissa g.exponent f.exponent vg.mantissa_fits e,
    pow-pos f.exponent,
    value_lower f.mantissa f.exponent,
  )
  | inr (e, l) ↦ omega (
    arith,
    decode_value f vf,
    decode_value g vg,
    ap (λ t. (257 + g.mantissa) * 2 ^ t) e,
    step_up g.mantissa f.mantissa f.exponent l,
    pow-pos f.exponent,
  )
]

-- What `normalise` leaves, as a field: the rounded-up quotient is 257 + the mantissa.
module _ (m : ℕ) (low : metric_min ≤ m) (high : m ≤ metric_max) where
  normal : Halved 512 (m + 256) 0 15 (normalise m)
  unfolding normalise
  normal = halve_above-Halved 512 32 15 (m + 256) 0 (omega arith) (omega arith)

  -- More than 256, so that the subtraction of 257 does not wrap.
  large :
      (d k : ℕ)
      → m + 256 ≤ d * 2 ^ k
      → (k ≡ 0) ⊎ ((j : ℕ) × (k ≡ suc j) × (512 * 2 ^ j < m + 256))
      → 257 ≤ d
  large d k covers (inl e) = let c : m + 256 ≤ d * 2 ^ 0 = rw e at covers in omega arith
  large d k covers (inr (j, e, first)) =
      let c : m + 256 ≤ d * 2 ^ suc j = rw e at covers in
      elim (dec_lt 256 d) [
        | yes h ↦ h
        | no h ↦
            let small : d * 2 ^ j ≤ 256 * 2 ^ j = grind arith in
            absurd (omega (arith, pow-suc 2 j, small, ap (λ t. d * t) (pow-suc 2 j)))
      ]

  field : MetricField
  field = to_field (normalise m)

  -- What the encoder stores, in terms of the rounded-up quotient.
  field_parts :
      (257 + field.mantissa ≡ (normalise m).0) × (field.exponent ≡ normal.rounds) × IsField field
  unfolding field
  field_parts =
      let wide = large (normalise m).0 normal.rounds normal.covers normal.first in
      (
        omega (arith, wide, normal.normal),
        omega (arith, normal.exponent),
        record {
          exponent_fits = omega (arith, normal.exponent, normal.few);
          mantissa_fits = omega arith;
        },
      )

  -- The value of the field reaches the metric, and is off by less than one step.
  field_value :
      (m ≤ metric_decode field) × (metric_decode field + 256 < m + 256 + 2 ^ normal.rounds)
  field_value =
      let (e, k, v) = field_parts in
      let value : metric_decode field + 256 ≡ (normalise m).0 * 2 ^ normal.rounds =
        decode_value field v ∙ ap₂ (λ x r. x * 2 ^ r) e k in
      omega (arith, value, normal.covers, normal.tight)

  -- A field of a smaller code stands for less than the metric.
  field_least :
      (g : MetricField) → IsField g → metric_code g < metric_code field → metric_decode g < m
  field_least g vg h = elim (smaller_code field g (field_parts).2 vg h) [
    | inl lower ↦ elim normal.first [
      | inl none_made ↦ absurd (omega (arith, field_parts))
      | inr (j, e, above) ↦ omega (
        arith,
        decode_value g vg,
        step_down g.mantissa g.exponent (suc j) vg.mantissa_fits (omega (arith, field_parts)),
        pow-suc 2 j,
      )
    ]
    | inr (same, less) ↦
        let value : metric_decode g + 256 ≡ (257 + g.mantissa) * 2 ^ normal.rounds =
          decode_value g vg ∙ ap (λ r. (257 + g.mantissa) * 2 ^ r) (same ∙ (field_parts).1) in
        let top : (257 + field.mantissa) * 2 ^ normal.rounds ≡ (normalise m).0 * 2 ^ normal.rounds =
          ap (λ x. x * 2 ^ normal.rounds) (field_parts).0 in
        omega
          (arith, value, top, step_up g.mantissa field.mantissa normal.rounds less, normal.tight)
  ]

  encode-field : metric_encode m ≡ some field
  unfolding metric_encode field
  encode-field = ground arith

-- The encoder maps each metric from 1 to the maximum to the smallest field (exponent first) whose
-- value is not below it.
pub metric_encode-least :
    (m : ℕ)
    → metric_min ≤ m
    → m ≤ metric_max
    → (f : MetricField) × (metric_encode m ≡ some f)
      × IsField f
      × (m ≤ metric_decode f)
      × ((g : MetricField) → IsField g → m ≤ metric_decode g → metric_code f ≤ metric_code g)
metric_encode-least m low high = (
  field m low high,
  encode-field m low high,
  (field_parts m low high).2,
  (field_value m low high).0,
  λ g vg reaches. elim (dec_lt (metric_code g) (metric_code (field m low high))) [
    | yes less ↦ absurd (omega (arith, field_least m low high g vg less))
    | no least ↦ omega arith
  ],
)

code_injective : (f g : MetricField) → IsField f → IsField g → metric_code f ≡ metric_code g → f ≡ g
code_injective f g vf vg h = ground arith

decode_range :
    (f : MetricField) → IsField f → (metric_min ≤ metric_decode f) × (metric_decode f ≤ metric_max)
decode_range f v =
    let top : (257 + f.mantissa) * 2 ^ f.exponent ≤ 256 * 2 ^ 16 =
      step_down f.mantissa f.exponent 16 v.mantissa_fits v.exponent_fits in
    let bottom = value_lower f.mantissa f.exponent in
    let at_least_one = pow-pos f.exponent in
    (omega (arith, decode_value f v), omega (arith, decode_value f v))

-- Decoding a field and encoding the value gives the field back.
pub metric_encode-decode : (f : MetricField) → IsField f → metric_encode (metric_decode f) ≡ some f
metric_encode-decode f v =
    let (low, high) = decode_range f v in
    let (g, e, vg, reaches, least) = metric_encode-least (metric_decode f) low high in
    let same : metric_code g ≡ metric_code f = elim (dec_lt (metric_code g) (metric_code f)) [
      | yes less ↦ absurd (omega (arith, decode_mono f g v vg less))
      | no not_less ↦ omega (arith, least f v (omega arith))
    ] in
    rw e (ap some (code_injective g f vg v same))

-- A value between the largest finite metric and the infinite one gets the greatest field.
clipped :
    (m : ℕ)
    → metric_max < m
    → m < metric_infinite
    → metric_encode m ≡ some (record { exponent = 15; mantissa = 255 })
unfolding metric_encode
clipped m high finite = ground arith

decode_le :
    (f g : MetricField)
    → IsField f
    → IsField g
    → metric_code f ≤ metric_code g
    → metric_decode f ≤ metric_decode g
decode_le f g vf vg h = elim (dec_lt (metric_code f) (metric_code g)) [
  | yes less ↦ omega (arith, decode_mono g f vg vf less)
  | no same ↦ omega (arith, ap metric_decode (code_injective f g vf vg (omega arith)))
]

greatest : (f : MetricField) → IsField f → metric_code f ≤ 4095
greatest f v = omega (arith, v.exponent_fits, v.mantissa_fits)

-- What is encoded for a larger metric, in comparison with a field that is the least to reach a
-- smaller one.
above :
    (a b : ℕ) (f : MetricField)
    → a ≤ b
    → metric_min ≤ b
    → b < metric_infinite
    → IsField f
    → ((g : MetricField) → IsField g → a ≤ metric_decode g → metric_code f ≤ metric_code g)
    → (g : MetricField) × (metric_encode b ≡ some g) × IsField g × (metric_code f ≤ metric_code g)
above a b f up low finite vf least = elim (dec_lt metric_max b) [
  | yes high ↦ (
    record { exponent = 15; mantissa = 255 },
    clipped b high finite,
    record { exponent_fits = omega arith; mantissa_fits = omega arith },
    greatest f vf,
  )
  | no within ↦
      let (g, e, vg, reaches, _) = metric_encode-least b low (omega arith) in
      (g, e, vg, least g vg (omega arith))
]

-- The encoder answers a field for every metric from 1 up to the infinite one, which is left out, and
-- keeps their order, the values above the maximum included: the code of a larger metric is not below
-- that of a smaller one, nor is the value that it stands for.
pub metric_encode_mono :
    (a b : ℕ)
    → metric_min ≤ a
    → a ≤ b
    → b < metric_infinite
    → (f g : MetricField) × (metric_encode a ≡ some f)
      × (metric_encode b ≡ some g)
      × (metric_code f ≤ metric_code g)
      × (metric_decode f ≤ metric_decode g)
metric_encode_mono a b low up finite = elim (dec_lt metric_max a) [
  | yes high ↦ (
    record { exponent = 15; mantissa = 255 },
    record { exponent = 15; mantissa = 255 },
    clipped a high (omega arith),
    clipped b (omega arith) finite,
    omega arith,
    omega arith,
  )
  | no within ↦
      let (f, e, vf, reaches, least) = metric_encode-least a low (omega arith) in
      let (g, e', vg, ordered) = above a b f up (omega arith) finite vf least in
      (f, g, e, e', ordered, decode_le f g vf vg ordered)
]
