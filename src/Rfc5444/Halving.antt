-- ===== src/Rfc5444/Halving.antt =====
-- The loop with which `rfc5497_timetlv_encode` and `rfc7181_metric_encode` normalise a value:
-- it halves, rounding up, until the value is at most `limit`, and counts the rounds.
use olsrd.Base.{
  ℕ, zero, suc, ◌+◌, ◌*◌, ◌/◌, ◌^◌, ◌≤◌, ◌<◌, ◌≡◌, refl, ◌⊎◌, inl, inr, arith, ltb, if◌then◌else◌,
  Bool-cases, ltb→lt, ltb→ge,
}
use native.Mathlib.Nat.{pow-suc}

-- `while (decoded > limit) { b++; decoded++; decoded >>= 1; }` on fuel; `b` counts from where
-- the caller starts it. The callers' values stay far below the wrap of their integers.
unfoldable pub halve_above : ℕ → ℕ → ℕ → ℕ → ℕ × ℕ
halve_above limit zero decoded b = (decoded, b)
halve_above limit (suc fuel) decoded b =
    let rest = halve_above limit fuel ((decoded + 1) / 2) (b + 1) in
    if ltb limit decoded then rest else (decoded, b)

-- What the loop leaves: `mantissa` is the start divided by 2 ^ rounds, rounded up, it is the first
-- value that is not above the limit, and the loop makes at most `n` rounds.
pub record Halved (limit start b n : ℕ) (out : ℕ × ℕ) : Type 0 where
  pub rounds : ℕ
  pub exponent : out.1 ≡ b + rounds
  pub few : rounds ≤ n
  pub normal : out.0 ≤ limit
  pub covers : start ≤ out.0 * 2 ^ rounds
  pub tight : out.0 * 2 ^ rounds < start + 2 ^ rounds
  pub first : (rounds ≡ 0) ⊎ ((j : ℕ) × (rounds ≡ suc j) × (limit * 2 ^ j < start))

Halved-stop : (limit start b n : ℕ) → start ≤ limit → Halved limit start b n (start, b)
Halved-stop limit start b n small = record {
  rounds = 0;
  exponent = omega arith;
  few = omega arith;
  normal = small;
  covers = omega arith;
  tight = omega arith;
  first = inl refl;
}

Halved-round :
    {limit start b n : ℕ} {out : ℕ × ℕ}
    → limit < start
    → Halved limit ((start + 1) / 2) (b + 1) n out
    → Halved limit start b (suc n) out
Halved-round {limit} {start} {b} {n} {out} large h = record {
  rounds = suc h.rounds;
  exponent = omega (arith, h.exponent);
  few = omega (arith, h.few);
  normal = h.normal;
  covers = omega (arith, h.covers, power);
  tight = omega (arith, h.tight, power, pow-suc 2 h.rounds);
  first = inr (h.rounds, refl, lower h.first);
}
  where
    power : out.0 * 2 ^ suc h.rounds ≡ 2 * (out.0 * 2 ^ h.rounds)
    power = rw pow-suc (omega arith)

    lower :
        (h.rounds ≡ 0) ⊎ ((j : ℕ) × (h.rounds ≡ suc j) × (limit * 2 ^ j < (start + 1) / 2))
        → limit * 2 ^ h.rounds < start
    lower (inl e) = rw e (omega arith)
    lower (inr (j, e, below)) = rw (e, pow-suc) (omega arith)

-- With fuel for `n` rounds, where `limit * 2 ^ n` bounds the start, the loop ends by its test.
pub halve_above-Halved :
    (limit fuel n start b : ℕ)
    → n ≤ fuel
    → start ≤ limit * 2 ^ n
    → Halved limit start b n (halve_above limit fuel start b)
unfolding halve_above
halve_above-Halved limit zero n start b le fits =
    Halved-stop limit start b n (omega (arith, fuel_out))
  where
    fuel_out : limit * 2 ^ n ≡ limit
    fuel_out = let e : n ≡ 0 = omega arith in rw e (omega arith)
halve_above-Halved limit (suc fuel) zero start b le fits =
    let small : start ≤ limit = omega arith in
    elim (Bool-cases (ltb limit start)) [
      | inl more ↦ absurd (omega (arith, ltb→lt limit start more))
      | inr done ↦ rw done (Halved-stop limit start b 0 small)
    ]
halve_above-Halved limit (suc fuel) (suc n) start b le fits = elim (Bool-cases (ltb limit start)) [
  | inl more ↦ rw more (
      Halved-round (ltb→lt limit start more) (
        halve_above-Halved limit fuel n ((start + 1) / 2) (b + 1) (omega arith)
          (omega (arith, half_fits))))
  | inr done ↦ rw done (Halved-stop limit start b (suc n) (ltb→ge limit start done))
]
  where
    half_fits : limit * 2 ^ suc n ≡ 2 * (limit * 2 ^ n)
    half_fits = rw pow-suc (omega arith)
