-- ===== src/Dupset/Window/Triangle.antt =====
-- Arithmetic of three sequence numbers: the current one `c`, a new one `s`, and any other `t`.
use olsrd.Base.{ℕ, ◌+◌, ◌<◌, ◌≤◌, ◌≡◌, ◌↔◌, arith}
use olsrd.Dupset.{DupsetType, bits8, bits16, bits32, bits64}
use olsrd.Dupset.Difference.{modulus, behind}

pub record Triangle (m c s t : ℕ) : Type 0 where
  pub same_place : (behind m c t ≡ behind m c s) ↔ (t ≡ s)
  pub at_new : (behind m s t ≡ 0) ↔ (t ≡ s)
  -- With `s` ahead of `c`: what is at least as far behind `s` as `c` is.
  pub shifted :
      m < behind m c s + behind m c s
      → behind m s c ≤ behind m s t
      → behind m c t + behind m s c ≡ behind m s t
  pub between : m < behind m c s + behind m c s → behind m s t < behind m s c → 32 ≤ behind m c t
  -- With `s` far behind `c`: the last 32 numbers up to `c` are not among those up to `s`.
  pub apart :
      32 ≤ behind m c s → behind m c s + behind m c s ≤ m → behind m c t < 32 → 32 ≤ behind m s t

pub triangle :
    (type : DupsetType) (c s t : ℕ)
    → c < modulus type
    → s < modulus type
    → t < modulus type
    → Triangle (modulus type) c s t
triangle bits8 c s t hc hs ht = record {
  same_place = ground arith;
  at_new = ground arith;
  shifted = ground arith;
  between = ground arith;
  apart = ground arith;
}
triangle bits16 c s t hc hs ht = record {
  same_place = ground arith;
  at_new = ground arith;
  shifted = ground arith;
  between = ground arith;
  apart = ground arith;
}
triangle bits32 c s t hc hs ht = record {
  same_place = ground arith;
  at_new = ground arith;
  shifted = ground arith;
  between = ground arith;
  apart = ground arith;
}
triangle bits64 c s t hc hs ht = record {
  same_place = ground arith;
  at_new = ground arith;
  shifted = ground arith;
  between = ground arith;
  apart = ground arith;
}
