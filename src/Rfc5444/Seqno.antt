-- ===== src/Rfc5444/Seqno.antt =====
-- `rfc5444_seqno_difference` of src-plugins/subsystems/rfc5444/rfc5444.c.
use olsrd.Base.{
  ℕ, ◌+◌, ◌-◌, ◌%◌, ◌^◌, ◌<◌, ◌≤◌, ◌≡◌, ◌↔◌, ℤ, pos, negsuc, pos_part, neg_part, sub_ℕ, neg, ltb_ℤ,
  ◌+ℤ◌, ◌-ℤ◌, if◌then◌else◌, arith,
}

-- The difference of two 16-bit numbers as an `int`, taken round the shorter way.
unfoldable pub seqno_difference : ℕ → ℕ → ℤ
seqno_difference seqno1 seqno2 =
    let diff = sub_ℕ seqno1 seqno2 in
    if ltb_ℤ (pos (2 ^ 15)) diff
    then diff -ℤ pos (2 ^ 16)
    else if ltb_ℤ diff (negsuc (2 ^ 15 - 1))
    then diff +ℤ pos (2 ^ 16)
    else diff

-- For 16-bit numbers the difference is at most 32768 either way, it leads from the second number to
-- the first modulo 65536, it is 0 exactly for equal numbers, and swapping the numbers negates it.
pub seqno_difference_lem :
    (s t : ℕ)
    → s < 2 ^ 16
    → t < 2 ^ 16
    → (pos_part (seqno_difference s t) ≤ 2 ^ 15)
      × (neg_part (seqno_difference s t) ≤ 2 ^ 15)
      × ((t + pos_part (seqno_difference s t)) % 2 ^ 16
          ≡ (s + neg_part (seqno_difference s t)) % 2 ^ 16)
      × ((seqno_difference s t ≡ pos 0) ↔ (s ≡ t))
      × (seqno_difference t s ≡ neg (seqno_difference s t))
unfolding seqno_difference
seqno_difference_lem s t hs ht =
    (ground arith, ground arith, ground arith, ground arith, ground arith)

-- A number that is `n` steps ahead, for `n` below 32768, is at difference `n`, also across the wrap.
seqno_difference-ahead :
    (t n : ℕ) → t < 2 ^ 16 → n < 2 ^ 15 → seqno_difference ((t + n) % 2 ^ 16) t ≡ pos n
unfolding seqno_difference
seqno_difference-ahead t n ht hn = ground arith
