-- ===== src/Dupset/Difference.antt =====
-- The difference of two sequence numbers of a set, for every width.
use olsrd.Base.{
  ℕ, ◌+◌, ◌-◌, ◌%◌, ◌^◌, ◌<◌, ◌≡◌, refl, ℤ, pos, negsuc, ltb, if◌then◌else◌, arith, bit_and-mask,
}
use olsrd.Dupset.{
  DupsetType, bits8, bits16, bits32, bits64, DuplicateSet, duplicate_set_add, seqno_difference,
}

-- The number of sequence numbers of a set.
abbrev pub modulus : DupsetType → ℕ
modulus bits8 = 2 ^ 8
modulus bits16 = 2 ^ 16
modulus bits32 = 2 ^ 32
modulus bits64 = 2 ^ 64

-- How far `t` is behind `s`, counted modulo `m`.
abbrev pub behind : ℕ → ℕ → ℕ → ℕ
behind m s t = (s + m - t) % m

-- A number counted modulo `m`, as the nearest integer.
abbrev pub nearest : ℕ → ℕ → ℤ
nearest m r = if ltb (r + r) m then pos r else negsuc (m - r - 1)

-- The parameters of a set of a type, whatever it holds.
pub record IsOfType (set : DuplicateSet) (type : DupsetType) : Type 0 where
  pub mask_is : set.mask ≡ (duplicate_set_add type).mask
  pub limit_is : set.limit ≡ (duplicate_set_add type).limit
  pub offset_is : set.offset ≡ (duplicate_set_add type).offset

pub add-IsOfType : (type : DupsetType) → IsOfType (duplicate_set_add type) type
add-IsOfType type = record { mask_is = refl; limit_is = refl; offset_is = refl }

-- The code's difference of two numbers of a set is the one modulo the number of sequence numbers,
-- taken the shorter way, ties downwards.
pub seqno_difference-nearest :
    (set : DuplicateSet) (type : DupsetType) (s t : ℕ)
    → IsOfType set type
    → s < modulus type
    → t < modulus type
    → seqno_difference set s t ≡ nearest (modulus type) (behind (modulus type) s t)
unfolding seqno_difference duplicate_set_add
seqno_difference-nearest set bits8 s t h hs ht =
    ground (arith, bit_and-mask ((s + 2 ^ 64 - t) % 2 ^ 64) 8)
seqno_difference-nearest set bits16 s t h hs ht =
    ground (arith, bit_and-mask ((s + 2 ^ 64 - t) % 2 ^ 64) 16)
seqno_difference-nearest set bits32 s t h hs ht =
    ground (arith, bit_and-mask ((s + 2 ^ 64 - t) % 2 ^ 64) 32)
seqno_difference-nearest set bits64 s t h hs ht = ground arith
