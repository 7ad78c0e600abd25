-- ===== src/Rfc5444/TimeTlv.antt =====
-- Time TLV values: `rfc5497_timetlv_get_from_vector`, `rfc5497_timetlv_encode` and
-- `rfc5497_timetlv_decode` of src-plugins/subsystems/rfc5444/rfc5444.c. Times are milliseconds.
pub mod Least
pub mod Vector
use olsrd.Base.{
  ℕ, zero, suc, ◌+◌, ◌-◌, ◌*◌, ◌/◌, ◌%◌, ◌^◌, bit_and, List, [], ◌∷◌, ltb, leb, ◌==◌, if◌then◌else◌,
  length,
}
use olsrd.Rfc5444.Halving.{halve_above}

abbrev pub timetlv_min : ℕ
timetlv_min = 1

abbrev pub timetlv_max : ℕ
timetlv_max = 0xdac0_0000

-- `while (decoded < 1000) { b--; decoded <<= 1; }` on fuel.
unfoldable pub double_below : ℕ → ℕ → ℕ → ℕ × ℕ
double_below zero decoded b = (decoded, b)
double_below (suc fuel) decoded b =
    let rest = double_below fuel (decoded * 2 % 2 ^ 64) ((b + 2 ^ 32 - 1) % 2 ^ 32) in
    if ltb decoded 1000 then rest else (decoded, b)

-- The normalised value and the exponent. The loops get fuel for the 64 bits of a `uint64_t`.
unfoldable pub normalise : ℕ → ℕ × ℕ
normalise decoded =
    if leb 1000 decoded then halve_above 1875 64 decoded 10 else double_below 64 decoded 10

-- `a + (b << 3)`, with a = (decoded - 1000 + 124) / 125, as a uint8_t.
abbrev pub to_code : ℕ × ℕ → ℕ
to_code (d, b) = ((d + 2 ^ 64 - 1000 + 124) % 2 ^ 64 / 125 % 2 ^ 32 + b * 8) % 2 ^ 8

unfoldable pub timetlv_encode : ℕ → ℕ
timetlv_encode decoded =
    if ltb decoded timetlv_min
    then 0
    else if ltb timetlv_max decoded
    then 255
    else to_code (normalise decoded)

-- A value of a + 8 b other than 0 and 255.
unfoldable pub decode_fields : ℕ → ℕ → ℕ
decode_fields a b =
    if leb b 10 then (1000 + 125 * a) / 2 ^ (10 - b) else (1000 + 125 * a) * 2 ^ (b - 10) % 2 ^ 64

unfoldable pub timetlv_decode : ℕ → ℕ
unfolding decode_fields
timetlv_decode encoded =
    if encoded == 0
    then 0
    else if encoded == 255
    then 2 ^ 64 - 1
    else decode_fields (bit_and encoded 7) (encoded / 8)

-- The loop over vector[i], i = 1, 3, …: the list is the vector from index i - 1 on. A vector of odd
-- length ends with one value.
unfoldable pub scan_vector : ℕ → List ℕ → ℕ
scan_vector hopcount [] = 255
scan_vector hopcount (value ∷ []) = value
scan_vector hopcount (value ∷ limit ∷ rest) =
    if leb hopcount limit then value else scan_vector hopcount rest

unfoldable pub timetlv_get_from_vector : List ℕ → ℕ → ℕ
unfolding scan_vector
timetlv_get_from_vector vector hopcount =
    if length vector % 2 == 0 then 255 else scan_vector hopcount vector
