-- ===== src/Rfc5444/Metric.antt =====
-- Metric values: `rfc7181_metric_encode` and `rfc7181_metric_decode` of
-- src-plugins/subsystems/rfc5444/rfc5444.c.
pub mod Least
use olsrd.Base.{
  ℕ, ◌+◌, ◌-◌, ◌*◌, ◌%◌, ◌^◌, ◌<◌, bit_and, Option, none, some, ltb, leb, ◌||◌, if◌then◌else◌,
}
use olsrd.Rfc5444.Halving.{halve_above}

-- `struct rfc7181_metric_field`: the bytes b[0] and b[1].
pub record MetricField : Type 0 where
  pub exponent : ℕ
  pub mantissa : ℕ

abbrev pub metric_min : ℕ
metric_min = 1

abbrev pub metric_max : ℕ
metric_max = 0xffff00

abbrev pub metric_infinite : ℕ
metric_infinite = 0xffffff

-- The halving loop gets fuel for the 32 rounds that a `uint32_t` allows at most.
unfoldable pub normalise : ℕ → ℕ × ℕ
normalise decoded = halve_above 512 32 (decoded + 256) 0

abbrev pub to_field : ℕ × ℕ → MetricField
to_field (d, a) = record { exponent = a; mantissa = (d + 2 ^ 32 - 257) % 256 }

-- `none` is the error result -1.
unfoldable pub metric_encode : ℕ → Option MetricField
metric_encode decoded =
    if ltb decoded metric_min || leb metric_infinite decoded
    then none
    else if ltb metric_max decoded
    then some (record { exponent = 0x0f; mantissa = 0xff })
    else some (to_field (normalise decoded))

unfoldable pub metric_decode : MetricField → ℕ
metric_decode f = (257 + f.mantissa) * 2 ^ bit_and f.exponent 15 - 256
