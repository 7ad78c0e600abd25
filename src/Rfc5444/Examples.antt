-- ===== src/Rfc5444/Examples.antt =====
-- Instances of the theorems on RFC 5444 values, and runs of the code.
use olsrd.Base.{ℕ, ◌≤◌, ◌<◌, ◌≡◌, refl, List, [], ◌∷◌, some, arith}
use olsrd.Rfc5444.Halving.{halve_above}
use olsrd.Rfc5444.Metric.{MetricField, metric_encode, metric_decode, normalise}
use olsrd.Rfc5444.Metric.Least.{
  IsField, metric_code, metric_encode-least, metric_encode-decode, metric_encode_mono,
}
use olsrd.Rfc5444.TimeTlv
use olsrd.Rfc5444.TimeTlv.{
  timetlv_encode, timetlv_decode, timetlv_max, timetlv_get_from_vector, scan_vector,
}
use olsrd.Rfc5444.TimeTlv.Least.{timetlv_encode-least, timetlv_encode-decode}

abbrev sample_field : MetricField
sample_field = record { exponent = 3; mantissa = 7 }

encode_1000 : metric_encode 1000 ≡ some (record { exponent = 2; mantissa = 57 })
unfolding metric_encode normalise halve_above
encode_1000 = refl

metric_encode-least_example :
    (f : MetricField) × (metric_encode 1000 ≡ some f)
    × IsField f
    × (1000 ≤ metric_decode f)
    × ((g : MetricField) → IsField g → 1000 ≤ metric_decode g → metric_code f ≤ metric_code g)
metric_encode-least_example = metric_encode-least 1000 (omega arith) (omega arith)

metric_encode-decode_example : metric_encode (metric_decode sample_field) ≡ some sample_field
metric_encode-decode_example = metric_encode-decode sample_field (omega arith)

metric_encode_mono_example :
    (f g : MetricField) × (metric_encode 1000 ≡ some f)
    × (metric_encode 0xffff80 ≡ some g)
    × (metric_code f ≤ metric_code g)
    × (metric_decode f ≤ metric_decode g)
metric_encode_mono_example =
    metric_encode_mono 1000 0xffff80 (omega arith) (omega arith) (omega arith)

one_second_and_a_half : (timetlv_encode 1500 ≡ 84) × (timetlv_decode 84 ≡ 1500)
unfolding timetlv_encode timetlv_decode halve_above TimeTlv.normalise
one_second_and_a_half = (refl, refl)

timetlv_encode-least_example :
    (timetlv_encode 1876 < 255)
    × (1876 ≤ timetlv_decode (timetlv_encode 1876))
    × ((c : ℕ) → c < 255 → 1876 ≤ timetlv_decode c → timetlv_encode 1876 ≤ c)
timetlv_encode-least_example = timetlv_encode-least 1876 (omega arith) (omega arith)

timetlv_encode-decode_example : timetlv_encode (timetlv_decode 100) ≡ 100
timetlv_encode-decode_example = timetlv_encode-decode 100 (omega arith) (omega arith)

abbrev near : List (ℕ × ℕ)
near = (88, 1) ∷ []
