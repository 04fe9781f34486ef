-- ===== src/Metrics/Tests.antt =====
-- A latency of 1000 ns, and the histogram of it and one of 5 ns.
use ultra_low_latency_order.Prelude.{
  ℕ, ◌-◌, ◌*◌, ◌≤◌, ◌≡◌, refl, [], ◌∷◌, done, arith, length, update,
}
use ultra_low_latency_order.Metrics.{
  value_to_bucket, bucket_to_value, LatencyHistogram, new_histogram, record_latency, percentile,
}
use ultra_low_latency_order.Metrics.Error.{bucket_to_value-value_to_bucket}
use ultra_low_latency_order.Metrics.Ranks.{
  IsHistogram, IsRanked, in_bucket, AllWords, new_histogram-IsHistogram, record_latency-IsHistogram,
  percentile-IsRanked,
}

bucket_to_value-value_to_bucket_example :
    (32 * (bucket_to_value (value_to_bucket 1000) - 1000) ≤ 1000)
    × (32 * (1000 - bucket_to_value (value_to_bucket 1000)) ≤ 1000)
bucket_to_value-value_to_bucket_example = bucket_to_value-value_to_bucket 1000 (omega arith)

record_latency-IsHistogram_example :
    (h : LatencyHistogram) × (record_latency new_histogram 5 ≡ done h) × IsHistogram h (5 ∷ [])
unfolding length
record_latency-IsHistogram_example =
    record_latency-IsHistogram new_histogram 5 [] new_histogram-IsHistogram (omega arith)
      (omega arith)

abbrev one : LatencyHistogram
one = record {
  buckets = record { len = 544; at = update (λ _. 0) 5 1 };
  count = 1;
  min_ns = 5;
  max_ns = 5;
  sum_ns = 5;
}

one-IsHistogram : IsHistogram one (5 ∷ [])
unfolding in_bucket value_to_bucket AllWords length
one-IsHistogram = record {
  sized = refl;
  filled = λ b. ground arith;
  counted = refl;
  words = (omega arith, tt);
}

percentile-IsRanked_example :
    (value : ℕ) × (percentile one 1 ≡ done value) × IsRanked 1 (5 ∷ []) value
unfolding length
percentile-IsRanked_example =
    percentile-IsRanked one (5 ∷ []) 1 one-IsHistogram (omega arith) (omega arith) (omega arith)
