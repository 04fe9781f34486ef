-- ===== src/Metrics.antt =====
-- `LatencyHistogram` of src/metrics.rs, its integer part.
pub mod Error
pub mod Ranks
mod Tests
use ultra_low_latency_order.Prelude.{
  ℕ, zero, suc, ◌+◌, ◌-◌, ◌*◌, ◌/◌, ◌%◌, ◌^◌, min, ltb, leb, if◌then◌else◌, add64, ◌==◌, u64_max,
  Exec, done, stalled, ◌>>=◌, Vec, read, write,
}

-- The position of the highest set bit, `63 - leading_zeros()` of a word that is not 0.
unfoldable pub top_bit : ℕ → ℕ → ℕ
top_bit zero n = 0
top_bit (suc fuel) n = let rest = top_bit fuel (n / 2) in if ltb n 2 then 0 else suc rest

-- The branch for values of at least 16, from the highest set bit `k`.
unfoldable pub octave_bucket : ℕ → ℕ → ℕ
octave_bucket k nanos = min (16 + (k - 4) * 16 + (nanos / 2 ^ (k - 4)) % 16) 543

unfoldable pub value_to_bucket : ℕ → ℕ
unfolding top_bit octave_bucket
value_to_bucket nanos =
    if ltb nanos 16
    then nanos
    else if ltb (top_bit 64 nanos) 4
    then nanos
    else octave_bucket (top_bit 64 nanos) nanos

unfoldable pub bucket_to_value : ℕ → ℕ
bucket_to_value bucket =
    if ltb bucket 16
    then bucket
    else 2 ^ ((bucket - 16) / 16 + 4)
      + (bucket - 16) % 16 * 2 ^ ((bucket - 16) / 16)
      + 2 ^ ((bucket - 16) / 16) / 2

pub record LatencyHistogram : Type 0 where
  pub buckets : Vec ℕ
  pub count : ℕ
  pub min_ns : ℕ
  pub max_ns : ℕ
  pub sum_ns : ℕ

-- `LatencyHistogram::new`
abbrev pub new_histogram : LatencyHistogram
new_histogram = record {
  buckets = record { len = 544; at = λ _. 0 };
  count = 0;
  min_ns = u64_max;
  max_ns = 0;
  sum_ns = 0;
}

-- `LatencyHistogram::record`
unfoldable pub record_latency : LatencyHistogram → ℕ → Exec LatencyHistogram
unfolding value_to_bucket
record_latency h nanos = do
  n ← read h.buckets (value_to_bucket nanos)
  buckets ← write h.buckets (value_to_bucket nanos) (min (n + 1) (2 ^ 32 - 1))
  done (record {
    buckets = buckets;
    count = add64 h.count 1;
    min_ns = if ltb nanos h.min_ns then nanos else h.min_ns;
    max_ns = if ltb h.max_ns nanos then nanos else h.max_ns;
    sum_ns = (h.sum_ns + nanos) % 2 ^ 128;
  })

-- The loop of `percentile` from a bucket on, with the number of buckets that are left.
unfoldable pub percentile_from : ℕ → LatencyHistogram → ℕ → ℕ → ℕ → Exec ℕ
unfolding bucket_to_value
percentile_from zero h target bucket accumulated = done h.max_ns
percentile_from (suc left) h target bucket accumulated = read h.buckets bucket >>= λ n.
    let rest = percentile_from left h target (bucket + 1) (add64 accumulated n) in
    if leb target (add64 accumulated n) then done (bucket_to_value bucket) else rest

-- `percentile`, given the rank that it computes in f64.
unfoldable pub percentile : LatencyHistogram → ℕ → Exec ℕ
percentile h target = if h.count == 0 then done 0 else percentile_from 544 h target 0 0
