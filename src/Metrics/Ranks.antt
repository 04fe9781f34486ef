-- ===== src/Metrics/Ranks.antt =====
-- The histogram of some latencies, and the rank of what `percentile` returns among them.
use ultra_low_latency_order.Prelude.{
  ℕ, zero, suc, subst, ==→eq, ltb→lt, ltb→le, ◌%◌, ◌+◌, ◌-◌, ◌^◌, ◌≤◌, ◌<◌, ◌≡◌, refl, ◌∙◌, ap,
  false, min, ltb, leb, List, [], ◌∷◌, Bool-cases, inl, inr, ◌==◌, if◌then◌else◌, add64, add64-eq,
  u64_mod, done, read-done, write-done, arith, length, update,
}
use native.Mathlib.Nat.{pow-le-pow_right}
use ultra_low_latency_order.Metrics.{
  top_bit, octave_bucket, value_to_bucket, bucket_to_value, LatencyHistogram, new_histogram,
  record_latency, percentile_from, percentile,
}
use ultra_low_latency_order.Metrics.Error.{top_bit-bounds}

-- A latency, a word, has a bucket.
value_to_bucket-lt : (n : ℕ) → n < u64_mod → value_to_bucket n < 544
unfolding value_to_bucket octave_bucket
value_to_bucket-lt n h = elim (Bool-cases (ltb n 16)) [
  | inl e ↦ let small : n < 16 = ground arith in rw e (omega (arith, small))
  | inr e ↦ elim (Bool-cases (ltb (top_bit 64 n) 4)) [
    | inl f ↦
        let large : 16 ≤ n = ltb→le n 16 e in
        let top : top_bit 64 n < 4 = ltb→lt (top_bit 64 n) 4 f in
        let (_, high) = top_bit-bounds 64 n (omega (arith, large)) h in
        let bound =
          pow-le-pow_right {n = 2} (omega arith) {i = suc (top_bit 64 n)} {j = 4}
            (omega (arith, top)) in
        rw (e, f) (omega (arith, high, bound))
    | inr f ↦ rw (e, f) (omega arith)
  ]
]

-- How many of the latencies are in bucket `b`, and in a bucket before it.
unfoldable pub in_bucket : ℕ → List ℕ → ℕ
in_bucket b [] = 0
in_bucket b (n ∷ ns) = (if value_to_bucket n == b then 1 else 0) + in_bucket b ns

unfoldable pub before_bucket : ℕ → List ℕ → ℕ
before_bucket b [] = 0
before_bucket b (n ∷ ns) = (if ltb (value_to_bucket n) b then 1 else 0) + before_bucket b ns

unfoldable pub AllWords : List ℕ → Type 0
AllWords [] = Unit
AllWords (n ∷ ns) = (n < u64_mod) × AllWords ns

before-suc : (b : ℕ) (ns : List ℕ) → before_bucket (b + 1) ns ≡ before_bucket b ns + in_bucket b ns
unfolding before_bucket in_bucket
before-suc b [] = refl
before-suc b (n ∷ ns) = ground (arith, before-suc b ns)

before-zero : (ns : List ℕ) → before_bucket 0 ns ≡ 0
unfolding before_bucket
before-zero [] = refl
before-zero (n ∷ ns) = ground (arith, before-zero ns)

before-all : (ns : List ℕ) → AllWords ns → before_bucket 544 ns ≡ length ns
unfolding before_bucket AllWords length
before-all [] w = refl
before-all (n ∷ ns) (h, w) =
    let bucket : value_to_bucket n < 544 = value_to_bucket-lt n h in ground (arith, before-all ns w)

in_bucket-le : (b : ℕ) (ns : List ℕ) → in_bucket b ns ≤ length ns
unfolding in_bucket length
in_bucket-le b [] = omega arith
in_bucket-le b (n ∷ ns) = ground (arith, in_bucket-le b ns)

before-le : (b : ℕ) (ns : List ℕ) → before_bucket b ns ≤ length ns
unfolding before_bucket length
before-le b [] = omega arith
before-le b (n ∷ ns) = ground (arith, before-le b ns)

-- The histogram counts the latencies by their buckets.
pub record IsHistogram (h : LatencyHistogram) (ns : List ℕ) : Type 0 where
  pub sized : h.buckets.len ≡ 544
  pub filled : (b : ℕ) → h.buckets.at b ≡ in_bucket b ns
  pub counted : h.count ≡ length ns
  pub words : AllWords ns

-- The new histogram is that of no latencies.
pub new_histogram-IsHistogram : IsHistogram new_histogram []
unfolding in_bucket length AllWords
new_histogram-IsHistogram = record { sized = refl; filled = λ b. refl; counted = refl; words = tt }

-- On the histogram of fewer than 2 ^ 32 - 1 latencies, recording a word as one more returns the
-- histogram of it and those.
pub record_latency-IsHistogram :
    (h : LatencyHistogram) (n : ℕ) (ns : List ℕ)
    → IsHistogram h ns
    → n < u64_mod
    → length ns < 2 ^ 32 - 1
    → (h' : LatencyHistogram) × (record_latency h n ≡ done h') × IsHistogram h' (n ∷ ns)
unfolding record_latency in_bucket length AllWords
record_latency-IsHistogram h n ns hist word few =
    let b : ℕ = value_to_bucket n in
    let inside : b < h.buckets.len = omega (arith, value_to_bucket-lt n word, hist.sized) in
    let k : ℕ = min (h.buckets.at b + 1) (2 ^ 32 - 1) in
    let exact : k ≡ 1 + in_bucket b ns = omega (arith, hist.filled b, in_bucket-le b ns, few) in
    (
      record {
        buckets = record h.buckets { at = update h.buckets.at b k };
        count = add64 h.count 1;
        min_ns = if ltb n h.min_ns then n else h.min_ns;
        max_ns = if ltb h.max_ns n then n else h.max_ns;
        sum_ns = (h.sum_ns + n) % 2 ^ 128;
      },
      rw (read-done h.buckets b inside, write-done h.buckets b k inside) refl,
      record {
        sized = hist.sized;
        filled = λ c. elim (Bool-cases (b == c)) [
          | inl e ↦ rw e (exact ∙ ap (λ x. 1 + in_bucket x ns) (==→eq b c e))
          | inr e ↦ rw e (omega (arith, hist.filled c))
        ];
        counted =
            add64-eq h.count 1 (omega (arith, hist.counted, few)) ∙ omega (arith, hist.counted);
        words = (word, hist.words);
      },
    )

-- The bucket in which the latency of a rank is.
pub record IsRanked (target : ℕ) (ns : List ℕ) (value : ℕ) : Type 0 where
  pub bucket : ℕ
  pub stands : value ≡ bucket_to_value bucket
  pub fewer : before_bucket bucket ns < target
  pub enough : target ≤ before_bucket (bucket + 1) ns

percentile_from-IsRanked :
    (left : ℕ) (h : LatencyHistogram) (ns : List ℕ) (target bucket : ℕ)
    → IsHistogram h ns
    → length ns < u64_mod
    → bucket + left ≡ 544
    → before_bucket bucket ns < target
    → target ≤ length ns
    → (value : ℕ) × (percentile_from left h target bucket (before_bucket bucket ns) ≡ done value)
      × IsRanked target ns value
unfolding percentile_from
percentile_from-IsRanked zero h ns target bucket hist fits size fewer most =
    let last : bucket ≡ 544 = omega (arith, size) in
    absurd (omega (arith, ap (λ b. before_bucket b ns) last, before-all ns hist.words, fewer, most))
percentile_from-IsRanked (suc left) h ns target bucket hist fits size fewer most =
    let inside : bucket < h.buckets.len = omega (arith, size, hist.sized) in
    let total : add64 (before_bucket bucket ns) (in_bucket bucket ns)
        ≡ before_bucket (bucket + 1) ns =
      add64-eq (before_bucket bucket ns) (in_bucket bucket ns)
        (omega (arith, before-suc bucket ns, before-le (bucket + 1) ns, fits))
      ∙ omega (arith, before-suc bucket ns) in
    elim (Bool-cases (leb target (before_bucket (bucket + 1) ns))) [
      | inl e ↦ (
        bucket_to_value bucket,
        rw (read-done h.buckets bucket inside, hist.filled bucket, total, e) refl,
        record { bucket = bucket; stands = refl; fewer = fewer; enough = ground arith },
      )
      | inr e ↦
          let beyond : before_bucket (bucket + 1) ns < target = ground arith in
          let (value, runs, ranked) =
            percentile_from-IsRanked left h ns target (bucket + 1) hist fits (omega (arith, size))
              beyond most in
          (value, rw (read-done h.buckets bucket inside, hist.filled bucket, total, e) runs, ranked)
    ]

-- With the histogram of some latencies and a rank among them, from 1 on, `percentile` returns the value
-- of the bucket in which the latency of that rank is: fewer than the rank are in the buckets before it,
-- and at least as many in these and it.
pub percentile-IsRanked :
    (h : LatencyHistogram) (ns : List ℕ) (target : ℕ)
    → IsHistogram h ns
    → length ns < u64_mod
    → 0 < target
    → target ≤ length ns
    → (value : ℕ) × (percentile h target ≡ done value) × IsRanked target ns value
unfolding percentile
percentile-IsRanked h ns target hist fits positive most =
    let some : (h.count == 0) ≡ false = ground (arith, hist.counted) in
    let (value, runs, ranked) =
      percentile_from-IsRanked 544 h ns target 0 hist fits (omega arith)
        (omega (arith, before-zero ns, positive)) most in
    (
      value,
      rw some (subst (λ k. percentile_from 544 h target 0 k ≡ done value) (before-zero ns) runs),
      ranked,
    )
