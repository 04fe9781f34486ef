-- ===== src/Wal/Resume.antt =====
-- The sequence number that a log resumes with.
use ultra_low_latency_order.Prelude.{
  ℕ, ◌<◌, ◌≡◌, refl, ◌∙◌, ap, List, [], ◌∷◌, ◌++◌, length, length_append, arith, done,
}
use ultra_low_latency_order.Types.{Order}
use ultra_low_latency_order.Wal.Bytes.{le_bytes}
use ultra_low_latency_order.Wal.Log.{
  WalWriter, file_header, fresh_writer, write_order, flush, Recovered, last_seq, next_after,
  next_seq, new_writer, read_all,
}
use ultra_low_latency_order.Wal.Replay.{
  entries, AllWords, write_orders, write_orders-buffer, read_all-write_orders,
}

-- The number after the last record that a writer has written is its counter.
next_after-last_seq :
    (w : WalWriter) (r : Order × ℕ) (rs : List (Order × ℕ))
    → next_after (last_seq (entries w.seq_counter (r ∷ rs))) ≡ (write_orders w (r ∷ rs)).seq_counter
unfolding next_after last_seq entries write_orders write_order
next_after-last_seq w r [] = refl
next_after-last_seq w (o, ts) (s ∷ rs) = next_after-last_seq ((write_order w o ts).1) s rs

next_seq-entries :
    (rs : List (Order × ℕ))
    → next_seq (Recovered.records (entries 1 rs)) ≡ (write_orders fresh_writer rs).seq_counter
unfolding next_seq next_after last_seq entries write_orders
next_seq-entries [] = refl
next_seq-entries (r ∷ rs) = next_after-last_seq fresh_writer r rs

new_writer-read_all :
    (file : List ℕ) (found : Recovered)
    → 0 < length file
    → read_all file ≡ done found
    → new_writer file ≡ done (record { file = file; buffer = []; seq_counter = next_seq found })
unfolding new_writer length
new_writer-read_all [] found h e = absurd (omega (arith, h))
new_writer-read_all (b ∷ bs) found h e = rw e refl

-- What a writer of a new log leaves in the file, followed by anything, is not empty.
flushed_pos :
    (rs : List (Order × ℕ)) (tail : List ℕ)
    → 0 < length ((flush (write_orders fresh_writer rs)).file ++ tail)
unfolding flush file_header length le_bytes
flushed_pos rs tail =
    let w : WalWriter = write_orders fresh_writer rs in
    omega (
      arith,
      length_append (w.file ++ w.buffer) tail,
      length_append w.file w.buffer,
      ap (λ (bs : List ℕ). length bs) (write_orders-buffer fresh_writer rs).0,
    )

-- Let the orders `rs` and their timestamps be words and `tail` be shorter than a record. A writer that
-- is opened on a new log to which the orders were written and flushed, followed by `tail`, goes on with
-- the sequence number that the first writer would have used next.
pub new_writer-write_orders :
    (rs : List (Order × ℕ)) (tail : List ℕ)
    → AllWords rs
    → length tail < 72
    → new_writer ((flush (write_orders fresh_writer rs)).file ++ tail)
      ≡ done (record {
        file = (flush (write_orders fresh_writer rs)).file ++ tail;
        buffer = [];
        seq_counter = (write_orders fresh_writer rs).seq_counter;
      })
new_writer-write_orders rs tail words torn =
    let file : List ℕ = (flush (write_orders fresh_writer rs)).file ++ tail in
    new_writer-read_all file (Recovered.records (entries 1 rs)) (flushed_pos rs tail)
      (read_all-write_orders rs tail words torn)
    ∙ ap (λ k. done (record { file = file; buffer = []; seq_counter = k })) (next_seq-entries rs)
