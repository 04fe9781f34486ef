-- ===== src/Wal/Replay.antt =====
-- What was written is read, up to a last record that is cut off.
use ultra_low_latency_order.Prelude.{
  ℕ, zero, suc, ◌+◌, ◌<◌, ◌≡◌, refl, sym, ◌∙◌, ap, true, false, List, [], ◌∷◌, ◌++◌, none, some,
  ltb, ◌==◌, eq→==, add64, add64-lt, u64_mod, u32_mod, length, length_append, done, arith,
  Bool-cases, inl, inr,
}
use mathlib.Core.List.{append_assoc, append-nil}
use ultra_low_latency_order.Types.{Order}
use ultra_low_latency_order.Wal.Crc.{crc32}
use ultra_low_latency_order.Wal.Bytes.{
  read_word-u32, read_exact_append, read_exact_short, read_exact-cases, le_bytes, length-le_bytes,
}
use ultra_low_latency_order.Wal.Record.{
  WalRecordHeader, order_bytes, header_bytes, header_of, IsWords, IsHeaderWords,
  order_of-order_bytes, header_of-header_bytes, length-order_bytes, length-header_bytes,
}
use ultra_low_latency_order.Wal.Log.{
  WalWriter, file_header, wal_magic, wal_version, write_order, flush, fresh_writer, read_record,
  read_records, read_all, Recovered,
}

-- The record that `write_order` forms for the order `o` with the sequence number `k`.
abbrev pub entry_of : ℕ → Order → ℕ → WalRecordHeader
entry_of k o timestamp_ns = record {
  seq_id = k;
  timestamp_ns = timestamp_ns;
  payload_len = 48;
  crc32 = crc32 (order_bytes o);
}

unfoldable pub entries : ℕ → List (Order × ℕ) → List (WalRecordHeader × Order)
entries k [] = []
entries k ((o, ts) ∷ rs) = (entry_of k o ts, o) ∷ entries (add64 k 1) rs

unfoldable pub encode : List (WalRecordHeader × Order) → List ℕ
encode [] = []
encode ((h, o) ∷ es) = header_bytes h ++ (order_bytes o ++ encode es)

-- Orders and timestamps that are words.
unfoldable pub AllWords : List (Order × ℕ) → Type 0
AllWords [] = Unit
AllWords ((o, ts) ∷ rs) = IsWords o × (ts < u64_mod) × AllWords rs

unfoldable pub write_orders : WalWriter → List (Order × ℕ) → WalWriter
write_orders w [] = w
write_orders w ((o, ts) ∷ rs) = write_orders ((write_order w o ts).1) rs

crc32-lt : (bs : List ℕ) → crc32 bs < u32_mod
unfolding crc32
crc32-lt bs = omega arith

entry_of-IsHeaderWords :
    (k : ℕ) (o : Order) (ts : ℕ) → k < u64_mod → ts < u64_mod → IsHeaderWords (entry_of k o ts)
entry_of-IsHeaderWords k o ts hk ht = record {
  seq_fits = hk;
  timestamp_fits = ht;
  len_fits = omega arith;
  crc_fits = crc32-lt (order_bytes o);
}

-- What is left at a cut is shorter than a record.
read_record_torn : (tail : List ℕ) → length tail < 72 → read_record tail ≡ none
unfolding read_record
read_record_torn tail h = elim (read_exact-cases 24 tail) [
  | inl e ↦ rw e refl
  | inr (buf, rest, e, size) ↦ elim (Bool-cases ((header_of buf).payload_len == 48)) [
    | inl f ↦ rw (e, f, read_exact_short 48 rest (omega (arith, size, h))) refl
    | inr f ↦ rw (e, f) refl
  ]
]

read_record-entry :
    (k : ℕ) (o : Order) (ts : ℕ) (bs : List ℕ)
    → k < u64_mod
    → ts < u64_mod
    → IsWords o
    → read_record (header_bytes (entry_of k o ts) ++ (order_bytes o ++ bs))
      ≡ some ((entry_of k o ts, o), bs)
unfolding read_record
read_record-entry k o ts bs hk ht ho =
    let h : WalRecordHeader = entry_of k o ts in
    let same : (crc32 (order_bytes o) == crc32 (order_bytes o)) ≡ true = eq→== _ _ refl in
    rw
      (
        read_exact_append 24 (header_bytes h) (order_bytes o ++ bs) (length-header_bytes h),
        header_of-header_bytes h (entry_of-IsHeaderWords k o ts hk ht),
        read_exact_append 48 (order_bytes o) bs (length-order_bytes o),
        order_of-order_bytes o ho,
        same,
      )
      refl

read_records-encode :
    (fuel k : ℕ) (rs : List (Order × ℕ)) (tail : List ℕ)
    → length (encode (entries k rs)) < fuel
    → k < u64_mod
    → AllWords rs
    → length tail < 72
    → read_records fuel (encode (entries k rs) ++ tail) ≡ done (entries k rs)
unfolding read_records entries encode AllWords length
read_records-encode zero k rs tail enough hk words torn = absurd (omega (arith, enough))
read_records-encode (suc fuel) k [] tail enough hk words torn = rw (read_record_torn tail torn) refl
read_records-encode (suc fuel) k ((o, ts) ∷ rs) tail enough hk (ho, ht, words) torn =
    let h : List ℕ = header_bytes (entry_of k o ts) in
    let es : List ℕ = encode (entries (add64 k 1) rs) in
    let apart : (h ++ (order_bytes o ++ es)) ++ tail ≡ h ++ (order_bytes o ++ (es ++ tail)) =
      append_assoc h (order_bytes o ++ es) tail
      ∙ ap (λ (bs : List ℕ). h ++ bs) (append_assoc (order_bytes o) es tail) in
    let rest =
      read_records-encode fuel (add64 k 1) rs tail
        (omega (
          arith,
          enough,
          length_append h (order_bytes o ++ es),
          length_append (order_bytes o) es,
          length-order_bytes o,
        ))
        (add64-lt k 1) words torn in
    rw (apart, read_record-entry k o ts (es ++ tail) hk ht ho, rest) refl

pub write_orders-buffer :
    (w : WalWriter) (rs : List (Order × ℕ))
    → ((write_orders w rs).file ≡ w.file)
      × ((write_orders w rs).buffer ≡ w.buffer ++ encode (entries w.seq_counter rs))
unfolding write_orders write_order entries encode
write_orders-buffer w [] = (refl, sym (append-nil w.buffer))
write_orders-buffer w ((o, ts) ∷ rs) =
    let (same, more) = write_orders-buffer ((write_order w o ts).1) rs in
    let h : List ℕ = header_bytes (entry_of w.seq_counter o ts) in
    let es : List ℕ = encode (entries (add64 w.seq_counter 1) rs) in
    (
      same,
      more
          ∙ rw (length-order_bytes o) (
              append_assoc w.buffer (h ++ order_bytes o) es
              ∙ ap (λ (bs : List ℕ). w.buffer ++ bs) (append_assoc h (order_bytes o) es)),
    )

-- Let the orders `rs` and their timestamps be words and `tail` be shorter than a record. Of a new log
-- to which the orders were written and flushed, followed by `tail`, as a crash in the middle of a
-- write leaves it, `read_all` returns exactly the orders, in their order, under sequence numbers that
-- count on from 1.
pub read_all-write_orders :
    (rs : List (Order × ℕ)) (tail : List ℕ)
    → AllWords rs
    → length tail < 72
    → read_all ((flush (write_orders fresh_writer rs)).file ++ tail)
      ≡ done (Recovered.records (entries 1 rs))
unfolding read_all flush file_header
read_all-write_orders rs tail words torn =
    let (same, more) = write_orders-buffer fresh_writer rs in
    let es : List ℕ = encode (entries 1 rs) in
    let rest : List ℕ = es ++ tail in
    let v : List ℕ = le_bytes 4 wal_version in
    let m : List ℕ = le_bytes 4 wal_magic in
    let shape : ((write_orders fresh_writer rs).file ++ (write_orders fresh_writer rs).buffer)
          ++ tail
        ≡ m ++ (v ++ rest) =
      rw (same, more)
        (append_assoc (m ++ (v ++ [])) es tail
          ∙ append_assoc m (v ++ []) rest
          ∙ ap (λ (bs : List ℕ). m ++ bs) (append_assoc v [] rest)) in
    let size : length (m ++ (v ++ rest)) ≡ 8 + length rest = omega (
      arith,
      length_append m (v ++ rest),
      length_append v rest,
      length-le_bytes 4 wal_magic,
      length-le_bytes 4 wal_version,
    ) in
    let long : ltb (length (m ++ (v ++ rest))) 8 ≡ false = ground (arith, size) in
    let enough : length es < length (m ++ (v ++ rest)) + 1 =
      omega (arith, size, length_append es tail) in
    rw
      (
        shape,
        long,
        read_word-u32 wal_magic (v ++ rest) (omega arith),
        read_word-u32 wal_version rest (omega arith),
        read_records-encode _ 1 rs tail enough (omega arith) words torn,
      )
      refl
