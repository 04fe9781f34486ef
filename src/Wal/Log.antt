-- ===== src/Wal/Log.antt =====
-- `WalWriter` and `WalReader::read_all`. The file is the list of its bytes; opening it, its length
-- and the errors of the operating system are not modelled.
use ultra_low_latency_order.Prelude.{
  ℕ, zero, suc, List, [], ◌∷◌, ◌++◌, Option, none, some, ltb, ◌==◌, not, ◌||◌, ◌+◌, if◌then◌else◌,
  add64, length, Exec, done, stalled, ◌>>=◌,
}
use ultra_low_latency_order.Types.{Order}
use ultra_low_latency_order.Wal.Crc.{crc32}
use ultra_low_latency_order.Wal.Bytes.{le_bytes, read_word, read_exact}
use ultra_low_latency_order.Wal.Record.{
  WalRecordHeader, order_bytes, order_of, header_bytes, header_of,
}

abbrev pub wal_magic : ℕ
wal_magic = 0x57414C31

abbrev pub wal_version : ℕ
wal_version = 1

-- `bytes_of(&WalFileHeader { magic, version })`
unfoldable pub file_header : List ℕ
file_header = le_bytes 4 wal_magic ++ (le_bytes 4 wal_version ++ [])

-- The bytes in the file, those in the buffer of the `BufWriter`, and the next sequence number. A
-- buffer that is full is written out early; the bytes and their order are the same.
pub record WalWriter : Type 0 where
  pub file : List ℕ
  pub buffer : List ℕ
  pub seq_counter : ℕ

-- `write_order`: the sequence number, and the writer.
unfoldable pub write_order : WalWriter → Order → ℕ → ℕ × WalWriter
write_order w o timestamp_ns =
    let payload = order_bytes o in
    let rec_header : WalRecordHeader = record {
      seq_id = w.seq_counter;
      timestamp_ns = timestamp_ns;
      payload_len = length payload;
      crc32 = crc32 payload;
    } in
    (
      w.seq_counter,
      record w {
        buffer = w.buffer ++ (header_bytes rec_header ++ payload);
        seq_counter = add64 w.seq_counter 1;
      },
    )

-- `flush`, and `sync`, which differ in what the operating system has made durable.
unfoldable pub flush : WalWriter → WalWriter
flush w = record w { file = w.file ++ w.buffer; buffer = [] }

abbrev pub Entry : Type 0
Entry = WalRecordHeader × Order

-- One round of the loop of `read_all`, in its three steps: the record that is read and the bytes
-- behind it, or none where the loop breaks.
unfoldable pub check_payload : WalRecordHeader → Option (List ℕ × List ℕ) → Option (Entry × List ℕ)
check_payload rec_header none = none
check_payload rec_header (some (order_buf, rest)) =
    if crc32 order_buf == rec_header.crc32
    then some ((rec_header, order_of order_buf), rest)
    else none

unfoldable pub read_payload : Option (List ℕ × List ℕ) → Option (Entry × List ℕ)
unfolding check_payload
read_payload none = none
read_payload (some (rec_header_buf, rest)) =
    if (header_of rec_header_buf).payload_len == 48
    then check_payload (header_of rec_header_buf) (read_exact 48 rest)
    else none

unfoldable pub read_record : List ℕ → Option (Entry × List ℕ)
unfolding read_payload
read_record bs = read_payload (read_exact 24 bs)

-- A round and what follows it.
unfoldable pub go_on : (List ℕ → Exec (List Entry)) → Option (Entry × List ℕ) → Exec (List Entry)
go_on loop none = done []
go_on loop (some (r, rest)) = loop rest >>= λ rs. done (r ∷ rs)

unfoldable pub read_records : ℕ → List ℕ → Exec (List Entry)
unfolding go_on
read_records zero bs = stalled
read_records (suc fuel) bs = go_on (read_records fuel) (read_record bs)

pub data WalError : Type 0 where
  too_small corrupt : WalError

pub data Recovered : Type 0 where
  records : List (WalRecordHeader × Order) → Recovered
  refused : WalError → Recovered

-- `read_all`
unfoldable pub read_all : List ℕ → Exec Recovered
read_all file =
    if ltb (length file) 8
    then done (Recovered.refused WalError.too_small)
    else let (magic, rest) = read_word 4 file in
      let (version, rest) = read_word 4 rest in
      if not (magic == wal_magic) || not (version == wal_version)
      then done (Recovered.refused WalError.corrupt)
      else (read_records (length file + 1) rest >>= λ rs. done (Recovered.records rs))

-- The last record of a list.
unfoldable pub last_seq : List (WalRecordHeader × Order) → Option ℕ
last_seq [] = none
last_seq ((h, o) ∷ []) = some h.seq_id
last_seq (r ∷ s ∷ rs) = last_seq (s ∷ rs)

unfoldable pub next_after : Option ℕ → ℕ
next_after none = 1
next_after (some seq_id) = add64 seq_id 1

-- The counter that `WalWriter::new` resumes with.
unfoldable pub next_seq : Recovered → ℕ
next_seq (Recovered.records rs) = next_after (last_seq rs)
next_seq (Recovered.refused _) = 1

-- The writer of a log without records.
abbrev pub fresh_writer : WalWriter
fresh_writer = record { file = file_header; buffer = []; seq_counter = 1 }

-- `WalWriter::new` on the bytes of the file, none if there is no file.
unfoldable pub new_writer : List ℕ → Exec WalWriter
new_writer [] = done fresh_writer
new_writer (b ∷ bs) = read_all (b ∷ bs) >>= λ found.
    done (record { file = b ∷ bs; buffer = []; seq_counter = next_seq found })
