-- ===== src/Durability/Wal/Log.antt =====
-- `WalDurability` of src/durability/wal.rs: writing to the WAL, taking a failed write back, and
-- cutting the WAL. What the file system answers is a script, of which every call uses one line up;
-- a call past its end succeeds. The tests' injected failures are not modelled.
use trunkdb.Base.{
  ℕ, zero, suc, ◌+◌, ◌-◌, ◌/◌, min, Bool, true, false, not, ◌&&◌, ◌||◌, Option, none, some, List,
  [], ◌∷◌, ◌++◌, length, take, replicate, ◌==◌, if◌then◌else◌, Bytes,
}
use trunkdb.Durability.Wal.Defs.{
  WalError, io_failed, old_version_held, handed_out_fewer, handed_out_more, Result, ok, err,
  PageImage, encode_header, encode_record, record_pages_limit, wal_version,
}
use trunkdb.Durability.Wal.Scan.{Pending, nothing, scan}

-- A call that fails may have written some of its bytes.
pub data Answer : Type 0 where
  done : Answer
  failed : ℕ → Answer

pub record Wal : Type 0 where
  pub file : Bytes
  pub len : ℕ
  pub record_pages : ℕ
  pub appendable : Bool

pub record World : Type 0 where
  pub wal : Wal
  pub script : List Answer

abbrev pub Action {ℓ} : Type ℓ → Type ℓ
Action A = World → Result A × World

infixl 5 ◌>>=◌ ◌>>◌
abbrev pub then_do {ℓ κ} :
    {A : Type ℓ} {B : Type κ} → Result A × World → (A → Action B) → Result B × World
then_do (ok a, w) k = k a w
then_do (err e, w) k = (err e, w)

abbrev pub ◌>>=◌ {ℓ κ} : {A : Type ℓ} {B : Type κ} → Action A → (A → Action B) → Action B
m >>= k = λ w. then_do (m w) k

abbrev pub ◌>>◌ {κ} : {B : Type κ} → Action (Unit {0}) → Action B → Action B
m >> k = m >>= λ _. k

abbrev pub give {ℓ} : {A : Type ℓ} → A → Action A
give a w = (ok a, w)

abbrev pub fail {ℓ} : {A : Type ℓ} → WalError → Action A
fail e w = (err e, w)

abbrev pub modify : (Wal → Wal) → Action (Unit {0})
modify f w = (ok tt, record w { wal = f w.wal })

abbrev pub lift {ℓ} : {A : Type ℓ} → Result A → Action A
lift m w = (m, w)

-- One call on the file: `all` is its effect, `some_bytes` that of a failed call.
abbrev pub answered :
    (Bytes → Bytes) → (ℕ → Bytes → Bytes) → Wal → List Answer → Result (Unit {0}) × World
answered all some_bytes wal [] =
    (ok tt, record { wal = record wal { file = all wal.file }; script = [] })
answered all some_bytes wal (done ∷ script) =
    (ok tt, record { wal = record wal { file = all wal.file }; script = script })
answered all some_bytes wal (failed n ∷ script) =
    (err io_failed, record { wal = record wal { file = some_bytes n wal.file }; script = script })

unfoldable pub on_file : (Bytes → Bytes) → (ℕ → Bytes → Bytes) → Action (Unit {0})
on_file all some_bytes w = answered all some_bytes w.wal w.script

-- `write_all` at the end of the file.
abbrev pub write_all : Bytes → Action (Unit {0})
write_all bytes = on_file (λ file. file ++ bytes) (λ n file. file ++ take n bytes)

-- `sync` and `seek`, which leave the bytes alone.
abbrev pub sync : Action (Unit {0})
sync = on_file (λ file. file) (λ n file. file)

abbrev pub seek : Action (Unit {0})
seek = on_file (λ file. file) (λ n file. file)

-- `set_len` cuts, or fills up with zeros.
abbrev pub resized : ℕ → Bytes → Bytes
resized n file = take n (file ++ replicate (n - length file) 0)

abbrev pub set_len : ℕ → Action (Unit {0})
set_len n = on_file (resized n) (λ m file. file)

-- The pages as they are handed out, each perhaps a failure.
abbrev pub Source : Type 0
Source = List (Result PageImage)

abbrev hand_page : PageImage → Result (List PageImage × Source) → Result (List PageImage × Source)
hand_page page (ok (pages, source)) = ok (page ∷ pages, source)
hand_page page (err e) = err e

-- The inner loop of `log_each`: the next `n` pages.
unfoldable pub next_pages : ℕ → Source → Result (List PageImage × Source)
next_pages zero source = ok ([], source)
next_pages (suc n) [] = err handed_out_fewer
next_pages (suc n) (err e ∷ source) = err e
next_pages (suc n) (ok page ∷ source) = hand_page page (next_pages n source)

abbrev pub sync_unless : Bool → Action (Unit {0})
sync_unless true = give tt
sync_unless false = sync

-- The loop of `log_each` over its records, `n` of them still to come for `count` pages; `buffer` is
-- what is in front of the first.
unfoldable pub log_records : ℕ → ℕ → ℕ → Bytes → ℕ → Source → Action (ℕ × Source)
unfolding next_pages on_file encode_record
log_records record_pages zero count buffer len source = give (len, source)
log_records record_pages (suc n) count buffer len source = do
  (pages, source') ← lift (next_pages (min count record_pages) source)
  let bytes = buffer ++ encode_record pages (not (n == 0))
  write_all bytes
  sync_unless (n == 0)
  log_records record_pages n (count - record_pages) [] (len + length bytes) source'

abbrev pub no_more : Source → Action (Unit {0})
no_more [] = give tt
no_more (page ∷ source) = fail handed_out_more

abbrev pub div_ceil : ℕ → ℕ → ℕ
div_ceil a b = (a + (b - 1)) / b

-- `log_each` behind its loop: the pages are all there, the last record is flushed, and the batch counts.
abbrev pub log_end : ℕ → ℕ × Source → Action (Unit {0})
log_end end (len, source) = do
  no_more source
  sync
  modify (λ wal. record wal { len = end + len; appendable = true })

-- The header goes in front of the first record of a file.
abbrev pub front : ℕ → Bytes
front end = if end == 0 then encode_header else []

-- `log_each` behind its guards, `end` the file's length.
unfoldable pub log_from : ℕ → ℕ → Source → Action (Unit {0})
unfolding log_records
log_from end count source w =
    let record_pages = w.wal.record_pages in
    (do
      modify (λ wal. record wal { len = min wal.len end })
      written ← log_records record_pages (div_ceil count record_pages) count (front end) 0 source
      log_end end written)
      w

abbrev pub log_guarded : ℕ → Source → Action (Unit {0})
log_guarded count source w =
    let end = length w.wal.file in
    if not (end == 0) && not w.wal.appendable
    then fail old_version_held w
    else log_from end count source w

unfoldable pub log_each : ℕ → Source → Action (Unit {0})
unfolding log_from on_file
log_each count source = if count == 0 then give tt else (do seek; log_guarded count source)

abbrev pub ok_all : List PageImage → Source
ok_all [] = []
ok_all (page ∷ pages) = ok page ∷ ok_all pages

unfoldable pub log : List PageImage → Action (Unit {0})
unfolding log_each
log pages = log_each (length pages) (ok_all pages)

unfoldable pub undo_failed_log : Action (Unit {0})
unfolding on_file
undo_failed_log w = (do set_len w.wal.len; seek; sync) w

unfoldable pub checkpoint : Action (Unit {0})
unfolding on_file
checkpoint = do set_len 0; modify (λ wal. record wal { len = 0; appendable = true }); seek; sync

-- `WalDurability::open` on the bytes that are in the file.
abbrev pub opened : Bytes → Pending × Option ℕ → Wal × Pending
opened file (pending, version) = (
  record {
    file = file;
    len = length file;
    record_pages = record_pages_limit;
    appendable = length file == 0 || is_current version;
  },
  pending,
)
  where
    is_current : Option ℕ → Bool
    is_current none = false
    is_current (some v) = v == wal_version

abbrev opened_result : Bytes → Result (Pending × Option ℕ) → Result (Wal × Pending)
opened_result file (ok found) = ok (opened file found)
opened_result file (err e) = err e

unfoldable pub open_wal : Bytes → Result (Wal × Pending)
unfolding scan
open_wal file = opened_result file (scan file)

-- `read_pending`, of a file that may not be there.
abbrev pending_result : Result (Pending × Option ℕ) → Result Pending
pending_result (ok (pending, version)) = ok pending
pending_result (err e) = err e

unfoldable pub read_pending : Option Bytes → Result Pending
unfolding scan
read_pending none = ok nothing
read_pending (some file) = pending_result (scan file)
