-- ===== src/Tests/Wal.antt =====
-- src/durability/wal.rs at concrete inputs: WALs of a few pages, and a write that fails.
use trunkdb.Base.{
  ℕ, ◌<◌, true, false, some, List, [], ◌∷◌, ◌++◌, ◌≡◌, refl, length, take, replicate,
  length-replicate, length-append, Bytes, arith,
}
use trunkdb.Durability.Wal.Defs.{
  ok, err, io_failed, PageImage, Records, encode_record, encode_entries, next_record,
}
use trunkdb.Durability.Wal.Log.{
  done, failed, World, log_each, undo_failed_log, Source, on_file, next_pages, log_records,
  log_from,
}
use trunkdb.Durability.Wal.ReadBack.{
  IsRecord, length-encode_record, behind, next_record-encode_record,
}
use trunkdb.Durability.Wal.Recovery.{wal_file, pending_of, scan_cut}
use trunkdb.Durability.Wal.Scan.{scan, encode_records}
use trunkdb.Durability.Wal.Seen.{Part}
use trunkdb.Durability.Wal.Undo.{answering, undo_failed_log-log_each}

abbrev page : Bytes
page = replicate 8188 0

abbrev three : List PageImage
three = (3, page) ∷ []

three-IsRecord : IsRecord three
three-IsRecord = (((length-replicate {A = ℕ} 8188 0, omega arith), tt), omega arith)

abbrev logged : List Part
logged = (three, true) ∷ (three, false) ∷ []

abbrev torn : List Part
torn = (three, false) ∷ []

torn_long : 100 < length (encode_records torn)
unfolding encode_records
torn_long = omega (
  arith,
  length-append (encode_record three false) [],
  length-encode_record three false three-IsRecord.0,
)

scan_cut_example :
    scan (wal_file logged (take 100 (encode_records torn)))
    ≡ ok (pending_of (wal_file logged (take 100 (encode_records torn))) logged, some 3)
scan_cut_example =
    scan_cut logged torn 100 (three-IsRecord, (three-IsRecord, tt)) refl (three-IsRecord, tt) refl
      torn_long

abbrev reading : Records
reading = record {
  input = encode_record three true ++ (1 ∷ 2 ∷ []);
  version = 3;
  left = 8300;
  offset = 12;
}

next_record-encode_record_example :
    next_record reading
    ≡ ok (
        some (
          record { more = true; entries = encode_entries three },
          behind three reading (1 ∷ 2 ∷ []),
        ))
next_record-encode_record_example =
    next_record-encode_record three true reading (1 ∷ 2 ∷ []) three-IsRecord refl refl
      (omega (arith, length-encode_record three true three-IsRecord.0))

-- The write of the batch stops after five bytes.
abbrev failing : World
failing = record {
  wal = record { file = 7 ∷ 8 ∷ []; len = 2; record_pages = 1; appendable = true };
  script = done ∷ failed 5 ∷ done ∷ [];
}

abbrev two_pages : Source
two_pages = ok (3, 9 ∷ []) ∷ ok (4, 9 ∷ []) ∷ []

fails : (log_each 2 two_pages failing).0 ≡ err io_failed
unfolding log_each log_from log_records next_pages on_file
fails = refl

undo_failed_log-log_each_example :
    ((undo_failed_log (answering (log_each 2 two_pages failing).1)).0 ≡ ok tt)
    × ((undo_failed_log (answering (log_each 2 two_pages failing).1)).1.wal.file ≡ failing.wal.file)
    × ((undo_failed_log (answering (log_each 2 two_pages failing).1)).1.wal.len ≡ failing.wal.len)
undo_failed_log-log_each_example = undo_failed_log-log_each 2 two_pages failing io_failed refl fails
