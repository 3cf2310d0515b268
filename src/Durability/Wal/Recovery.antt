-- ===== src/Durability/Wal/Recovery.antt =====
-- `Pending::scan` and `Pending::pages` of src/durability/wal.rs on a whole file.
use trunkdb.Base.{
  ℕ, suc, ◌+◌, ◌-◌, ◌≤◌, ◌<◌, true, false, some, List, [], ◌∷◌, ◌++◌, ◌≡◌, refl, ap, ◌∙◌, sym,
  length, take, All, length-append, length-take, take-length_append, drop-length_append, ltb, Bytes,
  arith,
}
use trunkdb.Base.ByteString.{to_le, from_le, eq_bytes}
use trunkdb.Durability.Wal.Defs.{
  ok, ◌>>=◌, PageImage, Records, encode_record, open_records, encode_header, wal_header_len,
  read_exact, known_version,
}
use trunkdb.Durability.Wal.Loop.{past, scan_loop-encode_records, scan_loop_torn}
use trunkdb.Durability.Wal.ReadBack.{length-encode_record}
use trunkdb.Durability.Wal.Scan.{
  Pending, Seen, scan_loop, scan, retain_headers, encode_records, drop_torn_batch,
}
use trunkdb.Durability.Wal.Seen.{
  Part, IsPart, IsBatch, EndsWhole, images_of, ids_of, headers_of, headers_of_before,
  headers_of_behind, with_images, closed, see_parts, see_parts_whole, length-ids_of,
}

-- A WAL of these records, and what is behind them.
abbrev pub wal_file : List Part → Bytes → Bytes
wal_file parts tail = encode_header ++ (encode_records parts ++ tail)

-- What is pending in a WAL of whole batches.
abbrev pub pending_of : Bytes → List Part → Pending
pending_of file parts = record {
  file = some file;
  end = wal_header_len + length (encode_records parts);
  ids = ids_of (images_of parts);
  headers = headers_of 0 (images_of parts);
}

header_size : length encode_header ≡ wal_header_len
unfolding encode_header to_le
header_size = refl

open_records-encode_header :
    (rest : Bytes) (n : ℕ)
    → open_records (encode_header ++ rest) (wal_header_len + n)
      ≡ ok (some (record { input = rest; version = 3; left = n; offset = wal_header_len }))
unfolding open_records encode_header from_le
open_records-encode_header rest n =
    let header = take-length_append wal_header_len encode_header rest header_size in
    let behind = drop-length_append wal_header_len encode_header rest header_size in
    let short : ltb (wal_header_len + n) wal_header_len ≡ false = ground arith in
    let enough : ltb (length (encode_header ++ rest)) wal_header_len ≡ false =
      ground (arith, length-append encode_header rest, header_size) in
    let left : wal_header_len + n - wal_header_len ≡ n = omega arith in
    unfold read_exact known_version to_le eq_bytes in rw (short, enough, left) refl

parts_bound : (parts : List Part) → All IsPart parts → length parts ≤ length (encode_records parts)
unfolding encode_records
parts_bound [] h = omega arith
parts_bound ((images, more) ∷ parts) h = omega (
  arith,
  length-append (encode_record images more) (encode_records parts),
  length-encode_record images more h.0.0,
  parts_bound parts h.1,
)

retain_headers_before :
    (whole : ℕ) (a b : List (ℕ × Bytes))
    → All (λ (h : ℕ × Bytes). h.0 < whole) a
    → All (λ (h : ℕ × Bytes). whole ≤ h.0) b
    → retain_headers whole (a ++ b) ≡ a
unfolding retain_headers
retain_headers_before whole [] [] h k = refl
retain_headers_before whole [] ((at, image) ∷ b) h k =
    let late : ltb at whole ≡ false = ground arith in
    rw late (retain_headers_before whole [] b h k.1)
retain_headers_before whole ((at, image) ∷ a) b h k =
    let early : ltb at whole ≡ true = ground arith in
    rw early (ap (◌∷◌ (at, image)) (retain_headers_before whole a b h.1 k))

abbrev start : Seen
start = record { ids = []; headers = []; whole = 0; end = wal_header_len }

see_parts_start :
    (parts : List Part)
    → All IsPart parts
    → EndsWhole parts
    → see_parts parts wal_header_len start
      ≡ closed
          (wal_header_len + length (encode_records parts))
          (with_images start (images_of parts))
unfolding see_parts encode_records
see_parts_start [] h w = refl
see_parts_start (part ∷ parts) h w =
    unfold see_parts in see_parts_whole part parts wal_header_len start h w

drop_torn_batch_lem :
    (file : Bytes) (parts : List Part) (images : List PageImage)
    → drop_torn_batch file (
        with_images
          (closed
            (wal_header_len + length (encode_records parts))
            (with_images start (images_of parts)))
          images)
      ≡ pending_of file parts
drop_torn_batch_lem file parts images =
    let all = images_of parts in
    let ids : take (length (ids_of all)) (ids_of all ++ ids_of images) ≡ ids_of all =
      take-length_append (length (ids_of all)) (ids_of all) (ids_of images) refl in
    let before : All (λ (h : ℕ × Bytes). h.0 < length (ids_of all)) (headers_of 0 all) =
      rw (length-ids_of, sym (sum all)) (headers_of_before 0 all) in
    let headers =
      retain_headers_before (length (ids_of all)) (headers_of 0 all)
        (headers_of (length (ids_of all)) images) before
        (headers_of_behind (length (ids_of all)) (length (ids_of all)) images (omega arith)) in
    rw (ids, headers) refl
  where
    sum : (all : List PageImage) → 0 + length all ≡ length all
    sum all = omega arith

-- Of a WAL that holds whole batches and then a batch cut at any byte, all in records of at most
-- `RECORD_PAGES` whole pages, `scan` finds exactly the whole batches: their page ids in log
-- order, the header page's images, and their end.
pub scan_cut :
    (parts batch : List Part) (k : ℕ)
    → All IsPart parts
    → EndsWhole parts
    → All IsPart batch
    → IsBatch batch
    → k < length (encode_records batch)
    → scan (wal_file parts (take k (encode_records batch)))
      ≡ ok (pending_of (wal_file parts (take k (encode_records batch))) parts, some 3)
unfolding scan
scan_cut parts batch k h w hb b short =
    let torn = take k (encode_records batch) in
    let len = length (encode_records parts) in
    let cut : length torn ≡ k = omega (arith, length-take k (encode_records batch), short) in
    let size : length (wal_file parts torn) ≡ wal_header_len + (len + k) = omega (
      arith,
      length-append encode_header (encode_records parts ++ torn),
      length-append (encode_records parts) torn,
      cut,
      header_size,
    ) in
    let r : Records = record {
      input = encode_records parts ++ torn;
      version = 3;
      left = len + k;
      offset = wal_header_len;
    } in
    let fuels : suc (len + k) ≡ length parts + (suc (len + k) - length parts) =
      omega (arith, parts_bound parts h) in
    let passed =
      scan_loop-encode_records parts r torn start (suc (len + k) - length parts) h refl refl
        (omega arith) in
    let end =
      scan_loop_torn batch k (suc (len + k) - length parts) (past parts r torn)
        (closed (wal_header_len + len) (with_images start (images_of parts))) b hb refl refl
        (omega arith) short (omega (arith, parts_bound parts h)) in
    rw (size, open_records-encode_header)
      (ap (λ m. m >>= λ s. ok (drop_torn_batch (wal_file parts torn) s, some 3))
          (ap (λ n. scan_loop n r start) fuels
            ∙ passed
            ∙ ap (scan_loop (suc (len + k) - length parts) (past parts r torn))
                (see_parts_start parts h w)
            ∙ end.scans)
        ∙ ap (λ p. ok (p, some 3)) (drop_torn_batch_lem (wal_file parts torn) parts end.images))
