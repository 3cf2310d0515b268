-- ===== src/Durability/Wal/Scan.antt =====
-- `Pending` of src/durability/wal.rs: what a WAL holds of batches that were never checkpointed.
use trunkdb.Base.{
  ℕ, zero, suc, ◌+◌, Bool, true, false, not, Option, none, some, List, [], ◌∷◌, ◌++◌, length, take,
  drop, ltb, ◌==◌, if◌then◌else◌, Bytes,
}
use trunkdb.Durability.Wal.Defs.{
  corrupt, Result, ok, ◌>>=◌, ◌>>◌, ensure, PageImage, encode_record, Records, Record, open_records,
  next_record, record_pages,
}
use trunkdb.Storage.Page.{header_page}

pub record Pending : Type 0 where
  pub file : Option Bytes
  pub end : ℕ
  pub ids : List ℕ
  pub headers : List (ℕ × Bytes)

abbrev pub nothing : Pending
nothing = record { file = none; end = 0; ids = []; headers = [] }

-- What `scan` keeps while it reads: `whole` and `end` say how much whole batches make up.
pub record Seen : Type 0 where
  pub ids : List ℕ
  pub headers : List (ℕ × Bytes)
  pub whole : ℕ
  pub end : ℕ

unfoldable pub see_pages : List PageImage → Seen → Seen
see_pages [] s = s
see_pages ((id, page) ∷ pages) s = see_pages pages (record s {
  headers = if id == header_page then s.headers ++ ((length s.ids, page) ∷ []) else s.headers;
  ids = s.ids ++ (id ∷ []);
})

-- The end of a batch is the end of its last record.
unfoldable pub close_batch : Bool → ℕ → Seen → Seen
close_batch true offset s = s
close_batch false offset s = record s { whole = length s.ids; end = offset }

-- The `while let` loop of `scan`. Every record takes bytes of the file, so that fuel above their
-- number is never used up.
abbrev pub scan_next :
    (Records → Seen → Result Seen) → Seen → Option (Record × Records) → Result Seen
scan_next go s none = ok s
scan_next go s (some (found, r)) =
    go r (close_batch found.more r.offset (see_pages (record_pages found) s))

unfoldable pub scan_loop : ℕ → Records → Seen → Result Seen
scan_loop zero r s = ok s
scan_loop (suc fuel) r s = next_record r >>= scan_next (scan_loop fuel) s

unfoldable pub retain_headers : ℕ → List (ℕ × Bytes) → List (ℕ × Bytes)
retain_headers whole [] = []
retain_headers whole ((at, image) ∷ headers) =
    if ltb at whole
    then (at, image) ∷ retain_headers whole headers
    else retain_headers whole headers

-- `ids.truncate(whole)` and `headers.retain`
abbrev pub drop_torn_batch : Bytes → Seen → Pending
drop_torn_batch file s = record {
  file = some file;
  end = s.end;
  ids = take s.whole s.ids;
  headers = retain_headers s.whole s.headers;
}

abbrev pub scan_records : Bytes → Option Records → Result (Pending × Option ℕ)
scan_records file none = ok (nothing, none)
scan_records file (some r) = do
  s ← scan_loop (suc r.left) r (record { ids = []; headers = []; whole = 0; end = r.offset })
  ok (drop_torn_batch file s, some r.version)

-- `Pending::scan`
unfoldable pub scan : Bytes → Result (Pending × Option ℕ)
unfolding scan_loop
scan file = open_records file (length file) >>= scan_records file

unfoldable pub is_empty : Pending → Bool
is_empty p = length p.ids == 0

unfoldable pub count : Pending → ℕ
count p = length p.ids

-- `Pending::outline`: every page's id, with the image where it is the header page's.
unfoldable pub outline_from : ℕ → List ℕ → List (ℕ × Bytes) → List (ℕ × Option Bytes)
outline_from at [] headers = []
outline_from at (id ∷ ids) [] = (id, none) ∷ outline_from (suc at) ids []
outline_from at (id ∷ ids) ((place, image) ∷ headers) =
    if place == at
    then (id, some image) ∷ outline_from (suc at) ids headers
    else (id, none) ∷ outline_from (suc at) ids ((place, image) ∷ headers)

unfoldable pub outline : Pending → List (ℕ × Option Bytes)
unfolding outline_from
outline p = outline_from 0 p.ids p.headers

-- `Pending::pages`, the callback `take` a function on a state of its own that may fail.
module _ {ℓ} {S : Type ℓ} (take_page : S → PageImage → Result S) where
  unfoldable pub hand_out : List PageImage → S → Result S
  hand_out [] s = ok s
  hand_out (page ∷ pages) s = take_page s page >>= λ s'. hand_out pages s'

  abbrev pub pages_next :
      (Records → S → ℕ → Result (S × ℕ)) → S → ℕ → Option (Record × Records) → Result (S × ℕ)
  pages_next go s taken none = ok (s, taken)
  pages_next go s taken (some (found, r)) =
      hand_out (record_pages found) s >>= λ s'. go r s' (taken + length (record_pages found))

  unfoldable pub pages_loop : ℕ → Records → S → ℕ → Result (S × ℕ)
  pages_loop zero r s taken = ok (s, taken)
  pages_loop (suc fuel) r s taken = next_record r >>= pages_next (pages_loop fuel) s taken

  abbrev pub pages_of : Option Records → S → Result (S × ℕ)
  pages_of none s = ok (s, 0)
  pages_of (some r) s = pages_loop (suc r.left) r s 0

  unfoldable pub pages_in : Option Bytes → Pending → S → Result S
  unfolding pages_loop
  pages_in none p s = ok s
  pages_in (some file) p s = do
    r ← open_records file p.end
    (s', taken) ← pages_of r s
    ensure (taken == length p.ids) corrupt
    ok s'

  unfoldable pub pages : Pending → S → Result S
  unfolding pages_in
  pages p s = pages_in p.file p s

-- A batch in records of at most `record_pages` pages, `n` of them: each with whether it goes on.
unfoldable pub chunk_records : ℕ → ℕ → List PageImage → List (List PageImage × Bool)
chunk_records record_pages zero images = []
chunk_records record_pages (suc n) images =
    (take record_pages images, not (n == 0))
    ∷ chunk_records record_pages n (drop record_pages images)

unfoldable pub encode_records : List (List PageImage × Bool) → Bytes
unfolding encode_record
encode_records [] = []
encode_records ((images, more) ∷ rest) = encode_record images more ++ encode_records rest
