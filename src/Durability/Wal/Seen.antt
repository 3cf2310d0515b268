-- ===== src/Durability/Wal/Seen.antt =====
-- What the reading of a WAL's records (src/durability/wal.rs, `Pending::scan`) sees, said without the loop.
use trunkdb.Base.{
  ℕ, suc, ◌+◌, ◌*◌, ◌≤◌, ◌<◌, Bool, true, false, List, [], ◌∷◌, ◌++◌, ◌≡◌, refl, ap, ◌∙◌, length,
  All, length-append, append_assoc, append-nil, ◌==◌, if◌then◌else◌, Bytes, arith,
}
use trunkdb.Durability.Wal.Defs.{PageImage, page_entry_len, encode_record}
use trunkdb.Durability.Wal.ReadBack.{IsRecord, length-encode_record}
use trunkdb.Durability.Wal.Scan.{Seen, see_pages, close_batch, encode_records}
use trunkdb.Storage.Page.{header_page}

-- A record's pages, and whether its batch goes on.
abbrev pub Part : Type 0
Part = List PageImage × Bool

abbrev pub IsPart : Part → Type 0
IsPart (images, more) = IsRecord images

-- A batch: `MORE` in all records but the last.
abbrev pub IsBatch : List Part → Type 0
IsBatch [] = ⊥
IsBatch ((images, more) ∷ []) = more ≡ false
IsBatch ((images, more) ∷ part ∷ parts) = (more ≡ true) × IsBatch (part ∷ parts)

-- Nothing, or batches one behind the other.
abbrev pub EndsWhole : List Part → Type 0
EndsWhole [] = Unit {0}
EndsWhole ((images, more) ∷ []) = more ≡ false
EndsWhole (part ∷ part' ∷ parts) = EndsWhole (part' ∷ parts)

abbrev pub images_of : List Part → List PageImage
images_of [] = []
images_of ((images, more) ∷ parts) = images ++ images_of parts

abbrev pub ids_of : List PageImage → List ℕ
ids_of [] = []
ids_of ((id, page) ∷ images) = id ∷ ids_of images

-- The header page's images, each with its place.
abbrev pub headers_of : ℕ → List PageImage → List (ℕ × Bytes)
headers_of at [] = []
headers_of at ((id, page) ∷ images) =
    if id == header_page
    then (at, page) ∷ headers_of (suc at) images
    else headers_of (suc at) images

unfoldable pub see_parts : List Part → ℕ → Seen → Seen
see_parts [] offset s = s
see_parts ((images, more) ∷ parts) offset s =
    let offset' = offset + (16 + length images * page_entry_len) in
    see_parts parts offset' (close_batch more offset' (see_pages images s))

pub length-ids_of : (images : List PageImage) → length (ids_of images) ≡ length images
length-ids_of [] = refl
length-ids_of ((id, page) ∷ images) = ap suc (length-ids_of images)

pub headers_of_behind :
    (at low : ℕ) (images : List PageImage)
    → low ≤ at
    → All (λ (h : ℕ × Bytes). low ≤ h.0) (headers_of at images)
headers_of_behind at low [] h = tt
headers_of_behind at low ((id, page) ∷ images) h =
    let rest = headers_of_behind (suc at) low images (omega arith) in
    elim (id == header_page)
      as (λ b.
        All (λ (h : ℕ × Bytes). low ≤ h.0)
          (if b then (at, page) ∷ headers_of (suc at) images else headers_of (suc at) images)) [
            | true ↦ (h, rest)
            | false ↦ rest
          ]

pub headers_of_before :
    (at : ℕ) (images : List PageImage)
    → All (λ (h : ℕ × Bytes). h.0 < at + length images) (headers_of at images)
headers_of_before at [] = tt
headers_of_before at ((id, page) ∷ images) =
    let rest : All (λ (h : ℕ × Bytes). h.0 < at + suc (length images))
        (headers_of (suc at) images) =
      rw sums (headers_of_before (suc at) images) in
    elim (id == header_page)
      as (λ b.
        All (λ (h : ℕ × Bytes). h.0 < at + suc (length images))
          (if b then (at, page) ∷ headers_of (suc at) images else headers_of (suc at) images)) [
            | true ↦ (omega arith, rest)
            | false ↦ rest
          ]
  where
    sums : at + suc (length images) ≡ suc at + length images
    sums = omega arith

headers_of-append :
    (at : ℕ) (a b : List PageImage)
    → headers_of at (a ++ b) ≡ headers_of at a ++ headers_of (at + length a) b
headers_of-append at [] b = ap (λ n. headers_of n b) (omega arith)
headers_of-append at ((id, page) ∷ a) b' =
    let sums : at + suc (length a) ≡ suc at + length a = omega arith in
    let rest : headers_of (suc at) (a ++ b')
        ≡ headers_of (suc at) a ++ headers_of (at + suc (length a)) b' =
      rw sums (headers_of-append (suc at) a b') in
    elim (id == header_page)
      as (λ b.
        (if b then (at, page) ∷ headers_of (suc at) (a ++ b') else headers_of (suc at) (a ++ b'))
        ≡ (if b then (at, page) ∷ headers_of (suc at) a else headers_of (suc at) a)
          ++ headers_of (at + suc (length a)) b') [ true ↦ ap (◌∷◌ (at, page)) rest | false ↦ rest ]

-- The images seen are put behind the others.
see_pages_lem :
    (images : List PageImage) (s : Seen)
    → see_pages images s ≡ record s {
      ids = s.ids ++ ids_of images;
      headers = s.headers ++ headers_of (length s.ids) images;
    }
unfolding see_pages
see_pages_lem [] s = rw (append-nil s.ids, append-nil s.headers) refl
see_pages_lem ((id, page) ∷ images) s =
    let longer : length (s.ids ++ (id ∷ [])) ≡ suc (length s.ids) =
      omega (arith, length-append s.ids (id ∷ [])) in
    elim (id == header_page)
      as (λ b.
        see_pages images (record s {
          headers = if b then s.headers ++ ((length s.ids, page) ∷ []) else s.headers;
          ids = s.ids ++ (id ∷ []);
        })
        ≡ record s {
          ids = s.ids ++ (id ∷ ids_of images);
          headers =
              s.headers
              ++ (if b
                  then (length s.ids, page) ∷ headers_of (suc (length s.ids)) images
                  else headers_of (suc (length s.ids)) images);
        }) [
          | true ↦
              rw
                (
                  see_pages_lem images (record s {
                    headers = s.headers ++ ((length s.ids, page) ∷ []);
                    ids = s.ids ++ (id ∷ []);
                  }),
                  longer,
                  append_assoc s.ids (id ∷ []) (ids_of images),
                  append_assoc s.headers ((length s.ids, page) ∷ [])
                      (headers_of (suc (length s.ids)) images),
                )
                refl
          | false ↦
              rw
                (
                  see_pages_lem images (record s { ids = s.ids ++ (id ∷ []) }),
                  longer,
                  append_assoc s.ids (id ∷ []) (ids_of images),
                )
                refl
        ]

-- `s` with more images seen.
abbrev pub with_images : Seen → List PageImage → Seen
with_images s images = record s {
  ids = s.ids ++ ids_of images;
  headers = s.headers ++ headers_of (length s.ids) images;
}

ids_of-append : (a b : List PageImage) → ids_of (a ++ b) ≡ ids_of a ++ ids_of b
ids_of-append [] b = refl
ids_of-append ((id, page) ∷ a) b = ap (◌∷◌ id) (ids_of-append a b)

pub with_images-append :
    (s : Seen) (a b : List PageImage) → with_images (with_images s a) b ≡ with_images s (a ++ b)
with_images-append s a b =
    let longer : length (s.ids ++ ids_of a) ≡ length s.ids + length a =
      length-append s.ids (ids_of a) ∙ ap (◌+◌ (length s.ids)) (length-ids_of a) in
    rw (longer, ids_of-append, headers_of-append, append_assoc s.ids, append_assoc s.headers) refl

pub see_more :
    (a b : List PageImage) (s : Seen) → with_images (see_pages a s) b ≡ with_images s (a ++ b)
see_more a b s = ap (λ seen. with_images seen b) (see_pages_lem a s) ∙ with_images-append s a b

abbrev pub closed : ℕ → Seen → Seen
closed offset s = record s { whole = length s.ids; end = offset }

-- Closing a batch in between changes nothing of what is closed later.
closed-close_batch :
    (more : Bool) (at offset : ℕ) (s : Seen) (images : List PageImage)
    → closed offset (with_images (close_batch more at s) images)
      ≡ closed offset (with_images s images)
unfolding close_batch
closed-close_batch true at offset s images = refl
closed-close_batch false at offset s images = refl

-- Records of which the last ends a batch: all the images are seen, and nothing of a batch is open.
pub see_parts_whole :
    (part : Part) (parts : List Part) (offset : ℕ) (s : Seen)
    → All IsPart (part ∷ parts)
    → EndsWhole (part ∷ parts)
    → see_parts (part ∷ parts) offset s
      ≡ closed
          (offset + length (encode_records (part ∷ parts)))
          (with_images s (images_of (part ∷ parts)))
unfolding see_parts encode_records close_batch
see_parts_whole (images, more) [] offset s h w =
    let size : offset + (16 + length images * page_entry_len)
        ≡ offset + length (encode_record images more ++ []) =
      omega (
        arith,
        length-append (encode_record images more) [],
        length-encode_record images more h.0.0,
      ) in
    rw (size, w, see_pages_lem images s, append-nil images) refl
see_parts_whole (images, more) (part ∷ parts) offset s h w =
    let offset' = offset + (16 + length images * page_entry_len) in
    let size : offset' + length (encode_records (part ∷ parts))
        ≡ offset + length (encode_record images more ++ encode_records (part ∷ parts)) =
      omega (
        arith,
        length-append (encode_record images more) (encode_records (part ∷ parts)),
        length-encode_record images more h.0.0,
      ) in
    see_parts_whole part parts offset' (close_batch more offset' (see_pages images s)) h.1 w
    ∙ closed-close_batch more offset' (offset' + length (encode_records (part ∷ parts)))
        (see_pages images s) (images_of (part ∷ parts))
    ∙ ap (λ n. closed n (with_images (see_pages images s) (images_of (part ∷ parts)))) size
    ∙ ap (closed (offset + length (encode_record images more ++ encode_records (part ∷ parts))))
        (see_more images (images_of (part ∷ parts)) s)
