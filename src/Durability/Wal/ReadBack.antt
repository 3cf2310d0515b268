-- ===== src/Durability/Wal/ReadBack.antt =====
-- A record of src/durability/wal.rs as it is written is what the reading finds, whatever is behind it.
use trunkdb.Base.{
  ℕ, ◌+◌, ◌-◌, ◌*◌, ◌/◌, ◌^◌, ◌≤◌, ◌<◌, Bool, true, false, some, List, [], ◌∷◌, ◌++◌, ◌≡◌, refl, ap,
  ◌∙◌, sym, length, take, drop, All, length-append, append_assoc, append-nil, take-length_append,
  drop-length_append, ltb, ◌==◌, if◌then◌else◌, Bytes, arith,
}
use trunkdb.Base.ByteString.{to_le, from_le, from_le-to_le, length-to_le}
use trunkdb.Crc32.{crc32}
use trunkdb.Durability.Wal.Defs.{
  ok, PageImage, Records, page_entry_len, encode_entries, encode_body, encode_record, decode_body,
  checked_body, read_body, next_record, read_exact, record_pages, entry_list, record_pages_limit,
}
use trunkdb.Storage.Page.{usable_page_size}

-- What the source asserts of a page image: a whole page, its id a `u64`.
abbrev pub IsImage : PageImage → Type 0
IsImage (id, page) = (length page ≡ usable_page_size) × (id < 2 ^ 64)

-- At most `RECORD_PAGES` pages.
abbrev pub IsRecord : List PageImage → Type 0
IsRecord images = All IsImage images × (length images ≤ record_pages_limit)

pub length-encode_entries :
    (images : List PageImage)
    → All IsImage images
    → length (encode_entries images) ≡ length images * page_entry_len
unfolding encode_entries
length-encode_entries [] h = refl
length-encode_entries ((id, page) ∷ images) h = omega (
  arith,
  length-append (to_le 8 id) (page ++ encode_entries images),
  length-append page (encode_entries images),
  length-to_le 8 id,
  length-encode_entries images h.1,
)

pub length-encode_body :
    (images : List PageImage) (more : Bool)
    → All IsImage images
    → length (encode_body images more) ≡ 8 + length images * page_entry_len
unfolding encode_body
length-encode_body images more h =
    let flag : ℕ = if more then 1 else 0 in
    omega (
      arith,
      length-append (to_le 4 (length images)) (to_le 4 flag ++ encode_entries images),
      length-append (to_le 4 flag) (encode_entries images),
      length-to_le 4 (length images),
      length-to_le 4 flag,
      length-encode_entries images h,
    )

pub length-encode_record :
    (images : List PageImage) (more : Bool)
    → All IsImage images
    → length (encode_record images more) ≡ 16 + length images * page_entry_len
unfolding encode_record
length-encode_record images more h =
    let body = encode_body images more in
    let n = 8 + length images * page_entry_len in
    omega (
      arith,
      length-append (to_le 4 n) (to_le 4 (crc32 body) ++ body),
      length-append (to_le 4 (crc32 body)) body,
      length-to_le 4 n,
      length-to_le 4 (crc32 body),
      length-encode_body images more h,
    )

-- Two fields and what is behind them.
module _ (a b rest : Bytes) (n m : ℕ) (a_len : length a ≡ n) (b_len : length b ≡ m) where
  pub take_fields : take (n + m) (a ++ (b ++ rest)) ≡ a ++ b
  take_fields =
      rw (← append_assoc a b rest)
        (take-length_append (n + m) (a ++ b) rest (omega (arith, length-append a b, a_len, b_len)))

  pub drop_fields : drop (n + m) (a ++ (b ++ rest)) ≡ rest
  drop_fields =
      rw (← append_assoc a b rest)
        (drop-length_append (n + m) (a ++ b) rest (omega (arith, length-append a b, a_len, b_len)))

pub entry_list-encode_entries :
    (images : List PageImage)
    → All IsImage images
    → entry_list (length images) (encode_entries images) ≡ images
unfolding entry_list encode_entries
entry_list-encode_entries [] h = refl
entry_list-encode_entries ((id, page) ∷ images) h = rw (
  take_fields (to_le 8 id) page (encode_entries images) 8 usable_page_size (length-to_le 8 id)
      h.0.0,
  drop_fields (to_le 8 id) page (encode_entries images) 8 usable_page_size (length-to_le 8 id)
      h.0.0,
  take-length_append 8 (to_le 8 id) page (length-to_le 8 id),
  drop-length_append 8 (to_le 8 id) page (length-to_le 8 id),
  from_le-to_le 8 id h.0.1,
  entry_list-encode_entries images h.1,
)

-- The body's fields are read back.
pub decode_body-encode_body :
    (images : List PageImage) (more : Bool)
    → IsRecord images
    → decode_body 3 (encode_body images more)
      ≡ ok (record { more = more; entries = encode_entries images })
unfolding decode_body encode_body
decode_body-encode_body images more h =
    let n = length images in
    let flag : ℕ = if more then 1 else 0 in
    let es = encode_entries images in
    let flag_small : flag < 2 = ground arith in
    let few : n < 2 ^ 32 = omega (arith, h.1) in
    let counted : from_le (take 4 (to_le 4 n ++ (to_le 4 flag ++ es))) ≡ n =
      ap from_le (take-length_append 4 (to_le 4 n) (to_le 4 flag ++ es) (length-to_le 4 n))
      ∙ from_le-to_le 4 n few in
    let flagged : from_le (take 4 (drop 4 (to_le 4 n ++ (to_le 4 flag ++ es)))) ≡ flag =
      ap (λ (b : Bytes). from_le (take 4 b))
        (drop-length_append 4 (to_le 4 n) (to_le 4 flag ++ es) (length-to_le 4 n))
      ∙ ap from_le (take-length_append 4 (to_le 4 flag) es (length-to_le 4 flag))
      ∙ from_le-to_le 4 flag (omega arith) in
    let rest : drop 8 (to_le 4 n ++ (to_le 4 flag ++ es)) ≡ es =
      drop_fields (to_le 4 n) (to_le 4 flag) es 4 4 (length-to_le 4 n) (length-to_le 4 flag) in
    let whole : length es ≡ n * page_entry_len = length-encode_entries images h.0 in
    let all : length (to_le 4 n ++ (to_le 4 flag ++ es)) ≡ 8 + n * page_entry_len =
      unfold encode_body in length-encode_body images more h.0 in
    let is_more : (flag == 1) ≡ more = ground arith in
    let fits : ltb (length (to_le 4 n ++ (to_le 4 flag ++ es))) 8 ≡ false = ground arith in
    let small : ltb flag 2 ≡ true = ground arith in
    let exact : (length es == n * page_entry_len) ≡ true = ground arith in
    rw (rest, counted, flagged, fits, small, exact, is_more) refl

pub record_pages-encode_entries :
    (images : List PageImage) (more : Bool)
    → All IsImage images
    → record_pages (record { more = more; entries = encode_entries images }) ≡ images
unfolding record_pages
record_pages-encode_entries images more h =
    let whole : length (encode_entries images) / page_entry_len ≡ length images =
      omega (arith, length-encode_entries images h) in
    rw whole (entry_list-encode_entries images h)

-- What the reading of a record leaves.
abbrev pub behind : List PageImage → Records → Bytes → Records
behind images r rest = record r {
  input = rest;
  left = r.left - (16 + length images * page_entry_len);
  offset = r.offset + (16 + length images * page_entry_len);
}

read_exact-append : (n : ℕ) (a b : Bytes) → length a ≡ n → read_exact n (a ++ b) ≡ ok (a, b)
unfolding read_exact
read_exact-append n a b h =
    let enough : ltb (length (a ++ b)) n ≡ false = ground (arith, length-append a b) in
    rw (enough, take-length_append n a b h, drop-length_append n a b h) refl

crc32_bound : (b : Bytes) → crc32 b < 256 ^ 4
unfolding crc32
crc32_bound b = omega arith

checked_body-encode_body :
    (images : List PageImage) (more : Bool) (after : Records)
    → IsRecord images
    → after.version ≡ 3
    → checked_body (crc32 (encode_body images more)) (encode_body images more) after
      ≡ ok (some (record { more = more; entries = encode_entries images }, after))
unfolding checked_body
checked_body-encode_body images more after h v =
    let same : (crc32 (encode_body images more) == crc32 (encode_body images more)) ≡ true =
      ground arith in
    rw (same, v, decode_body-encode_body images more h) refl

-- A record of at most `RECORD_PAGES` whole pages at the front of an input of the current version,
-- long enough to hold it, is what `next_record` returns, with its flag and its entries, and the
-- reading goes on right behind it.
pub next_record-encode_record :
    (images : List PageImage) (more : Bool) (r : Records) (rest : Bytes)
    → IsRecord images
    → r.version ≡ 3
    → r.input ≡ encode_record images more ++ rest
    → length (encode_record images more) ≤ r.left
    → next_record r
      ≡ ok (some (record { more = more; entries = encode_entries images }, behind images r rest))
unfolding next_record encode_record read_body
next_record-encode_record images more r rest h v e fits =
    let body = encode_body images more in
    let n = 8 + length images * page_entry_len in
    let len = to_le 4 n in
    let crc = to_le 4 (crc32 body) in
    let prefix : r.input ≡ (len ++ crc) ++ (body ++ rest) =
      e
      ∙ append_assoc len (crc ++ body) rest
      ∙ ap (◌++◌ len) (append_assoc crc body rest)
      ∙ sym (append_assoc len crc (body ++ rest)) in
    let eight : length (len ++ crc) ≡ 8 =
      omega (arith, length-append len crc, length-to_le 4 n, length-to_le 4 (crc32 body)) in
    let whole : 16 + length images * page_entry_len ≤ r.left =
      omega (arith, length-encode_record images more h.0, fits) in
    let first : from_le (take 4 (len ++ crc)) ≡ n =
      ap from_le (take-length_append 4 len crc (length-to_le 4 n))
      ∙ from_le-to_le 4 n (omega (arith, h.1)) in
    let second : from_le (take 4 (drop 4 (len ++ crc))) ≡ crc32 body =
      ap (λ (b : Bytes). from_le (take 4 b)) (drop-length_append 4 len crc (length-to_le 4 n))
      ∙ ap from_le (
          ap (take 4) (sym (append-nil crc))
          ∙ take-length_append 4 crc [] (length-to_le 4 (crc32 body)))
      ∙ from_le-to_le 4 (crc32 body) (crc32_bound body) in
    let long : ltb r.left 8 ≡ false = ground arith in
    let enough : ltb (r.left - 8) n ≡ false = ground arith in
    let left_after : r.left - 8 - n ≡ r.left - (16 + length images * page_entry_len) =
      omega arith in
    let offset_after : r.offset + (8 + n) ≡ r.offset + (16 + length images * page_entry_len) =
      omega arith in
    rw
      (
        long,
        prefix,
        read_exact-append 8 (len ++ crc) (body ++ rest) eight,
        first,
        second,
        enough,
        read_exact-append n body rest (length-encode_body images more h.0),
      )
      (rw (← left_after, ← offset_after)
        (unfold checked_body in
          checked_body-encode_body images more
            (record r { input = rest; left = r.left - 8 - n; offset = r.offset + (8 + n) }) h v))
