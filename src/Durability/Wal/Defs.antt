-- ===== src/Durability/Wal/Defs.antt =====
-- src/durability/wal.rs: how a WAL is written and its records are read. A file is its bytes.
use trunkdb.Base.{
  ℕ, zero, suc, ◌+◌, ◌-◌, ◌*◌, ◌/◌, Bool, true, false, not, ◌||◌, Option, none, some, List, [], ◌∷◌,
  ◌++◌, length, take, drop, ltb, ◌==◌, if◌then◌else◌, Bytes,
}
use trunkdb.Base.ByteString.{to_le, from_le, eq_bytes}
use trunkdb.Crc32.{crc32}
use trunkdb.Storage.Page.{page_size, usable_page_size}

-- "TRUNKWAL"
abbrev pub wal_magic : Bytes
wal_magic = b'T' ∷ b'R' ∷ b'U' ∷ b'N' ∷ b'K' ∷ b'W' ∷ b'A' ∷ b'L' ∷ []

abbrev pub wal_version : ℕ
wal_version = 3

abbrev pub wal_version_without_flags : ℕ
wal_version_without_flags = 2

abbrev pub wal_header_len : ℕ
wal_header_len = 12

abbrev pub page_entry_len : ℕ
page_entry_len = 8 + usable_page_size

-- 32 MiB of pages.
abbrev pub record_pages_limit : ℕ
record_pages_limit = 33_554_432 / page_size

pub data WalError : Type 0 where
  wal_not_trunkdb unexpected_eof corrupt old_version_held io_failed : WalError
  handed_out_fewer handed_out_more : WalError
  wal_version_found : ℕ → WalError

pub data Result {ℓ} (A : Type ℓ) : Type ℓ where
  ok : A → Result A
  err : WalError → Result A

infixl 5 ◌>>=◌ ◌>>◌
abbrev pub ◌>>=◌ {ℓ κ} : {A : Type ℓ} {B : Type κ} → Result A → (A → Result B) → Result B
ok a >>= f = f a
err e >>= f = err e

abbrev pub ◌>>◌ {κ} : {B : Type κ} → Result (Unit {0}) → Result B → Result B
m >> k = m >>= λ _. k

abbrev pub ensure : Bool → WalError → Result (Unit {0})
ensure true e = ok tt
ensure false e = err e

-- A page's id and its bytes.
abbrev pub PageImage : Type 0
PageImage = ℕ × Bytes

unfoldable pub encode_header : Bytes
encode_header = wal_magic ++ to_le 4 wal_version

unfoldable pub encode_entries : List PageImage → Bytes
encode_entries [] = []
encode_entries ((id, page) ∷ pages) = to_le 8 id ++ (page ++ encode_entries pages)

unfoldable pub encode_body : List PageImage → Bool → Bytes
unfolding encode_entries
encode_body pages more =
    to_le 4 (length pages) ++ (to_le 4 (if more then 1 else 0) ++ encode_entries pages)

-- What `encode_record_into` appends: the body's length and CRC, and the body. Its assertions are
-- that pages are whole and that the length fits 32 bits.
unfoldable pub encode_record : List PageImage → Bool → Bytes
unfolding encode_body
encode_record pages more =
    let body = encode_body pages more in
    to_le 4 (8 + length pages * page_entry_len) ++ (to_le 4 (crc32 body) ++ body)

-- Records in the reading: what is left of the input, and how many bytes of the WAL of that.
pub record Records : Type 0 where
  pub input : Bytes
  pub version : ℕ
  pub left : ℕ
  pub offset : ℕ

pub record Record : Type 0 where
  pub more : Bool
  pub entries : Bytes

abbrev pub read_u32 : Bytes → ℕ
read_u32 bytes = from_le (take 4 bytes)

-- `read_exact` of `n` bytes: those, and the input behind them.
unfoldable pub read_exact : ℕ → Bytes → Result (Bytes × Bytes)
read_exact n input =
    if ltb (length input) n then err unexpected_eof else ok (take n input, drop n input)

unfoldable pub known_version : ℕ → Bool
known_version v = v == wal_version || v == wal_version_without_flags

-- `Records::new`: `none` for a WAL shorter than its header.
unfoldable pub open_records : Bytes → ℕ → Result (Option Records)
unfolding read_exact known_version
open_records input len = if ltb len wal_header_len then ok none else do
  (header, rest) ← read_exact wal_header_len input
  ensure (eq_bytes (take 8 header) wal_magic) wal_not_trunkdb
  let version = read_u32 (drop 8 header)
  ensure (known_version version) (wal_version_found version)
  ok (
      some (record {
        input = rest;
        version = version;
        left = len - wal_header_len;
        offset = wal_header_len;
      }))

abbrev pub flags_len : ℕ → ℕ
flags_len version = if version == wal_version then 4 else 0

-- A body whose CRC is right, taken apart.
unfoldable pub decode_body : ℕ → Bytes → Result Record
decode_body version body =
    let count = read_u32 body in
    let flags = if version == wal_version then read_u32 (drop 4 body) else 0 in
    let entries = drop (4 + flags_len version) body in
    do
      ensure (not (ltb (length body) (4 + flags_len version))) corrupt
      ensure (ltb flags 2) corrupt
      ensure (length entries == count * page_entry_len) corrupt
      ok (record { more = flags == 1; entries = entries })

-- The body that was read, its CRC compared; `after` is the reading behind it.
unfoldable pub checked_body : ℕ → Bytes → Records → Result (Option (Record × Records))
unfolding decode_body
checked_body checksum body after =
    if not (crc32 body == checksum)
    then (if after.left == 0 then ok none else err corrupt)
    else (decode_body after.version body >>= λ found. ok (some (found, after)))

-- `left` is what is left behind the prefix, `behind` the input there.
unfoldable pub read_body : ℕ → ℕ → ℕ → Bytes → Records → Result (Option (Record × Records))
unfolding read_exact checked_body
read_body body_len checksum left behind r = if ltb left body_len then ok none else do
  (body, rest) ← read_exact body_len behind
  checked_body checksum body
      (record r { input = rest; left = left - body_len; offset = r.offset + (8 + body_len) })

-- `Records::next`: the next record and the reading behind it, or `none` at the end or at a torn tail.
unfoldable pub next_record : Records → Result (Option (Record × Records))
unfolding read_exact read_body
next_record r = if ltb r.left 8 then ok none else do
  (prefix, behind) ← read_exact 8 r.input
  read_body (read_u32 prefix) (read_u32 (drop 4 prefix)) (r.left - 8) behind r

-- `as_chunks` over the entries.
unfoldable pub entry_list : ℕ → Bytes → List PageImage
entry_list zero bytes = []
entry_list (suc n) bytes =
    let entry = take page_entry_len bytes in
    (from_le (take 8 entry), drop 8 entry) ∷ entry_list n (drop page_entry_len bytes)

unfoldable pub record_pages : Record → List PageImage
unfolding entry_list
record_pages r = entry_list (length r.entries / page_entry_len) r.entries
