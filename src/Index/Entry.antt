-- ===== src/Index/Entry.antt =====
-- The cells of index pages: src/index/leaf.rs and src/index/branch.rs. The decoders trust a cell to be
-- long enough, which the layout check of the page holds.
use trunkdb.Base.{
  ℕ, ◌+◌, ◌-◌, ◌<◌, ◌^◌, ◌++◌, ◌≡◌, refl, ap, ◌∙◌, sym, [], append-nil, length, take, drop,
  length-append, take-length_append, drop-length_append, Bytes, arith,
}
use trunkdb.Base.ByteString.{to_le, from_le, from_le-to_le, length-to_le}

pub record RecordLocation : Type 0 where
  pub page : ℕ
  pub slot : ℕ

-- A `u64` and a `u16`.
abbrev pub IsLocation : RecordLocation → Type 0
IsLocation loc = (loc.page < 2 ^ 64) × (loc.slot < 2 ^ 16)

unfoldable pub encode_index_entry : Bytes → RecordLocation → Bytes
encode_index_entry key location = key ++ (to_le 8 location.page ++ to_le 2 location.slot)

unfoldable pub decode_index_entry : Bytes → Bytes × RecordLocation
decode_index_entry bytes =
    let at = length bytes - 10 in
    let loc = drop at bytes in
    (take at bytes, record { page = from_le (take 8 loc); slot = from_le (take 2 (drop 8 loc)) })

unfoldable pub encode_branch_entry : Bytes → ℕ → Bytes
encode_branch_entry key child = key ++ to_le 8 child

unfoldable pub decode_branch_entry : Bytes → Bytes × ℕ
decode_branch_entry bytes =
    let at = length bytes - 8 in (take at bytes, from_le (take 8 (drop at bytes)))

pub length-encode_index_entry :
    (key : Bytes) (loc : RecordLocation) → length (encode_index_entry key loc) ≡ length key + 10
unfolding encode_index_entry
length-encode_index_entry key loc = omega (
  arith,
  length-append key (to_le 8 loc.page ++ to_le 2 loc.slot),
  length-append (to_le 8 loc.page) (to_le 2 loc.slot),
  length-to_le 8 loc.page,
  length-to_le 2 loc.slot,
)

pub length-encode_branch_entry :
    (key : Bytes) (child : ℕ) → length (encode_branch_entry key child) ≡ length key + 8
unfolding encode_branch_entry
length-encode_branch_entry key child =
    omega (arith, length-append key (to_le 8 child), length-to_le 8 child)

-- The key and the location of a leaf's cell are read back from it.
pub decode_index_entry-encode :
    (key : Bytes) (loc : RecordLocation)
    → IsLocation loc
    → decode_index_entry (encode_index_entry key loc) ≡ (key, loc)
unfolding decode_index_entry
decode_index_entry-encode key loc h =
    let page = to_le 8 loc.page in
    let slot = to_le 2 loc.slot in
    let at : length (encode_index_entry key loc) - 10 ≡ length key =
      omega (arith, length-encode_index_entry key loc) in
    rw at (
      unfold encode_index_entry in
      rw
        (
          take-length_append (length key) key (page ++ slot) refl,
          drop-length_append (length key) key (page ++ slot) refl,
          take-length_append 8 page slot (length-to_le 8 loc.page),
          drop-length_append 8 page slot (length-to_le 8 loc.page),
          from_le-to_le 8 loc.page h.0,
        )
        (ap (λ n. (key, record { page = loc.page; slot = n }))
          (ap (λ b. from_le (take 2 b)) (sym (append-nil slot))
            ∙ ap from_le (take-length_append 2 slot [] (length-to_le 2 loc.slot))
            ∙ from_le-to_le 2 loc.slot h.1)))

-- The key and the child of a branch's cell are read back from it.
pub decode_branch_entry-encode :
    (key : Bytes) (child : ℕ)
    → child < 2 ^ 64
    → decode_branch_entry (encode_branch_entry key child) ≡ (key, child)
unfolding decode_branch_entry
decode_branch_entry-encode key child h =
    let at : length (encode_branch_entry key child) - 8 ≡ length key =
      omega (arith, length-encode_branch_entry key child) in
    let last = to_le 8 child in
    rw at (
      unfold encode_branch_entry in
      rw
        (
          take-length_append (length key) key last refl,
          drop-length_append (length key) key last refl,
        )
        (ap (λ n. (key, n))
          (ap (λ b. from_le (take 8 b)) (sym (append-nil last))
            ∙ ap from_le (take-length_append 8 last [] (length-to_le 8 child))
            ∙ from_le-to_le 8 child h)))
