-- ===== src/Changes/Defs.antt =====
-- `ChangeLog` of src/changes.rs and its operations. The hash map is a function; an index out of bounds
-- is `none`.
use trunkdb.Base.{
  ℕ, zero, suc, Bool, true, false, ◌&&◌, Option, none, some, List, [], ◌∷◌, ◌++◌, length,
  if◌then◌else◌, Bytes,
}
use trunkdb.Base.ByteString.{eq_bytes}
use trunkdb.Document.{Document}

-- `WriteOp` of src/txn/mod.rs: the collection, the document's id and the document.
pub data WriteOp : Type 0 where
  insert update : Bytes → Bytes → Document → WriteOp
  delete : Bytes → Bytes → WriteOp

pub data Change : Type 0 where
  inserted updated deleted : Bytes → Bytes → Change
  all_dropped : Bytes → Change

pub record Entry : Type 0 where
  pub collection : Bytes
  pub id : Option Bytes
  pub existed : Bool
  pub exists : Bool

pub record ChangeLog : Type 0 where
  pub entries : List Entry
  pub at : Bytes → Bytes → Option ℕ

unfoldable pub empty_log : ChangeLog
empty_log = record { entries = []; at = λ collection id. none }

abbrev pub collection_of : WriteOp → Bytes
collection_of (insert collection id document) = collection
collection_of (update collection id document) = collection
collection_of (delete collection id) = collection

abbrev pub id_of : WriteOp → Bytes
id_of (insert collection id document) = id
id_of (update collection id document) = id
id_of (delete collection id) = id

abbrev pub leaves : WriteOp → Bool
leaves (insert collection id document) = true
leaves (update collection id document) = true
leaves (delete collection id) = false

abbrev pub found_one : WriteOp → Bool
found_one (insert collection id document) = false
found_one (update collection id document) = true
found_one (delete collection id) = true

abbrev pub is_key : Bytes → Bytes → Bytes → Bytes → Bool
is_key collection id c d = eq_bytes collection c && eq_bytes id d

abbrev pub put_at : Bytes → Bytes → ℕ → (Bytes → Bytes → Option ℕ) → Bytes → Bytes → Option ℕ
put_at collection id i at c d = if is_key collection id c d then some i else at c d

-- `self.entries[at].exists = exists`
abbrev with_head : Entry → Option (List Entry) → Option (List Entry)
with_head e none = none
with_head e (some entries) = some (e ∷ entries)

unfoldable pub set_exists : ℕ → Bool → List Entry → Option (List Entry)
set_exists i v [] = none
set_exists zero v (e ∷ entries) = some (record e { exists = v } ∷ entries)
set_exists (suc i) v (e ∷ entries) = with_head e (set_exists i v entries)

abbrev pub new_entry : WriteOp → Entry
new_entry op = record {
  collection = collection_of op;
  id = some (id_of op);
  existed = found_one op;
  exists = leaves op;
}

abbrev log_with : ChangeLog → Option (List Entry) → Option ChangeLog
log_with log none = none
log_with log (some entries) = some (record log { entries = entries })

abbrev pub write_at : ChangeLog → WriteOp → Option ℕ → Option ChangeLog
write_at log op (some i) = log_with log (set_exists i (leaves op) log.entries)
write_at log op none = some (record {
  entries = log.entries ++ new_entry op ∷ [];
  at = put_at (collection_of op) (id_of op) (length log.entries) log.at;
})

unfoldable pub written : ChangeLog → WriteOp → Option ChangeLog
unfolding set_exists
written log op = write_at log op (log.at (collection_of op) (id_of op))

-- `self.entries.retain(…)`, and the index of what is left.
unfoldable pub retain_others : Bytes → List Entry → List Entry
retain_others collection [] = []
retain_others collection (e ∷ entries) =
    let rest = retain_others collection entries in
    if eq_bytes e.collection collection then rest else e ∷ rest

abbrev pub index_entry :
    ℕ → Bytes → Option Bytes → (Bytes → Bytes → Option ℕ) → Bytes → Bytes → Option ℕ
index_entry i collection none at = at
index_entry i collection (some id) at = put_at collection id i at

unfoldable pub index_entries :
    ℕ → List Entry → (Bytes → Bytes → Option ℕ) → Bytes → Bytes → Option ℕ
index_entries i [] at = at
index_entries i (e ∷ entries) at =
    index_entries (suc i) entries (index_entry i e.collection e.id at)

abbrev pub drop_entry : Bytes → Entry
drop_entry collection = record {
  collection = collection;
  id = none;
  existed = true;
  exists = false;
}

unfoldable pub dropped : ChangeLog → Bytes → ChangeLog
unfolding retain_others index_entries
dropped log collection =
    let kept = retain_others collection log.entries in
    record { entries = kept ++ drop_entry collection ∷ []; at = index_entries 0 kept (λ c d. none) }

abbrev pub change_of : Bytes → Option Bytes → Bool → Bool → Option Change
change_of collection none existed exists = some (all_dropped collection)
change_of collection (some id) false true = some (inserted collection id)
change_of collection (some id) true true = some (updated collection id)
change_of collection (some id) true false = some (deleted collection id)
change_of collection (some id) false false = none

abbrev pub put_change : Option Change → List Change → List Change
put_change none changes = changes
put_change (some change) changes = change ∷ changes

unfoldable pub finish : List Entry → List Change
finish [] = []
finish (e ∷ entries) = put_change (change_of e.collection e.id e.existed e.exists) (finish entries)
