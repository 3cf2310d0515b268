-- ===== src/Changes/Steps.antt =====
-- src/changes.rs: the steps of a batch that are logged, what they leave, and what a report says.
use trunkdb.Base.{◌≡◌, Bool, true, false, Option, some, List, [], ◌∷◌, if◌then◌else◌, Bytes}
use trunkdb.Base.ByteString.{eq_bytes}
use trunkdb.Base.Options.{◌>>=◌}
use trunkdb.Changes.Defs.{
  WriteOp, Change, inserted, updated, deleted, all_dropped, ChangeLog, collection_of, id_of, leaves,
  found_one, is_key, written, dropped,
}

-- Which documents are there.
abbrev pub Present : Type 0
Present = Bytes → Bytes → Bool

-- What a batch does, and what it leaves.
pub data Step : Type 0 where
  wrote : WriteOp → Step
  dropping : Bytes → Step

unfoldable pub effect : Step → Present → Present
effect (wrote op) has c d = if is_key (collection_of op) (id_of op) c d then leaves op else has c d
effect (dropping collection) has c d = if eq_bytes collection c then false else has c d

unfoldable pub effects : List Step → Present → Present
effects [] has = has
effects (step ∷ steps) has = effects steps (effect step has)

-- Every write was applied: an insert where no document is, the others where one is.
unfoldable pub IsApplied : List Step → Present → Type 0
IsApplied [] has = Unit
IsApplied (wrote op ∷ steps) has =
    (has (collection_of op) (id_of op) ≡ found_one op) × IsApplied steps (effect (wrote op) has)
IsApplied (dropping collection ∷ steps) has = IsApplied steps (effect (dropping collection) has)

unfoldable pub log_steps : List Step → ChangeLog → Option ChangeLog
log_steps [] log = some log
log_steps (wrote op ∷ steps) log = written log op >>= log_steps steps
log_steps (dropping collection ∷ steps) log = log_steps steps (dropped log collection)

-- The changes reported, done one after the other.
unfoldable pub redo : Change → Present → Present
redo (inserted collection id) has c d = if is_key collection id c d then true else has c d
redo (updated collection id) has c d = has c d
redo (deleted collection id) has c d = if is_key collection id c d then false else has c d
redo (all_dropped collection) has c d = if eq_bytes collection c then false else has c d

unfoldable pub replay : List Change → Present → Present
replay [] has = has
replay (change ∷ changes) has = replay changes (redo change has)
