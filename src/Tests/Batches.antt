-- ===== src/Tests/Batches.antt =====
-- src/changes.rs for a batch that inserts, updates, deletes and drops.
use trunkdb.Base.{◌≤◌, ◌≡◌, refl, some, List, [], ◌∷◌, Bytes}
use trunkdb.Base.ByteString.{eq_bytes}
use trunkdb.Changes.Defs.{WriteOp, ChangeLog, empty_log, finish}
use trunkdb.Changes.Replay.{reports, finish-log_steps}
use trunkdb.Changes.Steps.{
  Present, Step, wrote, dropping, effect, effects, IsApplied, log_steps, replay,
}
use trunkdb.Document.{null}

abbrev tasks : Bytes
tasks = 116 ∷ []

abbrev notes : Bytes
notes = 110 ∷ []

-- The first document of the tasks is there, and nothing else.
abbrev one_there : Present
one_there c d = eq_bytes d (1 ∷ [])

abbrev some_steps : List Step
some_steps =
    wrote (WriteOp.insert tasks (2 ∷ []) null)
    ∷ wrote (WriteOp.update tasks (1 ∷ []) null)
    ∷ wrote (WriteOp.delete tasks (2 ∷ []))
    ∷ wrote (WriteOp.insert notes (3 ∷ []) null)
    ∷ dropping tasks
    ∷ wrote (WriteOp.insert tasks (1 ∷ []) null)
    ∷ []

some_steps-IsApplied : IsApplied some_steps one_there
unfolding IsApplied effect eq_bytes
some_steps-IsApplied = (refl, (refl, (refl, (refl, (refl, tt)))))

finish-log_steps_example :
    (log : ChangeLog) × (log_steps some_steps empty_log ≡ some log)
    × ((c d : Bytes) → replay (finish log.entries) one_there c d ≡ effects some_steps one_there c d)
    × ((c d : Bytes) → reports c d (finish log.entries) ≤ 1)
finish-log_steps_example = finish-log_steps some_steps one_there some_steps-IsApplied
