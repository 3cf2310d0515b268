-- ===== src/Changes/Replay.antt =====
-- src/changes.rs: what a batch reports, done again to what was there before.
use trunkdb.Base.{
  ℕ, ◌+◌, ◌≤◌, ◌≡◌, refl, ap, ◌∙◌, inl, inr, arith, Bool, true, false, Option, none, some,
  Bool-cases, List, [], ◌∷◌, All, if◌then◌else◌, Bytes,
}
use trunkdb.Changes.Defs.{
  Change, inserted, updated, deleted, all_dropped, Entry, ChangeLog, empty_log, is_key, change_of,
  put_change, finish,
}
use trunkdb.Changes.Agree.{log_steps-IsLog, empty_log-IsLog}
use trunkdb.Changes.Steps.{Present, Step, effects, IsApplied, log_steps, redo, replay}
use trunkdb.Changes.Entries.{is_own, concerns, own-concerns, after, value, IsSettled, IsTold}

-- An entry's change does what the entry says.
redone :
    (c d collection : Bytes) (id : Option Bytes) (existed exists : Bool) (has : Present)
    → (is_own c d (record { collection = collection; id = id; existed = existed; exists = exists })
          ≡ true
        → existed ≡ has c d)
    → (id ≡ none → exists ≡ false)
    → replay (put_change (change_of collection id existed exists) []) has c d
      ≡ after c d
          (record { collection = collection; id = id; existed = existed; exists = exists })
          (has c d)
unfolding replay redo
redone c d collection none existed true has told drop = absurd (ground (arith, drop refl))
redone c d collection none existed false has told drop = ground arith
redone c d collection (some id) false true has told drop = refl
redone c d collection (some id) true true has told drop = ground (arith, told)
redone c d collection (some id) true false has told drop = refl
redone c d collection (some id) false false has told drop = ground (arith, told)

replay-put :
    (change : Option Change) (changes : List Change) (has : Present) (c d : Bytes)
    → replay (put_change change changes) has c d
      ≡ replay changes (replay (put_change change []) has) c d
unfolding replay
replay-put none changes has c d = refl
replay-put (some change) changes has c d = refl

replay-finish :
    (c d : Bytes) (es : List Entry) (has : Present)
    → IsTold c d es (has c d)
    → replay (finish es) has c d ≡ value c d es (has c d)
unfolding finish value
replay-finish c d [] has told = unfold replay in refl
replay-finish c d (e ∷ es) has (told, drop, rest) =
    let here = redone c d e.collection e.id e.existed e.exists has told drop in
    let redone_has = replay (put_change (change_of e.collection e.id e.existed e.exists) []) has in
    replay-put (change_of e.collection e.id e.existed e.exists) (finish es) has c d
    ∙ replay-finish c d es redone_has (rw here rest)
    ∙ ap (value c d es) here

-- A document's own changes.
unfoldable pub reports : Bytes → Bytes → List Change → ℕ
reports c d [] = 0
reports c d (inserted collection id ∷ changes) =
    (if is_key collection id c d then 1 else 0) + reports c d changes
reports c d (updated collection id ∷ changes) =
    (if is_key collection id c d then 1 else 0) + reports c d changes
reports c d (deleted collection id ∷ changes) =
    (if is_key collection id c d then 1 else 0) + reports c d changes
reports c d (all_dropped collection ∷ changes) = reports c d changes

reports-put :
    (c d collection : Bytes) (id : Option Bytes) (existed exists : Bool) (changes : List Change)
    → reports c d (put_change (change_of collection id existed exists) changes)
      ≤ (if is_own c d
            (record { collection = collection; id = id; existed = existed; exists = exists })
          then 1
          else 0)
        + reports c d changes
unfolding reports
reports-put c d collection none existed exists changes = omega arith
reports-put c d collection (some id) false true changes = omega arith
reports-put c d collection (some id) true true changes = omega arith
reports-put c d collection (some id) true false changes = omega arith
reports-put c d collection (some id) false false changes = omega arith

reports-none :
    (c d : Bytes) (es : List Entry)
    → All (λ f. concerns c d f ≡ false) es
    → reports c d (finish es) ≡ 0
unfolding finish
reports-none c d [] h = unfold reports in refl
reports-none c d (e ∷ es) (h, hs) = grind (
  arith,
  reports-put c d e.collection e.id e.existed e.exists (finish es),
  own-concerns c d e h,
  reports-none c d es hs,
)

reports-once : (c d : Bytes) (es : List Entry) → IsSettled c d es → reports c d (finish es) ≤ 1
unfolding finish
reports-once c d [] h = unfold reports in omega arith
reports-once c d (e ∷ es) (own, h) =
    let here = reports-put c d e.collection e.id e.existed e.exists (finish es) in
    elim (Bool-cases (is_own c d e)) [
      | inl o ↦ let none_more = reports-none c d es (own o) in ground (arith, here, o, none_more)
      | inr o ↦ ground (arith, here, o, reports-once c d es h)
    ]

-- A batch whose inserts found no document, whose updates and deletes found one, and which may
-- drop collections in between, is logged without a panic; what `finish` then reports, done again
-- in its order to the documents that were there before the batch, leaves those that are there
-- after it, and names no document twice.
pub finish-log_steps :
    (steps : List Step) (before : Present)
    → IsApplied steps before
    → (log : ChangeLog) × (log_steps steps empty_log ≡ some log)
      × ((c d : Bytes) → replay (finish log.entries) before c d ≡ effects steps before c d)
      × ((c d : Bytes) → reports c d (finish log.entries) ≤ 1)
finish-log_steps steps before applied =
    let (log, ran, h) =
      log_steps-IsLog steps before before empty_log (empty_log-IsLog before) applied in
    (
      log,
      ran,
      λ c d. replay-finish c d log.entries before (h c d).told ∙ (h c d).value_now,
      λ c d. reports-once c d log.entries (h c d).settled,
    )
