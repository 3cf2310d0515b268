-- ===== src/Changes/Agree.antt =====
-- src/changes.rs: the log of a batch against what the batch did, and its index against its entries.
use trunkdb.Base.{
  ℕ, ◌+◌, ◌≡◌, refl, sym, ap, ◌∙◌, inl, inr, arith, Bool, true, false, Option, none, some,
  Option-cases, Bool-cases, List, [], ◌∷◌, ◌++◌, All, length, Bytes,
}
use trunkdb.Base.ByteString.{eq_bytes, eq_bytes→eq, eq_bytes_refl}
use trunkdb.Changes.Defs.{
  WriteOp, Entry, ChangeLog, empty_log, collection_of, id_of, leaves, found_one, is_key, put_at,
  new_entry, written, dropped, drop_entry, retain_others,
}
use trunkdb.Changes.Dropped.{
  retain_others-concerns, IsTold-dropped, apart-none, IsSettled-apart, index_entries-position,
  value-retain, IsTold-retain, IsSettled-retain,
}
use trunkdb.Changes.Steps.{Present, Step, wrote, dropping, effect, effects, IsApplied, log_steps}
use trunkdb.Changes.Entries.{
  is_own, concerns, position, value, IsSettled, IsTold, value-snoc, IsTold-snoc, IsSettled-snoc,
  position-snoc, position-snoc_own, set_own, set_exists-set_own, position-set_own,
  IsSettled-set_own, value-set_own, IsTold-set_own, value-set_own_other, IsTold-set_own_other,
}

pub record IsLogAt (before now : Bool) (log : ChangeLog) (c d : Bytes) : Type 0 where
  pub index : log.at c d ≡ position c d log.entries
  pub settled : IsSettled c d log.entries
  pub told : IsTold c d log.entries before
  pub value_now : value c d log.entries before ≡ now

abbrev pub IsLog : Present → Present → ChangeLog → Type 0
IsLog before now log = (c d : Bytes) → IsLogAt (before c d) (now c d) log c d

from_zero : (o : Option ℕ) → (elim o [ none ↦ none | some k ↦ some (0 + k) ]) ≡ o
from_zero none = refl
from_zero (some k) = ap some (omega arith)

-- Entries and keys.
own-is_key :
    (c d : Bytes) (op : WriteOp)
    → (is_own c d (new_entry op) ≡ is_key (collection_of op) (id_of op) c d)
      × (concerns c d (new_entry op) ≡ is_key (collection_of op) (id_of op) c d)
own-is_key c d op = (refl, refl)

other_key :
    (c0 d0 c d : Bytes)
    → is_key c0 d0 c d ≡ false
    → (e : Entry) → is_own c0 d0 e ≡ true
    → concerns c d e ≡ false
other_key c0 d0 c d h e o = elim (Option-cases e.id) [
  | inl n ↦ absurd (ground (arith, n, o))
  | inr (id, n) ↦ ground (arith, n, o, h, eq_bytes→eq e.collection c0, eq_bytes→eq id d0)
]

key_itself : (c d : Bytes) → is_key c d c d ≡ true
key_itself c d = rw (eq_bytes_refl c, eq_bytes_refl d) refl

same_key : (c0 d0 c d : Bytes) → is_key c0 d0 c d ≡ true → (c0 ≡ c) × (d0 ≡ d)
same_key c0 d0 c d h = ground (arith, h, eq_bytes→eq c0 c, eq_bytes→eq d0 d)

module _ (before now : Present) (log : ChangeLog) (op : WriteOp) (h : IsLog before now log)
    (applied : now (collection_of op) (id_of op) ≡ found_one op) where
  abbrev c0 : Bytes
  c0 = collection_of op

  abbrev d0 : Bytes
  d0 = id_of op

  abbrev new_log : ChangeLog
  new_log = record {
    entries = log.entries ++ new_entry op ∷ [];
    at = put_at c0 d0 (length log.entries) log.at;
  }

  abbrev set_log : ChangeLog
  set_log = record log { entries = set_own c0 d0 (leaves op) log.entries }

  new_log-IsLogAt :
      position c0 d0 log.entries ≡ none
      → (c d : Bytes) → IsLogAt (before c d) (effect (wrote op) now c d) new_log c d
  unfolding effect
  new_log-IsLogAt first c d = elim (Bool-cases (is_key c0 d0 c d)) [
    | inl k ↦
        let (e, f) = same_key c0 d0 c d k in
        let itself = key_itself c0 d0 in
        let at = h c0 d0 in
        let here : IsLogAt (before c0 d0) (leaves op) new_log c0 d0 = record {
          index = rw itself (sym (position-snoc_own c0 d0 log.entries (new_entry op) first itself));
          settled = IsSettled-snoc c0 d0 log.entries (new_entry op) at.settled (inl first);
          told =
              IsTold-snoc c0 d0 log.entries (new_entry op) (before c0 d0) at.told
                (λ o. sym (at.value_now ∙ applied)) (λ n. absurd cc);
          value_now = value-snoc c0 d0 log.entries (new_entry op) (before c0 d0) ∙ rw itself refl;
        } in
        rw (← e, ← f, itself) here
    | inr k ↦
        let at = h c d in
        record {
          index = rw k (at.index ∙ sym (position-snoc c d log.entries (new_entry op) k));
          settled = IsSettled-snoc c d log.entries (new_entry op) at.settled (inr k);
          told =
              IsTold-snoc c d log.entries (new_entry op) (before c d) at.told
                (λ o. absurd (ground (arith, k, o))) (λ n. absurd cc);
          value_now = value-snoc c d log.entries (new_entry op) (before c d) ∙ rw k at.value_now;
        }
  ]

  set_log-IsLogAt :
      (i : ℕ)
      → position c0 d0 log.entries ≡ some i
      → (c d : Bytes) → IsLogAt (before c d) (effect (wrote op) now c d) set_log c d
  unfolding effect
  set_log-IsLogAt i found c d = elim (Bool-cases (is_key c0 d0 c d)) [
    | inl k ↦
        let (e, f) = same_key c0 d0 c d k in
        let at = h c0 d0 in
        let here : IsLogAt (before c0 d0) (leaves op) set_log c0 d0 = record {
          index = at.index ∙ sym (position-set_own c0 d0 (leaves op) c0 d0 log.entries);
          settled = IsSettled-set_own c0 d0 (leaves op) c0 d0 log.entries at.settled;
          told = IsTold-set_own c0 d0 (leaves op) log.entries (before c0 d0) at.settled at.told;
          value_now = value-set_own c0 d0 (leaves op) log.entries (before c0 d0) i found at.settled;
        } in
        rw (← e, ← f, key_itself c0 d0) here
    | inr k ↦
        let at = h c d in
        let other = other_key c0 d0 c d k in
        record {
          index = at.index ∙ sym (position-set_own c0 d0 (leaves op) c d log.entries);
          settled = IsSettled-set_own c0 d0 (leaves op) c d log.entries at.settled;
          told = IsTold-set_own_other c0 d0 (leaves op) c d other log.entries (before c d) at.told;
          value_now =
              value-set_own_other c0 d0 (leaves op) c d other log.entries (before c d)
              ∙ rw k at.value_now;
        }
  ]

  written-IsLog :
      (log' : ChangeLog) × (written log op ≡ some log') × IsLog before (effect (wrote op) now) log'
  unfolding written
  written-IsLog = elim (Option-cases (position c0 d0 log.entries)) [
    | inl n ↦
        let unseen : log.at c0 d0 ≡ none = (h c0 d0).index ∙ n in
        (new_log, rw unseen refl, new_log-IsLogAt n)
    | inr (i, n) ↦
        let seen : log.at c0 d0 ≡ some i = (h c0 d0).index ∙ n in
        (
          set_log,
          rw (seen, set_exists-set_own c0 d0 (leaves op) log.entries i n) refl,
          set_log-IsLogAt i n,
        )
  ]

dropped-IsLog :
    (before now : Present) (log : ChangeLog) (gone : Bytes)
    → IsLog before now log
    → IsLog before (effect (dropping gone) now) (dropped log gone)
unfolding dropped effect
dropped-IsLog before now log gone h c d =
    let entries = retain_others gone log.entries in
    let at = h c d in
    elim (Bool-cases (eq_bytes gone c)) [
      | inl k ↦
          let same : gone ≡ c = eq_bytes→eq gone c k in
          let apart : All (λ f. concerns c d f ≡ false) entries =
            rw same (retain_others-concerns c d log.entries) in
          let settled = IsSettled-apart c d entries apart in
          record {
            index =
                index_entries-position c d entries 0 _ settled
                ∙ from_zero (position c d entries)
                ∙ sym (position-snoc c d entries (drop_entry gone) (rw k refl));
            settled =
                IsSettled-snoc c d entries (drop_entry gone) settled
                  (inl (apart-none c d entries apart));
            told =
                IsTold-snoc c d entries (drop_entry gone) (before c d)
                  (rw same (IsTold-dropped c d log.entries (before c d) (before c d) at.told))
                  (λ o. absurd (ground (arith, k, o))) (λ n. refl);
            value_now = value-snoc c d entries (drop_entry gone) (before c d) ∙ rw k refl;
          }
      | inr k ↦
          let settled = IsSettled-retain c d gone k log.entries at.settled in
          record {
            index =
                index_entries-position c d entries 0 _ settled
                ∙ from_zero (position c d entries)
                ∙ sym (position-snoc c d entries (drop_entry gone) (rw k refl));
            settled = IsSettled-snoc c d entries (drop_entry gone) settled (inr (rw k refl));
            told =
                IsTold-snoc c d entries (drop_entry gone) (before c d)
                  (IsTold-retain c d gone k log.entries (before c d) at.told)
                  (λ o. absurd (ground (arith, k, o))) (λ n. refl);
            value_now =
                value-snoc c d entries (drop_entry gone) (before c d)
                ∙ rw k (value-retain c d gone k log.entries (before c d) ∙ at.value_now);
          }
    ]

pub log_steps-IsLog :
    (steps : List Step) (before now : Present) (log : ChangeLog)
    → IsLog before now log
    → IsApplied steps now
    → (log' : ChangeLog) × (log_steps steps log ≡ some log') × IsLog before (effects steps now) log'
unfolding log_steps effects IsApplied
log_steps-IsLog [] before now log h applied = (log, refl, h)
log_steps-IsLog (wrote op ∷ steps) before now log h (applied, rest) =
    let (log1, done, h1) = written-IsLog before now log op h applied in
    let (log2, all, h2) = log_steps-IsLog steps before (effect (wrote op) now) log1 h1 rest in
    (log2, rw done all, h2)
log_steps-IsLog (dropping gone ∷ steps) before now log h applied =
    log_steps-IsLog steps before (effect (dropping gone) now) (dropped log gone)
      (dropped-IsLog before now log gone h) applied

pub empty_log-IsLog : (before : Present) → IsLog before before empty_log
unfolding empty_log position value
empty_log-IsLog before c d = record { index = refl; settled = tt; told = tt; value_now = refl }
