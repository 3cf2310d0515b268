-- ===== src/Durability/Wal/Undo.antt =====
-- `log_each` of src/durability/wal.rs that fails at any call, and `undo_failed_log` behind it.
use trunkdb.Base.{
  ℕ, zero, suc, ◌+◌, ◌-◌, min, Bool, true, false, not, ◌&&◌, List, [], ◌∷◌, ◌++◌, ◌≡◌, refl, ap,
  ◌∙◌, sym, length, take, append-nil, append_assoc, take-length_append, ◌==◌, if◌then◌else◌, Bytes,
  arith,
}
use mathlib.Core.Path.{subst}
use trunkdb.Durability.Wal.Defs.{Result, ok, err, WalError, old_version_held, encode_record}
use trunkdb.Durability.Wal.Log.{
  Answer, done, failed, Wal, World, Action, ◌>>=◌, ◌>>◌, then_do, on_file, answered, write_all,
  sync, seek, next_pages, sync_unless, log_records, log_from, log_guarded, log_each, no_more,
  undo_failed_log, Source, resized, give, modify, fail, div_ceil, front, log_end,
}

-- The file has grown, and what was kept of its committed length is the same.
pub record Grown (w w' : World) : Type 0 where
  pub added : Bytes
  pub file : w'.wal.file ≡ w.wal.file ++ added
  pub len : w'.wal.len ≡ w.wal.len
  pub record_pages : w'.wal.record_pages ≡ w.wal.record_pages

abbrev Growing : {A : Type 0} → Action A → Type 0
Growing m = (w : World) → Grown w (m w).1

Grown-refl : (w : World) → Grown w w
Grown-refl w = record {
  added = [];
  file = sym (append-nil w.wal.file);
  len = refl;
  record_pages = refl;
}

Grown-kept :
    (wal : Wal) (script script' : List Answer)
    → Grown (record { wal = wal; script = script }) (record { wal = wal; script = script' })
Grown-kept wal script script' = record {
  added = [];
  file = sym (append-nil wal.file);
  len = refl;
  record_pages = refl;
}

Grown-trans : (u v w : World) → Grown u v → Grown v w → Grown u w
Grown-trans u v w g h = record {
  added = g.added ++ h.added;
  file = h.file ∙ ap (λ f. f ++ h.added) g.file ∙ append_assoc u.wal.file g.added h.added;
  len = h.len ∙ g.len;
  record_pages = h.record_pages ∙ g.record_pages;
}

Grown-then :
    {A B : Type 0} (w : World) (r : Result A × World) (k : A → Action B)
    → Grown w r.1
    → ((a : A) → Growing (k a))
    → Grown w (then_do r k).1
Grown-then w (ok a, w') k g h = Grown-trans w w' _ g (h a w')
Grown-then w (err e, w') k g h = g

write_answered :
    (bytes : Bytes) (wal : Wal) (script : List Answer)
    → Grown
        (record { wal = wal; script = script })
        (answered (λ file. file ++ bytes) (λ n file. file ++ take n bytes) wal script).1
write_answered bytes wal [] = record { added = bytes; file = refl; len = refl; record_pages = refl }
write_answered bytes wal (done ∷ script) = record {
  added = bytes;
  file = refl;
  len = refl;
  record_pages = refl;
}
write_answered bytes wal (failed n ∷ script) = record {
  added = take n bytes;
  file = refl;
  len = refl;
  record_pages = refl;
}

sync_answered :
    (wal : Wal) (script : List Answer)
    → Grown
        (record { wal = wal; script = script })
        (answered (λ file. file) (λ n file. file) wal script).1
sync_answered wal [] = Grown-kept wal [] []
sync_answered wal (done ∷ script) = Grown-kept wal (done ∷ script) script
sync_answered wal (failed n ∷ script) = Grown-kept wal (failed n ∷ script) script

write_all-Growing : (bytes : Bytes) → Growing (write_all bytes)
unfolding on_file
write_all-Growing bytes w = write_answered bytes w.wal w.script

sync-Growing : Growing sync
unfolding on_file
sync-Growing w = sync_answered w.wal w.script

sync_unless-Growing : (last : Bool) → Growing (sync_unless last)
sync_unless-Growing true w = Grown-refl w
sync_unless-Growing false w = sync-Growing w

log_records-Growing :
    (record_pages n count : ℕ) (buffer : Bytes) (len : ℕ) (source : Source)
    → Growing (log_records record_pages n count buffer len source)
unfolding log_records
log_records-Growing record_pages zero count buffer len source w = Grown-refl w
log_records-Growing record_pages (suc n) count buffer len source w =
    Grown-then w (next_pages (min count record_pages) source, w) _ (Grown-refl w)
      (λ (pages, source') w₁.
        let bytes = buffer ++ encode_record pages (not (n == 0)) in
        Grown-then w₁ (write_all bytes w₁) _ (write_all-Growing bytes w₁) (λ u w₂.
          Grown-then w₂ (sync_unless (n == 0) w₂) _ (sync_unless-Growing (n == 0) w₂) (λ u' w₃.
            log_records-Growing record_pages n (count - record_pages) [] (len + length bytes)
              source' w₃)))

-- An action that grows the file where it fails; what it does when it succeeds is its own affair.
abbrev FailsGrowing : {A : Type 0} → Action A → Type 0
FailsGrowing m = (w : World) (e : WalError) → (m w).0 ≡ err e → Grown w (m w).1

fails_then :
    {A B : Type 0} (w : World) (r : Result A × World) (k : A → Action B)
    → Grown w r.1
    → ((a : A) → FailsGrowing (k a))
    → (e : WalError) → (then_do r k).0 ≡ err e
    → Grown w (then_do r k).1
fails_then w (ok a, w') k g h e f = Grown-trans w w' _ g (h a w' e f)
fails_then w (err e', w') k g h e f = g

no_more-Growing : (source : Source) → Growing (no_more source)
no_more-Growing [] w = Grown-refl w
no_more-Growing (page ∷ source) w = Grown-refl w

-- The same file and WAL, before a file system that does all it is asked.
abbrev pub answering : World → World
answering w = record w { script = [] }

undo_Grown :
    (w w' : World)
    → w.wal.len ≡ length w.wal.file
    → Grown w w'
    → ((undo_failed_log (answering w')).0 ≡ ok tt)
      × ((undo_failed_log (answering w')).1.wal.file ≡ w.wal.file)
      × ((undo_failed_log (answering w')).1.wal.len ≡ w.wal.len)
unfolding undo_failed_log on_file
undo_Grown w w' whole g = (
  refl,
  ap (resized w'.wal.len) g.file
      ∙ ap (λ n. resized n (w.wal.file ++ g.added)) (g.len ∙ whole)
      ∙ ap (take (length w.wal.file)) (append_assoc w.wal.file g.added _)
      ∙ take-length_append (length w.wal.file) w.wal.file _ refl,
  g.len,
)

abbrev IsOk : {A : Type 0} → Result A → Type 0
IsOk (ok a) = Unit {0}
IsOk (err e) = ⊥

modify-FailsGrowing : (f : Wal → Wal) → FailsGrowing (modify f)
modify-FailsGrowing f w e h = absurd (subst IsOk h tt)

log_end-FailsGrowing : (end : ℕ) (written : ℕ × Source) → FailsGrowing (log_end end written)
log_end-FailsGrowing end (len, source) w e f =
    let commit = modify (λ wal. record wal { len = end + len; appendable = true }) in
    fails_then w (no_more source w) (λ u. sync >> commit) (no_more-Growing source w)
      (λ u w₁.
        fails_then w₁ (sync w₁) (λ u'. commit) (sync-Growing w₁)
          (λ u'. modify-FailsGrowing (λ wal. record wal { len = end + len; appendable = true })))
      e f

log_from-FailsGrowing :
    (count : ℕ) (source : Source) (w : World) (e : WalError)
    → w.wal.len ≡ length w.wal.file
    → (log_from (length w.wal.file) count source w).0 ≡ err e
    → Grown w (log_from (length w.wal.file) count source w).1
unfolding log_from
log_from-FailsGrowing count source w e whole f =
    let wal' = record w.wal { len = min w.wal.len (length w.wal.file) } in
    let w' : World = record { wal = wal'; script = w.script } in
    let kept : Grown w w' = record {
      added = [];
      file = sym (append-nil w.wal.file);
      len = omega arith;
      record_pages = refl;
    } in
    let records = div_ceil count w.wal.record_pages in
    let loop = log_records w.wal.record_pages records count (front (length w.wal.file)) 0 source in
    Grown-trans w w' _ kept (
      fails_then w' (loop w') (log_end (length w.wal.file))
        (log_records-Growing w.wal.record_pages records count (front (length w.wal.file)) 0 source
          w')
        (log_end-FailsGrowing (length w.wal.file)) e f)

log_guarded-FailsGrowing :
    (count : ℕ) (source : Source) (w : World) (e : WalError)
    → w.wal.len ≡ length w.wal.file
    → (log_guarded count source w).0 ≡ err e
    → Grown w (log_guarded count source w).1
log_guarded-FailsGrowing count source w e whole f =
    elim (not (length w.wal.file == 0) && not w.wal.appendable)
        as (λ b.
          (if b then fail old_version_held w else log_from (length w.wal.file) count source w).0
            ≡ err e
          → Grown w
              (if b
                then fail old_version_held w
                else log_from (length w.wal.file) count source w).1) [
                  | true ↦ λ f'. Grown-refl w
                  | false ↦ λ f'. log_from-FailsGrowing count source w e whole f'
                ]
      f

log_sought :
    (count : ℕ) (source : Source) (wal : Wal) (script : List Answer) (e : WalError)
    → wal.len ≡ length wal.file
    → (then_do
        (answered (λ file. file) (λ n file. file) wal script)
        (λ u. log_guarded count source)).0
      ≡ err e
    → Grown
        (record { wal = wal; script = script })
        (then_do
          (answered (λ file. file) (λ n file. file) wal script)
          (λ u. log_guarded count source)).1
log_sought count source wal [] e whole f =
    log_guarded-FailsGrowing count source (record { wal = wal; script = [] }) e whole f
log_sought count source wal (done ∷ script) e whole f =
    Grown-trans _ (record { wal = wal; script = script }) _ (Grown-kept wal (done ∷ script) script)
      (log_guarded-FailsGrowing count source (record { wal = wal; script = script }) e whole f)
log_sought count source wal (failed n ∷ script) e whole f =
    Grown-kept wal (failed n ∷ script) script

log_each-FailsGrowing :
    (count : ℕ) (source : Source) (w : World) (e : WalError)
    → w.wal.len ≡ length w.wal.file
    → (log_each count source w).0 ≡ err e
    → Grown w (log_each count source w).1
unfolding log_each
log_each-FailsGrowing count source w e whole f =
    elim (count == 0)
        as (λ b.
          ((if b then give tt else (seek >>= λ u. log_guarded count source)) w).0 ≡ err e
          → Grown w ((if b then give tt else (seek >>= λ u. log_guarded count source)) w).1) [
            | true ↦ λ f'. Grown-refl w
            | false ↦ λ f'. unfold on_file in log_sought count source w.wal w.script e whole f'
          ]
      f

-- On a file that was committed up to its end, a `log_each` that fails at any call, with any part
-- of its bytes written, is taken back by an `undo_failed_log` whose own calls succeed: the file's
-- bytes and its committed length are what they were.
pub undo_failed_log-log_each :
    (count : ℕ) (source : Source) (w : World) (e : WalError)
    → w.wal.len ≡ length w.wal.file
    → (log_each count source w).0 ≡ err e
    → ((undo_failed_log (answering (log_each count source w).1)).0 ≡ ok tt)
      × ((undo_failed_log (answering (log_each count source w).1)).1.wal.file ≡ w.wal.file)
      × ((undo_failed_log (answering (log_each count source w).1)).1.wal.len ≡ w.wal.len)
undo_failed_log-log_each count source w e whole f =
    undo_Grown w (log_each count source w).1 whole (log_each-FailsGrowing count source w e whole f)
