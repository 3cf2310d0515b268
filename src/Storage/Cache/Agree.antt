-- ===== src/Storage/Cache/Agree.antt =====
-- src/storage/cache.rs: the index and the slots agree, and each change of a slot keeps them so.
use mathlib.Core.Option.{some-injective}
use trunkdb.Base.{
  ℕ, zero, suc, ◌≤◌, ◌<◌, ◌≡◌, ◌≢◌, refl, ap, ◌∙◌, sym, ◌⊎◌, inl, inr, Option, none, some, List, [],
  ◌∷◌, ◌++◌, length, get_elem?, set, length-set, get_elem?-set_self, get_elem?-set_ne, ◌==◌, Bytes,
  arith, length-append, Bool-cases,
}
use trunkdb.Storage.Cache.Defs.{Slot, PageCache, index_insert, index_remove}

pub get_elem?-total :
    (slots : List Slot) (at : ℕ)
    → at < length slots
    → (slot : Slot) × (get_elem? slots at ≡ some slot)
get_elem?-total [] at h = absurd (omega arith)
get_elem?-total (slot ∷ slots) zero h = (slot, refl)
get_elem?-total (slot ∷ slots) (suc at) h = get_elem?-total slots at (omega arith)

-- The index and the slots say the same; the hand is on a slot, if there is one.
pub record IsPageCache (c : PageCache) : Type 0 where
  pub in_index :
      (at : ℕ) (slot : Slot) → get_elem? c.slots at ≡ some slot → c.index slot.id ≡ some at
  pub in_slots :
      (id at : ℕ)
      → c.index id ≡ some at
      → (slot : Slot) × (get_elem? c.slots at ≡ some slot) × (slot.id ≡ id)
  pub hand_lt : 0 < length c.slots → c.hand < length c.slots
  pub hand_zero : length c.slots ≡ 0 → c.hand ≡ 0
  pub size : length c.slots ≤ c.capacity

some_slot : {a b : Slot} → some a ≡ some b → a ≡ b
some_slot e = some-injective _ _ e

some_at : {a b : ℕ} → some a ≡ some b → a ≡ b
some_at e = some-injective _ _ e

none-some_at : {a : ℕ} → ◌≡◌ {A = Option ℕ} none (some a) → ⊥
none-some_at e = cc

-- A slot that was written is read back, and another is what it was.
get_elem?-set_cases :
    (slots : List Slot) (at i : ℕ) (new slot : Slot)
    → at < length slots
    → get_elem? (set slots at new) i ≡ some slot
    → ((i ≡ at) × (slot ≡ new)) ⊎ ((i ≢ at) × (get_elem? slots i ≡ some slot))
get_elem?-set_cases slots at i new slot h e = elim (Bool-cases (i == at)) [
  | inl same ↦
      let here : i ≡ at = ground arith in
      inl (
        here,
        some_slot
            (sym e ∙ ap (get_elem? (set slots at new)) here ∙ get_elem?-set_self slots at new h),
      )
  | inr differ ↦
      let other : at ≢ i = λ k. absurd (ground arith) in
      inr ((λ k. other (sym k)), sym (get_elem?-set_ne slots new other) ∙ e)
]

-- A slot that stays its page's changes, and the hand moves on.
pub IsPageCache-set :
    (c : PageCache) (at hand : ℕ) (slot new : Slot)
    → IsPageCache c
    → get_elem? c.slots at ≡ some slot
    → new.id ≡ slot.id
    → at < length c.slots
    → hand < length c.slots
    → IsPageCache (record c { slots = set c.slots at new; hand = hand })
IsPageCache-set c at hand slot new h e stays lo k =
    let size = length-set c.slots at new in
    record {
      in_index = λ i s e'. elim (get_elem?-set_cases c.slots at i new s lo e') [
        | inl (here, same) ↦
            ap (λ (x : Slot). c.index x.id) same
            ∙ ap c.index stays
            ∙ h.in_index at slot e
            ∙ ap some (sym here)
        | inr (there, before) ↦ h.in_index i s before
      ];
      in_slots = λ id i e'.
          let (s, before, named) = h.in_slots id i e' in
          elim (Bool-cases (i == at)) [
            | inl same ↦
                let here : at ≡ i = ground arith in
                let one : s ≡ slot =
                  some_slot (sym before ∙ ap (get_elem? c.slots) (sym here) ∙ e) in
                (
                  new,
                  ap (get_elem? (set c.slots at new)) (sym here)
                      ∙ get_elem?-set_self c.slots at new lo,
                  stays ∙ ap (λ (x : Slot). x.id) (sym one) ∙ named,
                )
            | inr differ ↦
                let other : at ≢ i = λ same. absurd (ground arith) in
                (s, get_elem?-set_ne c.slots new other ∙ before, named)
          ];
      hand_lt = λ some_slots. omega (arith, size, k);
      hand_zero = λ no_slots. absurd (omega (arith, size, k));
      size = omega (arith, size, h.size);
    }

-- A page takes the place of another.
pub IsPageCache-replace :
    (c : PageCache) (id hand : ℕ) (page : Bytes) (slot : Slot)
    → IsPageCache c
    → get_elem? c.slots c.hand ≡ some slot
    → c.hand < length c.slots
    → hand < length c.slots
    → c.index id ≡ none
    → IsPageCache (record c {
      slots = set c.slots c.hand (record slot { id = id; page = page });
      index = index_insert id c.hand (index_remove slot.id c.index);
      hand = hand;
    })
IsPageCache-replace c id hand page slot h e lo k absent =
    let new : Slot = record slot { id = id; page = page } in
    let size = length-set c.slots c.hand new in
    let old = h.in_index c.hand slot e in
    record {
      in_index = λ i s e'. elim (get_elem?-set_cases c.slots c.hand i new s lo e') [
        | inl (here, same) ↦
            let named : s.id ≡ id = ap (λ (x : Slot). x.id) same in ground (arith, here, named)
        | inr (there, before) ↦
            let found = h.in_index i s before in
            let not_new : s.id ≢ id =
              λ same. absurd (none-some_at (sym absent ∙ ap c.index (sym same) ∙ found)) in
            let not_old : s.id ≢ slot.id =
              λ same. there (some_at (sym found ∙ ap c.index same ∙ old)) in
            ground (arith, found, not_new, not_old)
      ];
      in_slots = λ i at e'. elim (Bool-cases (i == id)) [
        | inl same ↦
            let here : c.hand ≡ at = ground (arith, e', same) in
            let named : id ≡ i = ground arith in
            (
              new,
              ap (get_elem? (set c.slots c.hand new)) (sym here)
                  ∙ get_elem?-set_self c.slots c.hand new lo,
              named,
            )
        | inr differ ↦
            let found : c.index i ≡ some at = ground (arith, e', differ) in
            let not_old : i ≢ slot.id = λ same. absurd (ground (arith, e', differ, same)) in
            let (s, before, named) = h.in_slots i at found in
            let other : c.hand ≢ at = λ same. not_old (
              sym named
              ∙ ap (λ (x : Slot). x.id)
                  (some_slot (sym before ∙ ap (get_elem? c.slots) (sym same) ∙ e))) in
            (s, get_elem?-set_ne c.slots new other ∙ before, named)
      ];
      hand_lt = λ some_slots. omega (arith, size, k);
      hand_zero = λ no_slots. absurd (omega (arith, size, k));
      size = omega (arith, size, h.size);
    }

pub get_elem?_bound :
    (slots : List Slot) (at : ℕ) (slot : Slot) → get_elem? slots at ≡ some slot → at < length slots
get_elem?_bound [] at slot e = absurd cc
get_elem?_bound (s ∷ slots) zero slot e = omega arith
get_elem?_bound (s ∷ slots) (suc at) slot e =
    let rest = get_elem?_bound slots at slot e in omega (arith, rest)

-- What stands in a list with one more slot behind it.
get_elem?-pushed :
    (slots : List Slot) (new slot : Slot) (i : ℕ)
    → get_elem? (slots ++ (new ∷ [])) i ≡ some slot
    → ((i ≡ length slots) × (slot ≡ new)) ⊎ (get_elem? slots i ≡ some slot)
get_elem?-pushed [] new slot zero e = inl (refl, some_slot (sym e))
get_elem?-pushed [] new slot (suc i) e = absurd cc
get_elem?-pushed (s ∷ slots) new slot zero e = inr e
get_elem?-pushed (s ∷ slots) new slot (suc i) e = elim (get_elem?-pushed slots new slot i e) [
  | inl (at, same) ↦ inl (omega (arith, at), same)
  | inr before ↦ inr before
]

get_elem?-push_before :
    (slots : List Slot) (new slot : Slot) (i : ℕ)
    → get_elem? slots i ≡ some slot
    → get_elem? (slots ++ (new ∷ [])) i ≡ some slot
get_elem?-push_before [] new slot i e = absurd cc
get_elem?-push_before (s ∷ slots) new slot zero e = e
get_elem?-push_before (s ∷ slots) new slot (suc i) e = get_elem?-push_before slots new slot i e

pub get_elem?-push_last :
    (slots : List Slot) (new : Slot) → get_elem? (slots ++ (new ∷ [])) (length slots) ≡ some new
get_elem?-push_last [] new = refl
get_elem?-push_last (s ∷ slots) new = get_elem?-push_last slots new

pub IsPageCache-push :
    (c : PageCache) (new : Slot)
    → IsPageCache c
    → length c.slots < c.capacity
    → c.index new.id ≡ none
    → IsPageCache (record c {
      index = index_insert new.id (length c.slots) c.index;
      slots = c.slots ++ (new ∷ []);
    })
IsPageCache-push c new h room absent =
    let size = length-append c.slots (new ∷ []) in
    record {
      in_index = λ i s e. elim (get_elem?-pushed c.slots new s i e) [
        | inl (at, same) ↦
            let named : s.id ≡ new.id = ap (λ (x : Slot). x.id) same in ground (arith, at, named)
        | inr before ↦
            let found = h.in_index i s before in
            let other : s.id ≢ new.id =
              λ same. absurd (none-some_at (sym absent ∙ ap c.index (sym same) ∙ found)) in
            ground (arith, found, other)
      ];
      in_slots = λ i at e. elim (Bool-cases (i == new.id)) [
        | inl same ↦
            let here : length c.slots ≡ at = ground (arith, e, same) in
            let named : new.id ≡ i = ground arith in
            (
              new,
              ap (get_elem? (c.slots ++ (new ∷ []))) (sym here) ∙ get_elem?-push_last c.slots new,
              named,
            )
        | inr differ ↦
            let (s, before, named) = h.in_slots i at (ground (arith, e, differ)) in
            (s, get_elem?-push_before c.slots new s at before, named)
      ];
      hand_lt = λ some_slots. elim (Bool-cases (length c.slots == 0)) [
        | inl no_slots ↦ omega (arith, size, h.hand_zero (ground arith))
        | inr slots ↦ omega (arith, size, h.hand_lt (ground arith))
      ];
      hand_zero = λ no_slots. absurd (omega (arith, size));
      size = omega (arith, size, room);
    }
