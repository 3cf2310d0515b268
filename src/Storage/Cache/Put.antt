-- ===== src/Storage/Cache/Put.antt =====
-- src/storage/cache.rs: the clock stops, and a page that was put in is found.
use mathlib.Core.Option.{some-injective}
use trunkdb.Base.{
  ℕ, zero, suc, ◌+◌, ◌%◌, ◌≤◌, ◌<◌, ◌≡◌, refl, ap, ◌∙◌, Bool, true, false, Option, none, some, List,
  [], ◌∷◌, length, get_elem?, set, length-set, get_elem?-set_self, ltb, ◌==◌, if◌then◌else◌, Bytes,
  arith,
}
use trunkdb.Storage.Cache.Defs.{
  Slot, PageCache, index_insert, index_remove, evict, put, put_indexed,
}
use trunkdb.Storage.Cache.Agree.{
  IsPageCache, get_elem?-total, IsPageCache-set, IsPageCache-replace, IsPageCache-push,
  get_elem?_bound, get_elem?-push_last,
}

-- How many slots were read since the hand passed: each turn that evicts nothing lowers it.
abbrev referenced_slots : List Slot → ℕ
referenced_slots [] = 0
referenced_slots (slot ∷ slots) = (if slot.referenced then 1 else 0) + referenced_slots slots

referenced_slots_le : (slots : List Slot) → referenced_slots slots ≤ length slots
referenced_slots_le [] = omega arith
referenced_slots_le (slot ∷ slots) = let rest = referenced_slots_le slots in ground arith

referenced_slots-set :
    (slots : List Slot) (at : ℕ) (slot : Slot)
    → get_elem? slots at ≡ some slot
    → slot.referenced ≡ true
    → referenced_slots (set slots at (record slot { referenced = false })) + 1
      ≡ referenced_slots slots
referenced_slots-set [] at slot e h = absurd cc
referenced_slots-set (s ∷ slots) zero slot e h =
    let same : s ≡ slot = some-injective _ _ e in
    let marked : s.referenced ≡ true = ap (λ (x : Slot). x.referenced) same ∙ h in
    ground (arith, marked)
referenced_slots-set (s ∷ slots) (suc at) slot e h =
    let rest = referenced_slots-set slots at slot e h in ground (arith, rest)

-- The cache holds the page under this id.
abbrev pub Holds : ℕ → Bytes → PageCache → Type 0
Holds id page c =
    (at : ℕ) × (slot : Slot) × (c.index id ≡ some at)
    × (get_elem? c.slots at ≡ some slot)
    × (slot.page ≡ page)

-- What `put` promises of what it leaves; a panic, or a loop that goes on, leaves nothing.
abbrev pub IsPut : ℕ → Bytes → ℕ → Option PageCache → Type 0
IsPut id page capacity none = ⊥
IsPut id page capacity (some c) =
    IsPageCache c × (c.capacity ≡ capacity) × (0 < capacity → Holds id page c)

index_insert_self : (id at : ℕ) (index : ℕ → Option ℕ) → index_insert id at index id ≡ some at
index_insert_self id at index = ground arith

evict-IsPut :
    (fuel id : ℕ) (page : Bytes) (c : PageCache)
    → IsPageCache c
    → 0 < length c.slots
    → c.index id ≡ none
    → referenced_slots c.slots < fuel
    → IsPut id page c.capacity (evict fuel id page c)
unfolding evict
evict-IsPut zero id page c h lo absent enough = absurd (omega arith)
evict-IsPut (suc fuel) id page c h lo absent enough =
    let (slot, e) = get_elem?-total c.slots c.hand (h.hand_lt lo) in
    let hand = (c.hand + 1) % length c.slots in
    let hand_fits : hand < length c.slots = omega arith in
    let cleared = record c {
      slots = set c.slots c.hand (record slot { referenced = false });
      hand = hand;
    } in
    rw e (
      elim slot.referenced
          as (λ b.
            slot.referenced ≡ b
            → IsPut id page c.capacity (
                if b
                then evict fuel id page cleared
                else some (record c {
                  slots = set c.slots c.hand (record slot { id = id; page = page });
                  index = index_insert id c.hand (index_remove slot.id c.index);
                  hand = hand;
                }))) [
                  | true ↦ λ r.
                      let fewer = referenced_slots-set c.slots c.hand slot e r in
                      evict-IsPut fuel id page cleared
                        (IsPageCache-set c c.hand hand slot (record slot { referenced = false }) h e
                          refl (h.hand_lt lo) hand_fits)
                        (omega (
                          arith,
                          length-set c.slots c.hand (record slot { referenced = false }),
                          lo,
                        ))
                        absent (omega (arith, fewer, enough))
                  | false ↦ λ r. (
                    IsPageCache-replace c id hand page slot h e (h.hand_lt lo) hand_fits absent,
                    refl,
                    λ positive. (
                      c.hand,
                      record slot { id = id; page = page },
                      index_insert_self id c.hand (index_remove slot.id c.index),
                      get_elem?-set_self c.slots c.hand _ (h.hand_lt lo),
                      refl,
                    ),
                  )
                ]
        refl)

-- A property of both branches.
either :
    (Q : Option PageCache → Type 0) (b : Bool) (x y : Option PageCache)
    → (b ≡ true → Q x)
    → (b ≡ false → Q y)
    → Q (if b then x else y)
either Q true x y h k = h refl
either Q false x y h k = k refl

-- In a cache whose index and slots agree, `put` returns: the clock's sweep ends and nothing
-- panics, the page is then found under its id unless the capacity is zero, and the index and the
-- slots agree within the capacity.
pub put-IsPut :
    (id : ℕ) (page : Bytes) (c : PageCache)
    → IsPageCache c
    → IsPut id page c.capacity (put id page c)
unfolding put
put-IsPut id page c h = by_index (c.index id) refl
  where
    by_index :
        (at : Option ℕ) → c.index id ≡ at → IsPut id page c.capacity (put_indexed at id page c)
    by_index (some at) e =
        let (slot, found, named) = h.in_slots id at e in
        let lo = get_elem?_bound c.slots at slot found in
        let new : Slot = record slot { page = page; referenced = true } in
        rw found (
          IsPageCache-set c at c.hand slot new h found refl lo (h.hand_lt (omega (arith, lo))),
          refl,
          λ positive. (at, new, e, get_elem?-set_self c.slots at new lo, refl),
        )
    by_index none e =
        let new : Slot = record { id = id; page = page; referenced = false } in
        let result = IsPut id page c.capacity in
        either result (c.capacity == 0) _ _
          (λ none_kept. (h, refl, λ positive. absurd (ground arith)))
          (λ some_kept.
            either result (ltb (length c.slots) c.capacity) _ _
              (λ room. (
                IsPageCache-push c new h (ground arith) e,
                refl,
                λ positive. (
                  length c.slots,
                  new,
                  index_insert_self id (length c.slots) c.index,
                  get_elem?-push_last c.slots new,
                  refl,
                ),
              ))
              (λ full.
                evict-IsPut (suc (length c.slots)) id page c h (ground arith) e
                  (let fits = referenced_slots_le c.slots in omega (arith, fits))))
