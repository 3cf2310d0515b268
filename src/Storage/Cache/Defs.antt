-- ===== src/Storage/Cache/Defs.antt =====
-- `PageCache` of src/storage/cache.rs. The hash map is a function; a page is its bytes; `none` is an
-- index out of bounds, at which the source panics. What the tests count is left out.
use trunkdb.Base.{
  ℕ, zero, suc, ◌+◌, ◌%◌, Bool, true, false, ◌&&◌, Option, none, some, List, [], ◌∷◌, ◌++◌, length,
  get_elem?, set, take, ltb, ◌==◌, if◌then◌else◌, Bytes,
}

pub record Slot : Type 0 where
  pub id : ℕ
  pub page : Bytes
  pub referenced : Bool

pub record PageCache : Type 0 where
  pub capacity : ℕ
  pub slots : List Slot
  pub index : ℕ → Option ℕ
  pub hand : ℕ

unfoldable pub new : ℕ → PageCache
new capacity = record { capacity = capacity; slots = []; index = λ id. none; hand = 0 }

-- `HashMap::insert` and `HashMap::remove`
abbrev pub index_insert : ℕ → ℕ → (ℕ → Option ℕ) → ℕ → Option ℕ
index_insert id at index = λ i. if i == id then some at else index i

abbrev pub index_remove : ℕ → (ℕ → Option ℕ) → ℕ → Option ℕ
index_remove id index = λ i. if i == id then none else index i

abbrev pub get_at : Option Slot → ℕ → PageCache → Option (Option Bytes × PageCache)
get_at none at c = none
get_at (some slot) at c =
    some (some slot.page, record c { slots = set c.slots at (record slot { referenced = true }) })

abbrev pub get_indexed : Option ℕ → PageCache → Option (Option Bytes × PageCache)
get_indexed none c = some (none, c)
get_indexed (some at) c = get_at (get_elem? c.slots at) at c

-- `PageCache::get`: the page, if it is here, and the flag that it was read.
unfoldable pub get : ℕ → PageCache → Option (Option Bytes × PageCache)
get id c = get_indexed (c.index id) c

-- One turn of the loop of `put`, on the slot under the hand; `go` is the turns behind it.
abbrev pub evict_at :
    (PageCache → Option PageCache) → ℕ → Bytes → PageCache → Option Slot → Option PageCache
evict_at go id page c none = none
evict_at go id page c (some slot) =
    let hand = (c.hand + 1) % length c.slots in
    if slot.referenced
    then go
        (record c { slots = set c.slots c.hand (record slot { referenced = false }); hand = hand })
    else some (record c {
      slots = set c.slots c.hand (record slot { id = id; page = page });
      index = index_insert id c.hand (index_remove slot.id c.index);
      hand = hand;
    })

-- The loop of `put`: fuel that is more than the slots is never used up.
unfoldable pub evict : ℕ → ℕ → Bytes → PageCache → Option PageCache
evict zero id page c = none
evict (suc fuel) id page c = evict_at (evict fuel id page) id page c (get_elem? c.slots c.hand)

abbrev pub replace_at : Option Slot → ℕ → Bytes → PageCache → Option PageCache
replace_at none at page c = none
replace_at (some slot) at page c =
    some (record c { slots = set c.slots at (record slot { page = page; referenced = true }) })

abbrev pub put_indexed : Option ℕ → ℕ → Bytes → PageCache → Option PageCache
put_indexed (some at) id page c = replace_at (get_elem? c.slots at) at page c
put_indexed none id page c =
    let evicted = evict (suc (length c.slots)) id page c in
    if c.capacity == 0
    then some c
    else if ltb (length c.slots) c.capacity
    then some (record c {
      index = index_insert id (length c.slots) c.index;
      slots = c.slots ++ (record { id = id; page = page; referenced = false } ∷ []);
    })
    else evicted

unfoldable pub put : ℕ → Bytes → PageCache → Option PageCache
unfolding evict
put id page c = put_indexed (c.index id) id page c

-- The index collected from the slots from `at` on: of two for one page the later counts.
abbrev pub or_else : Option ℕ → Option ℕ → Option ℕ
or_else none b = b
or_else (some a) b = some a

unfoldable pub collect_index : ℕ → List Slot → ℕ → Option ℕ
collect_index at [] i = none
collect_index at (slot ∷ slots) i =
    or_else (collect_index (suc at) slots i) (if i == slot.id then some at else none)

unfoldable pub all_kept : (ℕ → Bool) → List Slot → Bool
all_kept keep [] = true
all_kept keep (slot ∷ slots) = keep slot.id && all_kept keep slots

unfoldable pub kept_slots : (ℕ → Bool) → List Slot → List Slot
kept_slots keep [] = []
kept_slots keep (slot ∷ slots) =
    let rest = kept_slots keep slots in if keep slot.id then slot ∷ rest else rest

unfoldable pub retain : (ℕ → Bool) → PageCache → PageCache
unfolding collect_index all_kept kept_slots
retain keep c = if all_kept keep c.slots then c else record c {
  slots = kept_slots keep c.slots;
  index = collect_index 0 (kept_slots keep c.slots);
  hand = 0;
}

unfoldable pub clear : PageCache → PageCache
unfolding retain
clear c = retain (λ id. false) c

unfoldable pub resize : ℕ → PageCache → PageCache
unfolding collect_index
resize capacity c =
    if ltb capacity (length c.slots)
    then record c {
      capacity = capacity;
      slots = take capacity c.slots;
      index = collect_index 0 (take capacity c.slots);
      hand = 0;
    }
    else record c { capacity = capacity }
