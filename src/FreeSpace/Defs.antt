-- ===== src/FreeSpace/Defs.antt =====
-- The operations of src/free_space.rs.
use trunkdb.Base.Options.{is_some}
use trunkdb.Base.{
  ℕ, Bool, false, ◌&&◌, ◌||◌, Option, none, some, List, [], ◌∷◌, ltb, ◌==◌, if◌then◌else◌,
}

-- `(free bytes, page)`, and the order of such pairs.
abbrev pub Entry : Type 0
Entry = ℕ × ℕ

abbrev pub earlier : Entry → Entry → Bool
earlier (free, page) (free', page') = ltb free free' || (free == free' && ltb page page')

abbrev pub same : Entry → Entry → Bool
same (free, page) (free', page') = free == free' && page == page'

unfoldable pub insert : Entry → List Entry → List Entry
insert x [] = x ∷ []
insert x (y ∷ ys) =
    let rest = insert x ys in
    if earlier x y then x ∷ y ∷ ys else if earlier y x then y ∷ rest else y ∷ ys

unfoldable pub erase : Entry → List Entry → List Entry
erase x [] = []
erase x (y ∷ ys) = let rest = erase x ys in if same x y then ys else y ∷ rest

unfoldable pub has : Entry → List Entry → Bool
has x [] = false
has x (y ∷ ys) = let rest = has x ys in same x y || rest

-- `range((needed, 0)..).next()`
unfoldable pub first_from : ℕ → List Entry → Option Entry
first_from needed [] = none
first_from needed ((free, page) ∷ rest) =
    let later = first_from needed rest in if ltb free needed then later else some (free, page)

pub record FreeSpace : Type 0 where
  pub by_free : List Entry
  pub free_of : ℕ → Option ℕ

abbrev pub default_space : FreeSpace
default_space = record { by_free = []; free_of = λ page. none }

abbrev pub erase_old : Option ℕ → ℕ → List Entry → List Entry
erase_old none page entries = entries
erase_old (some old) page entries = erase (old, page) entries

unfoldable pub set : ℕ → ℕ → FreeSpace → FreeSpace
unfolding insert erase
set page free s = record {
  by_free = insert (free, page) (erase_old (s.free_of page) page s.by_free);
  free_of = λ p. if p == page then some free else s.free_of p;
}

unfoldable pub remove : ℕ → FreeSpace → FreeSpace
unfolding erase
remove page s = record {
  by_free = erase_old (s.free_of page) page s.by_free;
  free_of = λ p. if p == page then none else s.free_of p;
}

unfoldable pub contains : ℕ → FreeSpace → Bool
contains page s = is_some (s.free_of page)

abbrev pub page_of : Option Entry → Option ℕ
page_of none = none
page_of (some (free, page)) = some page

unfoldable pub find : ℕ → FreeSpace → Option ℕ
unfolding first_from
find needed s = page_of (first_from needed s.by_free)
