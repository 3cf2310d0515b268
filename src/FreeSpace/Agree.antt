-- ===== src/FreeSpace/Agree.antt =====
-- The two halves of src/free_space.rs agree, and what `find` returns.
use trunkdb.Base.{
  ℕ, ◌≤◌, ◌<◌, Bool, true, false, not, ◌&&◌, ◌||◌, Option, none, some, List, [], ◌∷◌, ◌≡◌, refl,
  All, ltb, ◌==◌, if◌then◌else◌, arith, Bool-cases, inl, inr,
}
use trunkdb.FreeSpace.Defs.{
  Entry, earlier, same, insert, erase, has, first_from, FreeSpace, contains, erase_old, set, remove,
  find, page_of,
}

-- In order, without a pair that stands there twice.
abbrev pub IsSorted : List Entry → Type 0
IsSorted [] = Unit {0}
IsSorted (x ∷ xs) = All (λ y. earlier x y ≡ true) xs × IsSorted xs

-- A page's free bytes are in the set if, and only if, they are what the map says of it.
pub record IsFreeSpace (s : FreeSpace) : Type 0 where
  pub sorted : IsSorted s.by_free
  pub in_map : (free page : ℕ) → has (free, page) s.by_free ≡ true → s.free_of page ≡ some free
  pub in_set : (free page : ℕ) → s.free_of page ≡ some free → has (free, page) s.by_free ≡ true

has-insert : (z x : Entry) (xs : List Entry) → has z (insert x xs) ≡ same z x || has z xs
unfolding has insert
has-insert (f, p) (g, q) [] = refl
has-insert (f, p) (g, q) ((h, r) ∷ xs) =
    let rest = has-insert (f, p) (g, q) xs in ground (arith, rest)

All-earlier :
    (x y : Entry) (ys : List Entry)
    → earlier x y ≡ true
    → All (λ z. earlier y z ≡ true) ys
    → All (λ z. earlier x z ≡ true) ys
All-earlier x y [] e h = tt
All-earlier (f, p) (g, q) ((h, r) ∷ ys) e k =
    (ground (arith, e, k.0), All-earlier (f, p) (g, q) ys e k.1)

-- A property of both branches.
either :
    (Q : List Entry → Type 0) (b : Bool) (xs ys : List Entry)
    → (b ≡ true → Q xs)
    → (b ≡ false → Q ys)
    → Q (if b then xs else ys)
either Q true xs ys h k = h refl
either Q false xs ys h k = k refl

All-insert :
    (x y : Entry) (ys : List Entry)
    → earlier y x ≡ true
    → All (λ z. earlier y z ≡ true) ys
    → All (λ z. earlier y z ≡ true) (insert x ys)
unfolding insert
All-insert x y [] e h = (e, tt)
All-insert x y (z ∷ ys) e h =
    let above = All (λ z. earlier y z ≡ true) in
    either above (earlier x z) _ _ (λ _. (e, h))
      (λ _. either above (earlier z x) _ _ (λ _. (h.0, All-insert x y ys e h.1)) (λ _. h))

has_above :
    (x y : Entry) (ys : List Entry)
    → earlier y x ≡ false
    → All (λ z. earlier y z ≡ true) ys
    → has x ys ≡ false
unfolding has
has_above x y [] e h = refl
has_above (f, p) (g, q) ((h, r) ∷ ys) e k =
    let rest = has_above (f, p) (g, q) ys e k.1 in ground (arith, e, k.0, rest)

has-erase :
    (z x : Entry) (xs : List Entry) → IsSorted xs → has z (erase x xs) ≡ not (same z x) && has z xs
unfolding has erase
has-erase z x [] h = ground arith
has-erase (f, p) (g, q) ((h, r) ∷ xs) k =
    let rest = has-erase (f, p) (g, q) xs k.1 in
    let gone : has (h, r) xs ≡ false = has_above (h, r) (h, r) xs (ground arith) k.0 in
    elim (Bool-cases (same (f, p) (h, r))) [
      | inl here ↦
          let fs : f ≡ h = ground arith in
          let ps : p ≡ r = ground arith in
          let gone' : has (f, p) xs ≡ false = rw (fs, ps) gone in ground (arith, rest, gone')
      | inr there ↦ ground (arith, rest, gone)
    ]

IsSorted-insert : (x : Entry) (xs : List Entry) → IsSorted xs → IsSorted (insert x xs)
unfolding insert
IsSorted-insert x [] h = (tt, tt)
IsSorted-insert x (y ∷ ys) h =
    either IsSorted (earlier x y) _ _ (λ e. ((e, All-earlier x y ys e h.0), h))
      (λ _.
        either IsSorted (earlier y x) _ _ (λ e. (All-insert x y ys e h.0, IsSorted-insert x ys h.1))
          (λ _. h))

All-erase : (P : Entry → Type 0) (x : Entry) (xs : List Entry) → All P xs → All P (erase x xs)
unfolding erase
All-erase P x [] h = tt
All-erase P x (y ∷ ys) h =
    either (All P) (same x y) _ _ (λ _. h.1) (λ _. (h.0, All-erase P x ys h.1))

IsSorted-erase : (x : Entry) (xs : List Entry) → IsSorted xs → IsSorted (erase x xs)
unfolding erase
IsSorted-erase x [] h = tt
IsSorted-erase x (y ∷ ys) h =
    either IsSorted (same x y) _ _ (λ _. h.1)
      (λ _. (All-erase (λ z. earlier y z ≡ true) x ys h.0, IsSorted-erase x ys h.1))

-- What `set` and `remove` do with the pair that is not true any more.
erase_old-IsSorted :
    (old : Option ℕ) (page : ℕ) (xs : List Entry) → IsSorted xs → IsSorted (erase_old old page xs)
erase_old-IsSorted none page xs h = h
erase_old-IsSorted (some free) page xs h = IsSorted-erase (free, page) xs h

has-erase_old :
    (f p page : ℕ) (s : FreeSpace)
    → IsFreeSpace s
    → has (f, p) (erase_old (s.free_of page) page s.by_free)
      ≡ not (p == page) && has (f, p) s.by_free
has-erase_old f p page s h = by_old (s.free_of page) refl
  where
    by_old :
        (old : Option ℕ)
        → s.free_of page ≡ old
        → has (f, p) (erase_old old page s.by_free) ≡ not (p == page) && has (f, p) s.by_free
    by_old none e =
        let known : has (f, p) s.by_free ≡ true → s.free_of p ≡ some f = h.in_map f p in
        elim (Bool-cases (p == page)) [
          | inl here ↦
              let same_page : p ≡ page = ground arith in
              ground (arith, rw same_page at known, e, here)
          | inr there ↦ rw there refl
        ]
    by_old (some old) e =
        let gone = has-erase (f, p) (old, page) s.by_free h.sorted in
        let known : has (f, p) s.by_free ≡ true → s.free_of p ≡ some f = h.in_map f p in
        elim (Bool-cases (p == page)) [
          | inl here ↦
              let same_page : p ≡ page = ground arith in
              let known' : has (f, p) s.by_free ≡ true → s.free_of page ≡ some f =
                λ k. rw (← same_page) (known k) in
              ground (arith, gone, here, known', e)
          | inr there ↦ ground (arith, gone, there)
        ]

-- `remove` keeps the sorted set and the map from pages in agreement, whether or not the page was
-- in it.
pub remove-IsFreeSpace : (page : ℕ) (s : FreeSpace) → IsFreeSpace s → IsFreeSpace (remove page s)
unfolding remove
remove-IsFreeSpace page s h = record {
  sorted = erase_old-IsSorted (s.free_of page) page s.by_free h.sorted;
  in_map = λ f p e.
      let both = has-erase_old f p page s h in
      let before = h.in_map f p in ground (arith, both, before, e);
  in_set = λ f p e.
      let both = has-erase_old f p page s h in
      let before = h.in_set f p in ground (arith, both, before, e);
}

-- `set` keeps the sorted set and the map from pages in agreement, and what it wrote is what the
-- map says.
pub set-IsFreeSpace :
    (page free : ℕ) (s : FreeSpace)
    → IsFreeSpace s
    → IsFreeSpace (set page free s) × ((set page free s).free_of page ≡ some free)
unfolding set
set-IsFreeSpace page free s h = (
  record {
    sorted =
        IsSorted-insert (free, page) _
          (erase_old-IsSorted (s.free_of page) page s.by_free h.sorted);
    in_map = λ f p e.
        let both = has-erase_old f p page s h in
        let put = has-insert (f, p) (free, page) (erase_old (s.free_of page) page s.by_free) in
        let before = h.in_map f p in ground (arith, both, put, before, e);
    in_set = λ f p e.
        let both = has-erase_old f p page s h in
        let put = has-insert (f, p) (free, page) (erase_old (s.free_of page) page s.by_free) in
        let before = h.in_set f p in ground (arith, both, put, before, e);
  },
  ground arith,
)

-- The pair that is found, or none: enough room, in the set, and no pair with enough room is earlier.
abbrev pub IsFullest : ℕ → List Entry → Option Entry → Type 0
IsFullest needed xs none = (f p : ℕ) → needed ≤ f → has (f, p) xs ≡ false
IsFullest needed xs (some (free, page)) =
    (needed ≤ free)
    × (has (free, page) xs ≡ true)
    × ((f p : ℕ) → needed ≤ f → has (f, p) xs ≡ true → free ≤ f)

All-has :
    (x z : Entry) (xs : List Entry)
    → All (λ y. earlier x y ≡ true) xs
    → has z xs ≡ true
    → earlier x z ≡ true
unfolding has
All-has x z [] h e = absurd (ground (arith, e))
All-has (f, p) (g, q) ((k, r) ∷ xs) h e =
    let rest = All-has (f, p) (g, q) xs h.1 in ground (arith, rest, h.0, e)

first_from-IsFullest :
    (needed : ℕ) (xs : List Entry) → IsSorted xs → IsFullest needed xs (first_from needed xs)
unfolding first_from has
first_from-IsFullest needed [] h = λ f p e. refl
first_from-IsFullest needed ((free, page) ∷ xs) h =
    elim (ltb free needed)
        as (λ b.
          ltb free needed ≡ b
          → IsFullest needed ((free, page) ∷ xs)
              (if b then first_from needed xs else some (free, page))) [
                | true ↦ λ e.
                    pass free page xs e (first_from needed xs) (first_from-IsFullest needed xs h.1)
                | false ↦ λ e. (
                  ground arith,
                  ground arith,
                  λ f p room k. elim (Bool-cases (same (f, p) (free, page))) [
                    | inl here ↦ ground arith
                    | inr there ↦
                        let after = All-has (free, page) (f, p) xs h.0 (ground (arith, k, there)) in
                        ground (arith, after)
                  ],
                )
              ]
      refl
  where
    pass :
        (free page : ℕ) (xs : List Entry)
        → ltb free needed ≡ true
        → (r : Option Entry) → IsFullest needed xs r
        → IsFullest needed ((free, page) ∷ xs) r
    pass free page xs e none k = λ f p room. let rest = k f p room in ground (arith, rest, e)
    pass free page xs e (some (f, p)) k = (
      k.0,
      ground (arith, k.1),
      λ f' p' room there. let rest = k.2 f' p' room in ground (arith, rest, e, there),
    )

-- What `find` promises, of the map from pages alone.
abbrev pub Fullest : ℕ → FreeSpace → Option ℕ → Type 0
Fullest needed s none = (p f : ℕ) → s.free_of p ≡ some f → f < needed
Fullest needed s (some page) =
    (contains page s ≡ true)
    × ((p f free : ℕ)
        → s.free_of page ≡ some free
        → (needed ≤ free) × (s.free_of p ≡ some f → needed ≤ f → free ≤ f))

-- Where the two halves of the map agree, `find` returns a page with the bytes needed and none
-- with as many has fewer; it returns none only if no page has them.
pub find-IsFullest : (needed : ℕ) (s : FreeSpace) → IsFreeSpace s → Fullest needed s (find needed s)
unfolding find
find-IsFullest needed s h =
    of_entry (first_from needed s.by_free) (first_from-IsFullest needed s.by_free h.sorted)
  where
    of_entry : (r : Option Entry) → IsFullest needed s.by_free r → Fullest needed s (page_of r)
    of_entry none k =
        λ p f e. let there = h.in_set f p e in let absent = k f p in ground (arith, there, absent)
    of_entry (some (free, page)) k =
        let known : s.free_of page ≡ some free = h.in_map free page k.1 in
        (
          unfold contains in rw known refl,
          λ p f free' e.
              let same_free : free' ≡ free = ground (arith, known, e) in
              (rw same_free k.0, λ e' room. rw same_free (k.2 f p room (h.in_set f p e'))),
        )
