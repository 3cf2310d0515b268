-- ===== src/Tests/Pages.antt =====
-- src/storage/slotted.rs and src/free_space.rs at concrete pages.
use trunkdb.Base.{
  false, ℕ, ◌≤◌, ◌<◌, ◌≡◌, refl, ◌↔◌, none, some, [], ◌∷◌, get_or, replicate, length-replicate,
  Bytes, arith,
}
use trunkdb.Base.Buffer.{get_u16, set_u16, slice, splice}
use trunkdb.Base.ByteString.{to_le, from_le}
use trunkdb.FreeSpace.Agree.{
  IsFreeSpace, set-IsFreeSpace, remove-IsFreeSpace, find-IsFullest, Fullest,
}
use trunkdb.FreeSpace.Defs.{FreeSpace, default_space, set, remove, find, has}
use trunkdb.Storage.Cache.Agree.{IsPageCache}
use trunkdb.Storage.Cache.Defs
use trunkdb.Storage.Cache.Defs.{PageCache, put, evict}
use trunkdb.Storage.Cache.Put.{IsPut, put-IsPut}
use trunkdb.Storage.Page.{PageType, page_of, type_byte, type_of_byte, is_slotted}
use trunkdb.Storage.Slotted.Cells.{insert_cell, get_cell}
use trunkdb.Storage.Slotted.Defs.{
  SlottedPage, new, bytes_of, min_cell, slot_count, free_space, check_layout, check_slots,
  layout_ok, data_start,
}
use trunkdb.Storage.Slotted.Insert.{insert_cell_lem, insert_cell_full}
use trunkdb.Storage.Slotted.Layout.{IsLayout, check_layout_iff}

abbrev empty_page : SlottedPage
empty_page = new PageType.page_data

empty_ok : check_layout (bytes_of empty_page) ≡ layout_ok
unfolding check_layout new page_of set_u16 splice to_le type_of_byte type_byte is_slotted get_u16
    from_le slice check_slots
empty_ok = refl

check_layout_iff_example :
    (check_layout (bytes_of empty_page) ≡ layout_ok) ↔ IsLayout (bytes_of empty_page)
check_layout_iff_example = check_layout_iff (bytes_of empty_page)

empty-IsLayout : IsLayout (bytes_of empty_page)
empty-IsLayout = (check_layout_iff (bytes_of empty_page)).0 empty_ok

abbrev cell : Bytes
cell = 5 ∷ 6 ∷ 7 ∷ []

room : free_space empty_page ≡ 8175
unfolding free_space data_start slot_count new page_of set_u16 splice to_le type_byte get_u16
    from_le slice
room = refl

long_enough : min_cell (get_or (bytes_of empty_page) 0 0) ≤ 3
unfolding min_cell new page_of set_u16 splice to_le type_byte
long_enough = omega arith

insert_cell_lem_example :
    ((insert_cell empty_page cell).1 ≡ some (slot_count empty_page))
    × (get_cell (insert_cell empty_page cell).0 (slot_count empty_page) ≡ some cell)
    × ((i : ℕ)
        → i < slot_count empty_page
        → get_cell (insert_cell empty_page cell).0 i ≡ get_cell empty_page i)
    × IsLayout (bytes_of (insert_cell empty_page cell).0)
insert_cell_lem_example =
    insert_cell_lem empty_page cell empty-IsLayout (omega arith) long_enough (omega (arith, room))

abbrev too_long : Bytes
too_long = replicate 8172 1

insert_cell_full_example : insert_cell empty_page too_long ≡ (empty_page, none)
insert_cell_full_example =
    insert_cell_full empty_page too_long (omega (arith, room, length-replicate {A = ℕ} 8172 1))

-- Two pages with room.
empty-IsFreeSpace : IsFreeSpace default_space
unfolding has
empty-IsFreeSpace = record {
  sorted = tt;
  in_map = λ free page e. absurd (ground (arith, e));
  in_set = λ free page e. absurd (ground (arith, e));
}

abbrev one_page : FreeSpace
one_page = set 7 300 default_space

one-IsFreeSpace : IsFreeSpace one_page
one-IsFreeSpace = (set-IsFreeSpace 7 300 default_space empty-IsFreeSpace).0

set-IsFreeSpace_example :
    IsFreeSpace (set 9 100 one_page) × ((set 9 100 one_page).free_of 9 ≡ some 100)
set-IsFreeSpace_example = set-IsFreeSpace 9 100 one_page one-IsFreeSpace

remove-IsFreeSpace_example : IsFreeSpace (remove 7 one_page)
remove-IsFreeSpace_example = remove-IsFreeSpace 7 one_page one-IsFreeSpace

find-IsFullest_example : Fullest 200 one_page (find 200 one_page)
find-IsFullest_example = find-IsFullest 200 one_page one-IsFreeSpace

-- A cache of one page, which goes for the next.
abbrev no_pages : PageCache
no_pages = Defs.new 1

no_pages-IsPageCache : IsPageCache no_pages
unfolding Defs.new
no_pages-IsPageCache = record {
  in_index = λ at slot e. absurd (ground (arith, e));
  in_slots = λ id at e. absurd (ground (arith, e));
  hand_lt = λ h. absurd (omega (arith, h));
  hand_zero = λ h. refl;
  size = omega arith;
}

abbrev full : PageCache
full = record no_pages {
  slots = record { id = 3; page = cell; referenced = false } ∷ [];
  index = Defs.index_insert 3 0 no_pages.index;
}

full-IsPageCache : IsPageCache full
unfolding put Defs.new
full-IsPageCache = (put-IsPut 3 cell no_pages no_pages-IsPageCache).0

put-IsPut_example : IsPut 4 too_long 1 (put 4 too_long full)
unfolding Defs.new
put-IsPut_example = put-IsPut 4 too_long full full-IsPageCache
