-- ===== src/Storage/Page.antt =====
-- `PageType` and the page sizes of src/storage/mod.rs and pages.rs, and `Page` of
-- src/storage/page.rs. Copying on write leaves every other holder's bytes alone: pages are values.
use trunkdb.Base.{ℕ, ◌-◌, Bool, true, false, Option, none, some, ◌==◌, if◌then◌else◌, Bytes}

abbrev pub page_size : ℕ
page_size = 8192

abbrev pub checksum_len : ℕ
checksum_len = 4

abbrev pub usable_page_size : ℕ
usable_page_size = page_size - checksum_len

abbrev pub header_page : ℕ
header_page = 0

pub data PageType : Type 0 where
  header free catalog page_data index_leaf index_branch overflow : PageType

-- `page_type as u8`
unfoldable pub type_byte : PageType → ℕ
type_byte PageType.header = 0
type_byte PageType.free = 1
type_byte PageType.catalog = 2
type_byte PageType.page_data = 3
type_byte PageType.index_leaf = 4
type_byte PageType.index_branch = 5
type_byte PageType.overflow = 6

unfoldable pub type_of_byte : ℕ → Option PageType
type_of_byte v =
    if v == 0
    then some PageType.header
    else if v == 1
    then some PageType.free
    else if v == 2
    then some PageType.catalog
    else if v == 3
    then some PageType.page_data
    else if v == 4
    then some PageType.index_leaf
    else if v == 5
    then some PageType.index_branch
    else if v == 6
    then some PageType.overflow
    else none

unfoldable pub is_slotted : PageType → Bool
is_slotted PageType.catalog = true
is_slotted PageType.page_data = true
is_slotted PageType.index_branch = true
is_slotted PageType.index_leaf = true
is_slotted _ = false

pub record Page : Type 0 where
  pub bytes : Bytes
  pub layout_checked : Bool

unfoldable pub page_of : Bytes → Page
page_of bytes = record { bytes = bytes; layout_checked = false }

-- `make_mut`, with what is then written through it.
abbrev pub changed : Page → Bytes → Page
changed p bytes = record { bytes = bytes; layout_checked = false }

unfoldable pub known_checked : Page → Page
known_checked p = record p { layout_checked = true }
