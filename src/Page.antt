-- ===== src/Page.antt =====
-- sgcl/priv/page.h, sgcl/priv/metadata.h and sgcl/priv/page_info.h: a page of objects of one size,
-- with a state byte and three flag bits for each object, and the static functions that find the
-- page, the index and the state of an object from a pointer to any byte of it.
-- The `next_*` links of a page are the lists of the modules that own them.
pub mod Address
pub mod Layout
pub mod States
mod Tests
use Prim.Native.Nat.{bit_and, bit_or}
use sgcl.Base.{
  ℕ, ◌+◌, ◌-◌, ◌*◌, ◌/◌, ◌%◌, ◌^◌, max, Bool, true, false, ltb, ◌==◌, if◌then◌else◌, update,
  for_range,
}
use sgcl.Base.Bits.{complement}
use sgcl.State
use sgcl.Types.{word_size, page_size, page_data_size}

-- `Page::Flags`: 64 objects share one group of three words.
pub record Flags : Type 0 where
  pub registered : ℕ
  pub reachable : ℕ
  pub marked : ℕ

abbrev pub flag_bit_count : ℕ
flag_bit_count = 64

-- `Metadata`. `address` is where it lies, `child_pointers` the address of the type's table, and
-- `has_destroy` says that the pointer `destroy` is not null. The intrusive `empty_page` and `next`
-- are kept by the collector.
pub record Metadata : Type 0 where
  pub address : ℕ
  pub child_pointers : ℕ
  pub has_destroy : Bool
  pub object_size : ℕ
  pub object_count : ℕ
  pub is_array : Bool

pub record Page : Type 0 where
  pub metadata : Metadata
  pub block : ℕ
  pub data_address : ℕ
  pub multiplier : ℕ
  pub reachable : Bool
  pub unreachable : Bool
  pub registered : Bool
  pub is_used : Bool
  pub on_empty_list : Bool
  pub states : ℕ → ℕ
  pub flags : ℕ → Flags

abbrev pub no_flags : Flags
no_flags = record { registered = 0; reachable = 0; marked = 0 }

-- The constructor.
unfoldable pub create : Metadata → ℕ → ℕ → Page
create m block address = record {
  metadata = m;
  block = block;
  data_address = address;
  multiplier = bit_or (2 ^ 32) 0x10000 / m.object_size;
  reachable = false;
  unreachable = false;
  registered = false;
  is_used = true;
  on_empty_list = false;
  states = λ _. State.reserved;
  flags = λ _. no_flags;
}

-- `Page_info::ObjectCount`
pub object_count_of : ℕ → ℕ
object_count_of object_size = max 1 (page_data_size / object_size)

-- Rounding up to a multiple of the word size, as `states` and `StatesSize` do.
pub align_word : ℕ → ℕ
align_word n = bit_and (n + word_size - 1) (complement 64 (word_size - 1))

-- Where the state bytes and the flags lie, behind a `Page` of `page_bytes` bytes at `this`.
pub states_address : ℕ → ℕ → ℕ
states_address page_bytes this = this + page_bytes

unfoldable pub flags_address : ℕ → ℕ → Metadata → ℕ
flags_address page_bytes this m = states_address page_bytes this + align_word m.object_count

-- sizeof(Flags)
abbrev pub flags_size : ℕ
flags_size = 24

unfoldable pub flags_count : Page → ℕ
flags_count p = (p.metadata.object_count + flag_bit_count - 1) / flag_bit_count

-- `Page_info::HeaderSize`, the bytes allocated for a page's header.
unfoldable pub header_size : ℕ → ℕ → ℕ
header_size page_bytes object_size =
    let count = object_count_of object_size in
    page_bytes + align_word count + flags_size * ((count + flag_bit_count - 1) / flag_bit_count)

clear_flag : ℕ → Page → Page
clear_flag i p = record p {
  flags = update p.flags i (record (p.flags i) { reachable = 0; marked = 0 });
}

unfoldable pub clear_flags : Page → Page
unfolding clear_flag
clear_flags p = for_range (flags_count p) 0 clear_flag p

abbrev pub flag_index_of : ℕ → ℕ
flag_index_of i = i / flag_bit_count

abbrev pub flag_mask_of : ℕ → ℕ
flag_mask_of i = 2 ^ (i % flag_bit_count)

-- Unsigned 64-bit arithmetic, cut to the 32 bits of the `unsigned` result.
unfoldable pub index_of : Page → ℕ → ℕ
index_of page p =
    (p + 2 ^ 64 - page.data_address) % 2 ^ 64 * page.multiplier % 2 ^ 64 / 2 ^ 32 % 2 ^ 32

unfoldable pub pointer_of : Page → ℕ → ℕ
pointer_of page index = (page.data_address + index * page.metadata.object_size) % 2 ^ 64

-- The pages by address, and the word at the start of each data page, which holds its page's address.
pub record Store : Type 0 where
  pub header : ℕ → ℕ
  pub page : ℕ → Page

unfoldable pub page_start : ℕ → ℕ
page_start p = bit_and p (complement 64 (page_size - 1))

unfoldable pub page_of : Store → ℕ → ℕ
page_of s p = s.header (page_start p)

unfoldable pub metadata_of : Store → ℕ → Metadata
metadata_of s p = (s.page (page_of s p)).metadata

unfoldable pub base_address_of : Store → ℕ → ℕ
base_address_of s p = let page = s.page (page_of s p) in pointer_of page (index_of page p)

-- The state of the object that `p` points into.
unfoldable pub state_of : Store → ℕ → ℕ
state_of s p = let page = s.page (page_of s p) in page.states (index_of page p)

unfoldable pub set_state : Store → ℕ → ℕ → Store
set_state s p v =
    let a = page_of s p in
    let page = s.page a in
    record s {
      page = update s.page a (record page { states = update page.states (index_of page p) v });
    }

unfoldable pub update_state : Store → ℕ → ℕ → Store
update_state s p v = if ltb (state_of s p) v then set_state s p v else s

unfoldable pub is_unique : Store → ℕ → Bool
is_unique s p = state_of s p == State.unique_lock
