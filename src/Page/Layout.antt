-- ===== src/Page/Layout.antt =====
-- sgcl/priv/page_info.h and sgcl/priv/page.h: the header that is allocated for a page holds its
-- state bytes and its flags side by side.
use sgcl.Base.{ℕ, ◌+◌, ◌-◌, ◌*◌, ◌%◌, ◌^◌, ◌≤◌, ◌<◌, ◌≡◌, sym, ap, arith}
use sgcl.Base.Bits.{bit_and-complement}
use sgcl.Types.{word_size}
use sgcl.Page.{
  Page, object_count_of, align_word, states_address, flags_address, flags_size, flags_count,
  header_size, flag_index_of,
}

pub align_word_lem :
    (n : ℕ)
    → n + 7 < 2 ^ 64
    → (align_word n % word_size ≡ 0) × (n ≤ align_word n) × (align_word n < n + word_size)
unfolding align_word
align_word_lem n h = omega (arith, bit_and-complement 3 64 (n + 8 - 1) (omega arith) (omega arith))

-- A page header of `HeaderSize` bytes has room for a state byte and three flag bits of each object:
-- the state bytes end before the flags begin, the flags are aligned if the page is, each object's
-- flag group is one of `flags_count`, and the last group ends with the header.
header_layout :
    (p : Page) (page_bytes this i : ℕ)
    → p.metadata.object_count ≡ object_count_of p.metadata.object_size
    → p.metadata.object_count + 7 < 2 ^ 64
    → (this + page_bytes) % word_size ≡ 0
    → i < p.metadata.object_count
    → (states_address page_bytes this + i < flags_address page_bytes this p.metadata)
      × (flags_address page_bytes this p.metadata % word_size ≡ 0)
      × (flag_index_of i < flags_count p)
      × (flags_address page_bytes this p.metadata + flags_size * flags_count p
          ≡ this + header_size page_bytes p.metadata.object_size)
unfolding states_address flags_address flags_count header_size
header_layout p page_bytes this i count small aligned lt =
    omega (arith, align_word_lem p.metadata.object_count small, same)
  where
    same : align_word (object_count_of p.metadata.object_size) ≡ align_word p.metadata.object_count
    same = ap align_word (sym count)
