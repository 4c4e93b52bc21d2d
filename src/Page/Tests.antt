-- ===== src/Page/Tests.antt =====
-- A page of 255 objects of 16 bytes at address 4096.
use sgcl.Base.{◌+◌, ◌*◌, ◌≡◌, refl, arith, true, false, ◌==◌, if◌then◌else◌}
use sgcl.State
use sgcl.Page.{Page, Store, index_of, page_of, pointer_of, base_address_of, object_count_of}
use sgcl.Page.Address.{IsPlaced, HasHeader, interior_pointer}

abbrev small_page : Page
small_page = record {
  metadata = record {
    address = 1;
    child_pointers = 2;
    has_destroy = true;
    object_size = 16;
    object_count = 255;
    is_array = false;
  };
  block = 0;
  data_address = 4104;
  multiplier = 268439552;
  reachable = false;
  unreachable = false;
  registered = false;
  is_used = true;
  on_empty_list = false;
  states = λ i. if i == 3 then State.used else State.unused;
  flags = λ i. record { registered = 3; reachable = 1; marked = 2 };
}

abbrev small_store : Store
small_store = record { header = λ x. if x == 4096 then 1000 else 0; page = λ _. small_page }

small_page-IsPlaced : IsPlaced small_page
unfolding object_count_of
small_page-IsPlaced = record {
  size_pos = omega arith;
  size_le = omega arith;
  count = refl;
  factor = refl;
  behind_header = refl;
  in_space = omega arith;
}

small_store-HasHeader : HasHeader small_store 1000
small_store-HasHeader = refl

interior_pointer_example :
    let p = 4104 + (3 * 16 + 5) in
    (page_of small_store p ≡ 1000)
    × (index_of small_page p ≡ 3)
    × (base_address_of small_store p ≡ 4104 + 3 * 16)
    × (base_address_of small_store p ≡ pointer_of small_page 3)
interior_pointer_example =
    interior_pointer small_store 1000 3 5 small_page-IsPlaced small_store-HasHeader (omega arith)
      (omega arith)
