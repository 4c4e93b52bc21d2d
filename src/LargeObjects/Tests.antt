-- ===== src/LargeObjects/Tests.antt =====
-- An object of 10000 bytes.
use sgcl.Base.{◌+◌, ◌≡◌, ltb, if◌then◌else◌, refl, arith, false, []}
use sgcl.Page.{Metadata, page_of, create}
use sgcl.LargeObjects.{Large, alloc}
use sgcl.LargeObjects.Pointers.{page_of-alloc}

abbrev big : Metadata
big = record {
  address = 9;
  child_pointers = 2;
  has_destroy = false;
  object_size = 10000;
  object_count = 1;
  is_array = false;
}

abbrev no_objects : Large
no_objects = record { store = record { header = λ a. 0; page = λ a. create big 0 0 }; pages = [] }

page_of-alloc_example :
    let r = alloc big 8192 77 no_objects in
    page_of r.1.store (r.0 + 5000)
    ≡ (if ltb 5000 4088 then 77 else page_of no_objects.store (r.0 + 5000))
page_of-alloc_example = page_of-alloc big 8192 77 5000 no_objects refl (omega arith)
