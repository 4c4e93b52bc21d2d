-- ===== src/TrackedPtr/Tests.antt =====
-- A memory with one page, an atomic pointer at 8 and two pointers at 16 and 24.
use sgcl.Base.{◌≡◌, ◌==◌, if◌then◌else◌, max, false, true}
use sgcl.State
use sgcl.Page.{no_flags}
use sgcl.TrackedPtr.{Memory, store, atomic_compare_exchange_strong}
use sgcl.TrackedPtr.Barrier.{state_at, points_to, store_lem}
use sgcl.TrackedPtr.Compare.{compare_exchange_words}

abbrev one_page : Memory
one_page = record {
  store = record {
    header = λ _. 1000;
    page = λ _. record {
      metadata = record {
        address = 1;
        child_pointers = 2;
        has_destroy = true;
        object_size = 16;
        object_count = 255;
        is_array = false;
      };
      block = 0;
      data_address = 4104;
      multiplier = 268439552;
      reachable = false;
      unreachable = false;
      registered = false;
      is_used = true;
      on_empty_list = false;
      states = λ i. if i == 0 then State.used else State.unused;
      flags = λ _. no_flags;
    };
  };
  words = λ x. if x == 8 then 4104 else if x == 16 then 4120 else 0;
}

store_lem_example :
    ((store 24 4104 one_page).words 24 ≡ (if 24 == 24 then 4104 else one_page.words 24))
    × (state_at (store 24 4104 one_page) 1000 0 ≡ (
        if points_to one_page 4104 1000 0
        then max (state_at one_page 1000 0) State.reachable
        else state_at one_page 1000 0))
store_lem_example = store_lem 24 4104 one_page 24 1000 0

compare_exchange_words_example :
    let r = atomic_compare_exchange_strong 8 16 24 one_page in
    (r.0 ≡ (one_page.words 8 == one_page.words 16))
    × (r.1.words 16 ≡ (
        if r.0
        then if 8 == 16 then one_page.words 24 else one_page.words 16
        else if 16 == 16
        then one_page.words 8
        else one_page.words 16))
compare_exchange_words_example = compare_exchange_words 8 16 24 one_page 16
