-- ===== src/StackRoots/Tests.antt =====
-- A thread without stack pages, and the second page that is made for it.
use sgcl.Base.{ℕ, ◌≡◌, ◌↔◌, refl, arith}
use sgcl.StackRoots.{Stack, alloc}
use sgcl.StackRoots.Slots.{IsStack, IsFresh, alloc_distinct}

abbrev no_pages : Stack
no_pages = record { pages = λ _. 0 }

no_pages-IsStack : IsStack no_pages
no_pages-IsStack = record { bound = λ i. omega arith; apart = λ i j n p q. ground arith }

abbrev first_place : ℕ
first_place = 8192

abbrev second_place : ℕ
second_place = 12288

first-IsFresh : IsFresh 100000 no_pages
first-IsFresh = record {
  not_null = λ e. ground arith;
  bound = omega arith;
  apart = λ i n. ground arith;
}

second-IsFresh : IsFresh 200000 (alloc 100000 first_place no_pages).1
unfolding alloc
second-IsFresh = record {
  not_null = λ e. ground arith;
  bound = omega arith;
  apart = λ i n. ground arith;
}

alloc_distinct_example :
    ((alloc 100000 first_place no_pages).0
      ≡ (alloc 200000 second_place (alloc 100000 first_place no_pages).1).0)
    ↔ (first_place ≡ second_place)
alloc_distinct_example =
    alloc_distinct 100000 200000 first_place second_place no_pages no_pages-IsStack first-IsFresh
      second-IsFresh refl refl (omega arith) (omega arith)
