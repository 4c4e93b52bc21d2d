-- ===== src/BlockAllocator/Release.antt =====
-- sgcl/priv/block_allocator.h, `free`: which pages stay free and which blocks are deleted.
use sgcl.Base.{
  ℕ, ◌+◌, ◌≤◌, ◌≡◌, refl, ap, ◌∙◌, arith, ◌==◌, if◌then◌else◌, Bool-cases, inl, inr, List, [], ◌∷◌,
  ◌++◌, for_each,
}
use mathlib.Core.List.{append-nil}
use sgcl.Base.Lists.{occurs}
use sgcl.BlockAllocator.{
  Blocks, Count, block_pages, count_page, keep_pages, release_block, free_take, free_give, free,
}

-- How many pages of `pages` lie in block `b`.
pub pages_in : (ℕ → ℕ) → ℕ → List ℕ → ℕ
pages_in block b [] = 0
pages_in block b (p ∷ pages) = (if block p == b then 1 else 0) + pages_in block b pages

-- Each block that was counted is listed once.
IsListed : Count → Type 0
IsListed c = (b : ℕ) → occurs b c.blocks ≡ (if c.page_count b == 0 then 0 else 1)

count_page-IsListed :
    (block : ℕ → ℕ) (p : ℕ) (c : Count) → IsListed c → IsListed (count_page block p c)
unfolding count_page IsListed occurs
count_page-IsListed block p c l b = ground (arith, l b, l (block p))

counted :
    (block : ℕ → ℕ) (pages : List ℕ) (c : Count) (b : ℕ)
    → (for_each (count_page block) pages c).page_count b ≡ c.page_count b + pages_in block b pages
unfolding for_each pages_in count_page
counted block [] c b = omega arith
counted block (p ∷ pages) c b = ground (arith, counted block pages (count_page block p c) b)

listed :
    (block : ℕ → ℕ) (pages : List ℕ) (c : Count)
    → IsListed c
    → IsListed (for_each (count_page block) pages c)
unfolding for_each
listed block [] c l = l
listed block (p ∷ pages) c l =
    listed block pages (count_page block p c) (count_page-IsListed block p c l)

-- What the deletions do with the blocks of `xs`.
record Released (xs : List ℕ) (s t : Blocks) : Type 0 where
  counts :
      (b : ℕ)
      → t.page_count b ≡ (
          if occurs b xs == 0
          then s.page_count b
          else if s.page_count b == block_pages
          then block_pages
          else 0)
  deleted :
      (b : ℕ)
      → occurs b t.deleted
        ≡ (if s.page_count b == block_pages then occurs b xs else 0) + occurs b s.deleted
  empties : t.empty_pages ≡ s.empty_pages

released : (xs : List ℕ) (s : Blocks) → Released xs s (for_each release_block xs s)
unfolding for_each occurs release_block
released [] s = record { counts = λ b. ground arith; deleted = λ b. ground arith; empties = refl }
released (x ∷ xs) s =
    let r = released xs (release_block x s) in
    record {
      counts = λ b. ground (arith, r.counts b);
      deleted = λ b. ground (arith, r.deleted b);
      empties = r.empties ∙ ground arith;
    }

-- The pages of a list whose blocks do not have as many pages in `all` as a block has, in order.
pub partial_pages : (ℕ → ℕ) → List ℕ → List ℕ → List ℕ
partial_pages block all [] = []
partial_pages block all (p ∷ pages) =
    (if pages_in block (block p) all == 15 then [] else p ∷ []) ++ partial_pages block all pages

keep_pages-partial_pages :
    (block count : ℕ → ℕ) (all pages : List ℕ)
    → ((b : ℕ) → count b ≡ pages_in block b all)
    → keep_pages block count pages ≡ partial_pages block all pages
unfolding keep_pages partial_pages
keep_pages-partial_pages block count all [] e = refl
keep_pages-partial_pages block count all (p ∷ pages) e =
    elim (Bool-cases (pages_in block (block p) all == block_pages)) [
      | inl t ↦ rw (e (block p), t) (keep_pages-partial_pages block count all pages e)
      | inr f ↦
          rw (e (block p), f) (ap (λ l. p ∷ l) (keep_pages-partial_pages block count all pages e))
    ]

-- With all counts at zero, `free` keeps on the list, in order, those of the given and the free pages
-- whose blocks do not have all their 15 pages there; it deletes each block that has
-- all its pages there once, and no other block, and sets the counts of the others back to zero.
pub free_lem :
    (pages : List ℕ) (s : Blocks)
    → ((b : ℕ) → s.page_count b ≡ 0)
    → let all = pages ++ s.empty_pages in
      ((free pages s).empty_pages ≡ partial_pages s.block all all)
      × ((b : ℕ)
          → (occurs b (free pages s).deleted
              ≡ (if pages_in s.block b all == 15 then 1 else 0) + occurs b s.deleted)
            × ((free pages s).page_count b ≡ (if pages_in s.block b all == 15 then 15 else 0)))
unfolding free free_take free_give IsListed occurs
free_lem pages s zero = (
  r.empties ∙ keep_pages-partial_pages s.block c.page_count all all total,
  λ b. (ground (arith, r.deleted b, once b, total b), ground (arith, r.counts b, once b, total b)),
)
  where
    all : List ℕ
    all = pages ++ s.empty_pages

    c : Count
    c = for_each (count_page s.block) all (record { page_count = s.page_count; blocks = [] })

    total : (b : ℕ) → c.page_count b ≡ pages_in s.block b all
    total b =
        omega
          (arith, counted s.block all (record { page_count = s.page_count; blocks = [] }) b, zero b)

    once : IsListed c
    once = listed s.block all _ (λ b. ground (arith, zero b))

    t : Blocks
    t = record s { page_count = c.page_count; empty_pages = keep_pages s.block c.page_count all }

    r : Released c.blocks t (for_each release_block c.blocks t)
    r = released c.blocks t

keep_pages_le :
    (block count : ℕ → ℕ) (pages : List ℕ) (x : ℕ)
    → occurs x (keep_pages block count pages) ≤ occurs x pages
unfolding keep_pages occurs
keep_pages_le block count [] x = omega arith
keep_pages_le block count (p ∷ pages) x = elim (Bool-cases (count (block p) == block_pages)) [
  | inl t ↦ rw t (omega (arith, keep_pages_le block count pages x))
  | inr f ↦ rw f (omega (arith, keep_pages_le block count pages x))
]

give_le :
    (pages : List ℕ) (s : Blocks) (x : ℕ)
    → occurs x (free_give pages s).empty_pages ≤ occurs x pages
unfolding free_give
give_le pages s x =
    omega (arith, ap (occurs x) (released _ _).empties, keep_pages_le s.block _ pages x)

-- When two threads free pages, and each takes the list before the other one gives it back, then no
-- page is on the list afterwards that the thread which gives back last did not free itself: the
-- pages of the other thread and those that were free before are lost.
pub free_race :
    (first second : List ℕ) (s : Blocks) (x : ℕ)
    → let t1 = free_take first s in
      let t2 = free_take second t1.1 in
      occurs x (free_give t2.0 (free_give t1.0 t2.1)).empty_pages ≤ occurs x second
unfolding free_take
free_race first second s x = omega (
  arith,
  give_le (second ++ []) (free_give (first ++ s.empty_pages) (record s { empty_pages = [] })) x,
  ap (occurs x) (append-nil second),
)
