-- ===== src/Collector/Frame.antt =====
-- What marking leaves alone: the memory, the layout and the states of the pages, the registered bits
-- and the tables of the types, of which only the list of offsets is filled in.
use sgcl.Base.{ℕ, ◌≡◌, refl, ◌∙◌, some, List}
use sgcl.ChildPointers.{offsets_of}
use sgcl.Heap.{Heap, page_at, flag_at}

pub record Frame (h h' : Heap) : Type 0 where
  pub memory : h'.memory ≡ h.memory
  pub header : h'.store.header ≡ h.store.header
  pub arrays : h'.array_metadata ≡ h.array_metadata
  pub maps : (c : ℕ) → (h'.childs c).map ≡ (h.childs c).map
  pub metadata : (a : ℕ) → (page_at h' a).metadata ≡ (page_at h a).metadata
  pub data_address : (a : ℕ) → (page_at h' a).data_address ≡ (page_at h a).data_address
  pub multiplier : (a : ℕ) → (page_at h' a).multiplier ≡ (page_at h a).multiplier
  pub states : (a : ℕ) → (page_at h' a).states ≡ (page_at h a).states
  pub registered : (a i : ℕ) → (flag_at h' a i).registered ≡ (flag_at h a i).registered
  pub lists : h'.registered_pages ≡ h.registered_pages

pub Frame-refl : (h : Heap) → Frame h h
Frame-refl h = record {
  memory = refl;
  header = refl;
  arrays = refl;
  maps = λ c. refl;
  metadata = λ a. refl;
  data_address = λ a. refl;
  multiplier = λ a. refl;
  states = λ a. refl;
  registered = λ a i. refl;
  lists = refl;
}

pub Frame-trans : {h h' h'' : Heap} → Frame h h' → Frame h' h'' → Frame h h''
Frame-trans f g = record {
  memory = g.memory ∙ f.memory;
  header = g.header ∙ f.header;
  arrays = g.arrays ∙ f.arrays;
  maps = λ c. g.maps c ∙ f.maps c;
  metadata = λ a. g.metadata a ∙ f.metadata a;
  data_address = λ a. g.data_address a ∙ f.data_address a;
  multiplier = λ a. g.multiplier a ∙ f.multiplier a;
  states = λ a. g.states a ∙ f.states a;
  registered = λ a i. g.registered a i ∙ f.registered a i;
  lists = g.lists ∙ f.lists;
}

-- The list of pages that are swept stays.
pub record SameSweep (h h' : Heap) : Type 0 where
  pub pages : h'.unreachable_pages ≡ h.unreachable_pages
  pub flags : (a : ℕ) → (page_at h' a).unreachable ≡ (page_at h a).unreachable

pub SameSweep-refl : (h : Heap) → SameSweep h h
SameSweep-refl h = record { pages = refl; flags = λ a. refl }

pub SameSweep-trans : {h h' h'' : Heap} → SameSweep h h' → SameSweep h' h'' → SameSweep h h''
SameSweep-trans s t = record { pages = t.pages ∙ s.pages; flags = λ a. t.flags a ∙ s.flags a }

-- A table's list of offsets is the one that its map gives.
abbrev pub CacheOk : Heap → Type 0
CacheOk h =
    (c : ℕ) (os : List ℕ) → (h.childs c).offsets ≡ some os → os ≡ offsets_of (h.childs c).map
