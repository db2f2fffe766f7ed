-- ===== src/Examples/Heap.antt =====
-- heap.c on one page with two free blocks and four allocated ones.
use gapxos.Base.{ℕ, ◌≡◌, refl, arith, Option, none, some, List, [], ◌∷◌, ◌==◌, if◌then◌else◌}
use gapxos.Vmm.Tree.{insert_node, rebalance, rotate, balance, update_height, height}
use gapxos.Vmm.Tree.Search.{avl_min_size}
use gapxos.Vmm.Manager.{
  update_struct, avl_insert, split_range, alloc_virt, malloc_pages, map_new, lock_mgr, unlock_mgr,
}
use gapxos.Heap.{Block, Heap, malloc, free, take_block}
use gapxos.Heap.Chain.{Cell}
use gapxos.Heap.Apart.{Apart}
use gapxos.Heap.Pages.{PageView, IsHeap, with_lists}
use gapxos.Heap.Grow.{GivesPage}
use gapxos.Heap.Take.{Place, IsTaken}
use gapxos.Heap.Malloc.{IsSource, malloc-IsTaken}
use gapxos.Heap.Widen.{wide}
use gapxos.Heap.Free.{Held, given_back, free-IsWidened}
use gapxos.Heap.Again.{take_block-free}
use gapxos.Heap.Append.{HasLists}
use gapxos.Heap.Return.{free-HasLists, free-IsReturned}
use gapxos.Heap.Keep.{free-IsKept}
use gapxos.Examples.Manager.{machine, idle}

abbrev cell : ℕ → ℕ → Cell
cell a n = record { addr = a; length = n }

-- The first block of the page stands in front of the first free one, which the second stands
-- behind.
abbrev first : Cell
first = cell 65560 8

abbrev gap : Cell
gap = cell 65592 40

abbrev second : Cell
second = cell 65656 16

abbrev third : Cell
third = cell 65800 10

abbrev fourth : Cell
fourth = cell 65900 8

abbrev hole : Cell
hole = cell 66000 30

abbrev view : PageView
view = record {
  addr = 65536;
  free = gap ∷ (hole ∷ []);
  used = third ∷ (second ∷ (first ∷ (fourth ∷ [])));
}

abbrev block : ℕ → ℕ → Option Block
block n l = some (record { next = n; pghdr = 65536; length = l })

abbrev blocks : ℕ → Option Block
blocks i =
    if i == 65592
    then block 66000 40
    else (if i == 66000
        then block 0 30
        else (if i == 65800
            then block 65656 10
            else (if i == 65656
                then block 65560 16
                else (if i == 65560
                    then block 65900 8
                    else (if i == 65900 then block 0 8 else none)))))

abbrev heap : Heap ℕ
heap = record {
  heap_root = 65536;
  pages =
      λ i. if i == 65536 then some (record { next = 0; free = 65592; allocated = 65800 }) else none;
  blocks = blocks;
  kern_vmm = some idle;
  memory = 4;
}

heap-IsHeap : IsHeap (view ∷ []) heap
heap-IsHeap = record {
  root_is = refl;
  pages_are = (
    record {
      some_page = omega arith;
      page_header = refl;
      free_chain = (omega arith, refl, (omega arith, refl, tt));
      used_chain =
          (omega arith, refl, (omega arith, refl, (omega arith, refl, (omega arith, refl, tt))));
      inside = omega arith;
      apart = omega arith;
    },
    tt,
    tt,
  );
}

gives : GivesPage machine 100 (view ∷ []) heap
unfolding malloc_pages lock_mgr alloc_virt avl_min_size split_range avl_insert insert_node rebalance
    rotate balance update_height height update_struct map_new unlock_mgr
gives = record {
  p = 0x3000;
  vmm = _;
  memory' = _;
  gives = refl;
  some_page = omega arith;
  far = omega arith;
}

malloc-IsTaken_example :
    (vs1 : List PageView) × (place : Place vs1) × (r : ℕ) × (h' : Heap ℕ) × (vs' : List PageView)
    × IsSource machine 10 100 (view ∷ []) heap vs1
    × (malloc machine 10 100 heap ≡ some (r, h'))
    × IsHeap vs' h'
    × IsTaken 100 vs1 place vs' r
malloc-IsTaken_example =
    malloc-IsTaken machine 10 100 (view ∷ []) heap (omega arith) heap-IsHeap (omega arith)
      (λ full. gives)

abbrev place_of_gap : Place (view ∷ [])
place_of_gap = record {
  before = [];
  page = view;
  after = [];
  free_before = [];
  cell = gap;
  free_after = hole ∷ [];
  pages_split = refl;
  free_split = refl;
}

take_block-free_example :
    (r : ℕ) × (h' : Heap ℕ) × (h'' : Heap ℕ) × (take_block 9 10 65592 heap ≡ some (r, h'))
    × (free machine 9 r h' ≡ given_back machine 65536 view.used h'')
    × IsHeap (view ∷ []) h''
take_block-free_example =
    take_block-free machine 9 10 heap (view ∷ []) place_of_gap heap-IsHeap (omega arith)
      (omega arith) (omega arith) tt

abbrev held_second : Held (view ∷ [])
held_second = record {
  before = [];
  page = view;
  after = [];
  used_before = third ∷ [];
  cell = second;
  used_after = first ∷ (fourth ∷ []);
  pages_split = refl;
  used_split = refl;
}

free-IsWidened_example :
    (h' : Heap ℕ) × (free machine 9 65680 heap
      ≡ given_back machine 65536 (third ∷ (first ∷ (fourth ∷ []))) h')
    × IsHeap
        (with_lists view (wide gap second ∷ (hole ∷ [])) (third ∷ (first ∷ (fourth ∷ []))) ∷ [])
        h'
free-IsWidened_example =
    free-IsWidened machine 9 heap (view ∷ []) held_second [] gap (hole ∷ []) heap-IsHeap
      (omega arith) (omega arith) refl refl tt

abbrev held_third : Held (view ∷ [])
held_third = record {
  before = [];
  page = view;
  after = [];
  used_before = [];
  cell = third;
  used_after = second ∷ (first ∷ (fourth ∷ []));
  pages_split = refl;
  used_split = refl;
}

free-HasLists_example :
    (h' : Heap ℕ) × (free machine 9 65824 heap
      ≡ given_back machine 65536 (second ∷ (first ∷ (fourth ∷ []))) h')
    × HasLists 0 65536
        (gap ∷ (hole ∷ (third ∷ (second ∷ (first ∷ (fourth ∷ []))))))
        (second ∷ (first ∷ (fourth ∷ [])))
        h'
free-HasLists_example =
    free-HasLists machine 9 heap (view ∷ []) held_third heap-IsHeap (omega arith) (omega arith)
      (omega arith)

abbrev held_fourth : Held (view ∷ [])
held_fourth = record {
  before = [];
  page = view;
  after = [];
  used_before = third ∷ (second ∷ (first ∷ []));
  cell = fourth;
  used_after = [];
  pages_split = refl;
  used_split = refl;
}

free-IsReturned_example :
    (h' : Heap ℕ) × (free machine 9 65924 heap
      ≡ given_back machine 65536 (third ∷ (second ∷ (first ∷ []))) h')
    × IsHeap
        (with_lists view (gap ∷ (hole ∷ (fourth ∷ []))) (third ∷ (second ∷ (first ∷ []))) ∷ [])
        h'
free-IsReturned_example =
    free-IsReturned machine 9 heap (view ∷ []) held_fourth heap-IsHeap (omega arith) (omega arith)
      (omega arith) refl

abbrev held_first : Held (view ∷ [])
held_first = record {
  before = [];
  page = view;
  after = [];
  used_before = third ∷ (second ∷ []);
  cell = first;
  used_after = fourth ∷ [];
  pages_split = refl;
  used_split = refl;
}

free-IsKept_example :
    (h' : Heap ℕ) × (free machine 9 65584 heap ≡ some h')
    × HasLists 0 65536 (gap ∷ (hole ∷ [])) (third ∷ (second ∷ (wide first gap ∷ (fourth ∷ [])))) h'
    × (¬ Apart (wide first gap) gap)
free-IsKept_example =
    free-IsKept machine 9 heap (view ∷ []) held_first gap (hole ∷ []) heap-IsHeap (omega arith)
      (omega arith) refl refl
