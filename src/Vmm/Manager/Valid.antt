-- ===== src/Vmm/Manager/Valid.antt =====
-- The invariant of a struct memory_manager (mem_mgmt.c), and what a cut of a range does to it.
use gapxos.Base.{
  ℕ, ◌+◌, ◌-◌, ◌*◌, ◌^◌, ◌≤◌, ◌<◌, ◌≡◌, refl, List, [], ◌∷◌, ◌++◌, arith, ◌==◌, if◌then◌else◌, ap,
  sym, subst, ◌∙◌, none, some, inl, inr, true, false, Option-cases,
}
use gapxos.Vmm.Tree.{AvlNode, range}
use gapxos.Vmm.Tree.Order.{entries}
use gapxos.Vmm.Tree.Balance.{IsAvl}
use gapxos.Vmm.Tree.Ranges.{insert_range, has_addr, insert_range-Above, has_addr-Above}
use gapxos.Vmm.Tree.Search.{fits}
use gapxos.Vmm.Tree.Search.Fit.{last_fit}
use gapxos.Vmm.Tree.Search.Tiling.{
  end_of, IsTiling, IsTiled, Tiling-Above, Tiling-le, Tiling-split, Tiling-append,
}
use gapxos.Vmm.Manager.{Manager, take_pages, update_struct}
use gapxos.Vmm.Manager.Structs.{
  IsDistinct, write_at, write_at-middle, entries-update_struct, update_struct-IsAvl,
  write_at-IsDistinct,
}

-- The ranges of the manager fill [b, e) without a gap and no two share a struct; its tree is
-- balanced. The list is sorted by this, so it is a search tree.
pub record IsValid (b e : ℕ) (m : Manager) : Type 0 where
  pub tiling : IsTiling b (entries m.tree) e
  pub top : e < 2 ^ 64
  pub distinct : IsDistinct (entries m.tree)
  pub avl : IsAvl m.tree

-- The free range is cut: its first k pages are taken, and the rest stands behind in the struct p.
abbrev pub cut : ℕ → ℕ → AvlNode → List AvlNode
cut p k n =
    if n.page_count == k
    then take_pages k n ∷ []
    else take_pages k n ∷ range p (n.addr + k * 4096) (n.page_count - k) ∷ []

pub cut-whole :
    (p k : ℕ) (n : AvlNode) (after : List AvlNode)
    → n.page_count ≡ k
    → take_pages k n ∷ after ≡ cut p k n ++ after
cut-whole p k n after same = ground arith

pub cut-part :
    (p k : ℕ) (n : AvlNode) (after : List AvlNode)
    → k < n.page_count
    → take_pages k n ∷ range p (n.addr + k * 4096) (n.page_count - k) ∷ after ≡ cut p k n ++ after
cut-part p k n after less = ground arith

-- The last fitting range, with what stands before and behind it.
pub record IsLastFit (k : ℕ) (ns : List AvlNode) (n : AvlNode) : Type 0 where
  pub before : List AvlNode
  pub after : List AvlNode
  pub split : ns ≡ before ++ n ∷ after
  pub long : k ≤ n.page_count
  pub free : n.allocated ≡ false
  pub last : last_fit k after ≡ none

pub last_fit-IsLastFit :
    (k : ℕ) (ns : List AvlNode) (n : AvlNode) → last_fit k ns ≡ some n → IsLastFit k ns n
unfolding last_fit
last_fit-IsLastFit k [] n e = ground arith
last_fit-IsLastFit k (x ∷ ns) n e = elim (Option-cases (last_fit k ns)) [
  | inl nothing ↦
      let here : (fits k x ≡ true) × (x ≡ n) = ground arith in
      record {
        before = [];
        after = ns;
        split = ap (λ y. y ∷ ns) here.1;
        long = ground arith;
        free = ground arith;
        last = nothing;
      }
  | inr (m, found) ↦
      let rest = last_fit-IsLastFit k ns n (found ∙ ground arith) in
      record {
        before = x ∷ rest.before;
        after = rest.after;
        split = ap (λ ys. x ∷ ys) rest.split;
        long = rest.long;
        free = rest.free;
        last = rest.last;
      }
]

-- A range whose beginning lies inside the range n goes right behind it.
pub insert_range-inside :
    (p a c b : ℕ) (xs : List AvlNode) (n : AvlNode) (ys : List AvlNode) (e : ℕ)
    → IsTiling b (xs ++ n ∷ ys) e
    → n.addr < a
    → a < end_of n
    → (insert_range p a c (xs ++ n ∷ ys) ≡ xs ++ n ∷ range p a c ∷ ys)
      × (has_addr a (xs ++ n ∷ ys) ≡ false)
unfolding insert_range has_addr
insert_range-inside p a c b [] n ys e t low high =
    let above = Tiling-Above a (end_of n) ys e high t.2 in
    ground (arith, insert_range-Above p a c ys above, has_addr-Above a ys above)
insert_range-inside p a c b (x ∷ xs) n ys e t low high =
    let rest = insert_range-inside p a c (end_of x) xs n ys e t.2 low high in
    ground
      (arith, Tiling-le (end_of x) xs n.addr (Tiling-split (end_of x) xs n ys e t.2).front, rest)

-- The manager after the fields of the struct of n are written.
abbrev pub marked : ℕ → AvlNode → Manager → Manager
marked k n m = record m { tree = update_struct n.ptr (take_pages k) m.tree }

pub marked-IsValid :
    (b e k : ℕ) (m : Manager) (n : AvlNode) (before tail : List AvlNode)
    → e < 2 ^ 64
    → entries m.tree ≡ before ++ n ∷ tail
    → IsDistinct (entries m.tree)
    → IsAvl m.tree
    → IsTiling b (before ++ take_pages k n ∷ tail) e
    → IsValid b e (marked k n m) × (entries (marked k n m).tree ≡ before ++ take_pages k n ∷ tail)
marked-IsValid b e k m n before tail top split distinct avl tiling =
    let f = take_pages k in
    let written = entries-update_struct n.ptr f m.tree in
    let list =
      written
      ∙ ap (write_at n.ptr f) split
      ∙ write_at-middle f before n tail (subst IsDistinct split distinct) in
    (
      record {
        tiling = subst (λ ns. IsTiling b ns e) (sym list) tiling;
        top = top;
        distinct =
            subst IsDistinct (sym written)
              (write_at-IsDistinct n.ptr f (entries m.tree) (λ x. refl) distinct);
        avl = update_struct-IsAvl n.ptr f m.tree avl;
      },
      list,
    )

-- The facts on a range of a valid manager that keep the sums of alloc_virt below 2^64.
pub range_bounds :
    (b e : ℕ) (before : List AvlNode) (n : AvlNode) (after : List AvlNode)
    → IsTiling b (before ++ n ∷ after) e
    → (end_of n ≤ e) × IsTiled b before n after e
range_bounds b e before n after t =
    let parts = Tiling-split b before n after e t in
    (Tiling-le (end_of n) after e parts.back, parts)

pub cut-IsTiling :
    (b e k p : ℕ) (before : List AvlNode) (n : AvlNode) (after : List AvlNode)
    → IsTiling b (before ++ n ∷ after) e
    → 0 < k
    → k < n.page_count
    → IsTiling b
        (before ++ take_pages k n ∷ range p (n.addr + k * 4096) (n.page_count - k) ∷ after)
        e
cut-IsTiling b e k p before n after t pos less =
    let parts = Tiling-split b before n after e t in
    let same : n.addr + k * 4096 + (n.page_count - k) * 4096 ≡ end_of n = omega arith in
    Tiling-append b before n.addr _ e parts.front
      (refl, pos, (refl, omega arith, subst (λ x. IsTiling x after e) (sym same) parts.back))
