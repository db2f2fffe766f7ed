-- ===== src/Vmm/Tree/Search/Tiling.antt =====
-- Ranges that follow one another without a gap, as the memory manager of mem_mgmt.c keeps them.
use gapxos.Base.{ℕ, ◌+◌, ◌*◌, ◌≤◌, ◌<◌, ◌≡◌, sym, subst, List, [], ◌∷◌, ◌++◌, arith}
use gapxos.Vmm.Tree.{AvlNode}
use gapxos.Vmm.Tree.Ranges.{Above, IsSorted}

-- The address behind the range.
abbrev pub end_of : AvlNode → ℕ
end_of n = n.addr + n.page_count * 4096

-- The ranges fill [b, e) in order, and none is empty.
abbrev pub IsTiling : ℕ → List AvlNode → ℕ → Type 0
IsTiling b [] e = b ≡ e
IsTiling b (n ∷ ns) e = (n.addr ≡ b) × (0 < n.page_count) × IsTiling (end_of n) ns e

pub Tiling-le : (b : ℕ) (ns : List AvlNode) (e : ℕ) → IsTiling b ns e → b ≤ e
Tiling-le b [] e t = omega arith
Tiling-le b (n ∷ ns) e t = omega (arith, Tiling-le (end_of n) ns e t.2)

pub Tiling-Above : (k b : ℕ) (ns : List AvlNode) (e : ℕ) → k < b → IsTiling b ns e → Above k ns
Tiling-Above k b [] e h t = tt
Tiling-Above k b (n ∷ ns) e h t = (omega arith, Tiling-Above k (end_of n) ns e (omega arith) t.2)

pub Tiling-IsSorted : (b : ℕ) (ns : List AvlNode) (e : ℕ) → IsTiling b ns e → IsSorted ns
Tiling-IsSorted b [] e t = tt
Tiling-IsSorted b (n ∷ ns) e t =
    (Tiling-Above n.addr (end_of n) ns e (omega arith) t.2, Tiling-IsSorted (end_of n) ns e t.2)

pub record IsTiled (b : ℕ) (xs : List AvlNode) (n : AvlNode) (ys : List AvlNode) (e : ℕ)
    : Type 0 where
  pub front : IsTiling b xs n.addr
  pub some_pages : 0 < n.page_count
  pub back : IsTiling (end_of n) ys e

pub Tiling-split :
    (b : ℕ) (xs : List AvlNode) (n : AvlNode) (ys : List AvlNode) (e : ℕ)
    → IsTiling b (xs ++ n ∷ ys) e
    → IsTiled b xs n ys e
Tiling-split b [] n ys e t = record { front = sym t.0; some_pages = t.1; back = t.2 }
Tiling-split b (x ∷ xs) n ys e t =
    let rest = Tiling-split (end_of x) xs n ys e t.2 in
    record { front = (t.0, t.1, rest.front); some_pages = rest.some_pages; back = rest.back }

pub Tiling-append :
    (b : ℕ) (xs : List AvlNode) (m : ℕ) (ys : List AvlNode) (e : ℕ)
    → IsTiling b xs m
    → IsTiling m ys e
    → IsTiling b (xs ++ ys) e
Tiling-append b [] m ys e t u = subst (λ k. IsTiling k ys e) (sym t) u
Tiling-append b (x ∷ xs) m ys e t u = (t.0, t.1, Tiling-append (end_of x) xs m ys e t.2 u)
