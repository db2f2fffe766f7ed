-- ===== src/Vmm/Manager/Structs.antt =====
-- Writes through pointers to nodes (mem_mgmt.c), seen on the list of ranges: a write changes one
-- range, as long as no two nodes share a struct.
use gapxos.Base.{
  ℕ, ◌≡◌, ◌≢◌, refl, List, [], ◌∷◌, ◌++◌, arith, ◌==◌, if◌then◌else◌, All, All-append_right, ap,
  sym, subst, ◌∙◌,
}
use gapxos.Vmm.Tree.{AvlNode, Tree, null, node}
use gapxos.Vmm.Tree.Order.{entries}
use gapxos.Vmm.Tree.Balance.{levels, IsAvl}
use gapxos.Vmm.Tree.Ranges.{insert_range}
use gapxos.Vmm.Manager.{update_struct}

-- The struct of the address p is none of theirs.
abbrev pub Apart : ℕ → List AvlNode → Type 0
Apart p ns = All (λ n. n.ptr ≢ p) ns

abbrev pub IsDistinct : List AvlNode → Type 0
IsDistinct [] = Unit
IsDistinct (n ∷ ns) = Apart n.ptr ns × IsDistinct ns

abbrev pub write_at : ℕ → (AvlNode → AvlNode) → List AvlNode → List AvlNode
write_at p f [] = []
write_at p f (n ∷ ns) = (if n.ptr == p then f n else n) ∷ write_at p f ns

write_at-append :
    (p : ℕ) (f : AvlNode → AvlNode) (xs ys : List AvlNode)
    → write_at p f (xs ++ ys) ≡ write_at p f xs ++ write_at p f ys
write_at-append p f [] ys = refl
write_at-append p f (x ∷ xs) ys =
    ap (λ ns. (if x.ptr == p then f x else x) ∷ ns) (write_at-append p f xs ys)

pub write_at-Apart :
    (p : ℕ) (f : AvlNode → AvlNode) (ns : List AvlNode) → Apart p ns → write_at p f ns ≡ ns
write_at-Apart p f [] a = refl
write_at-Apart p f (n ∷ ns) a = ground (arith, write_at-Apart p f ns a.1)

pub entries-update_struct :
    (p : ℕ) (f : AvlNode → AvlNode) (t : Tree)
    → entries (update_struct p f t) ≡ write_at p f (entries t)
unfolding update_struct
entries-update_struct p f null = refl
entries-update_struct p f (node n h l r) = rw (
  write_at-append p f (entries l) (n ∷ entries r),
  entries-update_struct p f l,
  entries-update_struct p f r,
)

-- The two sides of a node share no struct with it.
pub IsDistinct-split :
    (xs : List AvlNode) (n : AvlNode) (ys : List AvlNode)
    → IsDistinct (xs ++ n ∷ ys)
    → Apart n.ptr xs × Apart n.ptr ys
IsDistinct-split [] n ys d = (tt, d.0)
IsDistinct-split (x ∷ xs) n ys d =
    let rest = IsDistinct-split xs n ys d.1 in
    let other = (All-append_right (λ m. m.ptr ≢ x.ptr) xs (n ∷ ys) d.0).0 in
    ((λ e. other (sym e), rest.0), rest.1)

-- A write through the pointer of one node changes that node alone.
pub write_at-middle :
    (f : AvlNode → AvlNode) (xs : List AvlNode) (n : AvlNode) (ys : List AvlNode)
    → IsDistinct (xs ++ n ∷ ys)
    → write_at n.ptr f (xs ++ n ∷ ys) ≡ xs ++ f n ∷ ys
write_at-middle f xs n ys d =
    let apart = IsDistinct-split xs n ys d in
    ground (
      arith,
      write_at-append n.ptr f xs (n ∷ ys),
      write_at-Apart n.ptr f xs apart.0,
      write_at-Apart n.ptr f ys apart.1,
    )

pub levels-update_struct :
    (p : ℕ) (f : AvlNode → AvlNode) (t : Tree) → levels (update_struct p f t) ≡ levels t
unfolding update_struct
levels-update_struct p f null = refl
levels-update_struct p f (node n h l r) =
    rw (levels-update_struct p f l, levels-update_struct p f r)

-- No write to a node's fields touches the balance.
pub update_struct-IsAvl :
    (p : ℕ) (f : AvlNode → AvlNode) (t : Tree) → IsAvl t → IsAvl (update_struct p f t)
unfolding update_struct
update_struct-IsAvl p f null a = tt
update_struct-IsAvl p f (node n h l r) a =
    rw (levels-update_struct p f l, levels-update_struct p f r)
      (a.0, a.1, a.2, update_struct-IsAvl p f l a.3, update_struct-IsAvl p f r a.4)

Apart-insert :
    (q p a c : ℕ) (ns : List AvlNode) → p ≢ q → Apart q ns → Apart q (insert_range p a c ns)
unfolding insert_range
Apart-insert q p a c [] ne apart = (ne, tt)
Apart-insert q p a c (n ∷ ns) ne apart = ground (arith, Apart-insert q p a c ns ne apart.1)

-- A new struct keeps the structs distinct.
pub insert_range-IsDistinct :
    (p a c : ℕ) (ns : List AvlNode)
    → Apart p ns
    → IsDistinct ns
    → IsDistinct (insert_range p a c ns)
unfolding insert_range
insert_range-IsDistinct p a c [] apart d = (tt, tt)
insert_range-IsDistinct p a c (n ∷ ns) apart d = ground (
  arith,
  insert_range-IsDistinct p a c ns apart.1 d.1,
  Apart-insert n.ptr p a c ns (λ e. apart.0 (sym e)) d.0,
)

ptr-write :
    (p : ℕ) (f : AvlNode → AvlNode) (n : AvlNode)
    → ((m : AvlNode) → (f m).ptr ≡ m.ptr)
    → (if n.ptr == p then f n else n).ptr ≡ n.ptr
ptr-write p f n keep = ground (arith, keep n)

Apart-write_at :
    (q p : ℕ) (f : AvlNode → AvlNode) (ns : List AvlNode)
    → ((m : AvlNode) → (f m).ptr ≡ m.ptr)
    → Apart q ns
    → Apart q (write_at p f ns)
Apart-write_at q p f [] keep a = tt
Apart-write_at q p f (n ∷ ns) keep a =
    (λ e. a.0 (sym (ptr-write p f n keep) ∙ e), Apart-write_at q p f ns keep a.1)

pub write_at-IsDistinct :
    (p : ℕ) (f : AvlNode → AvlNode) (ns : List AvlNode)
    → ((n : AvlNode) → (f n).ptr ≡ n.ptr)
    → IsDistinct ns
    → IsDistinct (write_at p f ns)
write_at-IsDistinct p f [] keep d = tt
write_at-IsDistinct p f (n ∷ ns) keep d =
    let rest = write_at-IsDistinct p f ns keep d.1 in
    let apart = Apart-write_at n.ptr p f ns keep d.0 in
    (subst (λ q. Apart q (write_at p f ns)) (sym (ptr-write p f n keep)) apart, rest)
