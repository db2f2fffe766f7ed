-- ===== src/Vmm/Tree/Ranges.antt =====
-- The sorted list of ranges that a search tree stands for, apart from any tree: the nodes of
-- avl_tree.c in the order of their addresses.
use gapxos.Base.{
  ℕ, ◌≤◌, ◌<◌, ◌≡◌, refl, compare, lt, eq, gt, Bool, false, ◌||◌, List, [], ◌∷◌, ◌++◌, arith, ◌==◌,
  if◌then◌else◌, All, All-imp, All-append_left, All-append_right, All-append,
}
use gapxos.Vmm.Tree.{AvlNode, range}

abbrev pub Below : ℕ → List AvlNode → Type 0
Below b ns = All (λ n. n.addr < b) ns

abbrev pub Above : ℕ → List AvlNode → Type 0
Above b ns = All (λ n. b < n.addr) ns

abbrev pub IsSorted : List AvlNode → Type 0
IsSorted [] = Unit
IsSorted (n ∷ ns) = Above n.addr ns × IsSorted ns

-- The parts of a sorted list around one of its nodes.
pub record IsSplit (xs : List AvlNode) (n : AvlNode) (ys : List AvlNode) : Type 0 where
  pub below : Below n.addr xs
  pub above : Above n.addr ys
  pub left : IsSorted xs
  pub right : IsSorted ys

pub IsSorted-IsSplit :
    (xs : List AvlNode) (n : AvlNode) (ys : List AvlNode)
    → IsSorted (xs ++ n ∷ ys)
    → IsSplit xs n ys
IsSorted-IsSplit [] n ys h = record { below = tt; above = h.0; left = tt; right = h.1 }
IsSorted-IsSplit (x ∷ xs) n ys h =
    let rest = IsSorted-IsSplit xs n ys h.1 in
    let more = All-append_right (λ m. x.addr < m.addr) xs (n ∷ ys) h.0 in
    record {
      below = (more.0, rest.below);
      above = rest.above;
      left = (All-append_left (λ m. x.addr < m.addr) xs (n ∷ ys) h.0, rest.left);
      right = rest.right;
    }

pub IsSorted-join :
    (xs : List AvlNode) (n : AvlNode) (ys : List AvlNode)
    → IsSplit xs n ys
    → IsSorted (xs ++ n ∷ ys)
IsSorted-join [] n ys h = (h.above, h.right)
IsSorted-join (x ∷ xs) n ys h = (
  All-append (λ m. x.addr < m.addr) xs (n ∷ ys) h.left.0
      (
        h.below.0,
        All-imp (λ m. n.addr < m.addr) (λ m. x.addr < m.addr) (λ m p. omega arith) ys h.above,
      ),
  IsSorted-join xs n ys
      (record { below = h.below.1; above = h.above; left = h.left.1; right = h.right }),
)

pub Below-before :
    (n : AvlNode) (a : ℕ) (ns : List AvlNode) → Below n.addr ns → n.addr < a → Below a ns
Below-before n a ns b h = All-imp (λ m. m.addr < n.addr) (λ m. m.addr < a) (λ m p. omega arith) ns b

-- The list with the range [a, a + c pages) in it, free: in a new struct p, or in the struct of the
-- range that begins at a.
unfoldable pub insert_range : ℕ → ℕ → ℕ → List AvlNode → List AvlNode
insert_range p a c [] = range p a c ∷ []
insert_range p a c (n ∷ ns) = elim (compare a n.addr) [
  | lt ↦ range p a c ∷ n ∷ ns
  | eq ↦ range n.ptr a c ∷ ns
  | gt ↦ n ∷ insert_range p a c ns
]

unfoldable pub has_addr : ℕ → List AvlNode → Bool
has_addr a [] = false
has_addr a (n ∷ ns) = a == n.addr || has_addr a ns

pub insert_range-Above :
    (p a c : ℕ) (ns : List AvlNode) → Above a ns → insert_range p a c ns ≡ range p a c ∷ ns
unfolding insert_range
insert_range-Above p a c [] h = refl
insert_range-Above p a c (n ∷ ns) h = ground arith

pub has_addr-Above : (a : ℕ) (ns : List AvlNode) → Above a ns → has_addr a ns ≡ false
unfolding has_addr
has_addr-Above a [] h = refl
has_addr-Above a (n ∷ ns) h = ground (arith, has_addr-Above a ns h.1)

-- The list without the range that begins at a.
unfoldable pub remove_range : ℕ → List AvlNode → List AvlNode
remove_range a [] = []
remove_range a (n ∷ ns) = if a == n.addr then ns else n ∷ remove_range a ns

module _ (p a c : ℕ) where
  pub insert_range-left :
      (xs : List AvlNode) (n : AvlNode) (ys : List AvlNode)
      → a < n.addr
      → insert_range p a c (xs ++ n ∷ ys) ≡ insert_range p a c xs ++ n ∷ ys
  unfolding insert_range
  insert_range-left [] n ys h = ground arith
  insert_range-left (x ∷ xs) n ys h = ground (arith, insert_range-left xs n ys)

  pub insert_range-right :
      (xs ys : List AvlNode)
      → Below a xs
      → insert_range p a c (xs ++ ys) ≡ xs ++ insert_range p a c ys
  unfolding insert_range
  insert_range-right [] ys h = refl
  insert_range-right (x ∷ xs) ys h = ground (arith, insert_range-right xs ys h.1)

pub has_addr-left :
    (a : ℕ) (xs : List AvlNode) (n : AvlNode) (ys : List AvlNode)
    → a < n.addr
    → Above n.addr ys
    → has_addr a (xs ++ n ∷ ys) ≡ has_addr a xs
unfolding has_addr
has_addr-left a [] n [] h b = ground arith
has_addr-left a [] n (y ∷ ys) h b = ground (arith, has_addr-left a [] n ys h b.1)
has_addr-left a (x ∷ xs) n ys h b = ground (arith, has_addr-left a xs n ys h b)

pub has_addr-right :
    (a : ℕ) (xs ys : List AvlNode) → Below a xs → has_addr a (xs ++ ys) ≡ has_addr a ys
unfolding has_addr
has_addr-right a [] ys h = refl
has_addr-right a (x ∷ xs) ys h = ground (arith, has_addr-right a xs ys h.1)

pub remove_range-left :
    (a : ℕ) (xs : List AvlNode) (n : AvlNode) (ys : List AvlNode)
    → a < n.addr
    → Above n.addr ys
    → remove_range a (xs ++ n ∷ ys) ≡ remove_range a xs ++ n ∷ ys
unfolding remove_range
remove_range-left a [] n [] h b = ground arith
remove_range-left a [] n (y ∷ ys) h b = ground (arith, remove_range-left a [] n ys h b.1)
remove_range-left a (x ∷ xs) n ys h b = ground (arith, remove_range-left a xs n ys h b)

pub remove_range-right :
    (a : ℕ) (xs ys : List AvlNode)
    → Below a xs
    → remove_range a (xs ++ ys) ≡ xs ++ remove_range a ys
unfolding remove_range
remove_range-right a [] ys h = refl
remove_range-right a (x ∷ xs) ys h = ground (arith, remove_range-right a xs ys h.1)

Above-mono : (a b : ℕ) (ns : List AvlNode) → a ≤ b → Above b ns → Above a ns
Above-mono a b ns h = All-imp (λ m. b < m.addr) (λ m. a < m.addr) (λ m p. omega arith) ns

pub Above-insert_range :
    (b p a c : ℕ) (ns : List AvlNode) → b < a → Above b ns → Above b (insert_range p a c ns)
unfolding insert_range
Above-insert_range b p a c [] h all = (h, tt)
Above-insert_range b p a c (n ∷ ns) h all = ground (arith, Above-insert_range b p a c ns h all.1)

pub All-remove_range :
    (P : AvlNode → Type 0) (a : ℕ) (ns : List AvlNode) → All P ns → All P (remove_range a ns)
unfolding remove_range
All-remove_range P a [] all = tt
All-remove_range P a (n ∷ ns) all = ground (arith, All-remove_range P a ns all.1)

-- Inserting keeps the list sorted, so no address stands in it twice.
pub insert_range-IsSorted :
    (p a c : ℕ) (ns : List AvlNode) → IsSorted ns → IsSorted (insert_range p a c ns)
unfolding insert_range
insert_range-IsSorted p a c [] h = (tt, tt)
insert_range-IsSorted p a c (n ∷ ns) h = ground (
  arith,
  insert_range-IsSorted p a c ns h.1,
  Above-mono a n.addr ns,
  Above-insert_range n.addr p a c ns,
)

pub remove_range-IsSorted : (a : ℕ) (ns : List AvlNode) → IsSorted ns → IsSorted (remove_range a ns)
unfolding remove_range
remove_range-IsSorted a [] h = tt
remove_range-IsSorted a (n ∷ ns) h =
    ground (arith, remove_range-IsSorted a ns h.1, All-remove_range (λ m. n.addr < m.addr) a ns h.0)
