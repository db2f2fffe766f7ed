-- ===== src/Vmm/Tree/Order.antt =====
-- The nodes of avl_tree.c's tree from left to right: no rotation changes their order.
use gapxos.Base.{ℕ, ◌≡◌, refl, some, List, [], ◌∷◌, ◌++◌, append_assoc, arith, ◌>>=◌, >>=-eq-some}
use gapxos.Vmm.Tree.{
  AvlNode, Tree, null, node, update_height, rotate_left, rotate_right, rebalance, straighten_left,
  straighten_right, rotate,
}

abbrev pub entries : Tree → List AvlNode
entries null = []
entries (node n h l r) = entries l ++ n ∷ entries r

pub entries-update_height : (t : Tree) → entries (update_height t) ≡ entries t
unfolding update_height
entries-update_height null = refl
entries-update_height (node n h l r) = refl

pub entries-rotate_left : (t t' : Tree) → rotate_left t ≡ some t' → entries t' ≡ entries t
unfolding rotate_left update_height
entries-rotate_left null t' e = ground arith
entries-rotate_left (node x h l null) t' e = ground arith
entries-rotate_left (node x h l (node z zh zl zr)) t' e =
    ground (arith, append_assoc (entries l) (x ∷ entries zl) (z ∷ entries zr))

pub entries-rotate_right : (t t' : Tree) → rotate_right t ≡ some t' → entries t' ≡ entries t
unfolding rotate_right update_height
entries-rotate_right null t' e = ground arith
entries-rotate_right (node x h null r) t' e = ground arith
entries-rotate_right (node x h (node z zh zl zr) r) t' e =
    ground (arith, append_assoc (entries zl) (z ∷ entries zr) (x ∷ entries r))

entries-straighten_left : (l l' : Tree) → straighten_left l ≡ some l' → entries l' ≡ entries l
unfolding straighten_left
entries-straighten_left l l' e = ground (arith, entries-rotate_left l l')

entries-straighten_right : (r r' : Tree) → straighten_right r ≡ some r' → entries r' ≡ entries r
unfolding straighten_right
entries-straighten_right r r' e = ground (arith, entries-rotate_right r r')

entries-left_heavy :
    (n : AvlNode) (h : ℕ) (l r t' : Tree)
    → (straighten_left l >>= λ l'. rotate_right (node n h l' r)) ≡ some t'
    → entries t' ≡ entries (node n h l r)
entries-left_heavy n h l r t' e =
    let (l', el, er) = >>=-eq-some (straighten_left l) (λ l'. rotate_right (node n h l' r)) e in
    ground (arith, entries-straighten_left l l', entries-rotate_right (node n h l' r) t')

entries-right_heavy :
    (n : AvlNode) (h : ℕ) (l r t' : Tree)
    → (straighten_right r >>= λ r'. rotate_left (node n h l r')) ≡ some t'
    → entries t' ≡ entries (node n h l r)
entries-right_heavy n h l r t' e =
    let (r', er, el) = >>=-eq-some (straighten_right r) (λ r'. rotate_left (node n h l r')) e in
    ground (arith, entries-straighten_right r r', entries-rotate_left (node n h l r') t')

entries-rotate : (t t' : Tree) → rotate t ≡ some t' → entries t' ≡ entries t
unfolding rotate
entries-rotate null t' e = ground arith
entries-rotate (node n h l r) t' e =
    ground (arith, entries-left_heavy n h l r t', entries-right_heavy n h l r t')

pub entries-rebalance : (t t' : Tree) → rebalance t ≡ some t' → entries t' ≡ entries t
unfolding rebalance
entries-rebalance null t' e = ground arith
entries-rebalance (node n h l r) t' e =
    let (u, er, eu) = >>=-eq-some (rotate (node n h l r)) (λ t. some (update_height t)) e in
    ground (arith, entries-rotate (node n h l r) u, entries-update_height u)
