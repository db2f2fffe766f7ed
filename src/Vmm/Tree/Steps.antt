-- ===== src/Vmm/Tree/Steps.antt =====
-- What the recursive calls of _insert_node and _delete_node have done when they return.
use gapxos.Base.{ℕ, ◌≡◌, Option, none, some, arith, ◌>>=◌, ap}
use gapxos.Vmm.Tree.{AvlNode, Tree, node, rebalance, finish, with_left, with_right}

module _ {S : Type 0} where
  pub rebalanced :
      (t : Tree) (s : S) (t' : Tree) (s' : S)
      → finish t s ≡ some (t', s')
      → (rebalance t ≡ some t') × (s ≡ s')
  rebalanced t s t' s' e = ground arith

  pub with_left-eq-some :
      (m : Option (Tree × S)) (n : AvlNode) (h : ℕ) (r t' : Tree) (s' : S)
      → (m >>= with_left n h r) ≡ some (t', s')
      → (l' : Tree) × (m ≡ some (l', s')) × (rebalance (node n h l' r) ≡ some t')
  with_left-eq-some none n h r t' s' e = ground arith
  with_left-eq-some (some (l', s)) n h r t' s' e =
      let (done, same) = rebalanced (node n h l' r) s t' s' e in
      (l', ap (λ u. some (l', u)) same, done)

  pub with_right-eq-some :
      (m : Option (Tree × S)) (n : AvlNode) (h : ℕ) (l t' : Tree) (s' : S)
      → (m >>= with_right n h l) ≡ some (t', s')
      → (r' : Tree) × (m ≡ some (r', s')) × (rebalance (node n h l r') ≡ some t')
  with_right-eq-some none n h l t' s' e = ground arith
  with_right-eq-some (some (r', s)) n h l t' s' e =
      let (done, same) = rebalanced (node n h l r') s t' s' e in
      (r', ap (λ u. some (r', u)) same, done)
