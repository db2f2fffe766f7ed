-- ===== src/Vmm/Tree/Rotations.antt =====
-- rotate_left and rotate_right of avl_tree.c, single and double, on a tree that leans too far.
use gapxos.Base.{
  ℕ, suc, ◌+◌, ◌^◌, ◌≤◌, ◌<◌, max, ◌≡◌, refl, some, arith, ◌>>=◌, Bool-cases, inl, inr, ◌==◌,
}
use gapxos.Vmm.Tree.{
  AvlNode, Tree, null, node, balance, rotate_left, rotate_right, straighten_left, straighten_right,
}
use mathlib.Core.Path.{subst}
use gapxos.Vmm.Tree.Balance.{
  levels, IsAvl, balance-levels, update_height-settled, settled, settled-IsAvl, IsRotated,
}

rotate_right-IsRotated :
    (n : AvlNode) (h : ℕ) (ln : AvlNode) (lh : ℕ) (ll lr r : Tree)
    → IsAvl ll
    → IsAvl lr
    → IsAvl r
    → levels (node ln lh ll lr) < 2 ^ 13
    → levels (node ln lh ll lr) ≡ levels r + 2
    → levels lr ≤ levels ll
    → levels ll ≤ levels lr + 2
    → (t : Tree) × (rotate_right (node n h (node ln lh ll lr) r) ≡ some t)
      × IsRotated (levels (node ln lh ll lr)) t
unfolding rotate_right
rotate_right-IsRotated n h ln lh ll lr r al am ar small heavy outer near =
    let inner = update_height-settled n h lr r am ar (omega arith) in
    let lower_avl = settled-IsAvl n lr r am ar (omega arith) (omega arith) in
    let whole = update_height-settled ln lh ll (settled n lr r) al lower_avl (omega arith) in
    let avl = settled-IsAvl ln ll (settled n lr r) al lower_avl (omega arith) (omega arith) in
    (
      settled ln ll (settled n lr r),
      rw (inner, whole),
      record { avl = avl; lower = omega arith; upper = omega arith },
    )

rotate_left-IsRotated :
    (n : AvlNode) (h : ℕ) (l : Tree) (rn : AvlNode) (rh : ℕ) (rl rr : Tree)
    → IsAvl l
    → IsAvl rl
    → IsAvl rr
    → levels (node rn rh rl rr) < 2 ^ 13
    → levels (node rn rh rl rr) ≡ levels l + 2
    → levels rl ≤ levels rr
    → levels rr ≤ levels rl + 2
    → (t : Tree) × (rotate_left (node n h l (node rn rh rl rr)) ≡ some t)
      × IsRotated (levels (node rn rh rl rr)) t
unfolding rotate_left
rotate_left-IsRotated n h l rn rh rl rr al am ar small heavy outer near =
    let inner = update_height-settled n h l rl al am (omega arith) in
    let lower_avl = settled-IsAvl n l rl al am (omega arith) (omega arith) in
    let whole = update_height-settled rn rh (settled n l rl) rr lower_avl ar (omega arith) in
    let avl = settled-IsAvl rn (settled n l rl) rr lower_avl ar (omega arith) (omega arith) in
    (
      settled rn (settled n l rl) rr,
      rw (inner, whole),
      record { avl = avl; lower = omega arith; upper = omega arith },
    )

-- The shape that the outer rotation of a double one wants on the left.
record IsLeftLeaning (l l' : Tree) : Type 0 where
  ln : AvlNode
  lh : ℕ
  ll : Tree
  lr : Tree
  shape : l' ≡ node ln lh ll lr
  left : IsAvl ll
  right : IsAvl lr
  same : suc (max (levels ll) (levels lr)) ≡ levels l
  outer : levels lr ≤ levels ll
  near : levels ll ≤ levels lr + 2

straighten_left-IsLeftLeaning :
    (n : AvlNode) (h : ℕ) (l r : Tree)
    → IsAvl (node n h l r)
    → levels (node n h l r) < 2 ^ 13
    → (t : Tree) × (straighten_left (node n h l r) ≡ some t) × IsLeftLeaning (node n h l r) t
unfolding straighten_left rotate_left
straighten_left-IsLeftLeaning n h l null a small =
    let b = balance-levels n h l null a.3 tt (omega arith) in
    (
      node n h l null,
      ground arith,
      record {
        ln = n;
        lh = h;
        ll = l;
        lr = null;
        shape = refl;
        left = a.3;
        right = tt;
        same = refl;
        outer = omega arith;
        near = omega arith;
      },
    )
straighten_left-IsLeftLeaning n h l (node rn rh rl rr) a small =
    elim (Bool-cases (balance (node n h l (node rn rh rl rr)) == 1)) [
      | inl e ↦
          let ar = a.4 in
          let al = a.3 in
          let heavy : levels (node rn rh rl rr) ≡ levels l + 1 =
            ground (arith, balance-levels n h l (node rn rh rl rr) a.3 a.4 (omega arith)) in
          let inner = update_height-settled n h l rl al ar.3 (omega arith) in
          let inner_avl = settled-IsAvl n l rl al ar.3 (omega arith) (omega arith) in
          let whole =
            update_height-settled rn rh (settled n l rl) rr inner_avl ar.4 (omega arith) in
          (
            settled rn (settled n l rl) rr,
            rw (e, rotate_left, inner, whole),
            record {
              ln = rn;
              lh = _;
              ll = settled n l rl;
              lr = rr;
              shape = refl;
              left = inner_avl;
              right = ar.4;
              same = omega arith;
              outer = omega arith;
              near = omega arith;
            },
          )
      | inr e ↦ (
        node n h l (node rn rh rl rr),
        rw e,
        record {
          ln = n;
          lh = h;
          ll = l;
          lr = node rn rh rl rr;
          shape = refl;
          left = a.3;
          right = a.4;
          same = refl;
          outer = ground (arith, balance-levels n h l (node rn rh rl rr) a.3 a.4 (omega arith));
          near = omega arith;
        },
      )
    ]

record IsRightLeaning (r r' : Tree) : Type 0 where
  rn : AvlNode
  rh : ℕ
  rl : Tree
  rr : Tree
  shape : r' ≡ node rn rh rl rr
  left : IsAvl rl
  right : IsAvl rr
  same : suc (max (levels rl) (levels rr)) ≡ levels r
  outer : levels rl ≤ levels rr
  near : levels rr ≤ levels rl + 2

straighten_right-IsRightLeaning :
    (n : AvlNode) (h : ℕ) (l r : Tree)
    → IsAvl (node n h l r)
    → levels (node n h l r) < 2 ^ 13
    → (t : Tree) × (straighten_right (node n h l r) ≡ some t) × IsRightLeaning (node n h l r) t
unfolding straighten_right rotate_right
straighten_right-IsRightLeaning n h null r a small =
    let b = balance-levels n h null r tt a.4 (omega arith) in
    (
      node n h null r,
      ground arith,
      record {
        rn = n;
        rh = h;
        rl = null;
        rr = r;
        shape = refl;
        left = tt;
        right = a.4;
        same = refl;
        outer = omega arith;
        near = omega arith;
      },
    )
straighten_right-IsRightLeaning n h (node ln lh ll lr) r a small =
    elim (Bool-cases (balance (node n h (node ln lh ll lr) r) == 255)) [
      | inl e ↦
          let al = a.3 in
          let ar = a.4 in
          let heavy : levels (node ln lh ll lr) ≡ levels r + 1 =
            ground (arith, balance-levels n h (node ln lh ll lr) r a.3 a.4 (omega arith)) in
          let inner = update_height-settled n h lr r al.4 ar (omega arith) in
          let inner_avl = settled-IsAvl n lr r al.4 ar (omega arith) (omega arith) in
          let whole =
            update_height-settled ln lh ll (settled n lr r) al.3 inner_avl (omega arith) in
          (
            settled ln ll (settled n lr r),
            rw (e, rotate_right, inner, whole),
            record {
              rn = ln;
              rh = _;
              rl = ll;
              rr = settled n lr r;
              shape = refl;
              left = al.3;
              right = inner_avl;
              same = omega arith;
              outer = omega arith;
              near = omega arith;
            },
          )
      | inr e ↦ (
        node n h (node ln lh ll lr) r,
        rw e,
        record {
          rn = n;
          rh = h;
          rl = node ln lh ll lr;
          rr = r;
          shape = refl;
          left = a.3;
          right = a.4;
          same = refl;
          outer = ground (arith, balance-levels n h (node ln lh ll lr) r a.3 a.4 (omega arith));
          near = omega arith;
        },
      )
    ]

rotate_right-leaning :
    (n : AvlNode) (h : ℕ) (l l' r : Tree)
    → IsLeftLeaning l l'
    → IsAvl r
    → levels l < 2 ^ 13
    → levels l ≡ levels r + 2
    → (t : Tree) × (rotate_right (node n h l' r) ≡ some t) × IsRotated (levels l) t
rotate_right-leaning n h l l' r lean ar small heavy =
    let (t, e, rotated) =
      rotate_right-IsRotated n h lean.ln lean.lh lean.ll lean.lr r lean.left lean.right ar
        (omega (arith, lean.same)) (omega (arith, lean.same)) lean.outer lean.near in
    (t, rw lean.shape e, subst (λ k. IsRotated k t) lean.same rotated)

rotate_left-leaning :
    (n : AvlNode) (h : ℕ) (l r r' : Tree)
    → IsRightLeaning r r'
    → IsAvl l
    → levels r < 2 ^ 13
    → levels r ≡ levels l + 2
    → (t : Tree) × (rotate_left (node n h l r') ≡ some t) × IsRotated (levels r) t
rotate_left-leaning n h l r r' lean al small heavy =
    let (t, e, rotated) =
      rotate_left-IsRotated n h l lean.rn lean.rh lean.rl lean.rr al lean.left lean.right
        (omega (arith, lean.same)) (omega (arith, lean.same)) lean.outer lean.near in
    (t, rw lean.shape e, subst (λ k. IsRotated k t) lean.same rotated)

pub left_heavy :
    (n : AvlNode) (h : ℕ) (l r : Tree)
    → IsAvl l
    → IsAvl r
    → levels l < 2 ^ 13
    → levels l ≡ levels r + 2
    → (t : Tree) × ((straighten_left l >>= λ l'. rotate_right (node n h l' r)) ≡ some t)
      × IsRotated (levels l) t
left_heavy n h null r al ar small heavy = absurd (omega arith)
left_heavy n h (node m mh ml mr) r al ar small heavy =
    let (l', e, lean) = straighten_left-IsLeftLeaning m mh ml mr al small in
    let (t, done, rotated) = rotate_right-leaning n h (node m mh ml mr) l' r lean ar small heavy in
    (t, rw e done, rotated)

pub right_heavy :
    (n : AvlNode) (h : ℕ) (l r : Tree)
    → IsAvl l
    → IsAvl r
    → levels r < 2 ^ 13
    → levels r ≡ levels l + 2
    → (t : Tree) × ((straighten_right r >>= λ r'. rotate_left (node n h l r')) ≡ some t)
      × IsRotated (levels r) t
right_heavy n h l null al ar small heavy = absurd (omega arith)
right_heavy n h l (node m mh ml mr) al ar small heavy =
    let (r', e, lean) = straighten_right-IsRightLeaning m mh ml mr ar small in
    let (t, done, rotated) = rotate_left-leaning n h l (node m mh ml mr) r' lean al small heavy in
    (t, rw e done, rotated)
