-- ===== src/Paging/Walk.antt =====
-- get_page_table_entry of paging.c: the way from the root to the table of the last level.
use gapxos.Base.{
  ℕ, ◌+◌, ◌/◌, ◌%◌, ◌^◌, ◌≤◌, ◌<◌, ◌≡◌, refl, ◌∙◌, ap, true, Option, some, List, [], ◌∷◌, arith,
}
use gapxos.Paging.{Store, is_present, frame_of, slot, enter_table, get_page_table_entry}
use gapxos.Paging.Trees.{entry_at, Role, IsTree}
use gapxos.Paging.Enter.{IsPool, SamePaths, enter_table-IsEntered}

-- The four indices in a virtual address, as the processor reads them.
abbrev pub index4 : ℕ → ℕ
index4 vaddr = vaddr / 2 ^ 39 % 2 ^ 9

abbrev pub index3 : ℕ → ℕ
index3 vaddr = vaddr / 2 ^ 30 % 2 ^ 9

abbrev pub index2 : ℕ → ℕ
index2 vaddr = vaddr / 2 ^ 21 % 2 ^ 9

abbrev pub index1 : ℕ → ℕ
index1 vaddr = vaddr / 2 ^ 12 % 2 ^ 9

abbrev pub path : ℕ → List ℕ
path vaddr = index4 vaddr ∷ index3 vaddr ∷ index2 vaddr ∷ index1 vaddr ∷ []

-- The entry for the page of a virtual address, where there is one that is present.
abbrev pub mapped : (ℕ → ℕ) → ℕ → ℕ → Option ℕ
mapped words pml4t vaddr = entry_at words pml4t (path vaddr)

-- The table of the last level for an address, and the entries that lead to it.
pub record IsWalked (role : Role) (root vaddr : ℕ) (s : Store) (entry : ℕ) (s' : Store)
    : Type 0 where
  pub role' : Role
  pub tree : IsTree role' s'.words
  pub pool : IsPool role' s'
  pub taken : s.pool.free_index ≤ s'.pool.free_index + 3
  pub keeps : (u : ℕ) (r : List ℕ) → role u ≡ some r → role' u ≡ some r
  pub paths : SamePaths role s.words s'.words
  pub pdpt : ℕ
  pub pdt : ℕ
  pub pt : ℕ
  pub entry_is : entry ≡ slot pt (index1 vaddr)
  pub role3 : role' pdpt ≡ some (index4 vaddr ∷ [])
  pub role2 : role' pdt ≡ some (index3 vaddr ∷ index4 vaddr ∷ [])
  pub role1 : role' pt ≡ some (index2 vaddr ∷ index3 vaddr ∷ index4 vaddr ∷ [])
  pub present4 : is_present (s'.words (slot root (index4 vaddr))) ≡ true
  pub present3 : is_present (s'.words (slot pdpt (index3 vaddr))) ≡ true
  pub present2 : is_present (s'.words (slot pdt (index2 vaddr))) ≡ true
  pub frame4 : frame_of (s'.words (slot root (index4 vaddr))) ≡ pdpt
  pub frame3 : frame_of (s'.words (slot pdpt (index3 vaddr))) ≡ pdt
  pub frame2 : frame_of (s'.words (slot pdt (index2 vaddr))) ≡ pt

module _ (flags_add : ℕ) (small : flags_add < 2 ^ 12) (role : Role) (root vaddr : ℕ) (s : Store)
    (is_root : role root ≡ some []) (tree : IsTree role s.words) (pool : IsPool role s)
    (three : 3 ≤ s.pool.free_index) where
  -- The three levels, with the indices as the processor reads them.
  abbrev e4 : ℕ × Store
  e4 = enter_table flags_add root (index4 vaddr) s

  abbrev e3 : ℕ × Store
  e3 = enter_table flags_add e4.0 (index3 vaddr) e4.1

  abbrev e2 : ℕ × Store
  e2 = enter_table flags_add e3.0 (index2 vaddr) e3.1

  three_levels-IsWalked : IsWalked role root vaddr s (slot e2.0 (index1 vaddr)) e2.1
  three_levels-IsWalked =
      let w4 =
        enter_table-IsEntered flags_add role root (index4 vaddr) [] s small is_root (omega arith)
          (omega arith) tree pool (omega arith) in
      let w3 =
        enter_table-IsEntered flags_add w4.role' e4.0 (index3 vaddr) (index4 vaddr ∷ []) e4.1 small
          w4.here (omega arith) (omega arith) w4.tree w4.pool (omega (arith, w4.taken)) in
      let w2 =
        enter_table-IsEntered flags_add w3.role' e3.0 (index2 vaddr)
          (index3 vaddr ∷ index4 vaddr ∷ []) e3.1 small w3.here (omega arith) (omega arith) w3.tree
          w3.pool (omega (arith, w4.taken, w3.taken)) in
      let root3 = w4.keeps root [] is_root in
      let root2 = w3.keeps root [] root3 in
      let pdpt2 = w3.keeps e4.0 (index4 vaddr ∷ []) w4.here in
      let kept4 =
        w2.levels root (index4 vaddr) [] root2 (λ e. omega arith) (omega arith)
        ∙ w3.levels root (index4 vaddr) [] root3 (λ e. omega arith) (omega arith) in
      let kept3 =
        w2.levels e4.0 (index3 vaddr) (index4 vaddr ∷ []) pdpt2 (λ e. omega arith) (omega arith) in
      record {
        role' = w2.role';
        tree = w2.tree;
        pool = w2.pool;
        taken = omega (arith, w4.taken, w3.taken, w2.taken);
        keeps = λ u r is. w2.keeps u r (w3.keeps u r (w4.keeps u r is));
        paths = λ is u r has long smalls.
            w2.paths is u r (w3.keeps u r (w4.keeps u r has)) long smalls
            ∙ (w3.paths is u r (w4.keeps u r has) long smalls ∙ w4.paths is u r has long smalls);
        pdpt = e4.0;
        pdt = e3.0;
        pt = e2.0;
        entry_is = refl;
        role3 = w2.keeps e4.0 (index4 vaddr ∷ []) pdpt2;
        role2 = w2.keeps e3.0 (index3 vaddr ∷ index4 vaddr ∷ []) w3.here;
        role1 = w2.here;
        present4 = ap is_present kept4 ∙ w4.leads;
        present3 = ap is_present kept3 ∙ w3.leads;
        present2 = w2.leads;
        frame4 = ap frame_of kept4 ∙ w4.frame;
        frame3 = ap frame_of kept3 ∙ w3.frame;
        frame2 = w2.frame;
      }

  -- The indices that the code computes from an address of 48 bits are those.
  pub get_page_table_entry-IsWalked :
      let r = get_page_table_entry root (vaddr % 2 ^ 48) flags_add s in
      IsWalked role root vaddr s r.0 r.1
  unfolding get_page_table_entry
  get_page_table_entry-IsWalked =
      let i4 : vaddr % 2 ^ 48 / 2 ^ 39 ≡ index4 vaddr = omega arith in
      let i3 : vaddr % 2 ^ 48 % 2 ^ 39 / 2 ^ 30 ≡ index3 vaddr = omega arith in
      let i2 : vaddr % 2 ^ 48 % 2 ^ 39 % 2 ^ 30 / 2 ^ 21 ≡ index2 vaddr = omega arith in
      let i1 : vaddr % 2 ^ 48 % 2 ^ 39 % 2 ^ 30 % 2 ^ 21 / 2 ^ 12 ≡ index1 vaddr = omega arith in
      rw (i4, i3, i2, i1) three_levels-IsWalked
