-- ===== src/Paging/Enter.antt =====
-- One level of get_page_table_entry of paging.c on tables that form a tree.
use gapxos.Base.{
  ℕ, suc, ◌+◌, ◌-◌, ◌%◌, ◌^◌, ◌≤◌, ◌<◌, ◌≡◌, ◌≢◌, refl, ◌∙◌, ap, subst, true, false, none, some,
  List, ◌∷◌, length, All, arith, ◌==◌, Bool-cases, inl, inr, bit_or_odd, bit_or_page,
}
use Prim.Native.Nat.{bit_or}
use gapxos.Pmm.{Pmm, pmm_alloc_page, write_cell}
use gapxos.Paging.{Store, is_present, frame_of, slot, enter_table}
use gapxos.Paging.Trees.{
  entry_at, Role, IsTree, IsBlank, extend, write_cell-same, extend-other, written-cases,
  written-IsBlank,
}
use gapxos.Paging.Relink.{relink-IsTree, relink-entry_at}
use gapxos.Paging.Link.{link-IsTree, link-entry_at}

-- The pages of the stack are blank, and no two of them are the same.
pub record IsPool (role : Role) (s : Store) : Type 0 where
  pub blank : (k : ℕ) → k < s.pool.free_index → IsBlank role s.words (s.pool.free_pages k)
  pub distinct :
      (j k : ℕ)
      → j < s.pool.free_index
      → k < s.pool.free_index
      → s.pool.free_pages j ≡ s.pool.free_pages k
      → j ≡ k

-- The same entry at the end of every path.
abbrev pub SamePaths : Role → (ℕ → ℕ) → (ℕ → ℕ) → Type 0
SamePaths role words words' =
    (is : List ℕ) (u : ℕ) (r : List ℕ)
    → role u ≡ some r
    → length r + length is ≡ 4
    → All (λ j. j < 512) is
    → entry_at words' u is ≡ entry_at words u is

-- What the step leaves: a tree in which the entry leads to the table that is returned, with all
-- paths and the tables of other levels as they were, and at most one page taken.
pub record IsEntered (role : Role) (t i : ℕ) (q : List ℕ) (s : Store) (next : ℕ) (s' : Store)
    : Type 0 where
  pub role' : Role
  pub tree : IsTree role' s'.words
  pub pool : IsPool role' s'
  pub taken : s.pool.free_index ≤ suc s'.pool.free_index
  pub here : role' next ≡ some (i ∷ q)
  pub keeps : (u : ℕ) (r : List ℕ) → role u ≡ some r → role' u ≡ some r
  pub leads : is_present (s'.words (slot t i)) ≡ true
  pub frame : frame_of (s'.words (slot t i)) ≡ next
  pub levels :
      (u j : ℕ) (r : List ℕ)
      → role u ≡ some r
      → length r ≢ length q
      → j < 512
      → s'.words (slot u j) ≡ s.words (slot u j)
  pub paths : SamePaths role s.words s'.words

pub frame_of-page :
    (page flags : ℕ)
    → page % 4096 ≡ 0
    → page < 2 ^ 48
    → flags < 2 ^ 12
    → frame_of (bit_or page flags) ≡ page
unfolding frame_of
frame_of-page page flags aligned low small = omega (arith, bit_or_page page flags small)

pub frame_of-bit_or : (w flags : ℕ) → flags < 2 ^ 12 → frame_of (bit_or w flags) ≡ frame_of w
unfolding frame_of
frame_of-bit_or w flags small = omega (arith, bit_or_page w flags small)

is_present-bit_or : (w flags : ℕ) → is_present w ≡ true → is_present (bit_or w flags) ≡ true
unfolding is_present
is_present-bit_or w flags bit =
    let odd : w % 2 ≡ 1 = ground arith in
    let sum : bit_or w flags % 2 ≡ 1 = omega (arith, bit_or_odd w flags) in rw sum refl

is_present-bit_or_one : (w : ℕ) → is_present (bit_or w 1) ≡ true
unfolding is_present
is_present-bit_or_one w =
    let sum : bit_or w 1 % 2 ≡ 1 = omega (arith, bit_or_odd w 1) in rw sum refl

pub write-IsPool :
    (role : Role) (s : Store) (tree : IsTree role s.words) (t i : ℕ) (q : List ℕ) (w : ℕ)
    → role t ≡ some q
    → i < 512
    → IsPool role s
    → IsPool role (record s { words = write_cell s.words (slot t i) w })
write-IsPool role s tree t i q w has low pool = record {
  blank = λ k less.
      let b = pool.blank k less in
      record {
        unused = b.unused;
        aligned = b.aligned;
        low = b.low;
        empty = written-IsBlank role s.words tree t i q has low w (s.pool.free_pages k) b;
      };
  distinct = pool.distinct;
}

extend-none :
    (role : Role) (page : ℕ) (q : List ℕ) (u : ℕ)
    → u ≢ page
    → role u ≡ none
    → extend role page q u ≡ none
unfolding extend
extend-none role page q u ne e = let other : (u == page) ≡ false = ground arith in rw other e

module _ (flags_add : ℕ) (small : flags_add < 2 ^ 12) (role : Role) (t i : ℕ) (q : List ℕ)
    (has : role t ≡ some q) (low : i < 512) (short : length q < 3) where
  -- The flags are set in an entry that is present.
  flags-IsEntered :
      (s : Store)
      → IsTree role s.words
      → IsPool role s
      → is_present (s.words (slot t i)) ≡ true
      → IsEntered role t i q s (frame_of (bit_or (s.words (slot t i)) flags_add)) (record s {
        words = write_cell s.words (slot t i) (bit_or (s.words (slot t i)) flags_add);
      })
  flags-IsEntered s tree pool bit =
      let w = bit_or (s.words (slot t i)) flags_add in
      let frame = frame_of-bit_or (s.words (slot t i)) flags_add small in
      let bit' = is_present-bit_or (s.words (slot t i)) flags_add bit in
      let here = write_cell-same s.words (slot t i) w in
      record {
        role' = role;
        tree = relink-IsTree role s.words tree t i q has low w bit frame;
        pool = write-IsPool role s tree t i q w has low pool;
        taken = omega arith;
        here = ap role frame ∙ tree.child t i q has short low bit;
        keeps = λ u r is. is;
        leads = ap is_present here ∙ bit';
        frame = ap frame_of here;
        levels = λ u j r is ne less.
            elim (written-cases role s.words tree t i q has low w u j r is less) [
              | inl (tables, entries, roles, new) ↦ absurd (ne (ap length roles))
              | inr kept ↦ kept
            ];
        paths = relink-entry_at role s.words tree t i q has low w bit bit' frame short;
      }

-- A page of the stack becomes a table.
abbrev with_table : ℕ → ℕ → Store → Store
with_table t i s = record {
  words = write_cell s.words (slot t i) (bit_or (pmm_alloc_page s.pool).0 1);
  pool = (pmm_alloc_page s.pool).1;
}

record IsAllocated (p : Pmm) (r : ℕ × Pmm) : Type 0 where
  top : r.0 ≡ p.free_pages (p.free_index - 1)
  pages : r.1.free_pages ≡ p.free_pages
  index : r.1.free_index ≡ p.free_index - 1

pmm_alloc_page-IsAllocated : (p : Pmm) → 0 < p.free_index → IsAllocated p (pmm_alloc_page p)
unfolding pmm_alloc_page
pmm_alloc_page-IsAllocated p some_left =
    let more : (p.free_index == 0) ≡ false = ground arith in
    rw more (record { top = refl; pages = refl; index = refl })

module _ (role : Role) (t i : ℕ) (q : List ℕ) (has : role t ≡ some q) (low : i < 512)
    (short : length q < 3) (s : Store) (tree : IsTree role s.words) (pool : IsPool role s)
    (some_left : 0 < s.pool.free_index) (gone : is_present (s.words (slot t i)) ≡ false) where
  abbrev page : ℕ
  page = (pmm_alloc_page s.pool).0

  abbrev role1 : Role
  role1 = extend role page (i ∷ q)

  abbrev got : IsAllocated s.pool (pmm_alloc_page s.pool)
  got = pmm_alloc_page-IsAllocated s.pool some_left

  page-IsBlank : IsBlank role s.words page
  page-IsBlank = rw (got.top) (pool.blank (s.pool.free_index - 1) (omega arith))

  frame_of-link : frame_of (bit_or page 1) ≡ page
  frame_of-link = frame_of-page page 1 page-IsBlank.aligned page-IsBlank.low (omega arith)

  with_table-IsTree : IsTree role1 (with_table t i s).words
  with_table-IsTree =
      link-IsTree role s.words tree t i q has low (bit_or page 1) page page-IsBlank gone
        (is_present-bit_or_one page) frame_of-link short

  with_table-SamePaths : SamePaths role s.words (with_table t i s).words
  with_table-SamePaths =
      link-entry_at role s.words tree t i q has low (bit_or page 1) page page-IsBlank gone
        (is_present-bit_or_one page) frame_of-link short

  with_table-IsPool : IsPool role1 (with_table t i s)
  with_table-IsPool = record {
    blank = λ k less.
        let below : k < s.pool.free_index = omega (arith, got.index) in
        let b = pool.blank k below in
        let other : (s.pool.free_pages k) ≢ page = λ e. omega (
          arith,
          got.index,
          pool.distinct k (s.pool.free_index - 1) below (omega arith) (e ∙ got.top),
        ) in
        rw got.pages (record {
          unused = extend-none role page (i ∷ q) (s.pool.free_pages k) other b.unused;
          aligned = b.aligned;
          low = b.low;
          empty =
              written-IsBlank role s.words tree t i q has low (bit_or page 1) (s.pool.free_pages k)
                b;
        });
    distinct = λ j k lj lk e.
        pool.distinct j k (omega (arith, got.index)) (omega (arith, got.index))
          (subst (λ f. f j ≡ f k) got.pages e);
  }

-- On tables that form a tree, with a stack of blank pages that is not empty: an entry of a table
-- that is not at the last level leads to a table afterwards, which is returned.
pub enter_table-IsEntered :
    (flags_add : ℕ) (role : Role) (t i : ℕ) (q : List ℕ) (s : Store)
    → flags_add < 2 ^ 12
    → role t ≡ some q
    → i < 512
    → length q < 3
    → IsTree role s.words
    → IsPool role s
    → 0 < s.pool.free_index
    → IsEntered role t i q s (enter_table flags_add t i s).0 (enter_table flags_add t i s).1
unfolding enter_table
enter_table-IsEntered flags_add role t i q s small has low short tree pool some_left =
    elim (Bool-cases (is_present (s.words (slot t i)))) [
      | inl bit ↦ rw bit (flags-IsEntered flags_add small role t i q has low short s tree pool bit)
      | inr gone ↦
          let r1 = role1 role t i q has low short s tree pool some_left gone in
          let blank = page-IsBlank role t i q has low short s tree pool some_left gone in
          let got = pmm_alloc_page-IsAllocated s.pool some_left in
          let s1 = with_table t i s in
          let w = bit_or (pmm_alloc_page s.pool).0 1 in
          let has1 = extend-other role (pmm_alloc_page s.pool).0 (i ∷ q) t q blank.unused has in
          let bit =
            ap is_present (write_cell-same s.words (slot t i) w)
            ∙ is_present-bit_or_one (pmm_alloc_page s.pool).0 in
          let e =
            flags-IsEntered flags_add small r1 t i q has1 low short s1
              (with_table-IsTree role t i q has low short s tree pool some_left gone)
              (with_table-IsPool role t i q has low short s tree pool some_left gone) bit in
          rw gone (record {
            role' = e.role';
            tree = e.tree;
            pool = e.pool;
            taken = omega (arith, got.index);
            here = e.here;
            keeps = λ u r is.
                e.keeps u r
                  (extend-other role (pmm_alloc_page s.pool).0 (i ∷ q) u r blank.unused is);
            leads = e.leads;
            frame = e.frame;
            levels = λ u j r is ne less.
                e.levels u j r
                  (extend-other role (pmm_alloc_page s.pool).0 (i ∷ q) u r blank.unused is) ne less
                ∙ elim (written-cases role s.words tree t i q has low w u j r is less) [
                  | inl (tables, entries, roles, new) ↦ absurd (ne (ap length roles))
                  | inr kept ↦ kept
                ];
            paths = λ is u r has_u long smalls.
                e.paths is u r
                  (extend-other role (pmm_alloc_page s.pool).0 (i ∷ q) u r blank.unused has_u) long
                  smalls
                ∙ with_table-SamePaths role t i q has low short s tree pool some_left gone is u r
                    has_u long smalls;
          })
    ]
