-- ===== src/Paging/Trees.antt =====
-- Tables that form a tree, and what a write into one of them does to it. A role gives a table the
-- indices that lead to it from the root, the last one first.
use gapxos.Base.{
  ℕ, ◌%◌, ◌^◌, ◌<◌, ◌≡◌, ◌≢◌, refl, sym, ◌∙◌, ap, true, false, Option, none, some, List, [], ◌∷◌,
  length, arith, ◌==◌, if◌then◌else◌, Bool-cases, compare-cases, inl, inr, ◌⊎◌,
}
use gapxos.Pmm.{write_cell}
use gapxos.Paging.{is_present, frame_of, slot}

-- What the processor finds at the end of a path of indices: an entry that is present, if those
-- before it are.
unfoldable pub entry_at : (ℕ → ℕ) → ℕ → List ℕ → Option ℕ
entry_at words table [] = none
entry_at words table (i ∷ []) =
    if is_present (words (slot table i)) then some (words (slot table i)) else none
entry_at words table (i ∷ (j ∷ is)) =
    let rest = entry_at words (frame_of (words (slot table i))) (j ∷ is) in
    if is_present (words (slot table i)) then rest else none

abbrev pub Role : Type 0
Role = ℕ → Option (List ℕ)

-- The tables are pages, and an entry of a table that is not at the last level leads to the table
-- with its index in front.
pub record IsTree (role : Role) (words : ℕ → ℕ) : Type 0 where
  pub aligned : (t : ℕ) (q : List ℕ) → role t ≡ some q → t % 4096 ≡ 0
  pub child :
      (t i : ℕ) (q : List ℕ)
      → role t ≡ some q
      → length q < 3
      → i < 512
      → is_present (words (slot t i)) ≡ true
      → role (frame_of (words (slot t i))) ≡ some (i ∷ q)

-- A page with no entries that is no table.
pub record IsBlank (role : Role) (words : ℕ → ℕ) (page : ℕ) : Type 0 where
  pub unused : role page ≡ none
  pub aligned : page % 4096 ≡ 0
  pub low : page < 2 ^ 48
  pub empty : (i : ℕ) → i < 512 → words (slot page i) ≡ 0

unfoldable pub extend : Role → ℕ → List ℕ → Role
extend role page q t = if t == page then some q else role t

-- The path as a list from the root, from the part that is behind and the part that is ahead.
unfoldable pub full_path : List ℕ → List ℕ → List ℕ
full_path [] is = is
full_path (i ∷ q) is = full_path q (i ∷ is)

pub write_cell-same : (f : ℕ → ℕ) (a v : ℕ) → write_cell f a v a ≡ v
unfolding write_cell
write_cell-same f a v = ground arith

pub write_cell-other : (f : ℕ → ℕ) (a v b : ℕ) → b ≢ a → write_cell f a v b ≡ f b
unfolding write_cell
write_cell-other f a v b ne = ground arith

-- Entries of tables are at the same address only if they are the same.
pub slot-eq :
    (t u i j : ℕ)
    → t % 4096 ≡ 0
    → u % 4096 ≡ 0
    → i < 512
    → j < 512
    → slot t i ≡ slot u j
    → (t ≡ u) × (i ≡ j)
slot-eq t u i j at au li lj e = (omega arith, omega arith)

pub some-ne-none : {q : List ℕ} → ¬ (◌≡◌ {A = Option (List ℕ)} (some q) none)
some-ne-none e = ground arith

pub present-zero : is_present 0 ≡ false
unfolding is_present
present-zero = refl

pub present-0 : ¬ (is_present 0 ≡ true)
unfolding is_present
present-0 e = ground arith

pub extend-here : (role : Role) (page : ℕ) (q : List ℕ) → extend role page q page ≡ some q
unfolding extend
extend-here role page q = ground arith

pub extend-cases :
    (role : Role) (page : ℕ) (q : List ℕ) (u : ℕ) (r : List ℕ)
    → extend role page q u ≡ some r
    → ((u ≡ page) × (r ≡ q)) ⊎ (role u ≡ some r)
unfolding extend
extend-cases role page q u r e = elim (Bool-cases (u == page)) [
  | inl same ↦ inl (ground arith, ground arith)
  | inr other ↦ inr (ground arith)
]

pub extend-other :
    (role : Role) (page : ℕ) (q : List ℕ) (u : ℕ) (r : List ℕ)
    → role page ≡ none
    → role u ≡ some r
    → extend role page q u ≡ some r
unfolding extend
extend-other role page q u r unused e = elim (Bool-cases (u == page)) [
  | inl same ↦
      let here : u ≡ page = ground arith in absurd (some-ne-none (sym e ∙ (ap role here ∙ unused)))
  | inr other ↦ rw other e
]

some-injective : {q r : List ℕ} → ◌≡◌ {A = Option (List ℕ)} (some q) (some r) → q ≡ r
some-injective e = ground arith

module _ (role : Role) (words : ℕ → ℕ) (tree : IsTree role words) (t i : ℕ) (q : List ℕ)
    (has : role t ≡ some q) (low : i < 512) (w : ℕ) where
  abbrev pub written : ℕ → ℕ
  written = write_cell words (slot t i) w

  -- What stands in an entry of a table after the write.
  pub written-cases :
      (u j : ℕ) (r : List ℕ)
      → role u ≡ some r
      → j < 512
      → ((u ≡ t) × (j ≡ i) × (r ≡ q) × (written (slot u j) ≡ w))
        ⊎ (written (slot u j) ≡ words (slot u j))
  written-cases u j r is less = elim (compare-cases (slot u j) (slot t i)) [
    | inr (inl (o, same)) ↦
        let (tables, entries) =
          slot-eq u t j i (tree.aligned u r is) (tree.aligned t q has) less low same in
        inl (
          tables,
          entries,
          some-injective (sym is ∙ (ap role tables ∙ has)),
          ap written same ∙ write_cell-same words (slot t i) w,
        )
    | inl (o, before) ↦ inr (write_cell-other words (slot t i) w (slot u j) (λ e. omega arith))
    | inr (inr (o, behind)) ↦
        inr (write_cell-other words (slot t i) w (slot u j) (λ e. omega arith))
  ]

  -- Blank pages other than the new table stay blank.
  pub written-IsBlank :
      (page : ℕ) → IsBlank role words page → (j : ℕ) → j < 512 → written (slot page j) ≡ 0
  written-IsBlank page blank j less =
      write_cell-other words (slot t i) w (slot page j) (λ e.
        let same = (slot-eq page t j i blank.aligned (tree.aligned t q has) less low e).0 in
        some-ne-none (sym has ∙ (sym (ap role same) ∙ blank.unused)))
      ∙ blank.empty j less
