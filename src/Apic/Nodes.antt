-- ===== src/Apic/Nodes.antt =====
-- The list of local controllers in apic.c: how its loops search and update it.
use gapxos.Base.{
  ℕ, ◌≡◌, ◌≢◌, refl, true, false, Option, none, some, List, [], ◌∷◌, arith, ◌==◌, if◌then◌else◌,
  Bool-cases, Option-cases, inl, inr,
}
use gapxos.Apic.{Lapic, update_lapic}

-- The settings of a processor.
unfoldable pub lapic_of : ℕ → List Lapic → Option Lapic
lapic_of uid [] = none
lapic_of uid (x ∷ xs) = if x.proc_uid == uid then some x else lapic_of uid xs

-- No two nodes are for the same processor.
abbrev pub IsUnique : List Lapic → Type 0
IsUnique [] = Unit {0}
IsUnique (x ∷ xs) = (lapic_of x.proc_uid xs ≡ none) × IsUnique xs

-- An update that leaves the processor as it is.
abbrev pub KeepsUid : (Lapic → Lapic) → Type 0
KeepsUid f = (x : Lapic) → (f x).proc_uid ≡ x.proc_uid

==-self : (a : ℕ) → (a == a) ≡ true
==-self a = ground arith

pub update_lapic-twice :
    (uid : ℕ) (f g : Lapic → Lapic) (xs ys : List Lapic)
    → KeepsUid f
    → update_lapic uid f xs ≡ some ys
    → update_lapic uid g ys ≡ update_lapic uid (λ x. g (f x)) xs
unfolding update_lapic
update_lapic-twice uid f g [] ys keeps e = ground arith
update_lapic-twice uid f g (x ∷ xs) ys keeps e = elim (Bool-cases (x.proc_uid == uid)) [
  | inl hit ↦ let same : ys ≡ f x ∷ xs = ground arith in rw (same, keeps x, hit) refl
  | inr miss ↦ elim (Option-cases (update_lapic uid f xs)) [
    | inl gone ↦ ground arith
    | inr (zs, found) ↦
        let same : ys ≡ x ∷ zs = ground arith in
        rw (same, miss, update_lapic-twice uid f g xs zs keeps found) refl
  ]
]

-- An update finds the node that the search finds, and changes it alone.
pub update_lapic-lapic_of :
    (uid : ℕ) (f : Lapic → Lapic) (xs ys : List Lapic)
    → KeepsUid f
    → update_lapic uid f xs ≡ some ys
    → (x : Lapic) × (lapic_of uid xs ≡ some x) × (lapic_of uid ys ≡ some (f x))
unfolding update_lapic lapic_of
update_lapic-lapic_of uid f [] ys keeps e = ground arith
update_lapic-lapic_of uid f (x ∷ xs) ys keeps e = elim (Bool-cases (x.proc_uid == uid)) [
  | inl hit ↦
      let same : ys ≡ f x ∷ xs = ground arith in (x, rw hit refl, rw (same, keeps x, hit) refl)
  | inr miss ↦ elim (Option-cases (update_lapic uid f xs)) [
    | inl gone ↦ ground arith
    | inr (zs, found) ↦
        let same : ys ≡ x ∷ zs = ground arith in
        let (y, before, after) = update_lapic-lapic_of uid f xs zs keeps found in
        (y, rw miss before, rw (same, miss) after)
  ]
]

pub update_lapic-others :
    (uid u : ℕ) (f : Lapic → Lapic) (xs ys : List Lapic)
    → KeepsUid f
    → update_lapic uid f xs ≡ some ys
    → u ≢ uid
    → lapic_of u ys ≡ lapic_of u xs
unfolding update_lapic lapic_of
update_lapic-others uid u f [] ys keeps e ne = ground arith
update_lapic-others uid u f (x ∷ xs) ys keeps e ne = elim (Bool-cases (x.proc_uid == uid)) [
  | inl hit ↦
      let same : ys ≡ f x ∷ xs = ground arith in
      let miss : (x.proc_uid == u) ≡ false = ground arith in rw (same, keeps x, miss) refl
  | inr miss ↦ elim (Option-cases (update_lapic uid f xs)) [
    | inl gone ↦ ground arith
    | inr (zs, found) ↦
        let same : ys ≡ x ∷ zs = ground arith in
        let rest = update_lapic-others uid u f xs zs keeps found ne in rw (same, rest) refl
  ]
]

pub update_lapic-none :
    (uid : ℕ) (f : Lapic → Lapic) (xs : List Lapic)
    → update_lapic uid f xs ≡ none
    → lapic_of uid xs ≡ none
unfolding update_lapic lapic_of
update_lapic-none uid f [] e = refl
update_lapic-none uid f (x ∷ xs) e = elim (Bool-cases (x.proc_uid == uid)) [
  | inl hit ↦ ground arith
  | inr miss ↦ elim (Option-cases (update_lapic uid f xs)) [
    | inl gone ↦ rw miss (update_lapic-none uid f xs gone)
    | inr (ys, found) ↦ ground arith
  ]
]

pub update_lapic-IsUnique :
    (uid : ℕ) (f : Lapic → Lapic) (xs ys : List Lapic)
    → KeepsUid f
    → update_lapic uid f xs ≡ some ys
    → IsUnique xs
    → IsUnique ys
unfolding update_lapic
update_lapic-IsUnique uid f [] ys keeps e unique = ground arith
update_lapic-IsUnique uid f (x ∷ xs) ys keeps e unique = elim (Bool-cases (x.proc_uid == uid)) [
  | inl hit ↦ let same : ys ≡ f x ∷ xs = ground arith in rw (same, keeps x) unique
  | inr miss ↦ elim (Option-cases (update_lapic uid f xs)) [
    | inl gone ↦ ground arith
    | inr (zs, found) ↦
        let same : ys ≡ x ∷ zs = ground arith in
        let ne : x.proc_uid ≢ uid = ground arith in
        rw (same, update_lapic-others uid x.proc_uid f xs zs keeps found ne)
          (unique.0, update_lapic-IsUnique uid f xs zs keeps found unique.1)
  ]
]

pub update_lapic-miss :
    (uid : ℕ) (f g : Lapic → Lapic) (xs : List Lapic)
    → update_lapic uid f xs ≡ none
    → update_lapic uid g xs ≡ none
unfolding update_lapic
update_lapic-miss uid f g [] e = refl
update_lapic-miss uid f g (x ∷ xs) e = elim (Bool-cases (x.proc_uid == uid)) [
  | inl hit ↦ ground arith
  | inr miss ↦ elim (Option-cases (update_lapic uid f xs)) [
    | inl gone ↦ rw (miss, update_lapic-miss uid f g xs gone) refl
    | inr (ys, found) ↦ ground arith
  ]
]

pub update_lapic-hit :
    (uid : ℕ) (f g : Lapic → Lapic) (xs ys : List Lapic)
    → update_lapic uid f xs ≡ some ys
    → (zs : List Lapic) × (update_lapic uid g xs ≡ some zs)
update_lapic-hit uid f g xs ys e = elim (Option-cases (update_lapic uid g xs)) [
  | inl gone ↦ ground (arith, update_lapic-miss uid g f xs gone)
  | inr found ↦ found
]

pub update_lapic-head :
    (uid : ℕ) (f : Lapic → Lapic) (x : Lapic) (xs : List Lapic)
    → x.proc_uid ≡ uid
    → update_lapic uid f (x ∷ xs) ≡ some (f x ∷ xs)
unfolding update_lapic
update_lapic-head uid f x xs e = ground arith

pub lapic_of-head : (x : Lapic) (xs : List Lapic) → lapic_of x.proc_uid (x ∷ xs) ≡ some x
unfolding lapic_of
lapic_of-head x xs = ground arith

pub lapic_of-tail :
    (u : ℕ) (x : Lapic) (xs : List Lapic) → x.proc_uid ≢ u → lapic_of u (x ∷ xs) ≡ lapic_of u xs
unfolding lapic_of
lapic_of-tail u x xs ne = ground arith
