-- ===== src/Heap/Apart.antt =====
-- Blocks that do not overlap.
use gapxos.Base.{
  ◌+◌, ◌≤◌, ◌≢◌, arith, List, [], ◌∷◌, ◌++◌, All, All-append, All-append_left, All-append_right,
  ◌⊎◌,
}
use gapxos.Heap.{header}
use gapxos.Heap.Chain.{Cell}

-- With their headers, one ends before the other begins.
abbrev pub Apart : Cell → Cell → Type 0
Apart c d = (c.addr + header + c.length ≤ d.addr) ⊎ (d.addr + header + d.length ≤ c.addr)

abbrev pub IsApart : List Cell → Type 0
IsApart [] = Unit {0}
IsApart (c ∷ cs) = All (Apart c) cs × IsApart cs

-- A cell of a list, and the others.
pub Apart-before :
    (before : List Cell) (c : Cell) (after : List Cell)
    → IsApart (before ++ c ∷ after)
    → All (Apart c) before
Apart-before [] c after apart = tt
Apart-before (b ∷ before) c after apart =
    let there = All-append_right (Apart b) before (c ∷ after) apart.0 in
    (ground (arith, there.0), Apart-before before c after apart.1)

pub Apart-after :
    (before : List Cell) (c : Cell) (after : List Cell)
    → IsApart (before ++ c ∷ after)
    → All (Apart c) after
Apart-after [] c after apart = apart.0
Apart-after (b ∷ before) c after apart = Apart-after before c after apart.1

pub IsApart-remove :
    (before : List Cell) (c : Cell) (after : List Cell)
    → IsApart (before ++ c ∷ after)
    → IsApart (before ++ after)
IsApart-remove [] c after apart = apart.1
IsApart-remove (b ∷ before) c after apart = (
  All-append (Apart b) before after (All-append_left (Apart b) before (c ∷ after) apart.0)
      (All-append_right (Apart b) before (c ∷ after) apart.0).1,
  IsApart-remove before c after apart.1,
)

-- A cell is put in the place of another.
pub IsApart-replace :
    (before : List Cell) (c d : Cell) (after : List Cell)
    → All (Apart d) before
    → All (Apart d) after
    → IsApart (before ++ c ∷ after)
    → IsApart (before ++ d ∷ after)
IsApart-replace [] c d after sb sa apart = (sa, apart.1)
IsApart-replace (b ∷ before) c d after sb sa apart = (
  All-append (Apart b) before (d ∷ after) (All-append_left (Apart b) before (c ∷ after) apart.0)
      (ground (arith, sb.0), (All-append_right (Apart b) before (c ∷ after) apart.0).1),
  IsApart-replace before c d after sb.1 sa apart.1,
)

pub IsApart-snoc :
    (cs : List Cell) (n : Cell) → All (Apart n) cs → IsApart cs → IsApart (cs ++ n ∷ [])
IsApart-snoc [] n sides apart = (tt, tt)
IsApart-snoc (c ∷ cs) n sides apart = (
  All-append (Apart c) cs (n ∷ []) apart.0 (ground (arith, sides.0), tt),
  IsApart-snoc cs n sides.1 apart.1,
)

-- The address of a cell is in no other one.
pub ne_of_Apart : (c d : Cell) → Apart c d → d.addr ≢ c.addr
ne_of_Apart c d apart = ground arith

-- Two parts of a list.
pub Apart-parts : (xs ys : List Cell) → IsApart (xs ++ ys) → All (λ x. All (Apart x) ys) xs
Apart-parts [] ys apart = tt
Apart-parts (x ∷ xs) ys apart =
    (All-append_right (Apart x) xs ys apart.0, Apart-parts xs ys apart.1)

pub IsApart-right : (xs ys : List Cell) → IsApart (xs ++ ys) → IsApart ys
IsApart-right [] ys apart = apart
IsApart-right (x ∷ xs) ys apart = IsApart-right xs ys apart.1

pub IsApart-left : (xs ys : List Cell) → IsApart (xs ++ ys) → IsApart xs
IsApart-left [] ys apart = tt
IsApart-left (x ∷ xs) ys apart =
    (All-append_left (Apart x) xs ys apart.0, IsApart-left xs ys apart.1)

pub Apart-parts_back : (xs ys : List Cell) → IsApart (xs ++ ys) → All (λ y. All (Apart y) xs) ys
Apart-parts_back xs [] apart = tt
Apart-parts_back xs (y ∷ ys) apart =
    (Apart-before xs y ys apart, Apart-parts_back xs ys (IsApart-remove xs y ys apart))

pub IsApart-insert :
    (xs : List Cell) (c : Cell) (ys : List Cell)
    → All (Apart c) (xs ++ ys)
    → IsApart (xs ++ ys)
    → IsApart (xs ++ c ∷ ys)
IsApart-insert [] c ys sides apart = (sides, apart)
IsApart-insert (x ∷ xs) c ys sides apart = (
  All-append (Apart x) xs (c ∷ ys) (All-append_left (Apart x) xs ys apart.0)
      (ground (arith, sides.0), All-append_right (Apart x) xs ys apart.0),
  IsApart-insert xs c ys sides.1 apart.1,
)

pub IsApart-drop : (xs ms ys : List Cell) → IsApart (xs ++ (ms ++ ys)) → IsApart (xs ++ ys)
IsApart-drop xs [] ys apart = apart
IsApart-drop xs (m ∷ ms) ys apart = IsApart-drop xs ms ys (IsApart-remove xs m (ms ++ ys) apart)
