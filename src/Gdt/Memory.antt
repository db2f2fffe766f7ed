-- ===== src/Gdt/Memory.antt =====
-- The bytes that gdt.c stores and that memcpy copies.
use gapxos.Base.{
  ℕ, zero, suc, ◌+◌, ◌≤◌, ◌<◌, ◌≡◌, ◌⊎◌, inl, inr, refl, ◌∙◌, subst, List, [], ◌∷◌, length,
  get_elem?, some, arith,
}
use gapxos.Pmm.{write_cell}
use gapxos.Gdt.{write_bytes, memcpy}

-- Two blocks that do not overlap.
abbrev pub Apart : ℕ → ℕ → ℕ → ℕ → Type 0
Apart a n b m = (a + n ≤ b) ⊎ (b + m ≤ a)

-- The byte is none of the block's.
abbrev pub IsOutside : ℕ → ℕ → ℕ → Type 0
IsOutside x a n = (x < a) ⊎ (a + n ≤ x)

write_cell-other : (f : ℕ → ℕ) (i v j : ℕ) → IsOutside j i 1 → write_cell f i v j ≡ f j
unfolding write_cell
write_cell-other f i v j outside = ground (arith, outside)

write_cell-same : (f : ℕ → ℕ) (i v : ℕ) → write_cell f i v i ≡ v
unfolding write_cell
write_cell-same f i v = ground arith

IsOutside-tail : (x a n : ℕ) → IsOutside x a (suc n) → IsOutside x (a + 1) n × IsOutside x a 1
IsOutside-tail x a n (inl before) = (inl (omega arith), inl before)
IsOutside-tail x a n (inr behind) = (inr (omega arith), inr (omega arith))

pub write_bytes-outside :
    (bs : List ℕ) (target x : ℕ) (f : ℕ → ℕ)
    → IsOutside x target (length bs)
    → write_bytes target bs f x ≡ f x
unfolding write_bytes
write_bytes-outside [] target x f outside = refl
write_bytes-outside (b ∷ bs) target x f outside =
    let (rest, here) = IsOutside-tail x target (length bs) outside in
    write_bytes-outside bs (target + 1) x (write_cell f target b) rest
    ∙ write_cell-other f target b x here

pub write_bytes-at :
    (bs : List ℕ) (target k v : ℕ) (f : ℕ → ℕ)
    → get_elem? bs k ≡ some v
    → write_bytes target bs f (target + k) ≡ v
unfolding write_bytes
write_bytes-at [] target k v f is = ground arith
write_bytes-at (b ∷ bs) target zero v f is =
    subst (λ z. write_bytes (target + 1) bs (write_cell f target b) z ≡ v) (omega arith)
      (write_bytes-outside bs (target + 1) target (write_cell f target b) (inl (omega arith))
        ∙ (write_cell-same f target b ∙ ground arith))
write_bytes-at (b ∷ bs) target (suc k) v f is =
    subst (λ z. write_bytes (target + 1) bs (write_cell f target b) z ≡ v) (omega arith)
      (write_bytes-at bs (target + 1) k v (write_cell f target b) is)

pub memcpy-outside : (n dst src x : ℕ) (f : ℕ → ℕ) → IsOutside x dst n → memcpy dst src n f x ≡ f x
unfolding memcpy
memcpy-outside zero dst src x f outside = refl
memcpy-outside (suc n) dst src x f outside =
    let (rest, here) = IsOutside-tail x dst n outside in
    memcpy-outside n (dst + 1) (src + 1) x (write_cell f dst (f src)) rest
    ∙ write_cell-other f dst (f src) x here

-- Where the blocks do not overlap, the bytes are copied.
pub memcpy-copies :
    (n dst src j : ℕ) (f : ℕ → ℕ)
    → Apart dst n src n
    → j < n
    → memcpy dst src n f (dst + j) ≡ f (src + j)
unfolding memcpy
memcpy-copies zero dst src j f apart less = absurd (omega arith)
memcpy-copies (suc n) dst src zero f apart less =
    let here : dst + 0 ≡ dst = omega arith in
    let there : src + 0 ≡ src = omega arith in
    rw (here, there)
      (memcpy-outside n (dst + 1) (src + 1) dst (write_cell f dst (f src)) (inl (omega arith))
        ∙ write_cell-same f dst (f src))
memcpy-copies (suc n) dst src (suc j) f apart less =
    let g = write_cell f dst (f src) in
    let here : dst + suc j ≡ dst + 1 + j = omega arith in
    let there : src + suc j ≡ src + 1 + j = omega arith in
    rw (here, there)
      (memcpy-copies n (dst + 1) (src + 1) j g (Apart-tail dst src n apart) (omega arith)
        ∙ write_cell-other f dst (f src) (src + 1 + j) (beside dst src n j apart (omega arith)))
  where
    Apart-tail : (a b m : ℕ) → Apart a (suc m) b (suc m) → Apart (a + 1) m (b + 1) m
    Apart-tail a b m (inl before) = inl (omega arith)
    Apart-tail a b m (inr behind) = inr (omega arith)

    beside : (a b m i : ℕ) → Apart a (suc m) b (suc m) → i < m → IsOutside (b + 1 + i) a 1
    beside a b m i (inl before) inside = inr (omega arith)
    beside a b m i (inr behind) inside = inl (omega arith)
