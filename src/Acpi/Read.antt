-- ===== src/Acpi/Read.antt =====
-- The loads of acpi.c where memory is mapped.
use gapxos.Base.{
  ℕ, zero, suc, ◌+◌, ◌*◌, ◌%◌, ◌^◌, ◌≤◌, ◌<◌, ◌≡◌, refl, subst, arith, Bool, true, false, some,
  List, [], ◌∷◌, ◌==◌, if◌then◌else◌, length, Bool-cases, inl, inr,
}
use gapxos.Acpi.{Mapper, length_at, load_word, sum_from, validate_checksum, is_table}

-- The same, read from physical memory.
abbrev pub word_at : (ℕ → ℕ) → ℕ → ℕ → ℕ
word_at phys zero p = 0
word_at phys (suc n) p = phys p + 2 ^ 8 * word_at phys n (p + 1)

abbrev pub sum_at : (ℕ → ℕ) → ℕ → ℕ → ℕ → ℕ
sum_at phys zero p sum = sum
sum_at phys (suc n) p sum = sum_at phys n (p + 1) ((sum + phys p) % 2 ^ 8)

abbrev pub is_signed : (ℕ → ℕ) → ℕ → List ℕ → Bool
is_signed phys p [] = true
is_signed phys p (c ∷ cs) = if phys p == c then is_signed phys (p + 1) cs else false

module _ {S : Type 0} (mapper : Mapper S) (phys : ℕ → ℕ) (s : S) where
  -- The bytes from v on are those from p on.
  abbrev pub Visible : ℕ → ℕ → ℕ → Type 0
  Visible v p n = (k : ℕ) → k < n → mapper.load (v + k) s ≡ some (phys (p + k))

  Visible-first : (v p n : ℕ) → 0 < n → Visible v p n → mapper.load v s ≡ some (phys p)
  Visible-first v p n some_n there =
      subst (λ i. mapper.load i s ≡ some (phys p)) (omega arith)
        (subst (λ i. mapper.load (v + 0) s ≡ some (phys i)) (omega arith) (there 0 some_n))

  pub Visible-part : (v p n d m : ℕ) → d + m ≤ n → Visible v p n → Visible (v + d) (p + d) m
  Visible-part v p n d m fits there k less =
      subst (λ i. mapper.load i s ≡ some (phys (p + d + k))) (omega arith)
        (subst (λ i. mapper.load (v + (d + k)) s ≡ some (phys i)) (omega arith)
          (there (d + k) (omega (arith, fits, less))))

  Visible-next : (v p n m : ℕ) → n < m → Visible v p m → Visible (v + 1) (p + 1) n
  Visible-next v p n m shorter there = Visible-part v p m 1 n (omega (arith, shorter)) there

  pub load_word-at : (n v p : ℕ) → Visible v p n → load_word mapper n v s ≡ some (word_at phys n p)
  unfolding load_word
  load_word-at zero v p there = refl
  load_word-at (suc n) v p there =
      rw
        (
          load_word,
          Visible-first v p (suc n) (omega arith) there,
          load_word-at n (v + 1) (p + 1) (Visible-next v p n (suc n) (omega arith) there),
        )
        refl

  pub sum_from-at :
      (n v p sum : ℕ) → Visible v p n → sum_from mapper n v sum s ≡ some (sum_at phys n p sum)
  unfolding sum_from
  sum_from-at zero v p sum there = refl
  sum_from-at (suc n) v p sum there =
      rw (sum_from, Visible-first v p (suc n) (omega arith) there)
        (sum_from-at n (v + 1) (p + 1) ((sum + phys p) % 2 ^ 8)
          (Visible-next v p n (suc n) (omega arith) there))

  pub is_table-at :
      (cs : List ℕ) (v p : ℕ)
      → Visible v p (length cs)
      → is_table mapper v cs s ≡ some (is_signed phys p cs)
  unfolding is_table
  is_table-at [] v p there = refl
  is_table-at (c ∷ cs) v p there =
      let first = Visible-first v p (length (c ∷ cs)) (omega arith) there in
      elim (Bool-cases (phys p == c)) [
        | inl same ↦
            rw (is_table, first, same)
              (is_table-at cs (v + 1) (p + 1)
                (Visible-next v p (length cs) (length (c ∷ cs)) (omega arith) there))
        | inr other ↦ rw (is_table, first, other) refl
      ]

  -- The checksum of a table that can be read.
  pub validate_checksum-at :
      (v p : ℕ)
      → Visible v p 8
      → Visible v p (word_at phys 4 (p + length_at))
      → (validate_checksum mapper v s
          ≡ some (sum_at phys (word_at phys 4 (p + length_at)) p 0 == 0))
        × (load_word mapper 4 (v + length_at) s ≡ some (word_at phys 4 (p + length_at)))
  unfolding validate_checksum
  validate_checksum-at v p head all =
      let length_there : load_word mapper 4 (v + length_at) s
          ≡ some (word_at phys 4 (p + length_at)) =
        load_word-at 4 (v + length_at) (p + length_at)
          (Visible-part v p 8 length_at 4 (omega arith) head) in
      (rw (length_there, sum_from-at (word_at phys 4 (p + length_at)) v p 0 all) refl, length_there)
