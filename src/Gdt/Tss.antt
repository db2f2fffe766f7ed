-- ===== src/Gdt/Tss.antt =====
-- gdt_add_tss of gdt.c: a task state with its descriptor.
use gapxos.Base.{
  ℕ, ◌+◌, ◌*◌, ◌/◌, ◌%◌, ◌^◌, ◌≤◌, ◌<◌, ◌≡◌, refl, ◌∙◌, sym, ap, subst, false, List, [], ◌∷◌, inl,
  inr, get_elem?, Option, some, arith,
}
use native.Mathlib.Decide.{ℕ_discrete}
use gapxos.Gdt.{
  Gdt, Host, World, is_refused, descriptor, flags_byte, stored_limit, write_bytes, word_bytes,
  tss_entry, gdt_add_tss,
}
use gapxos.Gdt.Memory.{Apart, IsOutside, write_bytes-outside, write_bytes-at}
use gapxos.Gdt.Init.{get_elem?-length}
use gapxos.Gdt.Table.{IsTable, Renews, IsAdded, add_entry-IsAdded}

-- The descriptor of a task state: a limit of 103 bytes, the low 32 bits of its address, and the type
-- of an available one.
abbrev pub tss_bytes : ℕ → List ℕ
tss_bytes tss =
    103
    ∷ 0
    ∷ tss % 2 ^ 8
    ∷ tss / 2 ^ 8 % 2 ^ 8
    ∷ tss / 2 ^ 16 % 2 ^ 8
    ∷ 0x89
    ∷ 0
    ∷ tss / 2 ^ 24 % 2 ^ 8
    ∷ []

descriptor-tss_entry : (tss : ℕ) → descriptor (tss_entry tss) false ≡ tss_bytes tss
unfolding descriptor flags_byte stored_limit
descriptor-tss_entry tss = refl

-- The task state has the stack as rsp0, and its length as iopb_offset.
pub record IsTaskState (tss int_stack : ℕ) (f : ℕ → ℕ) : Type 0 where
  pub rsp0 : (k b : ℕ) → get_elem? (word_bytes int_stack) k ≡ some b → f (tss + 4 + k) ≡ b
  pub low : f (tss + 102) ≡ 104
  pub high : f (tss + 103) ≡ 0

module _ (tss int_stack : ℕ) (f : ℕ → ℕ) where
  abbrev stacked : ℕ → ℕ
  stacked = write_bytes (tss + 4) (word_bytes int_stack) f

  abbrev filled : ℕ → ℕ
  filled = write_bytes (tss + 102) (104 ∷ 0 ∷ []) stacked

  filled-outside : (x : ℕ) → IsOutside x tss 104 → filled x ≡ f x
  filled-outside x outside =
      write_bytes-outside (104 ∷ 0 ∷ []) (tss + 102) x stacked (ground (arith, outside))
      ∙ write_bytes-outside (word_bytes int_stack) (tss + 4) x f (ground (arith, outside))

  filled-IsTaskState : IsTaskState tss int_stack filled
  filled-IsTaskState = record {
    rsp0 = λ k b is.
        write_bytes-outside (104 ∷ 0 ∷ []) (tss + 102) (tss + 4 + k) stacked
          (inl (omega (arith, get_elem?-length (word_bytes int_stack) k b is)))
        ∙ write_bytes-at (word_bytes int_stack) (tss + 4) k b f is;
    low =
        subst (λ z. filled z ≡ 104) (omega arith)
          (write_bytes-at (104 ∷ 0 ∷ []) (tss + 102) 0 104 stacked refl);
    high =
        subst (λ z. filled z ≡ 0) (omega arith)
          (write_bytes-at (104 ∷ 0 ∷ []) (tss + 102) 1 0 stacked refl);
  }

  task_kept :
      (f' : ℕ → ℕ)
      → ((x : ℕ) → tss ≤ x → x < tss + 104 → f' x ≡ filled x)
      → IsTaskState tss int_stack f'
  task_kept f' same = record {
    rsp0 = λ k b is.
        same (tss + 4 + k) (omega arith)
          (omega (arith, get_elem?-length (word_bytes int_stack) k b is))
        ∙ filled-IsTaskState.rsp0 k b is;
    low = same (tss + 102) (omega arith) (omega arith) ∙ filled-IsTaskState.low;
    high = same (tss + 103) (omega arith) (omega arith) ∙ filled-IsTaskState.high;
  }

Apart-swap : (a n b m : ℕ) → Apart a n b m → Apart b m a n
Apart-swap a n b m (inl before) = inr before
Apart-swap a n b m (inr behind) = inl behind

IsOutside-Apart : (x a n b m : ℕ) → Apart a n b m → b ≤ x → x < b + m → IsOutside x a n
IsOutside-Apart x a n b m (inl before) lower upper = inr (omega arith)
IsOutside-Apart x a n b m (inr behind) lower upper = inl (omega arith)

module _ {H : Type 0} (host : Host H) where
  -- The task state and its descriptor, with all other bytes as before but for the table's own block.
  pub record HasTask (tss int_stack : ℕ) (g : Gdt) (w : World H) (r : Option (ℕ × Gdt × World H))
      : Type 0 where
    pub left : Gdt
    pub after : World H
    pub returned : r ≡ some (g.entries * 8, left, after)
    pub table : IsTable left
    pub counted : left.entries ≡ g.entries + 1
    pub kept : (j : ℕ) → j < g.entries * 8 → after.bytes (left.base + j) ≡ w.bytes (g.base + j)
    pub added :
        (k b : ℕ)
        → get_elem? (tss_bytes tss) k ≡ some b
        → after.bytes (left.base + g.entries * 8 + k) ≡ b
    pub task : IsTaskState tss int_stack after.bytes
    pub aside :
        (x : ℕ)
        → IsOutside x left.base left.allocated_size
        → IsOutside x tss 104
        → after.bytes x ≡ w.bytes x

  -- The block of the table after the call, beside the task state.
  tss_apart :
      (tss : ℕ) (g : Gdt) (w : World H) {bytes : List ℕ} {r : Option (ℕ × Gdt × World H)}
      (a : IsAdded host g w bytes r)
      → Apart g.base g.allocated_size tss 104
      → (g.entries * 8 ≡ g.allocated_size
          → (r : Renews host g.base g.allocated_size w.heap) × Apart r.new
              (g.allocated_size * 2)
              tss
              104)
      → Apart a.left.base a.left.allocated_size tss 104
  tss_apart tss g w a apart renews = elim (ℕ_discrete (g.entries * 8) g.allocated_size) [
    | yes full ↦
        let (r, there) = renews full in
        let (b, z) = a.moves r.new r.given full r.gives in
        subst (λ v. Apart v a.left.allocated_size tss 104) (sym b)
          (subst (λ v. Apart r.new v tss 104) (sym z) there)
    | no spare ↦
        let (b, z, _) = a.stays spare in
        subst (λ v. Apart v a.left.allocated_size tss 104) (sym b)
          (subst (λ v. Apart g.base v tss 104) (sym z) apart)
  ]

  -- For a table with room for its entries, of a size whose double is a 64-bit word, where malloc
  -- gives 104 bytes beside the table; and, if the table is full, where malloc then gives twice its
  -- bytes beside it and beside the 104 bytes, and free returns: gdt_add_tss returns the selector of
  -- a new entry behind the others. The 104 bytes hold the stack as rsp0 and 104 as iopb_offset, the
  -- entry has the low 32 bits of their address, a limit of 103 and the type 0x89, the others are as
  -- before, and no byte outside of the 104 bytes and the block of the table has changed.
  pub gdt_add_tss-HasTask :
      (tss int_stack : ℕ) (g : Gdt) (w : World H) (h : H)
      → IsTable g
      → g.allocated_size * 2 < 2 ^ 64
      → host.malloc 104 w.heap ≡ some (tss, h)
      → Apart g.base g.allocated_size tss 104
      → (g.entries * 8 ≡ g.allocated_size
          → (r : Renews host g.base g.allocated_size h) × Apart r.new
              (g.allocated_size * 2)
              tss
              104)
      → HasTask tss int_stack g w (gdt_add_tss host int_stack g w)
  unfolding gdt_add_tss is_refused
  gdt_add_tss-HasTask tss int_stack g w h t small gives apart renews =
      let w' : World H = record w { heap = h; bytes = filled tss int_stack w.bytes } in
      let a =
        add_entry-IsAdded host (tss_entry tss) false g w' t small refl (λ full. (renews full).0) in
      let beside = tss_apart tss g w' a apart renews in
      record {
        left = a.left;
        after = a.after;
        returned = rw gives a.returned;
        table = a.table;
        counted = a.counted;
        kept = λ j less.
            a.kept j less
            ∙ filled-outside tss int_stack w.bytes (g.base + j) (
                IsOutside-Apart (g.base + j) tss 104 g.base g.allocated_size
                  (Apart-swap g.base g.allocated_size tss 104 apart) (omega arith)
                  (omega (arith, t.room)));
        added = λ k b is. a.added k b (ap (λ bs. get_elem? bs k) (descriptor-tss_entry tss) ∙ is);
        task = task_kept tss int_stack w.bytes a.after.bytes (λ x lower upper.
            a.aside x
              (IsOutside-Apart x a.left.base a.left.allocated_size tss 104 beside lower upper));
        aside = λ x out_table out_task.
            a.aside x out_table ∙ filled-outside tss int_stack w.bytes x out_task;
      }
