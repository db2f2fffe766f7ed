-- ===== src/Gdt/Table.antt =====
-- _add_entry of gdt.c appends to the table.
use gapxos.Base.{
  ℕ, ◌+◌, ◌-◌, ◌*◌, ◌/◌, ◌%◌, ◌^◌, ◌≤◌, ◌<◌, ◌≡◌, ◌≢◌, refl, ◌∙◌, sym, subst, Bool, false, ◌==◌,
  Option, List, length, get_elem?, some, arith, Bool-cases, inl, inr,
}
use gapxos.Pmm.{u64}
use gapxos.Gdt.{
  GdtEntry, Gdt, Host, World, is_refused, descriptor, write_bytes, memcpy, grow, place, add_entry,
}
use gapxos.Gdt.Memory.{
  Apart, IsOutside, write_bytes-outside, write_bytes-at, memcpy-outside, memcpy-copies,
}

pub length-descriptor : (e : GdtEntry) (code_64 : Bool) → length (descriptor e code_64) ≡ 8
unfolding descriptor
length-descriptor e code_64 = refl

-- The block of the table has room for its entries.
pub record IsTable (g : Gdt) : Type 0 where
  pub room : g.entries * 8 ≤ g.allocated_size
  pub whole : g.allocated_size % 8 ≡ 0
  pub some_room : 0 < g.allocated_size

-- What the two calls of the heap do when a table of so many bytes is renewed: malloc gives twice as
-- many bytes beside it, and free returns.
pub record Renews {H : Type 0} (host : Host H) (base size : ℕ) (h : H) : Type 0 where
  pub new : ℕ
  pub given : H
  pub last : H
  pub gives : host.malloc (size * 2) h ≡ some (new, given)
  pub apart : Apart new (size * 2) base size
  pub takes : host.free base given ≡ some last

Renews-new :
    {H : Type 0} (host : Host H) (base size : ℕ) (h : H) (r : Renews host base size h) (new : ℕ)
    (h' : H)
    → host.malloc (size * 2) h ≡ some (new, h')
    → r.new ≡ new
Renews-new host base size h r new h' gives =
    let same : some (r.new, r.given) ≡ some (new, h') = sym r.gives ∙ gives in ground (arith, same)

module _ {H : Type 0} (host : Host H) where
  -- The table with room made for one more entry.
  record IsPlaced (g : Gdt) (w : World H) (r : Option (Gdt × World H)) : Type 0 where
    left : Gdt
    after : World H
    returned : r ≡ some (left, after)
    table : IsTable left
    counted : left.entries ≡ g.entries + 1
    size : left.allocated_size ≤ g.allocated_size * 2
    kern : left.kern_code_seg ≡ g.kern_code_seg
    copied : (j : ℕ) → j < g.entries * 8 → after.bytes (left.base + j) ≡ w.bytes (g.base + j)
    aside : (x : ℕ) → IsOutside x left.base left.allocated_size → after.bytes x ≡ w.bytes x
    stays :
        g.entries * 8 ≢ g.allocated_size
        → (left.base ≡ g.base) × (left.allocated_size ≡ g.allocated_size) × (after.heap ≡ w.heap)
    moves :
        (new : ℕ) (h : H)
        → g.entries * 8 ≡ g.allocated_size
        → host.malloc (g.allocated_size * 2) w.heap ≡ some (new, h)
        → (left.base ≡ new) × (left.allocated_size ≡ g.allocated_size * 2)

  Apart-half : (a n b m : ℕ) → n ≡ m * 2 → Apart a (m * 2) b m → Apart a (n / 2) b (n / 2)
  Apart-half a n b m twice (inl before) = inl (omega arith)
  Apart-half a n b m twice (inr behind) = inr (omega arith)

  -- What the branch for a full table leaves.
  grow-IsPlaced :
      (g : Gdt) (w : World H)
      → IsTable g
      → g.entries * 8 ≡ g.allocated_size
      → g.allocated_size * 2 < 2 ^ 64
      → Renews host g.base g.allocated_size w.heap
      → IsPlaced g w (grow host (record g { entries = g.entries + 1 }) w)
  unfolding grow
  grow-IsPlaced g w t full small r =
      let n = u64 (g.allocated_size * 2) in
      let twice : n ≡ g.allocated_size * 2 = omega arith in
      record {
        left = record g { base = r.new; entries = g.entries + 1; allocated_size = n };
        after = record {
          heap = r.last;
          bytes = memcpy r.new g.base (n / 2) w.bytes;
          loaded = record {
            base = r.new;
            limit = (g.entries + 1) * 8 % 2 ^ 16;
            code = g.kern_code_seg;
          };
        };
        returned = rw twice (rw r.gives (rw r.takes refl));
        table = record {
          room = omega (arith, t.some_room, t.whole);
          whole = omega (arith, t.whole);
          some_room = omega (arith, t.some_room);
        };
        counted = refl;
        size = omega arith;
        kern = refl;
        copied = λ j less.
            memcpy-copies (n / 2) r.new g.base j w.bytes
              (Apart-half r.new n g.base g.allocated_size twice r.apart) (omega arith);
        aside =
            λ x outside. memcpy-outside (n / 2) r.new g.base x w.bytes (ground (arith, outside));
        stays = λ spare. absurd (spare full);
        moves =
            λ new h _ gives. (Renews-new host g.base g.allocated_size w.heap r new h gives, twice);
      }

  place-IsPlaced :
      (g : Gdt) (w : World H)
      → IsTable g
      → g.allocated_size * 2 < 2 ^ 64
      → (g.entries * 8 ≡ g.allocated_size → Renews host g.base g.allocated_size w.heap)
      → IsPlaced g w (place host g w)
  unfolding place
  place-IsPlaced g w t small renews = elim (Bool-cases (g.allocated_size / 8 == g.entries)) [
    | inl test ↦
        let full : g.entries * 8 ≡ g.allocated_size = ground (arith, t.whole, test) in
        rw test (grow-IsPlaced g w t full small (renews full))
    | inr spare ↦
        let less : g.entries * 8 < g.allocated_size = ground (arith, t.whole, t.room, spare) in
        rw spare (record {
          left = record g { entries = g.entries + 1 };
          after = w;
          returned = refl;
          table = record {
            room = omega (arith, t.whole);
            whole = t.whole;
            some_room = t.some_room;
          };
          counted = refl;
          size = omega arith;
          kern = refl;
          copied = λ j inside. refl;
          aside = λ x outside. refl;
          stays = λ _. (refl, refl, refl);
          moves = λ new h full. absurd (omega arith);
        })
  ]

  -- What _add_entry has done: the bytes of the entry stand behind the others, which are as before.
  pub record IsAdded (g : Gdt) (w : World H) (bytes : List ℕ) (r : Option (ℕ × Gdt × World H))
      : Type 0 where
    pub left : Gdt
    pub after : World H
    pub returned : r ≡ some (g.entries * 8, left, after)
    pub table : IsTable left
    pub counted : left.entries ≡ g.entries + 1
    pub size : left.allocated_size ≤ g.allocated_size * 2
    pub kern : left.kern_code_seg ≡ g.kern_code_seg
    pub kept : (j : ℕ) → j < g.entries * 8 → after.bytes (left.base + j) ≡ w.bytes (g.base + j)
    pub added :
        (k b : ℕ) → get_elem? bytes k ≡ some b → after.bytes (left.base + g.entries * 8 + k) ≡ b
    pub aside : (x : ℕ) → IsOutside x left.base left.allocated_size → after.bytes x ≡ w.bytes x
    pub stays :
        g.entries * 8 ≢ g.allocated_size
        → (left.base ≡ g.base) × (left.allocated_size ≡ g.allocated_size) × (after.heap ≡ w.heap)
    pub moves :
        (new : ℕ) (h : H)
        → g.entries * 8 ≡ g.allocated_size
        → host.malloc (g.allocated_size * 2) w.heap ≡ some (new, h)
        → (left.base ≡ new) × (left.allocated_size ≡ g.allocated_size * 2)

  -- For a table with room for its entries, of a size whose double is a 64-bit word, and an entry
  -- that is not refused; and, if the table is full, where malloc gives twice its bytes beside it
  -- and free returns: _add_entry returns the selector of the new entry. Its descriptor stands
  -- behind the others, which are as before, in the same block if it has room and else in a block
  -- of up to twice the size, and no byte outside of this block has changed.
  pub add_entry-IsAdded :
      (e : GdtEntry) (code_64 : Bool) (g : Gdt) (w : World H)
      → IsTable g
      → g.allocated_size * 2 < 2 ^ 64
      → is_refused e ≡ false
      → (g.entries * 8 ≡ g.allocated_size → Renews host g.base g.allocated_size w.heap)
      → IsAdded g w (descriptor e code_64) (add_entry host e code_64 g w)
  unfolding add_entry
  add_entry-IsAdded e code_64 g w t small accepted renews =
      let p = place-IsPlaced g w t small renews in
      let bytes = descriptor e code_64 in
      let eight = length-descriptor e code_64 in
      let last : p.left.entries - 1 ≡ g.entries = omega (arith, p.counted) in
      let target = p.left.base + 8 * g.entries in
      record {
        left = p.left;
        after = record p.after { bytes = write_bytes target bytes p.after.bytes };
        returned = rw (accepted, p.returned) (rw last refl);
        table = p.table;
        counted = p.counted;
        size = p.size;
        kern = p.kern;
        kept = λ j less.
            write_bytes-outside bytes target (p.left.base + j) p.after.bytes (inl (omega arith))
            ∙ p.copied j less;
        added = λ k b is.
            subst (λ z. write_bytes target bytes p.after.bytes z ≡ b) (omega arith)
              (write_bytes-at bytes target k b p.after.bytes is);
        aside = λ x outside.
            write_bytes-outside bytes target x p.after.bytes (
              beyond x p.left.base p.left.allocated_size g.entries (length bytes)
                (omega (arith, p.counted, p.table.room, eight)) outside)
            ∙ p.aside x outside;
        stays = p.stays;
        moves = p.moves;
      }
    where
      beyond :
          (x base size n k : ℕ)
          → n * 8 + k ≤ size
          → IsOutside x base size
          → IsOutside x (base + 8 * n) k
      beyond x base size n k fits (inl before) = inl (omega arith)
      beyond x base size n k fits (inr behind) = inr (omega arith)
