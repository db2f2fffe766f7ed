-- ===== src/Gdt/Init.antt =====
-- gdt_init of gdt.c builds the table of five segments.
use gapxos.Base.{
  ℕ, zero, suc, ◌+◌, ◌*◌, ◌^◌, ◌≤◌, ◌<◌, ◌≡◌, ◌≢◌, refl, ◌∙◌, sym, ap, subst, Bool, true, false,
  List, [], ◌∷◌, ◌++◌, ◌⊎◌, inl, inr, length, length-append, get_elem?, Option, some, arith, ◌>>=◌,
}
use gapxos.Gdt.{
  GdtEntry, Gdt, Host, World, reload_gdt, is_refused, descriptor, flags_byte, stored_limit,
  add_segment, gdt_init, gdt_get_info,
}
use gapxos.Gdt.Table.{IsTable, Renews, add_entry-IsAdded, length-descriptor}

get_elem?-append :
    (xs ys : List ℕ) (k b : ℕ)
    → get_elem? (xs ++ ys) k ≡ some b
    → ((k < length xs) × (get_elem? xs k ≡ some b))
      ⊎ ((j : ℕ) × (length xs + j ≡ k) × (get_elem? ys j ≡ some b))
get_elem?-append [] ys k b is = inr (k, omega arith, is)
get_elem?-append (x ∷ xs) ys zero b is = inl (omega arith, is)
get_elem?-append (x ∷ xs) ys (suc k) b is = elim (get_elem?-append xs ys k b is) [
  | inl (less, there) ↦ inl (omega arith, there)
  | inr (j, same, there) ↦ inr (j, omega arith, there)
]

pub get_elem?-length : (xs : List ℕ) (k b : ℕ) → get_elem? xs k ≡ some b → k < length xs
get_elem?-length [] k b is = ground arith
get_elem?-length (x ∷ xs) zero b is = omega arith
get_elem?-length (x ∷ xs) (suc k) b is = omega (arith, get_elem?-length xs k b is)

-- A segment with a base and a limit of 0, from the bytes of its type and its flags.
abbrev pub segment : ℕ → ℕ → List ℕ
segment type flags = 0 ∷ 0 ∷ 0 ∷ 0 ∷ 0 ∷ type ∷ flags ∷ 0 ∷ []

segment-descriptor :
    (type : ℕ)
    → (descriptor (record { base = 0; limit = 0; type = type }) false ≡ segment type 0)
      × (descriptor (record { base = 0; limit = 0; type = type }) true ≡ segment type 0x20)
unfolding descriptor flags_byte stored_limit
segment-descriptor type = (refl, refl)

-- The null segment, and the segments of data and code of the kernel and of user processes.
abbrev pub five_segments : List ℕ
five_segments =
    segment 0 0 ++ segment 0x92 0 ++ segment 0x9a 0x20 ++ segment 0xf2 0 ++ segment 0xfa 0x20

info-five : (g : Gdt) → g.entries ≡ 5 → g.kern_code_seg ≡ 16 → gdt_get_info g ≡ (40, g.base, 16)
unfolding gdt_get_info
info-five g five kern = rw (five, kern) refl

-- The table holds these bytes.
pub record IsFilledWith (bytes : List ℕ) (g : Gdt) (f : ℕ → ℕ) : Type 0 where
  pub table : IsTable g
  pub long : length bytes ≡ g.entries * 8
  pub holds : (k b : ℕ) → get_elem? bytes k ≡ some b → f (g.base + k) ≡ b

module _ {H : Type 0} (host : Host H) where
  -- A call of _add_entry on a table with these bytes.
  record IsLonger (bytes new : List ℕ) (g : Gdt) (w : World H) (r : Option (ℕ × Gdt × World H))
      : Type 0 where
    left : Gdt
    after : World H
    returned : r ≡ some (g.entries * 8, left, after)
    filled : IsFilledWith (bytes ++ new) left after.bytes
    counted : left.entries ≡ g.entries + 1
    size : left.allocated_size ≤ g.allocated_size * 2
    kern : left.kern_code_seg ≡ g.kern_code_seg
    stays :
        g.entries * 8 ≢ g.allocated_size
        → (left.base ≡ g.base) × (left.allocated_size ≡ g.allocated_size) × (after.heap ≡ w.heap)

  add_segment-IsLonger :
      (bytes new : List ℕ) (type : ℕ) (code_64 : Bool) (g : Gdt) (w : World H)
      → descriptor (record { base = 0; limit = 0; type = type }) code_64 ≡ new
      → g.allocated_size * 2 < 2 ^ 64
      → (g.entries * 8 ≡ g.allocated_size → Renews host g.base g.allocated_size w.heap)
      → IsFilledWith bytes g w.bytes
      → IsLonger bytes new g w (add_segment host type code_64 g w)
  unfolding add_segment is_refused
  add_segment-IsLonger bytes new type code_64 g w same small renews f =
      let e : GdtEntry = record { base = 0; limit = 0; type = type } in
      let a = add_entry-IsAdded host e code_64 g w f.table small refl renews in
      let eight : length new ≡ 8 = ap length (sym same) ∙ length-descriptor e code_64 in
      record {
        left = a.left;
        after = a.after;
        returned = a.returned;
        filled = record {
          table = a.table;
          long = omega (arith, length-append bytes new, eight, f.long, a.counted);
          holds = λ k b is. elim (get_elem?-append bytes new k b is) [
            | inl (less, there) ↦ a.kept k (omega (arith, f.long)) ∙ f.holds k b there
            | inr (j, sum, there) ↦
                subst (λ z. a.after.bytes z ≡ b) (omega (arith, f.long))
                  (a.added j b (ap (λ bs. get_elem? bs j) same ∙ there))
          ];
        };
        counted = a.counted;
        size = a.size;
        kern = a.kern;
        stays = a.stays;
      }

  -- What gdt_init leaves.
  pub record IsInitial (r : Option (Gdt × World H)) : Type 0 where
    pub left : Gdt
    pub after : World H
    pub returned : r ≡ some (left, after)
    pub filled : IsFilledWith five_segments left after.bytes
    pub kern : left.kern_code_seg ≡ 16
    pub user : left.user_code_seg ≡ 32
    pub info : gdt_get_info left ≡ (40, left.base, 16)
    pub loaded : after.loaded ≡ record { base = left.base; limit = 40; code = 16 }

  reload-five :
      (g : Gdt)
      → g.entries ≡ 5
      → g.kern_code_seg ≡ 16
      → reload_gdt g.base (g.entries * 8) g.kern_code_seg
        ≡ record { base = g.base; limit = 40; code = 16 }
  reload-five g five kern = rw (five, kern) refl

  -- The first block of the table, with so many segments in it.
  record IsEarly (base : ℕ) (h : H) (n kern : ℕ) (bytes : List ℕ) (g : Gdt) (w : World H)
      : Type 0 where
    filled : IsFilledWith bytes g w.bytes
    count : g.entries ≡ n
    here : g.base ≡ base
    size : g.allocated_size ≡ 32
    heap : w.heap ≡ h
    code : g.kern_code_seg ≡ kern

  IsEarly-step :
      (base : ℕ) (h : H) (n kern : ℕ) (bytes new : List ℕ) (type : ℕ) (code_64 : Bool) (g : Gdt)
      (w : World H)
      → descriptor (record { base = 0; limit = 0; type = type }) code_64 ≡ new
      → n < 4
      → IsEarly base h n kern bytes g w
      → (g' : Gdt) × (w' : World H) × (add_segment host type code_64 g w ≡ some (n * 8, g', w'))
        × IsEarly base h (n + 1) kern (bytes ++ new) g' w'
  IsEarly-step base h n kern bytes new type code_64 g w same few p =
      let s =
        add_segment-IsLonger bytes new type code_64 g w same (omega (arith, p.size))
          (λ full. absurd (omega (arith, p.count, p.size))) p.filled in
      let (b, z, q) = s.stays (λ full. omega (arith, p.count, p.size)) in
      let selector : g.entries * 8 ≡ n * 8 = omega (arith, p.count) in
      (
        s.left,
        s.after,
        rw (← selector) s.returned,
        record {
          filled = s.filled;
          count = omega (arith, s.counted, p.count);
          here = b ∙ p.here;
          size = z ∙ p.size;
          heap = q ∙ p.heap;
          code = s.kern ∙ p.code;
        },
      )

  with_code :
      (base : ℕ) (h : H) (n kern kern' : ℕ) (bytes : List ℕ) (g : Gdt) (w : World H)
      → IsEarly base h n kern bytes g w
      → IsEarly base h n kern' bytes (record g { kern_code_seg = kern' }) w
  with_code base h n kern kern' bytes g w p = record {
    filled = record {
      table = record {
        room = p.filled.table.room;
        whole = p.filled.table.whole;
        some_room = p.filled.table.some_room;
      };
      long = p.filled.long;
      holds = p.filled.holds;
    };
    count = p.count;
    here = p.here;
    size = p.size;
    heap = p.heap;
    code = refl;
  }

  -- What gdt_init does behind its first segments.
  abbrev from_four : Gdt → World H → Option (Gdt × World H)
  from_four g w = do
    (user, g5, w5) ← add_segment host 0xfa true g w
    let g6 = record g5 { user_code_seg = user }
    some (g6, record w5 { loaded = reload_gdt g6.base (g6.entries * 8) g6.kern_code_seg })

  abbrev from_three : Gdt → World H → Option (Gdt × World H)
  from_three g w = do (_, g4, w4) ← add_segment host 0xf2 false g w; from_four g4 w4

  abbrev from_two : Gdt → World H → Option (Gdt × World H)
  from_two g w = do
    (kern, g3, w3) ← add_segment host 0x9a true g w
    from_three (record g3 { kern_code_seg = kern }) w3

  abbrev from_one : Gdt → World H → Option (Gdt × World H)
  from_one g w = do (_, g2, w2) ← add_segment host 0x92 false g w; from_two g2 w2

  module _ (base : ℕ) (h : H) (renews : Renews host base 32 h) where
    from_four-IsInitial :
        (g : Gdt) (w : World H)
        → IsEarly base h 4 16
            (segment 0 0 ++ segment 0x92 0 ++ segment 0x9a 0x20 ++ segment 0xf2 0)
            g
            w
        → IsInitial (from_four g w)
    from_four-IsInitial g w p =
        let again : Renews host g.base g.allocated_size w.heap =
          subst (λ z. Renews host g.base g.allocated_size z) (sym p.heap)
            (subst (λ z. Renews host g.base z h) (sym p.size)
              (subst (λ z. Renews host z 32 h) (sym p.here) renews)) in
        let s =
          add_segment-IsLonger _ _ 0xfa true g w (segment-descriptor 0xfa).1 (omega (arith, p.size))
            (λ full. again) p.filled in
        let five : s.left.entries ≡ 5 = omega (arith, s.counted, p.count) in
        let sixteen : s.left.kern_code_seg ≡ 16 = s.kern ∙ p.code in
        let last : Gdt = record s.left { user_code_seg = g.entries * 8 } in
        record {
          left = last;
          after = record s.after {
            loaded = reload_gdt s.left.base (s.left.entries * 8) s.left.kern_code_seg;
          };
          returned = rw s.returned refl;
          filled = record {
            table = record {
              room = s.filled.table.room;
              whole = s.filled.table.whole;
              some_room = s.filled.table.some_room;
            };
            long = s.filled.long;
            holds = s.filled.holds;
          };
          kern = sixteen;
          user = omega (arith, p.count);
          info = info-five last five sixteen;
          loaded = reload-five s.left five sixteen;
        }

    from_three-IsInitial :
        (g : Gdt) (w : World H)
        → IsEarly base h 3 16 (segment 0 0 ++ segment 0x92 0 ++ segment 0x9a 0x20) g w
        → IsInitial (from_three g w)
    from_three-IsInitial g w p =
        let (g', w', e, p') =
          IsEarly-step base h 3 16 _ _ 0xf2 false g w (segment-descriptor 0xf2).0 (omega arith) p in
        rw e (from_four-IsInitial g' w' p')

    from_two-IsInitial :
        (kern : ℕ) (g : Gdt) (w : World H)
        → IsEarly base h 2 kern (segment 0 0 ++ segment 0x92 0) g w
        → IsInitial (from_two g w)
    from_two-IsInitial kern g w p =
        let (g', w', e, p') =
          IsEarly-step base h 2 kern _ _ 0x9a true g w (segment-descriptor 0x9a).1 (omega arith)
            p in
        rw e (
          from_three-IsInitial (record g' { kern_code_seg = 16 }) w'
            (with_code base h 3 kern 16 _ g' w' p'))

    from_one-IsInitial :
        (kern : ℕ) (g : Gdt) (w : World H)
        → IsEarly base h 1 kern (segment 0 0) g w
        → IsInitial (from_one g w)
    from_one-IsInitial kern g w p =
        let (g', w', e, p') =
          IsEarly-step base h 1 kern _ _ 0x92 false g w (segment-descriptor 0x92).0 (omega arith)
            p in
        rw e (from_two-IsInitial kern g' w' p')

  -- With no entries and an allocation of 32 bytes, as the variables are at boot, where malloc gives
  -- 32 bytes, then 64 bytes beside them, and free takes the 32 bytes back: gdt_init returns. The
  -- table then holds the bytes of the five segments, the selectors of the two code segments are in
  -- their variables, the processor has the table loaded with a limit of 40 and the segment of the
  -- kernel's code, and gdt_get_info gives the same.
  pub gdt_init-IsInitial :
      (g : Gdt) (w : World H) (base : ℕ) (h : H)
      → g.entries ≡ 0
      → g.allocated_size ≡ 32
      → host.malloc 32 w.heap ≡ some (base, h)
      → Renews host base 32 h
      → IsInitial (gdt_init host g w)
  unfolding gdt_init
  gdt_init-IsInitial g w base h none_yet size gives renews =
      let start : IsEarly base h 0 g.kern_code_seg [] (record g { base = base })
          (record w { heap = h }) =
        record {
          filled = record {
            table = record { room = omega arith; whole = omega arith; some_room = omega arith };
            long = omega arith;
            holds = λ k v is. ground arith;
          };
          count = none_yet;
          here = refl;
          size = size;
          heap = refl;
          code = refl;
        } in
      let (g', w', e, p') =
        IsEarly-step base h 0 g.kern_code_seg [] _ 0 false (record g { base = base })
          (record w { heap = h }) (segment-descriptor 0).0 (omega arith) start in
      let given : host.malloc g.allocated_size w.heap ≡ some (base, h) = rw size gives in
      rw given (rw e (from_one-IsInitial base h renews g.kern_code_seg g' w' p'))
