-- ===== src/Apic/Parse.antt =====
-- apic_parse_madt of apic.c on the bytes of a table.
use gapxos.Base.{
  ℕ, zero, suc, ◌+◌, ◌≤◌, ◌<◌, ◌≡◌, refl, sym, subst, none, some, List, [], ◌∷◌, ◌++◌, length,
  length-append, All, arith, load32, Stored, Stored-get_elem?, Stored-append_left,
  Stored-append_right, load16-Stored, load32-Stored,
}
use gapxos.Apic.{Lapic, ApicInfo, interpret_entry, parse_entries, apply_global, apic_parse_madt}
use gapxos.Apic.Encoding.{
  Entry, legacy_lapic, x2apic_lapic, io_controller, source_override, nmi_line, legacy_nmi,
  x2apic_nmi, lapic_address, other, encode, encode_all, IsEntry, apply_entry, apply_all,
}

length_pos : (e : Entry) → 0 < length (encode e)
unfolding encode
length_pos e = omega arith

module _ (fresh : List Lapic → Lapic) (redirections : ℕ → ℕ) (memory : ℕ → ℕ) where
  -- An entry is read as what it encodes.
  interpret_entry-encode :
      (a : ℕ) (e : Entry) (s : ApicInfo)
      → IsEntry e
      → Stored memory a (encode e)
      → interpret_entry fresh redirections memory a s ≡ apply_entry fresh redirections e s
  unfolding interpret_entry apply_entry encode
  interpret_entry-encode a (legacy_lapic uid id flags) s fits st =
      let bs = encode (legacy_lapic uid id flags) in
      rw
        (
          st.0,
          Stored-get_elem? memory a bs 2 uid st refl,
          Stored-get_elem? memory a bs 3 id st refl,
          load32-Stored memory a 4 flags bs st fits refl refl refl refl,
        )
        refl
  interpret_entry-encode a (x2apic_lapic uid id flags) s fits st =
      let bs = encode (x2apic_lapic uid id flags) in
      rw
        (
          st.0,
          load32-Stored memory a 4 uid bs st fits.0 refl refl refl refl,
          load32-Stored memory a 8 id bs st fits.1 refl refl refl refl,
          load32-Stored memory a 12 flags bs st fits.2 refl refl refl refl,
        )
        refl
  interpret_entry-encode a (io_controller id addr gsi_base) s fits st =
      let bs = encode (io_controller id addr gsi_base) in
      rw
        (
          st.0,
          Stored-get_elem? memory a bs 2 id st refl,
          load32-Stored memory a 4 addr bs st fits.0 refl refl refl refl,
          load32-Stored memory a 8 gsi_base bs st fits.1 refl refl refl refl,
        )
        refl
  interpret_entry-encode a (source_override bus irq gsi flags) s fits st =
      let bs = encode (source_override bus irq gsi flags) in
      rw
        (
          st.0,
          Stored-get_elem? memory a bs 3 irq st refl,
          load32-Stored memory a 4 gsi bs st fits.0 refl refl refl refl,
          load16-Stored memory a 8 flags bs st fits.1 refl refl,
        )
        refl
  interpret_entry-encode a (nmi_line flags gsi) s fits st =
      let bs = encode (nmi_line flags gsi) in
      rw
        (
          st.0,
          load16-Stored memory a 2 flags bs st fits.0 refl refl,
          load32-Stored memory a 4 gsi bs st fits.1 refl refl refl refl,
        )
        refl
  interpret_entry-encode a (legacy_nmi uid flags lint_no) s fits st =
      let bs = encode (legacy_nmi uid flags lint_no) in
      rw
        (
          st.0,
          Stored-get_elem? memory a bs 2 uid st refl,
          load16-Stored memory a 3 flags bs st fits refl refl,
          Stored-get_elem? memory a bs 5 lint_no st refl,
        )
        refl
  interpret_entry-encode a (x2apic_nmi uid flags lint_no) s fits st =
      let bs = encode (x2apic_nmi uid flags lint_no) in
      rw
        (
          st.0,
          load32-Stored memory a 4 uid bs st fits.0 refl refl refl refl,
          load16-Stored memory a 2 flags bs st fits.1 refl refl,
          Stored-get_elem? memory a bs 8 lint_no st refl,
        )
        refl
  interpret_entry-encode a (lapic_address low high) s fits st =
      let bs = encode (lapic_address low high) in
      let upper : a + 4 + 4 ≡ a + 8 = omega arith in
      rw
        (
          st.0,
          upper,
          load32-Stored memory a 4 low bs st fits.0 refl refl refl refl,
          load32-Stored memory a 8 high bs st fits.1 refl refl refl refl,
        )
        refl
  interpret_entry-encode a (other kind body) s fits st = rw st.0 (ground arith)

  parse_entries-end :
      (fuel end entry : ℕ) (s : ApicInfo)
      → end ≤ entry
      → parse_entries fresh redirections memory (suc fuel) end entry s ≡ some s
  unfolding parse_entries
  parse_entries-end fuel end entry s past = ground arith

  parse_entries-step :
      (fuel end entry : ℕ) (s : ApicInfo)
      → entry < end
      → parse_entries fresh redirections memory (suc fuel) end entry s
        ≡ parse_entries fresh redirections memory fuel end
            (entry + memory (entry + 1))
            (interpret_entry fresh redirections memory entry s)
  unfolding parse_entries
  parse_entries-step fuel end entry s more = ground arith

  out_of_fuel :
      (end entry : ℕ) (s : ApicInfo) → parse_entries fresh redirections memory 0 end entry s ≡ none
  unfolding parse_entries
  out_of_fuel end entry s = refl

  memory_length :
      (a : ℕ) (e : Entry) → Stored memory a (encode e) → memory (a + 1) ≡ length (encode e)
  unfolding encode
  memory_length a e st = omega (arith, st.1)

  parse_entries-encode_all :
      (es : List Entry) (fuel end entry : ℕ) (s : ApicInfo)
      → All IsEntry es
      → Stored memory entry (encode_all es)
      → end ≡ entry + length (encode_all es)
      → length (encode_all es) < fuel
      → parse_entries fresh redirections memory fuel end entry s
        ≡ some (apply_all fresh redirections es s)
  unfolding encode_all apply_all
  parse_entries-encode_all es zero end entry s fit st ends enough = absurd (omega arith)
  parse_entries-encode_all [] (suc fuel) end entry s fit st ends enough =
      parse_entries-end fuel end entry s (omega (arith, ends))
  parse_entries-encode_all (e ∷ es) (suc fuel) end entry s fit st ends enough =
      let first = Stored-append_left memory entry (encode e) (encode_all es) st in
      let rest = Stored-append_right memory entry (encode e) (encode_all es) st in
      let total = length-append (encode e) (encode_all es) in
      let size = memory_length entry e first in
      let more : entry < end = omega (arith, ends, total, length_pos e) in
      let next = subst (λ z. Stored memory (entry + z) (encode_all es)) (sym size) rest in
      rw (parse_entries-step fuel end entry s more, interpret_entry-encode entry e s fit.0 first)
        (parse_entries-encode_all es fuel end (entry + memory (entry + 1))
          (apply_entry fresh redirections e s) fit.1 next (omega (arith, size, total))
          (omega (arith, total, length_pos e)))

  -- For a table whose bytes behind the header are the entries, with their fields in range, and a
  -- length that counts header and entries, and fuel above the length: apic_parse_madt returns. It
  -- has set the address of the local controllers from the header, has done what each entry asks
  -- for, in their order, and has then given every local controller the line for all, if there is
  -- one.
  pub apic_parse_madt-encode_all :
      (fuel madt : ℕ) (es : List Entry) (s : ApicInfo)
      → All IsEntry es
      → Stored memory (madt + 44) (encode_all es)
      → load32 memory (madt + 4) ≡ 44 + length (encode_all es)
      → load32 memory (madt + 4) < fuel
      → apic_parse_madt fresh redirections fuel memory madt s
        ≡ some (
            apply_global fresh redirections (
              apply_all fresh redirections es
                (record s { lapic_addr = load32 memory (madt + 36) })))
  unfolding apic_parse_madt
  apic_parse_madt-encode_all fuel madt es s fit st long enough =
      rw
        (
          parse_entries-encode_all es fuel (madt + load32 memory (madt + 4)) (madt + 44)
              (record s { lapic_addr = load32 memory (madt + 36) }) fit st (omega (arith, long))
              (omega (arith, long)),
          apic_parse_madt,
        )
        refl

  parse_entries_stuck :
      (es : List Entry) (fuel end entry : ℕ) (s : ApicInfo)
      → All IsEntry es
      → Stored memory entry (encode_all es)
      → entry + length (encode_all es) < end
      → memory (entry + length (encode_all es) + 1) ≡ 0
      → parse_entries fresh redirections memory fuel end entry s ≡ none
  unfolding encode_all
  parse_entries_stuck es zero end entry s fit st more empty = out_of_fuel end entry s
  parse_entries_stuck [] (suc fuel) end entry s fit st more empty =
      let here : entry + 0 ≡ entry = omega arith in
      let length_byte = subst (λ z. memory (z + 1) ≡ 0) here empty in
      let same : entry + memory (entry + 1) ≡ entry = omega (arith, length_byte) in
      rw (parse_entries-step fuel end entry s (omega arith), same)
        (parse_entries_stuck [] fuel end entry (interpret_entry fresh redirections memory entry s)
          tt tt more empty)
  parse_entries_stuck (e ∷ es) (suc fuel) end entry s fit st more empty =
      let first = Stored-append_left memory entry (encode e) (encode_all es) st in
      let rest = Stored-append_right memory entry (encode e) (encode_all es) st in
      let total = length-append (encode e) (encode_all es) in
      let size = memory_length entry e first in
      let next = subst (λ z. Stored memory (entry + z) (encode_all es)) (sym size) rest in
      let moved : entry + length (encode e ++ encode_all es) + 1
          ≡ entry + memory (entry + 1) + length (encode_all es) + 1 =
        omega (arith, size, total) in
      rw (parse_entries-step fuel end entry s (omega (arith, total, length_pos e))) (
        parse_entries_stuck es fuel end (entry + memory (entry + 1))
          (interpret_entry fresh redirections memory entry s) fit.1 next
          (omega (arith, size, total)) (subst (λ z. memory z ≡ 0) moved empty))

  -- A table that has an entry of length 0 behind the first entries, before the end that its length
  -- gives, is never left: whatever the fuel, apic_parse_madt does not return.
  pub apic_parse_madt_stuck :
      (fuel madt : ℕ) (es : List Entry) (s : ApicInfo)
      → All IsEntry es
      → Stored memory (madt + 44) (encode_all es)
      → 44 + length (encode_all es) < load32 memory (madt + 4)
      → memory (madt + 44 + length (encode_all es) + 1) ≡ 0
      → apic_parse_madt fresh redirections fuel memory madt s ≡ none
  unfolding apic_parse_madt
  apic_parse_madt_stuck fuel madt es s fit st more empty =
      rw
        (
          parse_entries_stuck es fuel (madt + load32 memory (madt + 4)) (madt + 44)
              (record s { lapic_addr = load32 memory (madt + 36) }) fit st (omega arith) empty,
          apic_parse_madt,
        )
        refl
