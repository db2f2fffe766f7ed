-- ===== src/Apic/Processors.antt =====
-- The list of local controllers in apic.c as a map from processors to settings.
use gapxos.Base.{
  ℕ, ◌≡◌, ◌≢◌, refl, sym, ◌∙◌, true, false, Option, none, some, List, ◌∷◌, ◌==◌, Bool-cases,
  Option-cases, inl, inr,
}
use gapxos.Apic.{
  LapicMode, Nmi, Lapic, ApicInfo, update_lapic, set_lapic, set_nmi, lint_of, register_lapic,
  set_lapic_nmi_lint,
}
use gapxos.Apic.Nodes.{
  update_lapic-twice, update_lapic-lapic_of, update_lapic-others, update_lapic-none,
  update_lapic-IsUnique, update_lapic-miss, update_lapic-hit, update_lapic-head, lapic_of-head,
  lapic_of-tail, lapic_of, IsUnique,
}

-- The line of the node before, or none.
abbrev pub HasLine : Option Lapic → Nmi → Type 0
HasLine none nmi = nmi.present ≡ false
HasLine (some x) nmi = nmi ≡ x.nmi

-- What _register_lapic has done: the processor has the settings that were given, with the line
-- that it had, or none if it is new; the other processors have what they had.
pub record IsRegistered (uid apic_id flags : ℕ) (mode : LapicMode) (xs ys : List Lapic)
    : Type 0 where
  pub node : Lapic
  pub found : lapic_of uid ys ≡ some node
  pub settings : set_lapic apic_id flags mode node ≡ node
  pub line : HasLine (lapic_of uid xs) node.nmi
  pub others : (u : ℕ) → u ≢ uid → lapic_of u ys ≡ lapic_of u xs
  pub unique : IsUnique ys

module _ (fresh : List Lapic → Lapic) (redirections : ℕ → ℕ) where
  abbrev new_node : ℕ → ApicInfo → Lapic
  new_node uid s =
      let new = fresh s.lapic in
      record new { proc_uid = uid; nmi = record new.nmi { present = false } }

  register_lapic-new :
      (uid apic_id flags : ℕ) (mode : LapicMode) (s : ApicInfo)
      → update_lapic uid (set_lapic apic_id flags mode) s.lapic ≡ none
      → register_lapic fresh redirections uid apic_id flags mode s
        ≡ record s { lapic = set_lapic apic_id flags mode (new_node uid s) ∷ s.lapic }
  unfolding register_lapic
  register_lapic-new uid apic_id flags mode s e = rw (e, register_lapic) refl

  register_lapic-old :
      (uid apic_id flags : ℕ) (mode : LapicMode) (s : ApicInfo) (ys : List Lapic)
      → update_lapic uid (set_lapic apic_id flags mode) s.lapic ≡ some ys
      → register_lapic fresh redirections uid apic_id flags mode s ≡ record s { lapic = ys }
  unfolding register_lapic
  register_lapic-old uid apic_id flags mode s ys e = rw (e, register_lapic) refl

  pub set_lapic_nmi_lint-new :
      (uid flags lint_no : ℕ) (s : ApicInfo)
      → (uid == 0xFF) ≡ false
      → update_lapic uid (set_nmi (lint_of flags lint_no)) s.lapic ≡ none
      → set_lapic_nmi_lint fresh redirections uid flags lint_no s ≡ record s {
        lapic = record (fresh s.lapic) { proc_uid = uid; nmi = lint_of flags lint_no } ∷ s.lapic;
      }
  unfolding set_lapic_nmi_lint
  set_lapic_nmi_lint-new uid flags lint_no s one e = rw (one, e, set_lapic_nmi_lint) refl

  pub set_lapic_nmi_lint-old :
      (uid flags lint_no : ℕ) (s : ApicInfo) (ys : List Lapic)
      → (uid == 0xFF) ≡ false
      → update_lapic uid (set_nmi (lint_of flags lint_no)) s.lapic ≡ some ys
      → set_lapic_nmi_lint fresh redirections uid flags lint_no s ≡ record s { lapic = ys }
  unfolding set_lapic_nmi_lint
  set_lapic_nmi_lint-old uid flags lint_no s ys one e = rw (one, e, set_lapic_nmi_lint) refl

  pub set_lapic_nmi_lint-global :
      (uid flags lint_no : ℕ) (s : ApicInfo)
      → (uid == 0xFF) ≡ true
      → set_lapic_nmi_lint fresh redirections uid flags lint_no s
        ≡ record s { global_nmi_lint = lint_of flags lint_no }
  unfolding set_lapic_nmi_lint
  set_lapic_nmi_lint-global uid flags lint_no s all = rw (all, set_lapic_nmi_lint) refl

  -- On a list with at most one node for a processor, _register_lapic leaves such a list, in which
  -- the processor has the settings that were given, with the line for interrupts that it had, or
  -- none if it is new; the other processors have what they had.
  pub register_lapic-IsRegistered :
      (uid apic_id flags : ℕ) (mode : LapicMode) (s : ApicInfo)
      → IsUnique s.lapic
      → IsRegistered uid apic_id flags mode s.lapic
          (register_lapic fresh redirections uid apic_id flags mode s).lapic
  register_lapic-IsRegistered uid apic_id flags mode s unique =
      let f = set_lapic apic_id flags mode in
      elim (Option-cases (update_lapic uid f s.lapic)) [
        | inl gone ↦
            let absent = update_lapic-none uid f s.lapic gone in
            rw (register_lapic-new uid apic_id flags mode s gone) (record {
              node = f (new_node uid s);
              found = lapic_of-head (f (new_node uid s)) s.lapic;
              settings = refl;
              line = rw absent refl;
              others = λ u ne. lapic_of-tail u (f (new_node uid s)) s.lapic (λ e. ne (sym e));
              unique = (absent, unique);
            })
        | inr (ys, e) ↦
            let (x, before, after) = update_lapic-lapic_of uid f s.lapic ys (λ y. refl) e in
            rw (register_lapic-old uid apic_id flags mode s ys e) (record {
              node = f x;
              found = after;
              settings = refl;
              line = rw before refl;
              others = λ u ne. update_lapic-others uid u f s.lapic ys (λ y. refl) e ne;
              unique = update_lapic-IsUnique uid f s.lapic ys (λ y. refl) e unique;
            })
      ]

  -- For one processor, its entry and the entry for its line may come in either order.
  pub register_lapic-set_lapic_nmi_lint :
      (uid apic_id flags flags' lint_no : ℕ) (mode : LapicMode) (s : ApicInfo)
      → register_lapic fresh redirections uid apic_id flags mode
          (set_lapic_nmi_lint fresh redirections uid flags' lint_no s)
        ≡ set_lapic_nmi_lint fresh redirections uid flags' lint_no
            (register_lapic fresh redirections uid apic_id flags mode s)
  register_lapic-set_lapic_nmi_lint uid apic_id flags flags' lint_no mode s =
      let f = set_lapic apic_id flags mode in
      let g = set_nmi (lint_of flags' lint_no) in
      elim (Option-cases (update_lapic uid f s.lapic)) [
        | inl gone ↦ elim (Bool-cases (uid == 0xFF)) [
          | inl all ↦
              rw
                (
                  set_lapic_nmi_lint-global uid flags' lint_no s all,
                  register_lapic-new uid apic_id flags mode s gone,
                  register_lapic-new uid apic_id flags mode
                      (record s { global_nmi_lint = lint_of flags' lint_no }) gone,
                  set_lapic_nmi_lint-global uid flags' lint_no
                      (record s { lapic = f (new_node uid s) ∷ s.lapic }) all,
                )
                refl
          | inr one ↦
              let new : Lapic = record (fresh s.lapic) {
                proc_uid = uid;
                nmi = lint_of flags' lint_no;
              } in
              rw
                (
                  set_lapic_nmi_lint-new uid flags' lint_no s one
                      (update_lapic-miss uid f g s.lapic gone),
                  register_lapic-new uid apic_id flags mode s gone,
                  register_lapic-old uid apic_id flags mode (record s { lapic = new ∷ s.lapic })
                      (f new ∷ s.lapic) (update_lapic-head uid f new s.lapic refl),
                  set_lapic_nmi_lint-old uid flags' lint_no
                      (record s { lapic = f (new_node uid s) ∷ s.lapic })
                      (g (f (new_node uid s)) ∷ s.lapic) one
                      (update_lapic-head uid g (f (new_node uid s)) s.lapic refl),
                )
                refl
        ]
        | inr (ys, e) ↦ elim (Bool-cases (uid == 0xFF)) [
          | inl all ↦
              rw
                (
                  set_lapic_nmi_lint-global uid flags' lint_no s all,
                  register_lapic-old uid apic_id flags mode s ys e,
                  register_lapic-old uid apic_id flags mode
                      (record s { global_nmi_lint = lint_of flags' lint_no }) ys e,
                  set_lapic_nmi_lint-global uid flags' lint_no (record s { lapic = ys }) all,
                )
                refl
          | inr one ↦
              let (zs, d) = update_lapic-hit uid f g s.lapic ys e in
              let (ws, c) = update_lapic-hit uid f (λ x. g (f x)) s.lapic ys e in
              rw
                (
                  set_lapic_nmi_lint-old uid flags' lint_no s zs one d,
                  register_lapic-old uid apic_id flags mode s ys e,
                  register_lapic-old uid apic_id flags mode (record s { lapic = zs }) ws
                      (update_lapic-twice uid g f s.lapic zs (λ y. refl) d ∙ c),
                  set_lapic_nmi_lint-old uid flags' lint_no (record s { lapic = ys }) ws one
                      (update_lapic-twice uid f g s.lapic ys (λ y. refl) e ∙ c),
                )
                refl
        ]
      ]
