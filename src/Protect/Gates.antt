-- ===== src/Protect/Gates.antt =====
-- The gates that `init_prot` leaves in the table of interrupts.
use oscourse_project.Base.{
  ℕ, ◌+◌, ◌*◌, ◌/◌, ◌%◌, ◌^◌, ◌<◌, ◌≡◌, refl, sym, ap, ◌∙◌, ◌⊎◌, inl, inr, Bool, true, false, List,
  [], ◌∷◌, ◌++◌, Option, none, some, ◌==◌, if◌then◌else◌, elem, Distinct, arith, Bool-cases, ==→eq,
  ne→==, subst, some_inj, Option-cases,
}
use oscourse_project.Act.{ok}
use oscourse_project.Protect.Tables.{booted, init_prot_lem, booted-gates}
use oscourse_project.Protect.{
  Machine, init_prot, user_vector, breakpoint_exception, overflow, sys_call, Routine, Gate, Vector,
  Places, gate, install, init_idt_desc, exceptions, interrupts, da_386_igate,
}

abbrev pub numbers : List Vector → List ℕ
numbers [] = []
numbers (v ∷ vs) = v.vector ∷ numbers vs

-- The call of a list that is for a vector.
abbrev pub call_for : ℕ → List Vector → Option Vector
call_for i [] = none
call_for i (v ∷ vs) = if v.vector == i then some v else call_for i vs

-- The address that a gate leads to.
abbrev pub gate_target : Gate → ℕ
gate_target g = g.offset_high * 2 ^ 16 + g.offset_low

-- The least privileged ring that may raise the vector by an instruction, and whether the gate is
-- present.
abbrev pub gate_dpl : Gate → ℕ
gate_dpl g = g.attr / 2 ^ 5 % 2 ^ 2

abbrev pub gate_present : Gate → ℕ
gate_present g = g.attr / 2 ^ 7

pub gate_target-gate :
    (desc_type base privilege : ℕ)
    → base < 2 ^ 32
    → gate_target (gate desc_type base privilege) ≡ base
unfolding gate
gate_target-gate desc_type base privilege h = omega arith

-- A vector that no call is for keeps its gate.
install_other :
    (places : Places) (vs : List Vector) (idt : ℕ → Gate) (i : ℕ)
    → elem i (numbers vs) ≡ false
    → install places vs idt i ≡ idt i
unfolding install init_idt_desc
install_other places [] idt i h = refl
install_other places (v ∷ vs) idt i h =
    install_other places vs (init_idt_desc places v idt) i (ground (arith, h))
    ∙ ap
        (λ (b : Bool).
          if b then gate da_386_igate (places.routine_at v.routine) v.privilege else idt i)
        (ne→== v.vector i (ground (arith, h)))

-- With no vector called for twice, each call's gate stands in the end.
pub install_lem :
    (places : Places) (vs : List Vector) (idt : ℕ → Gate) (i : ℕ) (v : Vector)
    → Distinct (numbers vs)
    → call_for i vs ≡ some v
    → install places vs idt i ≡ gate da_386_igate (places.routine_at v.routine) v.privilege
unfolding install init_idt_desc
install_lem places [] idt i v d h = absurd (cc)
install_lem places (w ∷ vs) idt i v d h = elim (Bool-cases (w.vector == i)) [
  | inl e ↦
      let q : w.vector ≡ i = ==→eq w.vector i e in
      let same : some w ≡ some v =
        sym (ap (λ (b : Bool). if b then some w else call_for i vs) e) ∙ h in
      install_other places vs (init_idt_desc places w idt) i
        (subst (λ (n : ℕ). elem n (numbers vs) ≡ false) q d.0)
      ∙ (ap
            (λ (b : Bool).
              if b then gate da_386_igate (places.routine_at w.routine) w.privilege else idt i)
            e
          ∙ ap (λ (u : Vector). gate da_386_igate (places.routine_at u.routine) u.privilege)
              (some_inj same))
  | inr e ↦
      install_lem places vs (init_idt_desc places w idt) i v d.1
        (sym (ap (λ (b : Bool). if b then some w else call_for i vs) e) ∙ h)
]

-- The numbers of the calls with the privilege of user processes.
abbrev user_numbers : List Vector → List ℕ
user_numbers [] = []
user_numbers (v ∷ vs) = if v.privilege == 3 then v.vector ∷ user_numbers vs else user_numbers vs

abbrev KnownPrivilege : List Vector → Type 0
KnownPrivilege [] = Unit {0}
KnownPrivilege (v ∷ vs) = ((v.privilege ≡ 0) ⊎ (v.privilege ≡ 3)) × KnownPrivilege vs

privilege_of :
    (i : ℕ) (vs : List Vector) (v : Vector)
    → KnownPrivilege vs
    → call_for i vs ≡ some v
    → (v.privilege ≡ 0) ⊎ ((v.privilege ≡ 3) × (elem i (user_numbers vs) ≡ true))
privilege_of i [] v k h = absurd (cc)
privilege_of i (w ∷ vs) v k h = ground (arith, privilege_of i vs v)

none-other : (i : ℕ) (vs : List Vector) → call_for i vs ≡ none → elem i (numbers vs) ≡ false
none-other i [] h = refl
none-other i (w ∷ vs) h = ground (arith, none-other i vs)

calls-Distinct : Distinct (numbers (exceptions ++ interrupts))
calls-Distinct = ground arith

calls-KnownPrivilege : KnownPrivilege (exceptions ++ interrupts)
calls-KnownPrivilege = ground arith

abbrev pub calls : List Vector
calls = exceptions ++ interrupts

-- `init_prot` ends. Then the gate of each vector that it calls `init_idt_desc` for is present, leads
-- to the routine named in the call, with the kernel's code segment, and may be raised from the
-- ring named in the call: no call undoes an earlier one. The gates of all other vectors are as they
-- were. The routines lie below 2 ^ 32.
pub init_prot-gates :
    (places : Places) (m : Machine)
    → ((r : Routine) → places.routine_at r < 2 ^ 32)
    → (m2 : Machine) × (init_prot places m ≡ ok tt m2)
      × ((i : ℕ) (v : Vector)
          → call_for i calls ≡ some v
          → (gate_target (m2.idt i) ≡ places.routine_at v.routine)
            × ((m2.idt i).selector ≡ 8)
            × (gate_dpl (m2.idt i) ≡ v.privilege)
            × (gate_present (m2.idt i) ≡ 1))
      × ((i : ℕ) → call_for i calls ≡ none → m2.idt i ≡ m.idt i)
unfolding gate
init_prot-gates places m small = (
  booted places m,
  init_prot_lem places m,
  (λ i v h.
      let e : (booted places m).idt i
          ≡ gate da_386_igate (places.routine_at v.routine) v.privilege =
        booted-gates places m i ∙ install_lem places calls m.idt i v calls-Distinct h in
      let ring : (gate_dpl (gate da_386_igate (places.routine_at v.routine) v.privilege)
            ≡ v.privilege)
          × (gate_present (gate da_386_igate (places.routine_at v.routine) v.privilege) ≡ 1) =
        elim (privilege_of i calls v calls-KnownPrivilege h) [
          | inl q ↦ rw q (refl, refl)
          | inr q ↦ rw (q.0) (refl, refl)
        ] in
      (
        ap gate_target e
            ∙ gate_target-gate da_386_igate (places.routine_at v.routine) v.privilege
                (small v.routine),
        ap (λ (g : Gate). g.selector) e,
        ap gate_dpl e ∙ ring.0,
        ap gate_present e ∙ ring.1,
      )),
  (λ i h. booted-gates places m i ∙ install_other places calls m.idt i (none-other i calls h)),
)

-- On an empty table of interrupts, `init_prot` ends with a table in which exactly three vectors can
-- be raised by an instruction of a user process: those of the breakpoint, of the overflow, and of
-- system calls.
pub init_prot-user_gates :
    (places : Places) (m : Machine)
    → ((i : ℕ) → (m.idt i).attr ≡ 0)
    → (m2 : Machine) × (init_prot places m ≡ ok tt m2)
      × ((i : ℕ) → gate_dpl (m2.idt i) ≡ 3 → (i ≡ 3) ⊎ ((i ≡ 4) ⊎ (i ≡ 0x90)))
      × (gate_dpl (m2.idt 3) ≡ 3)
      × (gate_dpl (m2.idt 4) ≡ 3)
      × (gate_dpl (m2.idt 0x90) ≡ 3)
unfolding gate
init_prot-user_gates places m empty = (
  booted places m,
  init_prot_lem places m,
  (λ i d. elim (Option-cases (call_for i calls)) [
    | inl n ↦
        let e : gate_dpl ((booted places m).idt i) ≡ 0 =
          ap gate_dpl
            (booted-gates places m i ∙ install_other places calls m.idt i (none-other i calls n))
          ∙ ap (λ (a : ℕ). a / 2 ^ 5 % 2 ^ 2) (empty i) in
        absurd (omega (arith, d, e))
    | inr (v, h) ↦
        let e : (booted places m).idt i
            ≡ gate da_386_igate (places.routine_at v.routine) v.privilege =
          booted-gates places m i ∙ install_lem places calls m.idt i v calls-Distinct h in
        elim (privilege_of i calls v calls-KnownPrivilege h) [
          | inl q ↦ absurd (
              omega (
                arith,
                d,
                ap gate_dpl e
                    ∙ ap (λ (p : ℕ). gate_dpl (gate da_386_igate (places.routine_at v.routine) p))
                        q,
              ))
          | inr q ↦ ground (arith, q.1)
        ]
  ]),
  user_gate 3 (user_vector 3 breakpoint_exception) refl refl,
  user_gate 4 (user_vector 4 overflow) refl refl,
  user_gate 0x90 (user_vector 0x90 sys_call) refl refl,
)
  where
    user_gate :
        (i : ℕ) (v : Vector)
        → call_for i calls ≡ some v
        → v.privilege ≡ 3
        → gate_dpl ((booted places m).idt i) ≡ 3
    user_gate i v h p =
        ap gate_dpl (booted-gates places m i ∙ install_lem places calls m.idt i v calls-Distinct h)
        ∙ ap (λ (k : ℕ). gate_dpl (gate da_386_igate (places.routine_at v.routine) k)) p
