-- ===== src/Protect/Tables.antt =====
-- How `init_prot` runs, and the descriptors that it leaves in the global descriptor table.
use oscourse_project.Base.{
  ℕ, zero, suc, ◌+◌, ◌-◌, ◌*◌, ◌/◌, ◌%◌, ◌^◌, ◌≤◌, ◌<◌, ◌≡◌, refl, ap, ◌∙◌, ◌≢◌, inl, inr, ltb,
  ◌==◌, arith, Bool-cases, ==→eq, ne→==, eq→==, lt→ltb, ◌++◌, then_of_true, else_of_false,
}
use oscourse_project.Proc.{Descriptor, Proc, write, nr_slots}
use oscourse_project.Act.{ok}
use oscourse_project.Act.Laws.{and_then-ok, assert-ok}
use oscourse_project.Segment.{init_desc, ldt_seg_linear}
use oscourse_project.Segment.Laws.{ldt_seg_linear-init_desc}
use oscourse_project.Boot.{cleared}
use oscourse_project.Protect.{
  Places, Machine, init_prot, fill_tss, fill_ldts, init_8259a, install, exceptions, interrupts,
  seg2linear, makelinear, put_gdt, index_ldt_first, gdt_size, da_ldt, selector_kernel_ds, index_tss,
  da_386_tss,
}

-- The base of the flat data segment of the loader, and with an offset on it.
abbrev pub flat : (ℕ → Descriptor) → ℕ → ℕ
flat gdt off = (ldt_seg_linear (gdt 2) + off) % 2 ^ 32

-- One round of the loop.
abbrev round : Places → ℕ → Machine → Machine
round places i m =
    put_gdt (index_ldt_first + i)
      (init_desc (makelinear selector_kernel_ds (places.ldts_at i) m.gdt) (2 * 8 - 1) da_ldt)
      (record m { table = write m.table i (cleared i) })

abbrev rounds : Places → (n i : ℕ) → Machine → Machine
rounds places zero i m = m
rounds places (suc n) i m = rounds places n (i + 1) (round places i m)

-- The assertion of the loop holds as long as the table of descriptors has room.
fill_ldts_lem :
    (places : Places) (n i : ℕ) (m : Machine)
    → i + n + index_ldt_first ≤ gdt_size
    → fill_ldts places n i m ≡ ok tt (rounds places n i m)
unfolding fill_ldts
fill_ldts_lem places zero i m h = refl
fill_ldts_lem places (suc n) i m h =
    and_then-ok _ tt _ _ (
      assert-ok (ltb (index_ldt_first + i) gdt_size)
        (record m { table = write m.table i (cleared i) }) (lt→ltb _ _ (omega (arith, h))))
    ∙ fill_ldts_lem places n (i + 1) (round places i m) (omega (arith, h))

-- The rounds change no gate, and no descriptor and no entry in front of them.
record Before (places : Places) (n i : ℕ) (m : Machine) : Type 0 where
  gates : (v : ℕ) → (rounds places n i m).idt v ≡ m.idt v
  descs : (j : ℕ) → j < index_ldt_first + i → (rounds places n i m).gdt j ≡ m.gdt j
  entries : (j : ℕ) → j < i → (rounds places n i m).table j ≡ m.table j

rounds-Before : (places : Places) (n i : ℕ) (m : Machine) → Before places n i m
unfolding put_gdt write
rounds-Before places zero i m = record {
  gates = λ v. refl;
  descs = λ j h. refl;
  entries = λ j h. refl;
}
rounds-Before places (suc n) i m =
    let rest = rounds-Before places n (i + 1) (round places i m) in
    record {
      gates = rest.gates;
      descs = λ j h.
          rest.descs j (omega (arith, h))
          ∙ else_of_false _ (m.gdt j) (ne→== (index_ldt_first + i) j (omega (arith, h)));
      entries = λ j h.
          rest.entries j (omega (arith, h))
          ∙ else_of_false (cleared i) (m.table j) (ne→== i j (omega (arith, h)));
    }

ldts_after :
    (places : Places) (n i : ℕ) (m : Machine) (j : ℕ)
    → i ≤ j
    → j < i + n
    → (ldt_seg_linear ((rounds places n i m).gdt (index_ldt_first + j))
        ≡ flat m.gdt (places.ldts_at j))
      × ((rounds places n i m).table j ≡ cleared j)
unfolding put_gdt write makelinear seg2linear
ldts_after places zero i m j lo hi = absurd (omega (arith, lo, hi))
ldts_after places (suc n) i m j lo hi = elim (Bool-cases (i == j)) [
  | inl e ↦
      let before = rounds-Before places n (i + 1) (round places i m) in
      let q : i ≡ j = ==→eq i j e in
      (
        ap ldt_seg_linear (
              before.descs (index_ldt_first + j) (omega (arith, q))
              ∙ then_of_true _ (m.gdt (index_ldt_first + j))
                  (eq→== (index_ldt_first + i) (index_ldt_first + j) (omega (arith, q))))
            ∙ (ldt_seg_linear-init_desc (flat m.gdt (places.ldts_at i)) (2 * 8 - 1) da_ldt
                  (omega arith)
                ∙ ap (λ (k : ℕ). flat m.gdt (places.ldts_at k)) q),
        before.entries j (omega (arith, q))
            ∙ (then_of_true (cleared i) (m.table j) e ∙ ap cleared q),
      )
  | inr e ↦
      let ne : i ≢ j = λ q. absurd (cc (e, eq→== i j q)) in
      let rest =
        ldts_after places n (i + 1) (round places i m) j (omega (arith, lo, ne))
          (omega (arith, hi)) in
      (
        rest.0
            ∙ ap (λ (d : Descriptor). (ldt_seg_linear d + places.ldts_at j) % 2 ^ 32)
                (else_of_false _ (m.gdt 2) (ne→== (index_ldt_first + i) 2 (omega arith))),
        rest.1,
      )
]

-- The machine in front of the loop, and behind it.
abbrev prepared : Places → Machine → Machine
prepared places m =
    fill_tss places
      (record (init_8259a m) { idt = install places (exceptions ++ interrupts) m.idt })

abbrev pub booted : Places → Machine → Machine
booted places m = rounds places nr_slots 0 (prepared places m)

pub init_prot_lem : (places : Places) (m : Machine) → init_prot places m ≡ ok tt (booted places m)
unfolding init_prot init_8259a
init_prot_lem places m = fill_ldts_lem places nr_slots 0 (prepared places m) (omega arith)

pub booted-gates :
    (places : Places) (m : Machine) (i : ℕ)
    → (booted places m).idt i ≡ install places (exceptions ++ interrupts) m.idt i
unfolding fill_tss put_gdt
booted-gates places m i = (rounds-Before places nr_slots 0 (prepared places m)).gates i

-- `init_prot` ends, and none of its assertions fails. Then the selector in each entry of the process
-- table names, in the global table, a descriptor whose base is where the entry's own local table
-- lies, on top of the base of the loader's flat data segment; the descriptor of the TSS has the
-- base of `tss` in the same way; and the loader's four descriptors are as they were.
pub init_prot-ldts :
    (places : Places) (m : Machine)
    → (m2 : Machine) × (init_prot places m ≡ ok tt m2)
      × ((j : ℕ)
          → j < nr_slots
          → ldt_seg_linear (m2.gdt ((m2.table j).ldt_sel / 2 ^ 3)) ≡ flat m.gdt (places.ldts_at j))
      × (ldt_seg_linear (m2.gdt 4) ≡ flat m.gdt places.tss_at)
      × ((j : ℕ) → j < 4 → m2.gdt j ≡ m.gdt j)
unfolding fill_tss put_gdt makelinear seg2linear cleared init_8259a
init_prot-ldts places m =
    let before = rounds-Before places nr_slots 0 (prepared places m) in
    (
      booted places m,
      init_prot_lem places m,
      (λ j h.
          let own = ldts_after places nr_slots 0 (prepared places m) j (omega arith) h in
          ap (λ (p : Proc). ldt_seg_linear ((booted places m).gdt (p.ldt_sel / 2 ^ 3))) own.1
          ∙ (ap (λ (k : ℕ). ldt_seg_linear ((booted places m).gdt k)) {x = (0x28 + j * 8) / 2 ^ 3}
                {y = index_ldt_first + j} (omega arith)
              ∙ own.0)),
      ap ldt_seg_linear (before.descs 4 (omega arith))
          ∙ ldt_seg_linear-init_desc (flat m.gdt places.tss_at) 103 da_386_tss (omega arith),
      (λ j h.
          before.descs j (omega (arith, h))
          ∙ else_of_false _ (m.gdt j) (ne→== index_tss j (omega (arith, h)))),
    )
