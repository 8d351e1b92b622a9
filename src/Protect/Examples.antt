-- ===== src/Protect/Examples.antt =====
-- The start of the machine on concrete tables.
use oscourse_project.Base.{ℕ, ◌+◌, ◌*◌, ◌/◌, ◌^◌, ◌<◌, ◌≡◌, ◌⊎◌, refl, [], some, none, arith}
use oscourse_project.Proc.{nr_slots}
use oscourse_project.Boot.{cleared, zero_descriptor}
use oscourse_project.Segment.{ldt_seg_linear}
use oscourse_project.Act.{ok}
use oscourse_project.Protect.{Vector, Machine, Places, init_prot, zero_tss, spurious_irq}
use oscourse_project.Protect.Gates.{
  init_prot-gates, init_prot-user_gates, gate_target, gate_dpl, gate_present, call_for, calls,
}
use oscourse_project.Protect.Tables.{init_prot-ldts, flat}

-- All routines at 0x1234, the tables from 0x30000 on.
abbrev linked : Places
linked = record { routine_at = λ r. 0x31234; tss_at = 0x40000; ldts_at = λ i. 0x50000 + i * 0x80 }

abbrev fresh : Machine
fresh = record {
  idt = λ i. record { offset_low = 0; selector = 0; dcount = 0; attr = 0; offset_high = 0 };
  gdt = λ i. zero_descriptor;
  tss = zero_tss;
  table = cleared;
  irq_table = λ i. spurious_irq;
  ports = [];
}

init_prot-gates_example :
    (m2 : Machine) × (init_prot linked fresh ≡ ok tt m2)
    × ((i : ℕ) (v : Vector)
        → call_for i calls ≡ some v
        → (gate_target (m2.idt i) ≡ 0x31234)
          × ((m2.idt i).selector ≡ 8)
          × (gate_dpl (m2.idt i) ≡ v.privilege)
          × (gate_present (m2.idt i) ≡ 1))
    × ((i : ℕ) → call_for i calls ≡ none → m2.idt i ≡ fresh.idt i)
init_prot-gates_example = init_prot-gates linked fresh (λ r. omega arith)

init_prot-user_gates_example :
    (m2 : Machine) × (init_prot linked fresh ≡ ok tt m2)
    × ((i : ℕ) → gate_dpl (m2.idt i) ≡ 3 → (i ≡ 3) ⊎ ((i ≡ 4) ⊎ (i ≡ 0x90)))
    × (gate_dpl (m2.idt 3) ≡ 3)
    × (gate_dpl (m2.idt 4) ≡ 3)
    × (gate_dpl (m2.idt 0x90) ≡ 3)
init_prot-user_gates_example = init_prot-user_gates linked fresh (λ i. refl)

init_prot-ldts_example :
    (m2 : Machine) × (init_prot linked fresh ≡ ok tt m2)
    × ((j : ℕ)
        → j < nr_slots
        → ldt_seg_linear (m2.gdt ((m2.table j).ldt_sel / 2 ^ 3))
          ≡ flat fresh.gdt (0x50000 + j * 0x80))
    × (ldt_seg_linear (m2.gdt 4) ≡ flat fresh.gdt 0x40000)
    × ((j : ℕ) → j < 4 → m2.gdt j ≡ fresh.gdt j)
init_prot-ldts_example = init_prot-ldts linked fresh
