-- ===== src/Protect.antt =====
-- kernel/protect.c and kernel/i8259.c: the table of interrupt gates, the global descriptor table and
-- the interrupt controllers. Where the linker puts the routines and tables is a parameter, and a
-- byte written to a port is noted, the last first.
pub mod Gates
pub mod Tables
pub mod Exceptions
pub mod Examples
use Prim.Native.Nat.{bit_or}
use oscourse_project.Base.{
  ℕ, zero, suc, ◌+◌, ◌-◌, ◌*◌, ◌/◌, ◌%◌, ◌^◌, List, [], ◌∷◌, ◌++◌, ltb, ◌==◌, if◌then◌else◌,
}
use oscourse_project.Proc.{Descriptor, Table, nr_slots, write}
use oscourse_project.Act.{Act, ◌>>=◌, ◌>>◌, pure, get, change, assert}
use oscourse_project.Segment.{init_desc, ldt_seg_linear}
use oscourse_project.Boot.{cleared}

-- The routines that gates lead to: the exceptions, `hwint00` to `hwint15`, and `sys_call`.
pub data Routine : Type 0 where
  divide_error single_step_exception nmi breakpoint_exception overflow bounds_check inval_opcode
        copr_not_available double_fault copr_seg_overrun inval_tss segment_not_present
        stack_exception general_protection page_fault copr_error sys_call :
      Routine
  hwint : ℕ → Routine

-- `struct gate`
pub record Gate : Type 0 where
  pub offset_low : ℕ
  pub selector : ℕ
  pub dcount : ℕ
  pub attr : ℕ
  pub offset_high : ℕ

-- `struct tss`
pub record Tss : Type 0 where
  pub backlink : ℕ
  pub esp0 : ℕ
  pub ss0 : ℕ
  pub esp1 : ℕ
  pub ss1 : ℕ
  pub esp2 : ℕ
  pub ss2 : ℕ
  pub cr3 : ℕ
  pub eip : ℕ
  pub flags : ℕ
  pub eax : ℕ
  pub ecx : ℕ
  pub edx : ℕ
  pub ebx : ℕ
  pub esp : ℕ
  pub ebp : ℕ
  pub esi : ℕ
  pub edi : ℕ
  pub es : ℕ
  pub cs : ℕ
  pub ss : ℕ
  pub ds : ℕ
  pub fs : ℕ
  pub gs : ℕ
  pub ldt : ℕ
  pub trap : ℕ
  pub iobase : ℕ

-- A handler in `irq_table`: `spurious_irq`, or the one at an address.
pub data IrqHandler : Type 0 where
  spurious_irq : IrqHandler
  handler_at : ℕ → IrqHandler

pub record Machine : Type 0 where
  pub idt : ℕ → Gate
  pub gdt : ℕ → Descriptor
  pub tss : Tss
  pub table : Table
  pub irq_table : ℕ → IrqHandler
  pub ports : List (ℕ × ℕ)

-- Where the linker puts the routines, `tss`, and the field `ldts` of the entries of `proc_table`.
pub record Places : Type 0 where
  pub routine_at : Routine → ℕ
  pub tss_at : ℕ
  pub ldts_at : ℕ → ℕ

abbrev pub gdt_size : ℕ
gdt_size = 128

abbrev pub nr_irq : ℕ
nr_irq = 16

abbrev pub index_tss : ℕ
index_tss = 4

abbrev pub index_ldt_first : ℕ
index_ldt_first = 5

-- SELECTOR_FLAT_C
abbrev pub selector_kernel_cs : ℕ
selector_kernel_cs = 0x08

-- SELECTOR_FLAT_RW
abbrev pub selector_kernel_ds : ℕ
selector_kernel_ds = 0x10

abbrev pub da_ldt : ℕ
da_ldt = 0x82

abbrev pub da_386_tss : ℕ
da_386_tss = 0x89

abbrev pub da_386_igate : ℕ
da_386_igate = 0x8E

abbrev pub privilege_krnl : ℕ
privilege_krnl = 0

abbrev pub privilege_user : ℕ
privilege_user = 3

-- sizeof(struct tss)
abbrev pub tss_size : ℕ
tss_size = 104

-- `out_byte` to the ports of the two controllers
unfoldable pub out_byte : (port value : ℕ) → Machine → Machine
out_byte port value m = record m { ports = (port, value) ∷ m.ports }

-- `init_8259A`
unfoldable pub init_8259a : Machine → Machine
unfolding out_byte
init_8259a m =
    let started = out_byte 0xA1 0x1 (
      out_byte 0x21 0x1 (
        out_byte 0xA1 0x2 (
          out_byte 0x21 0x4 (
            out_byte 0xA1 0x28
              (out_byte 0x21 0x20 (out_byte 0xA0 0x11 (out_byte 0x20 0x11 m))))))) in
    let masked = out_byte 0xA1 0xFF (out_byte 0x21 0xFF started) in
    record masked { irq_table = λ i. if ltb i nr_irq then spurious_irq else masked.irq_table i }

-- `put_irq_handler`; `disable_irq` is a routine in assembly.
unfoldable pub put_irq_handler :
    (disable_irq : ℕ → Machine → Machine) → (irq : ℕ) → IrqHandler → Machine → Machine
put_irq_handler disable_irq irq handler m =
    let n = disable_irq irq m in
    record n { irq_table = λ i. if irq == i then handler else n.irq_table i }

-- `init_idt_desc`, the gate that it writes
unfoldable pub gate : (desc_type base privilege : ℕ) → Gate
gate desc_type base privilege = record {
  offset_low = base % 2 ^ 16;
  selector = selector_kernel_cs;
  dcount = 0;
  attr = bit_or (privilege * 2 ^ 5) desc_type % 2 ^ 8;
  offset_high = base / 2 ^ 16 % 2 ^ 16;
}

-- A call of `init_idt_desc` with DA_386IGate: a vector, its routine and its privilege.
pub record Vector : Type 0 where
  pub vector : ℕ
  pub routine : Routine
  pub privilege : ℕ

abbrev pub kernel_vector : ℕ → Routine → Vector
kernel_vector v r = record { vector = v; routine = r; privilege = privilege_krnl }

abbrev pub user_vector : ℕ → Routine → Vector
user_vector v r = record { vector = v; routine = r; privilege = privilege_user }

-- The calls of `init_prot`, in their order.
abbrev pub exceptions : List Vector
exceptions =
    kernel_vector 0x0 divide_error
    ∷ kernel_vector 0x1 single_step_exception
    ∷ kernel_vector 0x2 nmi
    ∷ user_vector 0x3 breakpoint_exception
    ∷ user_vector 0x4 overflow
    ∷ kernel_vector 0x5 bounds_check
    ∷ kernel_vector 0x6 inval_opcode
    ∷ kernel_vector 0x7 copr_not_available
    ∷ kernel_vector 0x8 double_fault
    ∷ kernel_vector 0x9 copr_seg_overrun
    ∷ kernel_vector 0xA inval_tss
    ∷ kernel_vector 0xB segment_not_present
    ∷ kernel_vector 0xC stack_exception
    ∷ kernel_vector 0xD general_protection
    ∷ kernel_vector 0xE page_fault
    ∷ kernel_vector 0x10 copr_error
    ∷ []

abbrev pub interrupts : List Vector
interrupts =
    kernel_vector (0x20 + 0) (hwint 0)
    ∷ kernel_vector (0x20 + 1) (hwint 1)
    ∷ kernel_vector (0x20 + 2) (hwint 2)
    ∷ kernel_vector (0x20 + 3) (hwint 3)
    ∷ kernel_vector (0x20 + 4) (hwint 4)
    ∷ kernel_vector (0x20 + 5) (hwint 5)
    ∷ kernel_vector (0x20 + 6) (hwint 6)
    ∷ kernel_vector (0x20 + 7) (hwint 7)
    ∷ kernel_vector (0x28 + 0) (hwint 8)
    ∷ kernel_vector (0x28 + 1) (hwint 9)
    ∷ kernel_vector (0x28 + 2) (hwint 10)
    ∷ kernel_vector (0x28 + 3) (hwint 11)
    ∷ kernel_vector (0x28 + 4) (hwint 12)
    ∷ kernel_vector (0x28 + 5) (hwint 13)
    ∷ kernel_vector (0x28 + 6) (hwint 14)
    ∷ kernel_vector (0x28 + 7) (hwint 15)
    ∷ user_vector 0x90 sys_call
    ∷ []

-- `seg2linear`
unfoldable pub seg2linear : ℕ → (ℕ → Descriptor) → ℕ
unfolding ldt_seg_linear
seg2linear seg gdt = ldt_seg_linear (gdt (seg / 2 ^ 3))

-- `makelinear`
unfoldable pub makelinear : (seg off : ℕ) → (ℕ → Descriptor) → ℕ
makelinear seg off gdt = (seg2linear seg gdt + off) % 2 ^ 32

-- `gdt[i] = d`
unfoldable pub put_gdt : ℕ → Descriptor → Machine → Machine
put_gdt i d m = record m { gdt = λ j. if i == j then d else m.gdt j }

abbrev pub zero_tss : Tss
zero_tss = record {
  backlink = 0;
  esp0 = 0;
  ss0 = 0;
  esp1 = 0;
  ss1 = 0;
  esp2 = 0;
  ss2 = 0;
  cr3 = 0;
  eip = 0;
  flags = 0;
  eax = 0;
  ecx = 0;
  edx = 0;
  ebx = 0;
  esp = 0;
  ebp = 0;
  esi = 0;
  edi = 0;
  es = 0;
  cs = 0;
  ss = 0;
  ds = 0;
  fs = 0;
  gs = 0;
  ldt = 0;
  trap = 0;
  iobase = 0;
}

module _ (places : Places) where
  -- `init_idt_desc`
  unfoldable pub init_idt_desc : Vector → (ℕ → Gate) → ℕ → Gate
  init_idt_desc v idt i =
      if v.vector == i then gate da_386_igate (places.routine_at v.routine) v.privilege else idt i

  -- The calls of a list, one after another.
  unfoldable pub install : List Vector → (ℕ → Gate) → ℕ → Gate
  install [] idt = idt
  install (v ∷ vs) idt = install vs (init_idt_desc v idt)

  -- "Fill the TSS descriptor in GDT"
  unfoldable pub fill_tss : Machine → Machine
  fill_tss m =
      let cleared_tss : Tss = record zero_tss { ss0 = selector_kernel_ds } in
      let described =
        put_gdt index_tss
          (init_desc (makelinear selector_kernel_ds places.tss_at m.gdt) (tss_size - 1) da_386_tss)
          (record m { tss = cleared_tss }) in
      record described { tss = record cleared_tss { iobase = tss_size } }

  -- "Fill the LDT descriptors of each proc in GDT", `n` rounds from entry `i` on.
  unfoldable pub fill_ldts : (n i : ℕ) → Act Machine (Unit {0})
  fill_ldts zero i = pure tt
  fill_ldts (suc n) i = do
    change (λ m. record m { table = write m.table i (cleared i) })
    assert (ltb (index_ldt_first + i) gdt_size)
    change (λ m.
        put_gdt (index_ldt_first + i)
          (init_desc (makelinear selector_kernel_ds (places.ldts_at i) m.gdt) (2 * 8 - 1) da_ldt) m)
    fill_ldts n (i + 1)

  unfoldable pub init_prot : Act Machine (Unit {0})
  init_prot = do
    change init_8259a
    change (λ m. record m { idt = install (exceptions ++ interrupts) m.idt })
    change fill_tss
    fill_ldts nr_slots 0
