-- ===== src/Protect/Exceptions.antt =====
-- kernel/protect.c `exception_handler`: what it shows. The routines `disp_str`, `disp_color_str` and
-- `disp_int` are in assembly; here their calls are listed, with the settings of `disp_pos`.
use Prim.Native.String.{String}
use oscourse_project.Base.{
  ℕ, zero, suc, ◌*◌, ◌≡◌, refl, List, [], ◌∷◌, ◌++◌, map, Option, none, some, get_elem?, ◌==◌,
  if◌then◌else◌,
}

pub data Shown : Type 0 where
  disp_pos : ℕ → Shown
  disp_str : String → Shown
  disp_color_str : String → (color : ℕ) → Shown
  disp_int : ℕ → Shown

abbrev pub err_description : List String
err_description =
    "#DE Divide Error" ∷ "#DB RESERVED" ∷ "—  NMI Interrupt" ∷ "#BP Breakpoint" ∷ "#OF Overflow"
    ∷ "#BR BOUND Range Exceeded" ∷ "#UD Invalid Opcode (Undefined Opcode)"
    ∷ "#NM Device Not Available (No Math Coprocessor)" ∷ "#DF Double Fault"
    ∷ "    Coprocessor Segment Overrun (reserved)" ∷ "#TS Invalid TSS" ∷ "#NP Segment Not Present"
    ∷ "#SS Stack-Segment Fault" ∷ "#GP General Protection" ∷ "#PF Page Fault"
    ∷ "—  (Intel reserved. Do not use.)" ∷ "#MF x87 FPU Floating-Point Error (Math Fault)"
    ∷ "#AC Alignment Check" ∷ "#MC Machine Check" ∷ "#XF SIMD Floating-Point Exception" ∷ []

abbrev spaces : ℕ → List Shown
spaces zero = []
spaces (suc n) = disp_str " " ∷ spaces n

-- gray ground, red letters
abbrev text_color : ℕ
text_color = 0x74

-- `exception_handler`; a vector outside the table of descriptions reads past it.
unfoldable pub exception_handler : (vec_no err_code eip cs eflags : ℕ) → Option (List Shown)
exception_handler vec_no err_code eip cs eflags = elim (get_elem? err_description vec_no) [
  | none ↦ none
  | some description ↦ some (
      (disp_pos 0 ∷ spaces (80 * 5))
      ++ (disp_pos 0
          ∷ disp_color_str "Exception! --> " text_color
          ∷ disp_color_str description text_color
          ∷ disp_color_str "\n\n" text_color
          ∷ disp_color_str "EFLAGS:" text_color
          ∷ disp_int eflags
          ∷ disp_color_str "CS:" text_color
          ∷ disp_int cs
          ∷ disp_color_str "EIP:" text_color
          ∷ disp_int eip
          ∷ (if err_code == 0xFFFF_FFFF
              then []
              else disp_color_str "Error code:" text_color ∷ disp_int err_code ∷ [])))
]

-- The page fault shows its description.
page_fault_shown :
    map (λ (n : ℕ). get_elem? err_description n) (0xE ∷ 0x10 ∷ [])
    ≡ some "#PF Page Fault" ∷ some "#MF x87 FPU Floating-Point Error (Math Fault)" ∷ []
page_fault_shown = refl
