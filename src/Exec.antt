-- ===== src/Exec.antt =====
-- lib/exec.c `execv` and mm/exec.c `do_exec`: how the arguments of a program reach it. A string is the
-- list of its bytes before the final zero. `do_exec` reads the program by the file system's calls; the
-- part modelled here is "setup the arg stack" and what follows it.
pub mod Layout
pub mod Pack
pub mod Examples
use oscourse_project.Base.{
  ℕ, zero, suc, ◌+◌, ◌-◌, ◌*◌, ◌%◌, ◌^◌, List, [], ◌∷◌, length, ltb, ◌==◌, if◌then◌else◌,
}
use oscourse_project.Run.{Stop}
use oscourse_project.Act.{Act, ok, ◌>>=◌, ◌>>◌, pure, get, change, assert, halt}
use oscourse_project.Segment.{poke, poke_int, load_int, copy}

abbrev pub proc_origin_stack : ℕ
proc_origin_stack = 0x400

-- The bytes of linear memory.
abbrev pub Bytes : Type 0
Bytes = ℕ → ℕ

-- The first loop of `execv`: the length of the table of pointers, without the last one.
unfoldable pub table_len : (argv : List (List ℕ)) → (stack_len : ℕ) → Act Bytes ℕ
table_len [] stack_len = pure stack_len
table_len (p ∷ argv) stack_len = do
  assert (ltb (stack_len + 2 * 4) proc_origin_stack)
  table_len argv (stack_len + 4)

-- `strcpy`, with the zero
unfoldable pub store_string : (a : ℕ) → List ℕ → Bytes → Bytes
store_string a [] mem = poke mem a 0
store_string a (c ∷ s) mem = store_string (a + 1) s (poke mem a c)

-- The second loop: a pointer to each string at `q`, and the strings from `stack_len` on. The stack
-- stands at address `arg_stack` of the process, whose memory starts at `base`.
unfoldable pub store_args :
    (base arg_stack : ℕ) → (argv : List (List ℕ)) → (q stack_len : ℕ) → Act Bytes ℕ
store_args base arg_stack [] q stack_len = pure stack_len
store_args base arg_stack (p ∷ argv) q stack_len = do
  change (λ mem. poke_int mem (base + q) (arg_stack + stack_len))
  assert (ltb (stack_len + length p + 1) proc_origin_stack)
  change (store_string (base + arg_stack + stack_len) p)
  store_args base arg_stack argv (q + 4) (stack_len + length p + 1)

-- `execv`, up to its message: the length of the stack
unfoldable pub pack_args : (base arg_stack : ℕ) → (argv : List (List ℕ)) → Act Bytes ℕ
pack_args base arg_stack argv = do
  n ← table_len argv 0
  change (λ mem. poke_int mem (base + arg_stack + n) 0)
  store_args base arg_stack argv arg_stack (n + 4)

-- "for (; *q != 0; q++,argc++) *q += delta;", from address `q` on
unfoldable pub relocate : (fuel q delta argc : ℕ) → Act Bytes ℕ
relocate zero q delta argc = halt Stop.out_of_fuel
relocate (suc n) q delta argc = do
  mem ← get
  let on = (do
    change (λ m. poke_int m q ((load_int m q + delta) % 2 ^ 32))
    relocate n (q + 4) delta (argc + 1))
  if load_int mem q == 0 then pure argc else on

-- "setup the arg stack": `buf` and `orig_stack` are addresses of the process, `stackcopy` is one of the
-- task. The pointers are no more than the bytes, which are fuel enough.
unfoldable pub setup_args : (base buf orig_stack_len stackcopy orig_stack : ℕ) → Act Bytes ℕ
setup_args base buf orig_stack_len stackcopy orig_stack = do
  change (copy orig_stack_len stackcopy (base + buf))
  let delta = (orig_stack + (2 ^ 32 - buf)) % 2 ^ 32
  argc ← (if orig_stack_len == 0 then pure 0 else relocate (orig_stack_len + 1) stackcopy delta 0)
  change (copy orig_stack_len (base + orig_stack) stackcopy)
  pure argc
