-- ===== src/Segment.antt =====
-- kernel/protect.c and kernel/proc.c: descriptors, linear addresses and the copy of bytes between
-- them (`phys_copy`, which is `memcpy` of lib/string.asm).
pub mod Laws
use Prim.Native.Nat.{bit_or}
use oscourse_project.Base.{
  ℕ, zero, suc, ◌+◌, ◌*◌, ◌/◌, ◌%◌, ◌^◌, ◌||◌, not, ltb, leb, ◌==◌, if◌then◌else◌,
}
use oscourse_project.Proc.{Descriptor, Proc, Kernel, nr_tasks, nr_native_procs}
use oscourse_project.Run.{Cmd, ok, pure, ◌>>=◌, ◌>>◌, assert, proc}

-- `init_desc`. A mask of low bits is a remainder; the field `limit_high_attr2` joins the high bits
-- of the limit with bits 12 to 15 of the attribute.
unfoldable pub init_desc : (base limit attribute : ℕ) → Descriptor
init_desc base limit attribute = record {
  limit_low = limit % 2 ^ 16;
  base_low = base % 2 ^ 16;
  base_mid = base / 2 ^ 16 % 2 ^ 8;
  attr1 = attribute % 2 ^ 8;
  limit_high_attr2 = bit_or (attribute / 2 ^ 12 % 2 ^ 4 * 2 ^ 4) (limit / 2 ^ 16 % 2 ^ 4);
  base_high = base / 2 ^ 24 % 2 ^ 8;
}

-- `ldt_seg_linear`, of the descriptor that the index names
unfoldable pub ldt_seg_linear : Descriptor → ℕ
ldt_seg_linear d = bit_or (bit_or (d.base_high * 2 ^ 24) (d.base_mid * 2 ^ 16)) d.base_low % 2 ^ 32

-- `reassembly`
unfoldable pub reassembly : (high high_shift mid mid_shift low : ℕ) → ℕ
reassembly high high_shift mid mid_shift low =
    (high * 2 ^ high_shift + mid * 2 ^ mid_shift + low) % 2 ^ 32

-- `va2la`
unfoldable pub va2la : ℕ → ℕ → Cmd ℕ
unfolding ldt_seg_linear
va2la pid va = do
  p ← proc pid
  let la = (ldt_seg_linear p.ldt_rw + va) % 2 ^ 32
  assert (not (ltb pid (nr_tasks + nr_native_procs)) || la == va)
  pure la

-- One byte into linear memory.
unfoldable pub poke : (ℕ → ℕ) → ℕ → ℕ → ℕ → ℕ
poke mem a v b = if a == b then v else mem b

-- `memcpy`: ascending, a byte at a time, in registers of 32 bits.
unfoldable pub copy : ℕ → (dst src : ℕ) → (ℕ → ℕ) → ℕ → ℕ
unfolding poke
copy zero dst src mem = mem
copy (suc n) dst src mem = copy n ((dst + 1) % 2 ^ 32) ((src + 1) % 2 ^ 32) (poke mem dst (mem src))

unfoldable pub phys_copy : (dst src size : ℕ) → Cmd (Unit {0})
unfolding copy
phys_copy dst src size k = ok tt (record k { mem = copy size dst src k.mem })

-- The four bytes of an `int`, lowest first.
unfoldable pub poke_int : (ℕ → ℕ) → (a v : ℕ) → ℕ → ℕ
unfolding poke
poke_int mem a v =
    poke
      (poke (poke (poke mem a (v % 2 ^ 8)) (a + 1) (v / 2 ^ 8 % 2 ^ 8)) (a + 2)
        (v / 2 ^ 16 % 2 ^ 8))
      (a + 3) (v / 2 ^ 24 % 2 ^ 8)

-- A store of an `int`.
unfoldable pub store_int : ℕ → ℕ → Cmd (Unit {0})
store_int a v k = ok tt (record k { mem = poke_int k.mem a v })

-- The `int` that four bytes hold.
unfoldable pub load_int : (ℕ → ℕ) → ℕ → ℕ
load_int mem a = mem a + mem (a + 1) * 2 ^ 8 + mem (a + 2) * 2 ^ 16 + mem (a + 3) * 2 ^ 24
