-- ===== src/Fs/Reading.antt =====
-- fs/read_write.c `do_rdwt`: a round of the loop of a read.
pub mod Outcome
pub mod Inside
pub mod Past
use oscourse_project.Base.{
  ℕ, zero, suc, ◌+◌, ◌-◌, ◌*◌, ◌/◌, ◌%◌, ◌^◌, ◌≤◌, ◌<◌, ◌≡◌, ◌≢◌, refl, ap, ◌∙◌, sym, Bool, true,
  false, not, ◌&&◌, ◌||◌, Option, none, some, min, ltb, leb, ◌==◌, if◌then◌else◌, arith, ◌⊎◌, inl,
  inr, Bool-cases, le→ltb, lt→ltb, subst, ==-self,
}
use oscourse_project.Proc.{Table, nr_tasks, nr_native_procs}
use oscourse_project.Segment.{ldt_seg_linear}
use oscourse_project.Run.{Stop}
use oscourse_project.Act.{Act, Result, ok, stop, and_then, assert, pure}
use oscourse_project.Act.Laws.{and_then-ok, assert-ok, need-ok}
use oscourse_project.Fs.State.{
  Fs, Inode, put_desc, read_disk, write_disk, sector_pos, i_regular, i_directory,
}
use oscourse_project.Fs.Open.{user_address}
use oscourse_project.Fs.Rdwt.{
  Rw, reading, writing, to_user, move_bytes, advance, rdwt_loop, rdwt_file, grow,
}

-- The linear address that the caller's address is translated to.
abbrev pub linear : Fs → (src va : ℕ) → ℕ
linear s src va = (ldt_seg_linear (s.table src).ldt_rw + va) % 2 ^ 32

-- What `va2la` asserts.
abbrev pub Translates : Fs → (src va : ℕ) → Type 0
Translates s src va = (not (ltb src (nr_tasks + nr_native_procs)) || (linear s src va == va)) ≡ true

user_address_lem :
    (src va : ℕ) (s : Fs) → Translates s src va → user_address src va s ≡ ok (linear s src va) s
unfolding user_address
user_address_lem src va s h =
    and_then-ok (assert (not (ltb src (nr_tasks + nr_native_procs)) || (linear s src va == va)) s)
      tt s _ (assert-ok (not (ltb src (nr_tasks + nr_native_procs)) || (linear s src va == va)) s h)

-- `fsbuf` after the sectors have been read.
abbrev pub fetched : (dev i chunk : ℕ) → Fs → Fs
fetched dev i chunk s = record s {
  fsbuf = λ a. if ltb a (chunk * 512) then s.disk dev (sector_pos i + a) else s.fsbuf a;
}

-- After `n` bytes at `off` in the `chunk` sectors from `i` on have been read to the caller.
abbrev pub moved : (src buf dev i chunk off n : ℕ) → Fs → Fs
moved src buf dev i chunk off n s = to_user (linear s src buf) off n (fetched dev i chunk s)

le→leb : (a b : ℕ) → a ≤ b → leb a b ≡ true
le→leb a b h = ground arith

move_bytes_lem :
    (src buf dev i chunk off n : ℕ) (s : Fs)
    → Translates s src buf
    → i * 512 < 2 ^ 31
    → chunk ≤ 256
    → move_bytes reading src buf dev i chunk off n s ≡ ok tt (moved src buf dev i chunk off n s)
unfolding move_bytes read_disk
move_bytes_lem src buf dev i chunk off n s h low few =
    and_then-ok _ tt s _
      (need-ok Stop.too_large (ltb (i * 512) (2 ^ 31)) s (lt→ltb (i * 512) (2 ^ 31) low))
    ∙ and_then-ok _ tt s _ (need-ok Stop.stuck (leb chunk 256) s (le→leb chunk 256 few))
    ∙ and_then-ok (user_address src buf (fetched dev i chunk s)) (linear s src buf)
        (fetched dev i chunk s) _ (user_address_lem src buf (fetched dev i chunk s) h)

le→leb_false : (a b : ℕ) → b < a → leb a b ≡ false
le→leb_false a b h = ground arith

loop_end :
    (f : ℕ) (rw_type : Rw) (src buf dev d i last chunk off count left : ℕ) (s : Fs)
    → last < i
    → rdwt_loop (suc f) rw_type src buf dev d i last chunk off count left s ≡ ok count s
unfolding rdwt_loop
loop_end f rw_type src buf dev d i last chunk off count left s h =
    rw (rdwt_loop, le→leb_false i last h) refl

-- A read that needs one round.
pub loop_once :
    (f src buf dev d i last chunk off left : ℕ) (s : Fs)
    → i ≤ last
    → last < i + chunk
    → Translates s src (buf + 0)
    → i * 512 < 2 ^ 31
    → chunk ≤ 256
    → rdwt_loop (suc (suc f)) reading src buf dev d i last chunk off 0 left s
      ≡ ok (0 + min left (chunk * 512 - off)) (
          advance d
            (min left (chunk * 512 - off))
            (moved src (buf + 0) dev i chunk off (min left (chunk * 512 - off)) s))
unfolding rdwt_loop
loop_once f src buf dev d i last chunk off left s h k w low few =
    let n : ℕ = min left (chunk * 512 - off) in
    rw (rdwt_loop, le→leb i last h)
      (and_then-ok (move_bytes reading src (buf + 0) dev i chunk off n s) tt
          (moved src (buf + 0) dev i chunk off n s) _
          (move_bytes_lem src (buf + 0) dev i chunk off n s w low few)
        ∙ loop_end f reading src buf dev d (i + chunk) last chunk 0 (0 + n) (left - n)
            (advance d n (moved src (buf + 0) dev i chunk off n s)) k)
