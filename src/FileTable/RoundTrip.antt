-- ===== src/FileTable/RoundTrip.antt =====
-- What `sys_fwrite` of pro1/src/kernel/file.c writes, `sys_fread` reads back.
use oscourse_project.Base.{
  ℕ, zero, suc, ◌+◌, ◌-◌, ◌*◌, ◌/◌, ◌%◌, ◌^◌, ◌≤◌, ◌<◌, ◌≡◌, sym, ap, ◌∙◌, ◌≢◌, ◌⊎◌, Bool, false,
  ◌||◌, Option, some, ltb, leb, ◌==◌, if◌then◌else◌, arith, ne→==, eq→==, else_of_false,
}
use oscourse_project.Act.{change, ok, Act, ◌>>=◌, ◌>>◌}
use oscourse_project.Act.Laws.{and_then-ok}
use oscourse_project.Segment.{copy}
use oscourse_project.Segment.Laws.{copy_lem, copied, Apart}
use oscourse_project.FileTable.{
  file, File, Files, put_file, bmap, md_address, read_md, write_md, strlen, strlen_from, one_more,
  measured, block_size,
}
use oscourse_project.FileTable.Ops.{
  sys_fread, sys_fwrite, sys_fskbegin, rdwr, read_part, read_cut, write_part,
}

-- A text of `len` bytes that are not zero, and a zero behind them, with room in the memory.
pub record Text (mem : ℕ → ℕ) (a len : ℕ) : Type 0 where
  pub inside : a + len < 2 ^ 32
  pub bytes : (k : ℕ) → k < len → mem (a + k) ≢ 0
  pub ends : mem (a + len) ≡ 0

strlen_from_lem :
    (n len a : ℕ) (mem : ℕ → ℕ) → len < n → Text mem a len → strlen_from n a mem ≡ some len
unfolding strlen_from
strlen_from_lem zero len a mem h t = absurd (omega (arith, h))
strlen_from_lem (suc n) zero a mem h t =
    ap (λ (b : Bool). one_more b (strlen_from n ((a + 1) % 2 ^ 32) mem))
      (eq→== (mem a) 0 (ap mem {x = a} {y = a + 0} (omega arith) ∙ t.ends))
strlen_from_lem (suc n) (suc len) a mem h t =
    let q : (a + 1) % 2 ^ 32 ≡ a + 1 = omega (arith, t.inside) in
    let tail : Text mem (a + 1) len = record {
      inside = omega (arith, t.inside);
      bytes = λ k b e.
          t.bytes (suc k) (omega (arith, b))
            (ap mem {x = a + suc k} {y = a + 1 + k} (omega arith) ∙ e);
      ends = ap mem {x = a + 1 + len} {y = a + suc len} (omega arith) ∙ t.ends;
    } in
    ap (λ (b : Bool). one_more b (strlen_from n ((a + 1) % 2 ^ 32) mem))
      (ne→== (mem a) 0
        (λ e. t.bytes 0 (omega arith) (ap mem {x = a + 0} {y = a} (omega arith) ∙ e)))
    ∙ ap (one_more false) (
        ap (λ (k : ℕ). strlen_from n k mem) q
        ∙ strlen_from_lem n len (a + 1) mem (omega (arith, h)) tail)

strlen_lem : (a len : ℕ) (s : Files) → Text s.mem a len → strlen a s ≡ ok len s
unfolding strlen
strlen_lem a len s t =
    ap (λ (o : Option ℕ). measured o s)
      (strlen_from_lem (2 ^ 32) len a s.mem (omega (arith, t.inside)) t)

-- A copy elsewhere leaves a text as it is.
copy-Text :
    (n dst src a len : ℕ) (mem : ℕ → ℕ)
    → dst + n < 2 ^ 32
    → src + n < 2 ^ 32
    → Apart dst src n
    → (dst + n ≤ a) ⊎ (a + len < dst)
    → Text mem a len
    → Text (copy n dst src mem) a len
copy-Text n dst src a len mem hd hs apart far t =
    let keeps : (k : ℕ) → k ≤ len → copy n dst src mem (a + k) ≡ mem (a + k) = λ k b.
      copy_lem n dst src mem (a + k) hd hs apart
      ∙ else_of_false (mem (src + (a + k - dst))) (mem (a + k)) (ground (arith, far, b)) in
    record {
      inside = t.inside;
      bytes = λ k b e. t.bytes k b (sym (keeps k (omega (arith, b))) ∙ e);
      ends = keeps len (omega arith) ∙ t.ends;
    }

-- `n` bytes that are not zero, copied in front of a zero, are a text there.
copied-Text :
    (len dst src : ℕ) (mem : ℕ → ℕ)
    → dst + len < 2 ^ 32
    → src + len < 2 ^ 32
    → Apart dst src len
    → ((k : ℕ) → k < len → mem (src + k) ≢ 0)
    → mem (dst + len) ≡ 0
    → Text (copy len dst src mem) dst len
copied-Text len dst src mem hd hs apart bytes stop = record {
  inside = hd;
  bytes = λ k b e. bytes k b (sym (copied len dst src mem hd hs apart k b) ∙ e);
  ends =
      copy_lem len dst src mem (dst + len) hd hs apart
      ∙ (else_of_false (mem (src + (dst + len - dst))) (mem (dst + len)) (ground arith) ∙ stop);
}

-- The block of a file's offset, and the address of its bytes from the offset on.
abbrev file_block : File → ℕ
file_block f = (f.offset / block_size + f.fcb.init_no) % 2 ^ 16

abbrev pub area : File → ℕ
area f = md_address (file_block f) f.offset

abbrev file_cap : File → ℕ
file_cap f = f.fcb.blkcount * block_size

bmap_lem :
    (s : Files)
    → (s.f_sys_opentbl 0).offset < file_cap (s.f_sys_opentbl 0)
    → bmap 0 s ≡ ok (file_block (s.f_sys_opentbl 0)) s
unfolding bmap
bmap_lem s h =
    let f = s.f_sys_opentbl 0 in
    ap (λ (n : ℕ). ok n s) (else_of_false 0xFFFF (file_block f) (ground (arith, h)))

-- A block number of 16 bits is not -1.
not_null : (f : File) → (file_block f == 2 ^ 32 - 1) ≡ false
not_null f = ne→== (file_block f) (2 ^ 32 - 1) (omega arith)

-- The tables behind a write of `len` bytes, and behind a read.
abbrev wrote : (buf len : ℕ) → Files → Files
wrote buf len s =
    let f = s.f_sys_opentbl 0 in
    put_file 0 (record f { offset = (f.offset + len) % 2 ^ 16 })
      (write_md (file_block f) buf f.offset len s)

abbrev was_read : (buf len : ℕ) → Files → Files
was_read buf len s =
    let f = s.f_sys_opentbl 0 in
    put_file 0 (record f { offset = (f.offset + len) % 2 ^ 16 })
      (read_md buf (file_block f) f.offset len s)

sys_fwrite_lem :
    (buf len count : ℕ) (s : Files)
    → (s.f_sys_opentbl 0).offset < file_cap (s.f_sys_opentbl 0)
    → (s.f_sys_opentbl 0).offset + len ≤ file_cap (s.f_sys_opentbl 0)
    → area (s.f_sys_opentbl 0) + len < 2 ^ 32
    → (area (s.f_sys_opentbl 0) + len ≤ buf) ⊎ (buf + len < area (s.f_sys_opentbl 0))
    → Text s.mem buf len
    → sys_fwrite 0 buf count s ≡ ok len (wrote buf len s)
unfolding sys_fwrite rdwr write_part put_file write_md
sys_fwrite_lem buf len count s h room inside apart t =
    let f = s.f_sys_opentbl 0 in
    let fits : (ltb (file_cap f) f.offset || ltb (file_cap f - f.offset) len) ≡ false =
      ground (arith, room) in
    and_then-ok _ (file_block f) s _ (bmap_lem s h)
    ∙ (ap (λ (m : Act Files ℕ). m s)
          (else_of_false _ (file 0 >>= write_part 0 (file_block f) buf) (not_null f))
        ∙ (and_then-ok _ len s _ (strlen_lem buf len s t)
            ∙ (ap (λ (cut : ℕ). strlen buf (wrote buf cut s)) (else_of_false _ len fits)
                ∙ strlen_lem buf len (wrote buf len s) (
                    copy-Text len (area f) buf buf len s.mem inside t.inside (omega (arith, apart))
                      (omega (arith, apart)) t))))

sys_fread_lem :
    (buf len : ℕ) (s : Files)
    → 0 < len
    → (s.f_sys_opentbl 0).fcb.blkcount < 2 ^ 8
    → (s.f_sys_opentbl 0).offset + len ≤ file_cap (s.f_sys_opentbl 0)
    → area (s.f_sys_opentbl 0) + len < 2 ^ 32
    → buf + len < 2 ^ 32
    → Apart buf (area (s.f_sys_opentbl 0)) len
    → ((k : ℕ) → k < len → s.mem (area (s.f_sys_opentbl 0) + k) ≢ 0)
    → s.mem (buf + len) ≡ 0
    → sys_fread 0 buf len s ≡ ok len (was_read buf len s)
unfolding sys_fread rdwr read_part read_cut put_file read_md
sys_fread_lem buf len s pos small room inside hb apart bytes stop =
    let f = s.f_sys_opentbl 0 in
    let cut : (if leb (file_cap f) (f.offset + len)
          then (file_cap f + 2 ^ 32 - f.offset) % 2 ^ 32
          else len)
        ≡ len =
      ground (arith, room, small) in
    let s1 : Files = read_md buf (file_block f) f.offset len s in
    let there : Text s1.mem buf len =
      copied-Text len buf (area f) s.mem hb inside apart bytes stop in
    and_then-ok _ (file_block f) s _ (bmap_lem s (omega (arith, pos, room)))
    ∙ (ap (λ (m : Act Files ℕ). m s)
          (else_of_false _ (file 0 >>= read_part 0 (file_block f) buf len) (not_null f))
        ∙ (ap (λ (n : ℕ). read_cut 0 (file_block f) buf n f s) cut
            ∙ (ap (λ (m : Act Files ℕ). m s)
                  (else_of_false _ (reads f) (ne→== len 0 (omega (arith, pos))))
                ∙ (and_then-ok _ len s1 _ (strlen_lem buf len s1 there)
                    ∙ (ap (strlen buf)
                          (else_of_false s1 (was_read buf len s) (ne→== len 0 (omega (arith, pos))))
                        ∙ strlen_lem buf len (was_read buf len s) there)))))
  where
    reads : File → Act Files ℕ
    reads f =
        change (read_md buf (file_block f) f.offset len)
        >> (strlen buf >>= (λ n.
            change (λ u.
              if n == 0 then u else put_file 0 (record f { offset = (f.offset + len) % 2 ^ 16 }) u)
            >> strlen buf))

-- The calls of a process that writes a text to the open file from its start on, and reads `len`
-- bytes from its start on to `dest`.
abbrev pub rewrite : (buf count dest len : ℕ) → Act Files ℕ
rewrite buf count dest len = do
  sys_fskbegin 0
  n ← sys_fwrite 0 buf count
  sys_fskbegin 0
  sys_fread 0 dest len

-- The open file at its start.
abbrev pub from_start : Files → File
from_start s = record (s.f_sys_opentbl 0) { offset = 0 }

-- A text of `len` bytes at `buf`, not empty and no longer than the open file, whose bytes in the
-- memory do not meet the text and the place `dest`, where a zero stands behind `len` bytes. Written
-- from the start of the file and read back to `dest`, the text arrives: both calls end, the read
-- returns its length, and each byte is that of `buf`. The count that the write is given plays
-- no part.
pub sys_fread-sys_fwrite :
    (buf count dest len : ℕ) (s : Files)
    → 0 < len
    → (s.f_sys_opentbl 0).fcb.blkcount < 2 ^ 8
    → len ≤ (s.f_sys_opentbl 0).fcb.blkcount * block_size
    → area (from_start s) + len < 2 ^ 32
    → Text s.mem buf len
    → (area (from_start s) + len ≤ buf) ⊎ (buf + len < area (from_start s))
    → dest + len < 2 ^ 32
    → (area (from_start s) + len ≤ dest) ⊎ (dest + len < area (from_start s))
    → s.mem (dest + len) ≡ 0
    → (s2 : Files) × (rewrite buf count dest len s ≡ ok len s2)
      × ((k : ℕ) → k < len → s2.mem (dest + k) ≡ s.mem (buf + k))
unfolding put_file sys_fskbegin read_md write_md
sys_fread-sys_fwrite buf count dest len s pos small fits inside t far hd far2 stop =
    let f = from_start s in
    let s1 : Files = put_file 0 f s in
    let s2 : Files = wrote buf len s1 in
    let s3 : Files = put_file 0 f s2 in
    let on_file = copied len (area f) buf s.mem inside t.inside (omega (arith, far)) in
    let same : s3.mem (dest + len) ≡ s.mem (dest + len) =
      copy_lem len (area f) buf s.mem (dest + len) inside t.inside (omega (arith, far))
      ∙ else_of_false (s.mem (buf + (dest + len - area f))) (s.mem (dest + len))
          (ground (arith, far2)) in
    (
      was_read dest len s3,
      and_then-ok _ len s2 _ (
            sys_fwrite_lem buf len count s1 (omega (arith, pos, fits)) (omega (arith, fits)) inside
              far t)
          ∙ sys_fread_lem dest len s3 pos small (omega (arith, fits)) inside hd
              (omega (arith, far2)) (λ k b e. t.bytes k b (sym (on_file k b) ∙ e)) (same ∙ stop),
      (λ k b. copied len dest (area f) s2.mem hd inside (omega (arith, far2)) k b ∙ on_file k b),
    )
