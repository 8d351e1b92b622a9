-- ===== src/Fs/Imap/Free.antt =====
-- fs/link.c `free_imap_bit`, against `alloc_imap_bit`.
use oscourse_project.Base.{
  ℕ, ◌+◌, ◌-◌, ◌*◌, ◌/◌, ◌%◌, ◌^◌, ◌<◌, ◌≡◌, refl, ap, ◌∙◌, sym, true, false, ◌&&◌, ltb, leb, ◌==◌,
  set_flag, clear_flag, arith, Bool-cases, inl, inr, ==→eq,
}
use oscourse_project.Act.{ok, assert}
use oscourse_project.Act.Laws.{and_then-ok, assert-ok}
use oscourse_project.Segment.{poke}
use oscourse_project.Fs.State.{Fs, SuperBlock, rd_sect, wr_sect, read_disk, write_disk, sector_pos}
use oscourse_project.Fs.Maps.{bit_at, alloc_imap_bit}
use oscourse_project.Fs.Unlink.{free_imap_bit}
use oscourse_project.Fs.Imap.{map_bit, with_bit, poke_same, poke_other, bit_eq}
use oscourse_project.Fs.Imap.Alloc.{
  imap, HasMap, loaded, written, OffMap, FreeBit, loaded-imap, imap-written, written_off,
  alloc_imap_bit-FreeBit,
}

free_outcome :
    (dev nr : ℕ) (s : Fs)
    → ltb (nr / 8) 512 ≡ true
    → bit_at (loaded dev s (nr / 8)) (nr % 8) ≡ true
    → free_imap_bit dev nr s
      ≡ ok tt (
          written dev
            (poke (loaded dev s) (nr / 8) (clear_flag (loaded dev s (nr / 8)) (2 ^ (nr % 8))))
            s)
unfolding free_imap_bit rd_sect wr_sect read_disk write_disk sector_pos
free_outcome dev nr s h e =
    and_then-ok (assert (ltb (nr / 8) 512) s) tt s _ (assert-ok (ltb (nr / 8) 512) s h)
    ∙ and_then-ok
        (assert (bit_at (loaded dev s (nr / 8)) (nr % 8)) (record s { fsbuf = loaded dev s })) tt
        (record s { fsbuf = loaded dev s }) _
        (assert-ok (bit_at (loaded dev s (nr / 8)) (nr % 8)) (record s { fsbuf = loaded dev s }) e)

-- The map after the bit is taken and freed.
abbrev freed : (dev nr : ℕ) → Fs → ℕ → ℕ
freed dev nr t = poke (loaded dev t) (nr / 8) (clear_flag (loaded dev t (nr / 8)) (2 ^ (nr % 8)))

loaded-written :
    (dev : ℕ) (buf : ℕ → ℕ) (s : Fs) (i : ℕ) → i < 512 → loaded dev (written dev buf s) i ≡ buf i
loaded-written dev buf s i h =
    loaded-imap dev (written dev buf s) i h ∙ sym (imap-written dev buf s i h)

-- The state after `alloc_imap_bit`.
abbrev taken_at : (dev : ℕ) → Fs → (j k : ℕ) → Fs
taken_at dev s j k = written dev (with_bit (loaded dev s) j k) s

module _ (dev : ℕ) (s : Fs) (j k : ℕ) (w : FreeBit dev s j k) where
  byte_of : (j * 8 + k) / 8 ≡ j
  byte_of = omega (arith, w.bit.below)

  bit_of : (j * 8 + k) % 8 ≡ k
  bit_of = omega (arith, w.bit.below)

  taken_byte : loaded dev (taken_at dev s j k) ((j * 8 + k) / 8) ≡ set_flag (loaded dev s j) (2 ^ k)
  taken_byte =
      ap (loaded dev (taken_at dev s j k)) byte_of
      ∙ loaded-written dev (with_bit (loaded dev s) j k) s j w.in_sector
      ∙ poke_same (loaded dev s) j (set_flag (loaded dev s j) (2 ^ k)) j refl

  taken_bit : bit_at (loaded dev (taken_at dev s j k) ((j * 8 + k) / 8)) ((j * 8 + k) % 8) ≡ true
  taken_bit =
      bit_eq (loaded dev (taken_at dev s j k) ((j * 8 + k) / 8)) (set_flag (loaded dev s j) (2 ^ k))
        ((j * 8 + k) % 8) k taken_byte bit_of
      ∙ w.bit.taken

  freed_byte :
      clear_flag (loaded dev (taken_at dev s j k) ((j * 8 + k) / 8)) (2 ^ ((j * 8 + k) % 8))
      ≡ loaded dev s j
  freed_byte =
      ap (λ (x : ℕ). clear_flag x (2 ^ ((j * 8 + k) % 8))) taken_byte
      ∙ ap (λ (x : ℕ). clear_flag (set_flag (loaded dev s j) (2 ^ k)) (2 ^ x)) bit_of
      ∙ w.bit.restored

  freed_lem : (i : ℕ) → i < 512 → freed dev (j * 8 + k) (taken_at dev s j k) i ≡ loaded dev s i
  freed_lem i l =
      let t : Fs = taken_at dev s j k in
      let v : ℕ = clear_flag (loaded dev t ((j * 8 + k) / 8)) (2 ^ ((j * 8 + k) % 8)) in
      elim (Bool-cases (i == j)) [
        | inl e ↦
            let q : i ≡ j = ==→eq i j e in
            poke_same (loaded dev t) ((j * 8 + k) / 8) v i (q ∙ sym byte_of)
            ∙ freed_byte
            ∙ ap (loaded dev s) (sym q)
        | inr e ↦
            poke_other (loaded dev t) ((j * 8 + k) / 8) v i (λ z. ground (arith, e, z, byte_of))
            ∙ loaded-written dev (with_bit (loaded dev s) j k) s i l
            ∙ poke_other (loaded dev s) j (set_flag (loaded dev s j) (2 ^ k)) i
                (λ z. ground (arith, e, z))
      ]

-- A write of the map that is on the disk changes no byte of it.
same_disk :
    (dev : ℕ) (s t : Fs) (buf : ℕ → ℕ) (d a : ℕ)
    → ((i : ℕ) → i < 512 → buf i ≡ loaded dev s i)
    → (OffMap dev d a → t.disk d a ≡ s.disk d a)
    → (written dev buf t).disk d a ≡ s.disk d a
same_disk dev s t buf d a p q =
    elim (Bool-cases ((d == dev) && (leb 1024 a && ltb a (1024 + 512)))) [
      | inl c ↦ ground (
        arith,
        c,
        p (a - 1024) (ground (arith, c)),
        loaded-imap dev s (a - 1024) (ground (arith, c)),
        ap (s.disk dev) {x = 1024 + (a - 1024)} {y = a} (ground (arith, c)),
        ap (λ (x : ℕ). s.disk x a) {x = d} {y = dev} (ground (arith, c)),
      )
      | inr c ↦ ground (arith, c, q (ground (arith, c)))
    ]

-- free_imap_bit undoes alloc_imap_bit: where a bit of the map is free, each byte of the disk is
-- afterwards what it was.
pub free_imap_bit-alloc_imap_bit :
    (dev free : ℕ) (s : Fs) (sb : SuperBlock)
    → HasMap s dev sb
    → free < 4096
    → map_bit (imap dev s) free ≡ false
    → (nr : ℕ) × (t : Fs) × (u : Fs) × (alloc_imap_bit dev s ≡ ok nr t)
      × (free_imap_bit dev nr t ≡ ok tt u)
      × ((d a : ℕ) → u.disk d a ≡ s.disk d a)
free_imap_bit-alloc_imap_bit dev free s sb h l e =
    let (j, k, w) = alloc_imap_bit-FreeBit dev free s sb h l e in
    let t : Fs = taken_at dev s j k in
    (
      j * 8 + k,
      t,
      written dev (freed dev (j * 8 + k) t) t,
      w.result,
      free_outcome dev (j * 8 + k) t (ground (arith, byte_of dev s j k w, w.in_sector))
          (taken_bit dev s j k w),
      (λ d a.
          same_disk dev s t (freed dev (j * 8 + k) t) d a (freed_lem dev s j k w)
            (written_off dev (with_bit (loaded dev s) j k) s d a)),
    )
