-- ===== src/Fs/Cache/Get.antt =====
-- fs/main.c `get_inode`: what it does to the table of i-nodes.
use oscourse_project.Base.{
  ℕ, ◌+◌, ◌%◌, ◌^◌, ◌<◌, ◌≡◌, ◌≢◌, refl, ap, ◌∙◌, sym, Bool, true, false, Option, none, some, ltb,
  if◌then◌else◌, arith, ◌⊎◌, inl, inr, ne→==,
}
use oscourse_project.Run.{Stop}
use oscourse_project.Act.{Result, ok, stop, halt, pure}
use oscourse_project.Fs.State.{Fs, Inode, SuperBlock, put_in, rd_sect, read_disk}
use oscourse_project.Fs.Inodes.{
  Slot, cached, vacant, holds, find_slot, get_inode, read_inode, load_inode,
}
use oscourse_project.Act.Laws.{and_then-ok}
use oscourse_project.Fs.State.{sector_pos}
use oscourse_project.Fs.Inodes.{inode_sect, inode_off, get_super_block}
use oscourse_project.Fs.Mounted.{Mounted, get_super_block-Mounted}
use oscourse_project.Fs.Cache.Unique.{
  Unique, holds_parts, holds_same, Unique-put, counted-put, put_self,
}
use oscourse_project.Fs.Cache.{
  Slot-cases, find_slot-cached, find_slot-clear, find_slot-Vacant, find_slot_free, Vacant,
}

-- After the slot `q` has been claimed.
abbrev pub claimed : (q dev num : ℕ) → Fs → Fs
claimed q dev num s = put_in q (record (s.inode_table q) { i_dev = dev; i_num = num; i_cnt = 1 }) s

-- After the slot `q` has been filled from the disk.
abbrev pub filled : (q dev num : ℕ) → SuperBlock → Fs → Fs
filled q dev num sb s =
    let t : Fs = claimed q dev num s in
    let pos : ℕ = sector_pos (inode_sect sb num) in
    let buf : ℕ → ℕ = λ i. if ltb i 512 then t.disk dev (pos + i) else t.fsbuf i in
    put_in q (load_inode buf (inode_off num) (t.inode_table q)) (record t { fsbuf = buf })

pub read_inode_lem :
    (q dev num : ℕ) (s : Fs) (sb : SuperBlock)
    → Mounted dev sb s
    → read_inode q dev num s ≡ ok (some q) (filled q dev num sb s)
unfolding read_inode rd_sect read_disk put_in
read_inode_lem q dev num s sb h =
    and_then-ok (get_super_block dev (claimed q dev num s)) sb (claimed q dev num s) _
      (get_super_block-Mounted dev (claimed q dev num s) sb h)

abbrev outcome : (dev num : ℕ) → SuperBlock → Fs → Slot → Result Fs (Option ℕ)
outcome dev num sb s (cached i) =
    ok (some i)
      (put_in i (record (s.inode_table i) { i_cnt = ((s.inode_table i).i_cnt + 1) % 2 ^ 32 }) s)
outcome dev num sb s (vacant none) = stop Stop.panic
outcome dev num sb s (vacant (some q)) = ok (some q) (filled q dev num sb s)

-- `get_inode` behind its search.
abbrev at : (dev num : ℕ) → Slot → Fs → Result Fs (Option ℕ)
at dev num (cached i) s =
    ok (some i)
      (put_in i (record (s.inode_table i) { i_cnt = ((s.inode_table i).i_cnt + 1) % 2 ^ 32 }) s)
at dev num (vacant none) s = stop Stop.panic
at dev num (vacant (some q)) s = read_inode q dev num s

elim_at :
    (dev num : ℕ) (x : Slot) (s : Fs)
    → (elim x as (λ y. Result Fs (Option ℕ)) [
      | cached i ↦
          ok (some i) (
            put_in i
              (record (s.inode_table i) { i_cnt = ((s.inode_table i).i_cnt + 1) % 2 ^ 32 })
              s)
      | vacant none ↦ halt Stop.panic s
      | vacant (some q) ↦ read_inode q dev num s
    ])
      ≡ at dev num x s
elim_at dev num (cached i) s = refl
elim_at dev num (vacant none) s = refl
elim_at dev num (vacant (some q)) s = refl

at_slot :
    (dev num : ℕ) (x : Slot) (s : Fs)
    → num ≢ 0
    → find_slot 64 0 dev num s.inode_table none ≡ x
    → get_inode dev num s ≡ at dev num x s
unfolding get_inode
at_slot dev num x s n e =
    ap
      (λ (b : Bool).
        (if b then pure none else (λ t.
            elim (find_slot 64 0 dev num t.inode_table none) as (λ y. Result Fs (Option ℕ)) [
              | cached i ↦ ok (some i) (
                  put_in i
                    (record (t.inode_table i) { i_cnt = ((t.inode_table i).i_cnt + 1) % 2 ^ 32 }) t)
              | vacant none ↦ halt Stop.panic t
              | vacant (some q) ↦ read_inode q dev num t
            ]))
          s)
      (ne→== num 0 n)
    ∙ elim_at dev num (find_slot 64 0 dev num s.inode_table none) s
    ∙ ap (λ y. at dev num y s) e

get_outcome :
    (dev num : ℕ) (s : Fs) (sb : SuperBlock) (x : Slot)
    → Mounted dev sb s
    → num ≢ 0
    → find_slot 64 0 dev num s.inode_table none ≡ x
    → get_inode dev num s ≡ outcome dev num sb s x
get_outcome dev num s sb (cached i) h n e = at_slot dev num (cached i) s n e
get_outcome dev num s sb (vacant none) h n e = at_slot dev num (vacant none) s n e
get_outcome dev num s sb (vacant (some q)) h n e =
    at_slot dev num (vacant (some q)) s n e ∙ read_inode_lem q dev num s sb h

-- State `t` has one reference more to the i-node in slot `i` than `s`, and the same other slots.
pub record Gets (dev num i : ℕ) (s t : Fs) : Type 0 where
  pub in_table : i < 64
  pub held : holds (t.inode_table i) dev num ≡ true
  pub counted : (t.inode_table i).i_cnt ≡ (s.inode_table i).i_cnt + 1
  pub unique : Unique t.inode_table
  pub others : (j : ℕ) → i ≢ j → t.inode_table j ≡ s.inode_table j
  pub same_disk : t.disk ≡ s.disk

Gets-cached :
    (dev num i : ℕ) (s : Fs)
    → Unique s.inode_table
    → i < 64
    → (s.inode_table i).i_cnt < 2 ^ 31
    → holds (s.inode_table i) dev num ≡ true
    → Gets dev num i s
        (put_in i (record (s.inode_table i) { i_cnt = ((s.inode_table i).i_cnt + 1) % 2 ^ 32 }) s)
unfolding put_in
Gets-cached dev num i s u l small h =
    let p : Inode = record (s.inode_table i) { i_cnt = ((s.inode_table i).i_cnt + 1) % 2 ^ 32 } in
    let (c, d, n) = holds_parts (s.inode_table i) dev num h in
    record {
      in_table = l;
      held =
          ap (λ (x : Inode). holds x dev num) (put_self s.inode_table i p)
          ∙ holds_same p dev num (omega arith) d n;
      counted = ap (λ (x : Inode). x.i_cnt) (put_self s.inode_table i p) ∙ omega arith;
      unique = Unique-put s.inode_table i p u (λ dev' num' h'.
          let (c', d', n') = holds_parts p dev' num' h' in
          inl (holds_same (s.inode_table i) dev' num' c d' n'));
      others = λ j ne. counted-put s.inode_table i j p ne;
      same_disk = refl;
    }

Gets-filled :
    (dev num q : ℕ) (s : Fs) (sb : SuperBlock)
    → Unique s.inode_table
    → Vacant dev num s.inode_table (some q)
    → ((j : ℕ) → j < 64 → holds (s.inode_table j) dev num ≡ false)
    → Gets dev num q s (filled q dev num sb s)
unfolding put_in load_inode
Gets-filled dev num q s sb u (l, free) clear =
    let c : Inode = record (s.inode_table q) { i_dev = dev; i_num = num; i_cnt = 1 } in
    let t : ℕ → Inode = (claimed q dev num s).inode_table in
    let f : Inode = (filled q dev num sb s).inode_table q in
    let e : f ≡ load_inode (filled q dev num sb s).fsbuf (inode_off num) c =
      put_self t q (load_inode (filled q dev num sb s).fsbuf (inode_off num) (t q))
      ∙ ap (load_inode (filled q dev num sb s).fsbuf (inode_off num))
          (put_self s.inode_table q c) in
    record {
      in_table = l;
      held =
          ap (λ (x : Inode). holds x dev num) e
          ∙ holds_same c dev num (λ z. (omega arith)) refl refl;
      counted = ap (λ (x : Inode). x.i_cnt) e ∙ omega (arith, free);
      unique =
          Unique-put t q (load_inode (filled q dev num sb s).fsbuf (inode_off num) (t q))
            (Unique-put s.inode_table q c u (λ dev' num' h.
              let (p, d, n) = holds_parts c dev' num' h in
              inr (λ j lj.
                sym (
                  ap (λ (x : ℕ). holds (s.inode_table j) x num) d
                  ∙ ap (holds (s.inode_table j) dev') n)
                ∙ clear j lj)))
            (λ dev' num' h. inl h);
      others = λ j ne.
          counted-put t q j (load_inode (filled q dev num sb s).fsbuf (inode_off num) (t q)) ne
          ∙ counted-put s.inode_table q j c ne;
      same_disk = refl;
    }

not_full :
    (dev num x : ℕ) (t : ℕ → Inode)
    → x < 64
    → ((t x).i_cnt ≡ 0) ⊎ (holds (t x) dev num ≡ true)
    → find_slot 64 0 dev num t none ≢ vacant none
not_full dev num x t l (inl free) e =
    find_slot_free dev num t 64 0 x none free (omega arith) (omega arith) e
not_full dev num x t l (inr h) e =
    let w : true ≡ false =
      sym h ∙ find_slot-clear dev num t 64 0 x none none e (omega arith) (omega arith) in
    cc

-- get_inode, for a number other than 0 on a mounted device, ends with the slot of that i-node, if no
-- i-node is in the table twice, no count has reached 2^31, and the i-node is in the table or a slot is
-- free: the slot's count is one more than before, the other slots and the disk are unchanged, and
-- still no i-node is in the table twice.
pub get_inode_lem :
    (dev num x : ℕ) (s : Fs) (sb : SuperBlock)
    → Mounted dev sb s
    → num ≢ 0
    → Unique s.inode_table
    → ((i : ℕ) → (s.inode_table i).i_cnt < 2 ^ 31)
    → x < 64
    → ((s.inode_table x).i_cnt ≡ 0) ⊎ (holds (s.inode_table x) dev num ≡ true)
    → (i : ℕ) × (t : Fs) × (get_inode dev num s ≡ ok (some i) t) × Gets dev num i s t
get_inode_lem dev num x s sb m n u small l room =
    elim (Slot-cases (find_slot 64 0 dev num s.inode_table none)) [
      | inl (i, e) ↦
          let (k, h) = find_slot-cached dev num s.inode_table 64 0 i none e in
          (
            i,
            put_in i (record (s.inode_table i) { i_cnt = ((s.inode_table i).i_cnt + 1) % 2 ^ 32 })
                s,
            get_outcome dev num s sb (cached i) m n e,
            Gets-cached dev num i s u k (small i) h,
          )
      | inr (inl e) ↦ absurd (not_full dev num x s.inode_table l room e)
      | inr (inr (q, e)) ↦ (
        q,
        filled q dev num sb s,
        get_outcome dev num s sb (vacant (some q)) m n e,
        Gets-filled dev num q s sb u
            (find_slot-Vacant dev num s.inode_table 64 0 none (some q) (omega arith) tt e)
            (λ j k. find_slot-clear dev num s.inode_table 64 0 j none (some q) e (omega arith) k),
      )
    ]
