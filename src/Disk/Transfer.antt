-- ===== src/Disk/Transfer.antt =====
-- kernel/hd.c `hd_rdwt`: the loop that moves the data. The drive is a parameter: `sector` gives the
-- bytes of the sectors that it delivers, one after another, and `ready` says whether it becomes ready
-- for data in time. The drive moves as many sectors as it was asked for, each with an interrupt;
-- `interrupt_wait` returns when that comes, and without one the driver waits for ever. `hdbuf` is the
-- linear address of the buffer of that name, and what is written to the data port is kept as the
-- address it came from, its length and the memory, the last first.
use oscourse_project.Base.{
  ℕ, zero, suc, ◌+◌, ◌-◌, ◌*◌, ◌/◌, ◌%◌, ◌^◌, ◌≤◌, ◌<◌, ◌≡◌, ◌⊎◌, refl, ap, ◌∙◌, Bool, Bool-cases,
  inl, inr, ==→eq, true, false, ◌&&◌, List, ◌∷◌, ltb, leb, min, ◌==◌, if◌then◌else◌, arith, ne→==,
  lt→ltb, then_of_true, else_of_false,
}
use oscourse_project.Run.{Stop}
use oscourse_project.Act.{Act, ok, stop, ◌>>=◌, ◌>>◌, pure, get, change, need, halt}
use oscourse_project.Act.Laws.{and_then-ok, and_then-stop, need-ok}
use oscourse_project.Segment.{copy}
use oscourse_project.Segment.Laws.{copy_lem, Apart}

abbrev pub sector_bytes : ℕ
sector_bytes = 512

-- How many sectors the drive moves for a transfer of `cnt` bytes, whose command has eight bits for
-- their count: 0 stands for 256.
unfoldable pub asked_sectors : (cnt : ℕ) → ℕ
asked_sectors cnt =
    let count = (cnt + (sector_bytes - 1)) / sector_bytes % 2 ^ 8 in
    if count == 0 then 256 else count

-- The memory, how many sectors the drive has delivered and how many it has still to move, and what
-- it has been given.
pub record Port : Type 0 where
  pub mem : ℕ → ℕ
  pub delivered : ℕ
  pub awaited : ℕ
  pub given : List (ℕ × ℕ × (ℕ → ℕ))

-- `min(SECTOR_SIZE, bytes_left)` on `int`
abbrev pub round_bytes : ℕ → ℕ
round_bytes left = if ltb left (2 ^ 31) then min sector_bytes left else left

module _ (sector : (k j : ℕ) → ℕ) (ready : Port → Bool) (hdbuf : ℕ) where
  -- `port_read(REG_DATA, hdbuf, SECTOR_SIZE)`
  unfoldable pub port_read : Port → Port
  port_read p = record p {
    mem = λ a.
        if leb hdbuf a && ltb a (hdbuf + sector_bytes)
        then sector p.delivered (a - hdbuf)
        else p.mem a;
    delivered = p.delivered + 1;
    awaited = p.awaited - 1;
  }

  -- The body of the loop.
  unfoldable pub move_sector : (reading : Bool) → (la bytes : ℕ) → Act Port (Unit {0})
  move_sector true la bytes = do
    p ← get
    need Stop.stuck (ltb 0 p.awaited)
    change port_read
    change (λ p. record p { mem = copy bytes la hdbuf p.mem })
  move_sector false la bytes = do
    p ← get
    if ready p
        then (do
          change (λ q. record q { given = (la, bytes, q.mem) ∷ q.given })
          need Stop.stuck (ltb 0 p.awaited)
          change (λ q. record q { awaited = q.awaited - 1 }))
        else halt Stop.panic

  -- `while (bytes_left)`, an `int` as its bit pattern
  unfoldable pub move_sectors : (fuel : ℕ) → (reading : Bool) → (left la : ℕ) → Act Port (Unit {0})
  move_sectors zero reading left la = halt Stop.out_of_fuel
  move_sectors (suc n) reading left la =
      let on = (do
        move_sector reading la (round_bytes left)
        move_sectors n reading ((left + 2 ^ 32 - sector_bytes) % 2 ^ 32)
            ((la + sector_bytes) % 2 ^ 32)) in
      if left == 0 then pure tt else on

  -- The state behind one sector read to `la`.
  abbrev read_one : (la : ℕ) → Port → Port
  read_one la p = record (port_read p) { mem = copy sector_bytes la hdbuf (port_read p).mem }

  move_sector_lem :
      (la bytes : ℕ) (p : Port)
      → 0 < p.awaited
      → move_sector true la bytes p
        ≡ ok tt (record (port_read p) { mem = copy bytes la hdbuf (port_read p).mem })
  unfolding move_sector
  move_sector_lem la bytes p some =
      and_then-ok _ tt p _ (need-ok Stop.stuck (ltb 0 p.awaited) p (lt→ltb 0 p.awaited some))

  move_sector_stops :
      (la bytes : ℕ) (p : Port) → p.awaited ≡ 0 → move_sector true la bytes p ≡ stop Stop.stuck
  unfolding move_sector
  move_sector_stops la bytes p none =
      and_then-stop _ Stop.stuck _ (ap (λ (m : ℕ). need Stop.stuck (ltb 0 m) p) none)

  -- What `n` sectors read to `la` leave: the sectors in their order, and all other memory but the
  -- buffer as it was.
  pub record Read (n la : ℕ) (p q : Port) : Type 0 where
    pub in_order :
        (k j : ℕ)
        → k < n
        → j < sector_bytes
        → q.mem (la + k * sector_bytes + j) ≡ sector (p.delivered + k) j
    pub elsewhere :
        (a : ℕ)
        → (a < la) ⊎ (la + n * sector_bytes ≤ a)
        → (a < hdbuf) ⊎ (hdbuf + sector_bytes ≤ a)
        → q.mem a ≡ p.mem a
    pub counted : q.delivered ≡ p.delivered + n
    pub settled : q.awaited + n ≡ p.awaited

  -- A sector read to `la`, byte by byte.
  read_one-inside :
      (la j : ℕ) (p : Port)
      → la + sector_bytes < 2 ^ 32
      → hdbuf + sector_bytes < 2 ^ 32
      → Apart la hdbuf sector_bytes
      → j < sector_bytes
      → (read_one la p).mem (la + j) ≡ sector p.delivered j
  unfolding port_read
  read_one-inside la j p hl hh apart h =
      copy_lem sector_bytes la hdbuf (port_read p).mem (la + j) hl hh apart
      ∙ (then_of_true {b = leb la (la + j) && ltb (la + j) (la + sector_bytes)}
            ((port_read p).mem (hdbuf + (la + j - la))) _ (ground (arith, h))
          ∙ (then_of_true
                {b = leb hdbuf (hdbuf + (la + j - la))
                  && ltb (hdbuf + (la + j - la)) (hdbuf + sector_bytes)}
                (sector p.delivered (hdbuf + (la + j - la) - hdbuf)) _ (ground (arith, h))
              ∙ ap (sector p.delivered) {y = j} (omega arith)))

  read_one-outside :
      (la a : ℕ) (p : Port)
      → la + sector_bytes < 2 ^ 32
      → hdbuf + sector_bytes < 2 ^ 32
      → Apart la hdbuf sector_bytes
      → (a < la) ⊎ (la + sector_bytes ≤ a)
      → (a < hdbuf) ⊎ (hdbuf + sector_bytes ≤ a)
      → (read_one la p).mem a ≡ p.mem a
  unfolding port_read
  read_one-outside la a p hl hh apart out off =
      copy_lem sector_bytes la hdbuf (port_read p).mem a hl hh apart
      ∙ (else_of_false {b = leb la a && ltb a (la + sector_bytes)} _ ((port_read p).mem a)
            (ground (arith, out))
          ∙ else_of_false {b = leb hdbuf a && ltb a (hdbuf + sector_bytes)} _ (p.mem a)
              (ground (arith, off)))

  -- What follows the test of a round.
  abbrev onward : (n la bytes left la2 : ℕ) → Act Port (Unit {0})
  onward n la bytes left la2 = do move_sector true la bytes; move_sectors n true left la2

  -- The first sector, and those behind it.
  order_next :
      (n la : ℕ) (p q : Port)
      → la + suc n * sector_bytes < 2 ^ 32
      → hdbuf + sector_bytes < 2 ^ 32
      → (la + suc n * sector_bytes ≤ hdbuf) ⊎ (hdbuf + sector_bytes ≤ la)
      → Read n (la + sector_bytes) (read_one la p) q
      → (k j : ℕ) → k < suc n
      → j < sector_bytes
      → q.mem (la + k * sector_bytes + j) ≡ sector (p.delivered + k) j
  unfolding port_read
  order_next n la p q fits hh apart r zero j h h2 =
      ap q.mem {y = la + j} (omega arith)
      ∙ (r.elsewhere (la + j) (omega (arith, h2)) (omega (arith, h2, apart))
          ∙ (read_one-inside la j p (omega (arith, fits)) hh (omega (arith, apart)) h2
              ∙ ap (λ (m : ℕ). sector m j) (omega arith)))
  order_next n la p q fits hh apart r (suc k) j h h2 =
      ap q.mem {y = la + sector_bytes + k * sector_bytes + j} (omega arith)
      ∙ (r.in_order k j (omega (arith, h)) h2 ∙ ap (λ (m : ℕ). sector m j) (omega arith))

  -- A read of no more sectors than the drive has to move.
  move_awaited :
      (n left la : ℕ) (p : Port)
      → left ≡ n * sector_bytes
      → left < 2 ^ 31
      → n ≤ p.awaited
      → la + n * sector_bytes < 2 ^ 32
      → hdbuf + sector_bytes < 2 ^ 32
      → (la + n * sector_bytes ≤ hdbuf) ⊎ (hdbuf + sector_bytes ≤ la)
      → (q : Port) × (move_sectors (suc n) true left la p ≡ ok tt q) × Read n la p q
  unfolding move_sectors move_sector port_read
  move_awaited zero left la p e small some fits hh apart = (
    p,
    ap (λ (m : Act Port (Unit {0})). m p)
        (then_of_true {b = left == 0} (pure tt) _ (ground (arith, e))),
    record {
      in_order = λ k j h h2. absurd (omega (arith, h));
      elsewhere = λ a h h2. refl;
      counted = omega arith;
      settled = omega arith;
    },
  )
  move_awaited (suc n) left la p e small some fits hh apart =
      let p1 : Port = read_one la p in
      let l : (left + 2 ^ 32 - sector_bytes) % 2 ^ 32 ≡ n * sector_bytes =
        omega (arith, e, small) in
      let a1 : (la + sector_bytes) % 2 ^ 32 ≡ la + sector_bytes = omega (arith, fits) in
      let whole : round_bytes left ≡ sector_bytes = ground (arith, e, small) in
      let on : (left == 0) ≡ false = ne→== left 0 (omega (arith, e)) in
      let hl : la + sector_bytes < 2 ^ 32 = omega (arith, fits) in
      let ap1 : Apart la hdbuf sector_bytes = omega (arith, apart) in
      let (q, run, r) =
        move_awaited n (n * sector_bytes) (la + sector_bytes) p1 refl (omega (arith, e, small))
          (omega (arith, some)) (omega (arith, fits)) hh (omega (arith, apart)) in
      (
        q,
        ap (λ (m : Act Port (Unit {0})). m p)
              (else_of_false (pure tt)
                (onward (suc n) la (round_bytes left) ((left + 2 ^ 32 - sector_bytes) % 2 ^ 32)
                  ((la + sector_bytes) % 2 ^ 32))
                on)
            ∙ (λ i. onward (suc n) la (whole i) (l i) (a1 i) p)
            ∙ and_then-ok (move_sector true la sector_bytes p) tt p1 _
                (move_sector_lem la sector_bytes p (omega (arith, some)))
            ∙ run,
        record {
          in_order = order_next n la p q fits hh apart r;
          elsewhere = λ a out off.
              r.elsewhere a (omega (arith, out)) off
              ∙ read_one-outside la a p hl hh ap1 (omega (arith, out)) off;
          counted = r.counted ∙ omega arith;
          settled = omega (arith, r.settled, some);
        },
      )

  -- A read of `n` sectors, 256 at most, which is what a command can ask for, to a place of the memory
  -- apart from the driver's buffer, with a drive that moves the sectors of its command. It ends: the
  -- sectors stand there as the drive delivered them, in their order; all other memory but the buffer
  -- is as it was; and the drive has delivered `n` sectors.
  pub move_sectors_lem :
      (n left la : ℕ) (p : Port)
      → left ≡ n * sector_bytes
      → n ≤ 256
      → p.awaited ≡ asked_sectors left
      → la + n * sector_bytes < 2 ^ 32
      → hdbuf + sector_bytes < 2 ^ 32
      → (la + n * sector_bytes ≤ hdbuf) ⊎ (hdbuf + sector_bytes ≤ la)
      → (q : Port) × (move_sectors (suc n) true left la p ≡ ok tt q) × Read n la p q
  unfolding asked_sectors
  move_sectors_lem n left la p e few asked =
      move_awaited n left la p e (omega (arith, e, few)) (ground (arith, e, few, asked))

  move_starved :
      (n left la : ℕ) (p : Port)
      → left ≡ n * sector_bytes
      → left < 2 ^ 31
      → p.awaited < n
      → move_sectors (suc n) true left la p ≡ stop Stop.stuck
  unfolding move_sectors port_read
  move_starved zero left la p e small few = absurd (omega (arith, few))
  move_starved (suc n) left la p e small few =
      let left1 : ℕ = (left + 2 ^ 32 - sector_bytes) % 2 ^ 32 in
      let la1 : ℕ = (la + sector_bytes) % 2 ^ 32 in
      let bytes : ℕ = round_bytes left in
      ap (λ (m : Act Port (Unit {0})). m p)
        (else_of_false (pure tt) (onward (suc n) la bytes left1 la1)
          (ne→== left 0 (omega (arith, e))))
      ∙ elim (Bool-cases (p.awaited == 0)) [
        | inl none ↦
            and_then-stop _ Stop.stuck _ (move_sector_stops la bytes p (==→eq p.awaited 0 none))
        | inr some ↦
            and_then-ok (move_sector true la bytes p) tt _ _
              (move_sector_lem la bytes p (ground (arith, some)))
            ∙ move_starved n left1 la1
                (record (port_read p) { mem = copy bytes la hdbuf (port_read p).mem })
                (omega (arith, e, small)) (omega (arith, e, small)) (ground (arith, few, some))
      ]

  -- A read of more than 256 sectors, and of less than 2 GB, with a drive that moves the sectors of its
  -- command, does not end: after at most 256 sectors the driver waits for an interrupt that does not
  -- come.
  pub move_sectors_hangs :
      (n left la : ℕ) (p : Port)
      → left ≡ n * sector_bytes
      → 256 < n
      → left < 2 ^ 31
      → p.awaited ≡ asked_sectors left
      → move_sectors (suc n) true left la p ≡ stop Stop.stuck
  unfolding asked_sectors
  move_sectors_hangs n left la p e many small asked =
      move_starved n left la p e small (ground (arith, e, many, asked))
