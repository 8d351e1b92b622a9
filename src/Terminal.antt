-- ===== src/Terminal.antt =====
-- kernel/tty.c: the task that serves the terminals. A console is written to by `out_char`; here that
-- is noted as the console's number and the character, the last first. So are the messages that the
-- task sends.
pub mod Line
pub mod Deliver
pub mod Printx
pub mod Examples
use oscourse_project.Base.{
  ℕ, zero, suc, ◌+◌, ◌-◌, ◌%◌, ◌^◌, Bool, not, ◌&&◌, ◌||◌, List, ◌∷◌, min, ltb, leb, ◌==◌,
  if◌then◌else◌,
}
use oscourse_project.Proc.{Table, nr_tasks, nr_native_procs, no_task, task_tty}
use oscourse_project.Act.{Act, ◌>>=◌, ◌>>◌, pure, get, change, assert}
use oscourse_project.Segment.{poke, ldt_seg_linear}
use oscourse_project.Ring.{next}
use oscourse_project.Keyboard.State.{Tty, tty_in_bytes}

abbrev pub tty_out_buf_len : ℕ
tty_out_buf_len = 2

-- A message to `dest`: RESUME_PROC with its process and count, SUSPEND_PROC, or SYSCALL_RET.
pub data Sent : Type 0 where
  resume_proc : (dest proc_nr cnt : ℕ) → Sent
  suspend_proc syscall_ret : (dest : ℕ) → Sent

pub record Terminals : Type 0 where
  pub tty_table : ℕ → Tty
  pub table : Table
  pub mem : ℕ → ℕ
  pub printed : List (ℕ × ℕ)
  pub sent : List Sent
  pub key_pressed : ℕ

-- `tty_table[i] = t`
unfoldable pub put_tty : ℕ → Tty → Terminals → Terminals
put_tty i t s = record s { tty_table = λ j. if i == j then t else s.tty_table j }

unfoldable pub send_msg : Sent → Terminals → Terminals
send_msg m s = record s { sent = m ∷ s.sent }

unfoldable pub print_char : (i ch : ℕ) → Terminals → Terminals
print_char i ch s = record s { printed = (i, ch) ∷ s.printed }

-- `va2la` of kernel/proc.c, on the table that the task sees
unfoldable pub tty_address : (pid va : ℕ) → Act Terminals ℕ
tty_address pid va = do
  s ← get
  let la = (ldt_seg_linear (s.table pid).ldt_rw + va) % 2 ^ 32
  assert (not (ltb pid (nr_tasks + nr_native_procs)) || la == va)
  pure la

-- The character that `tty_dev_write` takes from the buffer: a `char` is the low byte of a key.
unfoldable pub take_char : ℕ → Terminals → Terminals
take_char i s =
    let t = s.tty_table i in
    put_tty i (record t { ibuf_tail = next tty_in_bytes t.ibuf_tail; ibuf_cnt = t.ibuf_cnt - 1 }) s

-- "printable", which a negative `char` is not
abbrev pub printable : ℕ → Bool
printable ch = leb b' ' ch && leb ch b'~'

-- The echo of a printable character, and its way to the buffer of the process.
unfoldable pub transfer : (i ch : ℕ) → Act Terminals (Unit {0})
transfer i ch = do
  change (print_char i ch)
  s ← get
  let t = s.tty_table i
  assert (not (t.tty_req_buf == 0))
  change (λ u. record u { mem = poke u.mem ((t.tty_req_buf + t.tty_trans_cnt) % 2 ^ 32) ch })
  change (
      put_tty i
        (record t { tty_trans_cnt = t.tty_trans_cnt + 1; tty_left_cnt = t.tty_left_cnt - 1 }))

-- A backspace takes the last character back.
unfoldable pub take_back : (i ch : ℕ) → Act Terminals (Unit {0})
take_back i ch = do
  change (print_char i ch)
  s ← get
  let t = s.tty_table i
  change (
      put_tty i
        (record t { tty_trans_cnt = t.tty_trans_cnt - 1; tty_left_cnt = t.tty_left_cnt + 1 }))

-- "if (ch == '\n' || tty->tty_left_cnt == 0)"
unfoldable pub finish : (i ch : ℕ) → Act Terminals (Unit {0})
finish i ch = do
  s ← get
  let t = s.tty_table i
  if (ch == 10) || (t.tty_left_cnt == 0)
      then (do
        change (print_char i 10)
        assert (not (t.tty_procnr == no_task))
        change (send_msg (resume_proc t.tty_caller t.tty_procnr t.tty_trans_cnt))
        change (put_tty i (record t { tty_left_cnt = 0 })))
      else pure tt

-- "if (tty->tty_left_cnt)"
unfoldable pub serve_char : (i ch : ℕ) → Act Terminals (Unit {0})
serve_char i ch = do
  s ← get
  let t = s.tty_table i
  if t.tty_left_cnt == 0 then pure tt else (do
    if printable ch
        then transfer i ch
        else (if (ch == 8) && not (t.tty_trans_cnt == 0) then take_back i ch else pure tt)
    finish i ch)

-- `n` rounds of the loop of `tty_dev_write`
unfoldable pub write_rounds : (n i : ℕ) → Act Terminals (Unit {0})
write_rounds zero i = pure tt
write_rounds (suc n) i = do
  s ← get
  let ch = (s.tty_table i).ibuf (s.tty_table i).ibuf_tail % 2 ^ 8
  change (take_char i)
  serve_char i ch
  write_rounds n i

-- `tty_dev_write`: a round for each key that waits
unfoldable pub tty_dev_write : ℕ → Act Terminals (Unit {0})
tty_dev_write i = do s ← get; write_rounds (s.tty_table i).ibuf_cnt i

-- `tty_do_read`
unfoldable pub tty_do_read : (i source proc_nr buf cnt : ℕ) → Act Terminals (Unit {0})
tty_do_read i source proc_nr buf cnt = do
  la ← tty_address proc_nr buf
  s ← get
  change (
      put_tty i (record (s.tty_table i) {
        tty_caller = source;
        tty_procnr = proc_nr;
        tty_req_buf = la;
        tty_left_cnt = cnt;
        tty_trans_cnt = 0;
      }))
  change (send_msg (suspend_proc source))

-- `for (j = 0; j < bytes; j++) out_char(tty->console, buf[j]);`, from address `p`
unfoldable pub print_bytes : (bytes p i : ℕ) → Terminals → Terminals
print_bytes zero p i s = s
print_bytes (suc n) p i s = print_bytes n ((p + 1) % 2 ^ 32) i (print_char i (s.mem p) s)

-- `while (i)`, with `left` for the `i` of the source; as many rounds as bytes are enough.
unfoldable pub write_loop : (fuel p left i : ℕ) → Terminals → Terminals
write_loop zero p left i s = s
write_loop (suc n) p left i s =
    let bytes = min tty_out_buf_len left in
    let rest = write_loop n ((p + bytes) % 2 ^ 32) (left - bytes) i (print_bytes bytes p i s) in
    if left == 0 then s else rest

-- `tty_do_write`
unfoldable pub tty_do_write : (i source proc_nr buf cnt : ℕ) → Act Terminals (Unit {0})
tty_do_write i source proc_nr buf cnt = do
  p ← tty_address proc_nr buf
  change (write_loop cnt p cnt i)
  change (send_msg (syscall_ret source))

-- The messages that `task_tty` knows.
pub data TtyRequest : Type 0 where
  dev_open hard_int unknown : TtyRequest
  dev_read dev_write : (device proc_nr buf cnt : ℕ) → TtyRequest

-- The part of a round of `task_tty` behind its receive.
unfoldable pub serve_tty : (src : ℕ) → TtyRequest → Act Terminals (Unit {0})
serve_tty src request = do
  assert (not (src == task_tty))
  elim request [
    | dev_open ↦ change (send_msg (syscall_ret src))
    | dev_read device proc_nr buf cnt ↦ tty_do_read device src proc_nr buf cnt
    | dev_write device proc_nr buf cnt ↦ tty_do_write device src proc_nr buf cnt
    | hard_int ↦ change (λ s. record s { key_pressed = 0 })
    | unknown ↦ pure tt
  ]
