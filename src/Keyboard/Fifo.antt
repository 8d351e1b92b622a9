-- ===== src/Keyboard/Fifo.antt =====
-- The buffers of the keyboard and of a TTY as queues.
use oscourse_project.Base.{
  ℕ, zero, suc, ◌≡◌, refl, Option, none, some, List, [], ◌∷◌, ◌++◌, ltb, if◌then◌else◌, arith,
  length, inl, inr, Bool-cases, ltb→lt, ◌-◌, ap, subst, sym,
}
use oscourse_project.Ring.{IsRing, contents, next, push-IsRing, pop-IsRing}
use oscourse_project.Keyboard.Keys.{kb_in_bytes}
use oscourse_project.Keyboard.State.{
  KbInbuf, Tty, tty_in_bytes, store_code, get_byte_from_kb_buf, put_key,
}

-- The codes that wait in the keyboard's buffer, the oldest first.
abbrev pub codes : KbInbuf → List ℕ
codes kb = contents kb_in_bytes kb.p_tail kb.count kb.buf

abbrev pub IsKbInbuf : KbInbuf → Type 0
IsKbInbuf kb = IsRing kb_in_bytes kb.p_head kb.p_tail kb.count

-- The keys that wait in a TTY's buffer, the oldest first.
abbrev pub keys : Tty → List ℕ
keys t = contents tty_in_bytes t.ibuf_tail t.ibuf_cnt t.ibuf

abbrev pub IsTty : Tty → Type 0
IsTty t = IsRing tty_in_bytes t.ibuf_head t.ibuf_tail t.ibuf_cnt

-- A value joins a queue of at most `size`, or is lost when it is full.
abbrev pub enqueued : (size : ℕ) → ℕ → List ℕ → List ℕ
enqueued size v xs = if ltb (length xs) size then xs ++ (v ∷ []) else xs

length-contents : (size i n : ℕ) (buf : ℕ → ℕ) → length (contents size i n buf) ≡ n
length-contents size i zero buf = refl
length-contents size i (suc n) buf = omega (arith, length-contents size (next size i) n buf)

-- The keyboard's interrupt handler puts the code last in its queue, or drops it if 32 codes wait,
-- and keeps the buffer well formed.
pub store_code_lem :
    (code : ℕ) (kb : KbInbuf)
    → IsKbInbuf kb
    → IsKbInbuf (store_code code kb) × (codes (store_code code kb) ≡ enqueued 32 code (codes kb))
store_code_lem code kb ring = elim (Bool-cases (ltb kb.count kb_in_bytes)) [
  | inl room ↦
      unfold store_code in
      rw (length-contents 32 kb.p_tail kb.count kb.buf, room)
        (push-IsRing 32 kb.p_head kb.p_tail kb.count code kb.buf ring (ltb→lt kb.count 32 room))
  | inr full ↦
      unfold store_code in rw (length-contents 32 kb.p_tail kb.count kb.buf, full) (ring, refl)
]

-- A TTY's buffer, if it is well formed, stays so when a key is put: the key is last in the queue, or is dropped if 256
-- keys wait.
pub put_key_lem :
    (key : ℕ) (t : Tty)
    → IsTty t
    → IsTty (put_key key t) × (keys (put_key key t) ≡ enqueued 256 key (keys t))
put_key_lem key t ring = elim (Bool-cases (ltb t.ibuf_cnt tty_in_bytes)) [
  | inl room ↦
      unfold put_key in
      rw (length-contents 256 t.ibuf_tail t.ibuf_cnt t.ibuf, room)
        (push-IsRing 256 t.ibuf_head t.ibuf_tail t.ibuf_cnt key t.ibuf ring
          (ltb→lt t.ibuf_cnt 256 room))
  | inr full ↦
      unfold put_key in rw (length-contents 256 t.ibuf_tail t.ibuf_cnt t.ibuf, full) (ring, refl)
]

-- What a read of a byte makes of a queue.
abbrev pub Dequeued : KbInbuf → List ℕ → Option (ℕ × KbInbuf) → Type 0
Dequeued kb [] o = o ≡ none
Dequeued kb (c ∷ cs) o = (kb' : KbInbuf) × (o ≡ some (c, kb')) × IsKbInbuf kb' × (codes kb' ≡ cs)

taken :
    (kb : KbInbuf)
    → IsKbInbuf kb
    → (n : ℕ) → kb.count ≡ n
    → Dequeued kb (contents kb_in_bytes kb.p_tail n kb.buf) (get_byte_from_kb_buf kb)
unfolding get_byte_from_kb_buf
taken kb ring zero e = ground arith
taken kb ring (suc n) e =
    let one_less : kb.count - 1 ≡ n = omega arith in
    (
      record kb { p_tail = next kb_in_bytes kb.p_tail; count = kb.count - 1 },
      ground arith,
      subst (λ (m : ℕ). IsRing kb_in_bytes kb.p_head (next kb_in_bytes kb.p_tail) m) (sym one_less)
          (pop-IsRing kb_in_bytes kb.p_head kb.p_tail kb.count 0 kb.buf ring n e),
      ap (λ (m : ℕ). contents kb_in_bytes (next kb_in_bytes kb.p_tail) m kb.buf) one_less,
    )

-- A read of the keyboard's buffer, if it is well formed, takes the oldest code, leaves the others in their order and the
-- buffer well formed; if the queue is empty it waits.
pub get_byte_from_kb_buf_lem :
    (kb : KbInbuf) → IsKbInbuf kb → Dequeued kb (codes kb) (get_byte_from_kb_buf kb)
get_byte_from_kb_buf_lem kb ring = taken kb ring kb.count refl
