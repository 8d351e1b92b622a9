-- ===== src/Ring.antt =====
-- Circular buffers, as kernel/keyboard.c and kernel/tty.c keep them: a write at the head, a read at
-- the tail, and a count. A pointer into the buffer is an index.
use oscourse_project.Base.{
  ℕ, zero, suc, ◌+◌, ◌-◌, ◌<◌, ◌≤◌, ◌≡◌, ◌≢◌, refl, ap, ◌∙◌, List, [], ◌∷◌, ◌++◌, ltb, ◌==◌,
  if◌then◌else◌, arith, sym, subst, ne→==, ==-self,
}
use oscourse_project.Segment.{poke}

-- `p++; if (p == buf + size) p = buf;`
abbrev pub next : (size i : ℕ) → ℕ
next size i = if i + 1 == size then 0 else i + 1

-- The `n` values from index `i` on, in the order in which they are read.
abbrev pub contents : (size i n : ℕ) → (ℕ → ℕ) → List ℕ
contents size i zero buf = []
contents size i (suc n) buf = buf i ∷ contents size (next size i) n buf

-- The index `n` steps after `i`, for `n` at most the size.
abbrev pub after : (size i n : ℕ) → ℕ
after size i n = if ltb (i + n) size then i + n else i + n - size

-- The indices are in the buffer, and the head is `count` steps after the tail.
pub record IsRing (size head tail count : ℕ) : Type 0 where
  pub inside : tail < size
  pub fits : count ≤ size
  pub meets : head ≡ after size tail count

after-suc : (size i n : ℕ) → i < size → n < size → after size i (suc n) ≡ after size (next size i) n
after-suc size i n h h' = ground arith

pub next-inside : (size i : ℕ) → i < size → next size i < size
next-inside size i h = ground arith

pub contents-snoc :
    (size i n : ℕ) (buf : ℕ → ℕ)
    → i < size
    → n < size
    → contents size i (suc n) buf ≡ contents size i n buf ++ (buf (after size i n) ∷ [])
contents-snoc size i zero buf h h' =
    ap (λ (j : ℕ). buf j ∷ []) {x = i} {y = after size i 0} (ground arith)
contents-snoc size i (suc n) buf h h' =
    let tail : ◌≡◌ {A = List ℕ} _ _ =
      contents-snoc size (next size i) n buf (next-inside size i h) (omega arith) in
    let meet : after size i (suc n) ≡ after size (next size i) n =
      after-suc size i n h (omega arith) in
    cc (tail, meet)

-- A write at an index that is not read changes nothing.
pub contents-write :
    (size i n j v : ℕ) (buf : ℕ → ℕ)
    → i < size
    → n ≤ size
    → ((m : ℕ) → m < n → after size i m ≢ j)
    → contents size i n (poke buf j v) ≡ contents size i n buf
contents-write size i zero j v buf h h' apart = refl
contents-write size i (suc n) j v buf h h' apart =
    let here : i ≢ j = λ e. apart 0 (omega arith) (ground arith) in
    let head : poke buf j v i ≡ buf i = unfold poke in rw (ne→== j i (λ e. here (sym e))) refl in
    let tail : ◌≡◌ {A = List ℕ} _ _ =
      contents-write size (next size i) n j v buf (next-inside size i h) (omega arith)
        (λ m g e. apart (suc m) (omega arith) (after-suc size i m h (omega arith) ∙ e)) in
    cc (head, tail)

module _ (size head tail count v : ℕ) (buf : ℕ → ℕ) (ring : IsRing size head tail count) where
  -- A write at the head of a buffer with room.
  pub push-IsRing :
      count < size
      → IsRing size (next size head) tail (count + 1)
        × (contents size tail (count + 1) (poke buf head v)
            ≡ contents size tail count buf ++ (v ∷ []))
  push-IsRing room =
      subst
        (λ (n : ℕ).
          IsRing size (next size head) tail n
          × (contents size tail n (poke buf head v) ≡ contents size tail count buf ++ (v ∷ [])))
        {x = suc count} {y = count + 1} (omega arith)
        (
          record {
            inside = ring.inside;
            fits = omega arith;
            meets = grind (arith, ring.meets, ring.inside);
          },
          cc (
            contents-snoc size tail count (poke buf head v) ring.inside room,
            contents-write size tail count head v buf ring.inside ring.fits
                (λ m h e. distinct m h (e ∙ ring.meets)),
            written,
            ring.meets,
          ),
        )
    where
      written : poke buf head v head ≡ v
      written = unfold poke in rw (==-self head) refl

      distinct : (m : ℕ) → m < count → after size tail m ≢ after size tail count
      distinct m h e = grind (arith, ring.inside)

  -- A read at the tail of a buffer that is not empty.
  pub pop-IsRing : (n : ℕ) → count ≡ suc n → IsRing size head (next size tail) n
  pop-IsRing n e = record {
    inside = next-inside size tail ring.inside;
    fits = omega (arith, ring.fits);
    meets = grind (arith, ring.meets, ring.inside, ring.fits);
  }
