-- ===== src/Fs/Directory.antt =====
-- fs/open.c `new_dir_entry` and fs/misc.c `search_file`: an entry of the directory.
use oscourse_project.Base.{
  ℕ, zero, suc, ◌+◌, ◌-◌, ◌*◌, ◌^◌, ◌≤◌, ◌<◌, ◌≡◌, refl, ap, ◌∙◌, Bool, true, false, ◌&&◌, List, [],
  ◌∷◌, length, ltb, ◌==◌, if◌then◌else◌, arith, ◌⊎◌, inl, inr, le→ltb, ==→eq, Bool-cases,
}
use oscourse_project.Segment.{poke, load_int, poke_int}
use oscourse_project.Segment.Laws.{load_int-poke_int}
use oscourse_project.Fs.Path.{same_name, found, past, search_block}
use oscourse_project.Fs.Entries.{store_text, store_entry}
use oscourse_project.Fs.Imap.{poke_same, poke_other}

store_text_apart :
    (s : List ℕ) (a i : ℕ) (buf : ℕ → ℕ)
    → (i < a) ⊎ (a + length s < i)
    → store_text s a buf i ≡ buf i
unfolding store_text
store_text_apart [] a i buf (inl h) = poke_other buf a 0 i (λ e. (omega (arith, e)))
store_text_apart [] a i buf (inr h) = poke_other buf a 0 i (λ e. (omega (arith, e)))
store_text_apart (c ∷ s) a i buf (inl h) =
    store_text_apart s (a + 1) i (poke buf a c) (inl (omega arith))
    ∙ poke_other buf a c i (λ e. (omega (arith, e)))
store_text_apart (c ∷ s) a i buf (inr h) =
    store_text_apart s (a + 1) i (poke buf a c) (inr (omega arith))
    ∙ poke_other buf a c i (λ e. (omega (arith, e)))

store_text_end : (s : List ℕ) (a : ℕ) (buf : ℕ → ℕ) → store_text s a buf (a + length s) ≡ 0
unfolding store_text
store_text_end [] a buf = poke_same buf a 0 (a + 0) (omega arith)
store_text_end (c ∷ s) a buf =
    ap (store_text s (a + 1) (poke buf a c)) {x = a + suc (length s)} {y = a + 1 + length s}
      (omega arith)
    ∙ store_text_end s (a + 1) (poke buf a c)

-- The zero behind a name of twelve characters is stored in the entry that follows: the first byte of
-- its i-node's number is lost.
pub store_entry_overflow :
    (j inode_nr : ℕ) (name : List ℕ) (buf : ℕ → ℕ)
    → length name ≡ 12
    → store_entry j inode_nr name buf ((j + 1) * 16) ≡ 0
unfolding store_entry
store_entry_overflow j inode_nr name buf h =
    ap (store_text name (j * 16 + 4) (poke_int buf (j * 16) inode_nr)) {x = (j + 1) * 16}
      {y = j * 16 + 4 + length name} (omega (arith, h))
    ∙ store_text_end name (j * 16 + 4) (poke_int buf (j * 16) inode_nr)

poke_int_apart : (buf : ℕ → ℕ) (a v i : ℕ) → (i < a) ⊎ (a + 4 ≤ i) → poke_int buf a v i ≡ buf i
unfolding poke_int
poke_int_apart buf a v i (inl h) = ground arith
poke_int_apart buf a v i (inr h) = ground arith

same_name_end :
    (n a : ℕ) (buf : ℕ → ℕ) → ((k : ℕ) → k < n → buf (a + k) ≡ 0) → same_name n [] a buf ≡ true
unfolding same_name
same_name_end zero a buf h = refl
same_name_end (suc n) a buf h = ground (
  arith,
  ap buf {x = a} {y = a + 0} (omega arith),
  h 0 (omega arith),
  same_name_end n (a + 1) buf
      (λ k l. ap buf {x = a + 1 + k} {y = a + (k + 1)} (omega arith) ∙ h (k + 1) (omega arith)),
)

poke_zero : (buf : ℕ → ℕ) (a k : ℕ) → buf (a + k) ≡ 0 → poke buf a 0 (a + k) ≡ 0
unfolding poke
poke_zero buf a k h = ground (arith, h)

same_name-store_text :
    (n : ℕ) (name : List ℕ) (a : ℕ) (buf : ℕ → ℕ)
    → length name ≤ n
    → ((k : ℕ) → k < n → buf (a + k) ≡ 0)
    → same_name n name a (store_text name a buf) ≡ true
unfolding same_name store_text
same_name-store_text n [] a buf l h =
    same_name_end n a (poke buf a 0) (λ k q. poke_zero buf a k (h k q))
same_name-store_text zero (c ∷ name) a buf l h = absurd (omega arith)
same_name-store_text (suc n) (c ∷ name) a buf l h = ground (
  arith,
  store_text_apart name (a + 1) a (poke buf a c) (inl (omega arith)) ∙ poke_same buf a c a refl,
  same_name-store_text n name (a + 1) (poke buf a c) (omega arith) (λ k q.
      poke_other buf a c (a + 1 + k) (λ e. (omega (arith, e)))
      ∙ ap buf {x = a + 1 + k} {y = a + (k + 1)} (omega arith)
      ∙ h (k + 1) (omega arith)),
)

-- The entry at place `j`, its number and its name, after it has been stored.
entry_number :
    (j inode_nr : ℕ) (name : List ℕ) (buf : ℕ → ℕ)
    → inode_nr < 2 ^ 32
    → load_int (store_entry j inode_nr name buf) (j * 16) ≡ inode_nr
unfolding store_entry load_int
entry_number j inode_nr name buf h =
    let base : ℕ → ℕ = poke_int buf (j * 16) inode_nr in
    let new : ℕ → ℕ = store_text name (j * 16 + 4) base in
    omega (
      arith,
      store_text_apart name (j * 16 + 4) (j * 16) base (inl (omega arith)),
      store_text_apart name (j * 16 + 4) (j * 16 + 1) base (inl (omega arith)),
      store_text_apart name (j * 16 + 4) (j * 16 + 2) base (inl (omega arith)),
      store_text_apart name (j * 16 + 4) (j * 16 + 3) base (inl (omega arith)),
      load_int-poke_int buf (j * 16) inode_nr h,
    )

entry_name :
    (j inode_nr : ℕ) (name : List ℕ) (buf : ℕ → ℕ)
    → length name ≤ 12
    → ((k : ℕ) → k < 12 → buf (j * 16 + 4 + k) ≡ 0)
    → same_name 12 name (j * 16 + 4) (store_entry j inode_nr name buf) ≡ true
unfolding store_entry
entry_name j inode_nr name buf l h =
    same_name-store_text 12 name (j * 16 + 4) (poke_int buf (j * 16) inode_nr) l
      (λ k q. poke_int_apart buf (j * 16) inode_nr (j * 16 + 4 + k) (inr (omega arith)) ∙ h k q)

same_name_same :
    (n : ℕ) (name : List ℕ) (a : ℕ) (f g : ℕ → ℕ)
    → ((i : ℕ) → a ≤ i → i < a + n → f i ≡ g i)
    → same_name n name a f ≡ same_name n name a g
unfolding same_name
same_name_same zero name a f g h = refl
same_name_same (suc n) [] a f g h =
    ap (λ (x : ℕ). (0 == x) && same_name n [] (a + 1) f) (h a (omega arith) (omega arith))
    ∙ ap (λ b. (0 == g a) && b)
        (same_name_same n [] (a + 1) f g (λ i p q. h i (omega arith) (omega arith)))
same_name_same (suc n) (c ∷ name) a f g h =
    ap (λ (x : ℕ). (c == x) && same_name n name (a + 1) f) (h a (omega arith) (omega arith))
    ∙ ap (λ b. (c == g a) && b)
        (same_name_same n name (a + 1) f g (λ i p q. h i (omega arith) (omega arith)))

-- The entries before the `j`-th keep their names.
earlier_name :
    (j k inode_nr : ℕ) (name : List ℕ) (buf : ℕ → ℕ)
    → k < j
    → same_name 12 name (k * 16 + 4) (store_entry j inode_nr name buf)
      ≡ same_name 12 name (k * 16 + 4) buf
unfolding store_entry
earlier_name j k inode_nr name buf h =
    same_name_same 12 name (k * 16 + 4)
      (store_text name (j * 16 + 4) (poke_int buf (j * 16) inode_nr)) buf
      (λ i p q.
        store_text_apart name (j * 16 + 4) i (poke_int buf (j * 16) inode_nr) (inl (omega arith))
        ∙ poke_int_apart buf (j * 16) inode_nr i (inl (omega arith)))

search_block-found :
    (n i j m nr inode_nr : ℕ) (name : List ℕ) (buf : ℕ → ℕ)
    → i ≤ j
    → j < i + n
    → m + (j - i) ≤ nr
    → ((k : ℕ) → i ≤ k → k < j → same_name 12 name (k * 16 + 4) buf ≡ false)
    → same_name 12 name (j * 16 + 4) buf ≡ true
    → load_int buf (j * 16) ≡ inode_nr
    → search_block n i m nr name buf ≡ found inode_nr
unfolding search_block
search_block-found zero i j m nr inode_nr name buf l l' b before here num = absurd (omega arith)
search_block-found (suc n) i j m nr inode_nr name buf l l' b before here num =
    elim (Bool-cases (i == j)) [
      | inl e ↦
          let q : i ≡ j = ==→eq i j e in
          ap
            (λ (c : Bool).
              if c
              then found (load_int buf (i * 16))
              else (if ltb nr (m + 1) then past else search_block n (i + 1) (m + 1) nr name buf))
            (ap (λ (x : ℕ). same_name 12 name (x * 16 + 4) buf) q ∙ here)
          ∙ ap (λ (x : ℕ). found (load_int buf (x * 16))) q
          ∙ ap found num
      | inr e ↦
          ap
            (λ (c : Bool).
              if c
              then found (load_int buf (i * 16))
              else (if ltb nr (m + 1) then past else search_block n (i + 1) (m + 1) nr name buf))
            (before i (omega arith) (ground (arith, e)))
          ∙ ap (λ (c : Bool). if c then past else search_block n (i + 1) (m + 1) nr name buf)
              (le→ltb nr (m + 1) (ground (arith, e)))
          ∙ search_block-found n (i + 1) j (m + 1) nr inode_nr name buf (ground (arith, e))
              (omega arith) (ground (arith, e)) (λ k p q. before k (omega arith) q) here num
    ]

-- A search in a sector of the directory finds the entry that has been stored there: it gives the
-- number that was stored, if the name has at most twelve characters, the entry's bytes for the name
-- were zero, no entry before it has the name, and the directory is long enough.
pub search_block-store_entry :
    (j m nr inode_nr : ℕ) (name : List ℕ) (buf : ℕ → ℕ)
    → j < 32
    → m + j ≤ nr
    → inode_nr < 2 ^ 32
    → length name ≤ 12
    → ((k : ℕ) → k < 12 → buf (j * 16 + 4 + k) ≡ 0)
    → ((k : ℕ) → k < j → same_name 12 name (k * 16 + 4) buf ≡ false)
    → search_block 32 0 m nr name (store_entry j inode_nr name buf) ≡ found inode_nr
search_block-store_entry j m nr inode_nr name buf l b w len zeros before =
    search_block-found 32 0 j m nr inode_nr name (store_entry j inode_nr name buf) (omega arith) l
      (omega arith) (λ k p q. earlier_name j k inode_nr name buf q ∙ before k q)
      (entry_name j inode_nr name buf len zeros) (entry_number j inode_nr name buf w)
