-- ===== src/Memory/Wait.antt =====
-- mm/forkexit.c `do_wait`.
use oscourse_project.Base.{
  ℕ, zero, suc, ◌+◌, ◌<◌, ◌≤◌, ◌≡◌, ◌≢◌, ◌⊎◌, refl, sym, ap, ◌∙◌, Bool, true, false, ◌&&◌, ◌||◌,
  Option, none, some, ◌==◌, if◌then◌else◌, arith, has_flag, set_flag, Bool-cases, subst, inl, inr,
  ==→eq, eq→==,
}
use oscourse_project.Proc.{Table, nr_slots, waiting, hanging}
use oscourse_project.Memory.{Mm, Sent, put_proc, tell, cleanup, find_hanging, do_wait}

-- Entry `j` names `pid` as its parent.
abbrev pub IsChild : Table → ℕ → ℕ → Type 0
IsChild t pid j = (t j).p_parent ≡ pid

abbrev pub IsHanging : Table → ℕ → Type 0
IsHanging t j = has_flag (t j).p_flags hanging ≡ true

-- None of the entries from `i` up to `b` is a child that hangs.
abbrev pub NoneHangs : Table → (pid i b : ℕ) → Type 0
NoneHangs t pid i b =
    (j : ℕ) → i ≤ j → j < b → IsChild t pid j → has_flag (t j).p_flags hanging ≡ false

-- What the search in the entries from `i` up to `b` says.
abbrev pub Searched : Table → (pid i b : ℕ) → Bool → Option ℕ × Bool → Type 0
Searched t pid i b children (some j, _) =
    (i ≤ j) × (j < b) × IsChild t pid j × IsHanging t j × NoneHangs t pid i j
Searched t pid i b children (none, true) =
    NoneHangs t pid i b × ((children ≡ true) ⊎ ((j : ℕ) × (i ≤ j) × (j < b) × IsChild t pid j))
Searched t pid i b children (none, false) =
    (children ≡ false) × ((j : ℕ) → i ≤ j → j < b → (t j).p_parent ≢ pid)

NoneHangs-step :
    (t : Table) (pid i b : ℕ)
    → (((t i).p_parent == pid) && has_flag (t i).p_flags hanging) ≡ false
    → NoneHangs t pid (i + 1) b
    → NoneHangs t pid i b
NoneHangs-step t pid i b miss none_later j h h' child = elim (Bool-cases (i == j)) [
  | inl here ↦
      (let same : i ≡ j = ==→eq i j here in
        let child_i : ((t i).p_parent == pid) ≡ true =
          eq→== _ pid (ap (λ (k : ℕ). (t k).p_parent) same ∙ child) in
        ap (λ (k : ℕ). has_flag (t k).p_flags hanging) (sym same) ∙ ground (arith, miss, child_i))
  | inr later ↦ none_later j (ground (arith, later)) h' child
]

Searched-step :
    (t : Table) (pid i b : ℕ) (children : Bool) (r : Option ℕ × Bool)
    → i < b
    → (((t i).p_parent == pid) && has_flag (t i).p_flags hanging) ≡ false
    → Searched t pid (i + 1) b (((t i).p_parent == pid) || children) r
    → Searched t pid i b children r
Searched-step t pid i b children (some j, c) h miss (g, g', child, hangs, rest) =
    ((omega arith), g', child, hangs, NoneHangs-step t pid i j miss rest)
Searched-step t pid i b children (none, true) h miss (rest, seen) = (
  NoneHangs-step t pid i b miss rest,
  elim seen [
    | inr (j, g, g', child) ↦ inr (j, (omega arith), g', child)
    | inl either ↦ elim (Bool-cases ((t i).p_parent == pid)) [
      | inl child ↦ inr (i, (omega arith), h, ==→eq _ pid child)
      | inr not_child ↦ inl (ground (arith, either, not_child))
    ]
  ],
)
Searched-step t pid i b children (none, false) h miss (neither, rest) = (
  ground (arith, neither),
  (λ j g g' child. elim (Bool-cases (i == j)) [
    | inl here ↦
        (let child_i : ((t i).p_parent == pid) ≡ true =
            eq→== _ pid (ap (λ (k : ℕ). (t k).p_parent) (==→eq i j here) ∙ child) in
          absurd (ground (arith, neither, child_i)))
    | inr later ↦ rest j (ground (arith, later)) g' child
  ]),
)

find_hanging-Searched :
    (n i pid : ℕ) (t : Table) (children : Bool)
    → Searched t pid i (i + n) children (find_hanging n i pid t children)
unfolding find_hanging
find_hanging-Searched zero i pid t true = ((λ j h h'. absurd (omega arith)), inl refl)
find_hanging-Searched zero i pid t false = (refl, (λ j h h'. absurd (omega arith)))
find_hanging-Searched (suc n) i pid t children =
    elim (Bool-cases (((t i).p_parent == pid) && has_flag (t i).p_flags hanging)) [
      | inl hit ↦ rw hit (
        (omega arith),
        (omega arith),
        ground (arith, hit),
        ground (arith, hit),
        (λ j h h'. absurd (omega arith)),
      )
      | inr miss ↦
          (let seen : Bool = ((t i).p_parent == pid) || children in
            let rest : Option ℕ × Bool = find_hanging n (i + 1) pid t seen in
            rw miss (
              Searched-step t pid i (i + suc n) children rest (omega arith) miss (
                subst (λ (b : ℕ). Searched t pid (i + 1) b seen rest) {x = i + 1 + n}
                  {y = i + suc n} (omega arith) (find_hanging-Searched n (i + 1) pid t seen))))
    ]

-- What `do_wait` does with what it has found.
abbrev served_by : ℕ → Mm → Option ℕ × Bool → Mm
served_by pid s found = elim found.0 [
  | some i ↦ cleanup i s
  | none ↦
      if found.1
      then put_proc pid (record (s.table pid) { p_flags = set_flag (s.table pid).p_flags waiting })
          s
      else tell (Sent.no_child pid) s
]

module _ (pid : ℕ) (s : Mm) where
  abbrev pub Cleaned : Mm → Type 0
  Cleaned s' =
      (i : ℕ) × (i < nr_slots)
      × IsChild s.table pid i
      × IsHanging s.table i
      × NoneHangs s.table pid 0 i
      × (s' ≡ cleanup i s)

  abbrev pub Waits : Mm → Type 0
  Waits s' =
      NoneHangs s.table pid 0 nr_slots
      × ((i : ℕ) × (i < nr_slots) × IsChild s.table pid i)
      × (s'
          ≡ put_proc pid (record (s.table pid) { p_flags = set_flag (s.table pid).p_flags waiting })
              s)

  abbrev pub Childless : Mm → Type 0
  Childless s' =
      ((i : ℕ) → i < nr_slots → (s.table i).p_parent ≢ pid) × (s' ≡ tell (Sent.no_child pid) s)

  served :
      (found : Option ℕ × Bool)
      → Searched s.table pid 0 nr_slots false found
      → Cleaned (served_by pid s found)
        ⊎ Waits (served_by pid s found)
        ⊎ Childless (served_by pid s found)
  served (some i, c) (h, h', child, hangs, before) = inl (i, h', child, hangs, before, refl)
  served (none, true) (nobody, inl e) = absurd cc
  served (none, true) (nobody, inr (j, h, h', child)) = inr (inl (nobody, (j, h', child), refl))
  served (none, false) (e, nobody) = inr (inr ((λ i h. nobody i (omega arith) h), refl))

  -- do_wait does one of three things. If a child of the caller hangs, the first of them is cleaned
  -- up. If none hangs but some entry names the caller as its parent, the caller waits. If no entry
  -- does, the caller is told that it has no child.
  pub do_wait_lem : Cleaned (do_wait pid s) ⊎ Waits (do_wait pid s) ⊎ Childless (do_wait pid s)
  unfolding do_wait
  do_wait_lem =
      served (find_hanging nr_slots 0 pid s.table false)
        (find_hanging-Searched nr_slots 0 pid s.table false)
