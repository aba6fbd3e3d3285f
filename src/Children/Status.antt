-- ===== src/Children/Status.antt =====
-- What each call does to the status of a child, of userprog/process.c and userprog/syscall.c.
use mathlib.Core.List.{reverse-cons}
use mathlib.Core.Option.{none-ne-some, some-injective}
use ee468_pintos_project.Prelude.{
  ℕ, ◌≡◌, ◌≢◌, inl, inr, refl, sym, ap, ◌∙◌, true, false, ◌==◌, if◌then◌else◌, List, [], ◌∷◌, ◌++◌,
  reverse, Option, none, some, arith, ==_ne, ==_refl, Bool-cases, ℕ_discrete,
}
use ee468_pintos_project.Children.{
  ChildStatus, Parent, exit_child, mark_exited, take_status, take_from_last,
}

-- The first status with the number `tid`.
unfoldable pub find : (tid : ℕ) → List ChildStatus → Option ChildStatus
find tid [] = none
find tid (c ∷ cs) = if c.child_tid == tid then some c else find tid cs

-- The status of the child `tid`: the last one with that number.
abbrev pub status_of : Parent → (tid : ℕ) → Option ChildStatus
status_of p tid = find tid (reverse p.children)

module _ (tid exit_status : ℕ) where
  mark_append :
      (xs ys : List ChildStatus)
      → mark_exited tid exit_status (xs ++ ys)
        ≡ mark_exited tid exit_status xs ++ mark_exited tid exit_status ys
  unfolding mark_exited find
  mark_append [] ys = refl
  mark_append (a ∷ xs) ys = ap (λ cs. exit_child tid exit_status a ∷ cs) (mark_append xs ys)

  pub mark_reverse :
      (cs : List ChildStatus)
      → reverse (mark_exited tid exit_status cs) ≡ mark_exited tid exit_status (reverse cs)
  unfolding mark_exited find
  mark_reverse [] = refl
  mark_reverse (c ∷ cs) =
      let c' : ChildStatus = exit_child tid exit_status c in
      reverse-cons c' (mark_exited tid exit_status cs)
      ∙ ap (λ ds. ds ++ c' ∷ []) (mark_reverse cs)
      ∙ sym (mark_append (reverse cs) (c ∷ []))
      ∙ ap (mark_exited tid exit_status) (sym (reverse-cons c cs))

  -- What sys_exit does to the status found.
  pub exited_find :
      (cs : List ChildStatus) (u : ℕ)
      → find u (mark_exited tid exit_status cs)
        ≡ elim (find u cs) [ none ↦ none | some c ↦ some (exit_child tid exit_status c) ]
  unfolding mark_exited find
  exited_find [] u = refl
  exited_find (c ∷ cs) u =
      let kept : (exit_child tid exit_status c).child_tid ≡ c.child_tid = ground arith in
      ap
        (λ n.
          if n == u
          then some (exit_child tid exit_status c)
          else find u (mark_exited tid exit_status cs))
        kept
      ∙ elim (Bool-cases (c.child_tid == u)) [
        | inl hit ↦ rw hit refl
        | inr miss ↦ rw miss (exited_find cs u)
      ]

pub find_tid :
    (tid : ℕ) (cs : List ChildStatus) (c : ChildStatus) → find tid cs ≡ some c → c.child_tid ≡ tid
unfolding find
find_tid tid [] c h = absurd (none-ne-some c h)
find_tid tid (d ∷ cs) c h = elim (ℕ_discrete d.child_tid tid) [
  | yes e ↦
      let hit : (d.child_tid == tid) ≡ true = ground (arith, e) in
      ap (λ x. x.child_tid)
        (some-injective c d (sym h ∙ ap (λ b. if b then some d else find tid cs) hit))
      ∙ e
  | no ne ↦
      find_tid tid cs c
        (sym (ap (λ b. if b then some d else find tid cs) (==_ne d.child_tid tid ne)) ∙ h)
]

-- What process_wait does to the list: a status that is found is taken, and no other changes.
unfoldable pub Taken : (tid : ℕ) → List ChildStatus → Option (List ChildStatus × ℕ) → Type 0
unfolding find
Taken tid cs none = find tid cs ≡ none
Taken tid cs (some (cs', ret)) =
    (c : ChildStatus) × (find tid cs ≡ some c)
    × (ret ≡ (take_status c).1)
    × (find tid cs' ≡ some (take_status c).0)
    × ((u : ℕ) → u ≢ tid → find u cs' ≡ find u cs)

later_lem :
    (tid : ℕ) (c : ChildStatus) (cs : List ChildStatus)
    → (c.child_tid == tid) ≡ false
    → (rest : Option (List ChildStatus × ℕ)) → Taken tid cs rest
    → Taken tid (c ∷ cs) (elim rest [ none ↦ none | some (cs', ret) ↦ some (c ∷ cs', ret) ])
unfolding find Taken
later_lem tid c cs miss none h = rw miss h
later_lem tid c cs miss (some (cs', ret)) (d, found, r, taken, others) = (
  d,
  rw miss found,
  r,
  rw miss taken,
  λ u ne. ap (λ o. if c.child_tid == u then some c else o) (others u ne),
)

pub take_lem : (tid : ℕ) (cs : List ChildStatus) → Taken tid cs (take_from_last tid cs)
unfolding take_from_last find Taken
take_lem tid [] = refl
take_lem tid (c ∷ cs) =
    let kept : (take_status c).0.child_tid ≡ c.child_tid = ground arith in
    elim (ℕ_discrete c.child_tid tid) [
      | yes e ↦
          let hit : (c.child_tid == tid) ≡ true = ground (arith, e) in
          rw hit (
            c,
            rw hit refl,
            refl,
            ap (λ n. if n == tid then some (take_status c).0 else find tid cs) (kept ∙ e)
                ∙ ap (λ b. if b then some (take_status c).0 else find tid cs) (==_refl tid),
            λ u ne.
                let miss : (c.child_tid == u) ≡ false = ground (arith, e, ne) in
                ap (λ n. if n == u then some (take_status c).0 else find u cs) kept ∙ rw miss refl,
          )
      | no ne ↦
          let miss : (c.child_tid == tid) ≡ false = ==_ne c.child_tid tid ne in
          rw miss (later_lem tid c cs miss (take_from_last tid cs) (take_lem tid cs))
    ]
