-- ===== src/Task/Groups.antt =====
-- The array of groups in a task, Task.hh and `addToGroup` of Task.cc: the list of groups that the
-- scheduler's tasks have is what its first entries are, as long as they fit.
use tythread.Base.{
  ℕ, zero, suc, ◌+◌, ◌≤◌, ◌<◌, ◌≡◌, refl, sym, ap, ◌∙◌, arith, Bool, true, false, not, ltb,
  if◌then◌else◌, lt_cases, ◌⊎◌, inl, inr, Option, none, some, List, [], ◌∷◌, ◌++◌, length, update,
  update_self, update-ne,
}
use mathlib.Core.List.{append_assoc, append-nil}

abbrev pub max_groups : ℕ
max_groups = 5

pub record GroupArray : Type 0 where
  pub groups : ℕ → ℕ
  pub cur_groups : ℕ

-- The check that `MUST_TRUE` makes where it is on.
abbrev pub passes : Bool → ℕ → Bool
passes must_true n = if must_true then ltb (n + 1) max_groups else true

-- `groups[cur_groups++] = gp` behind the check; none when the check stops the program or the write is
-- behind the array.
unfoldable pub put_group : Bool → ℕ → GroupArray → Option GroupArray
put_group must_true g a =
    if not (passes must_true a.cur_groups)
    then none
    else if not (ltb a.cur_groups max_groups)
    then none
    else some (record { groups = update a.groups a.cur_groups g; cur_groups = a.cur_groups + 1 })

-- Several registrations, one after another.
unfoldable pub put_groups : Bool → List ℕ → GroupArray → Option GroupArray
unfolding put_group
put_groups must_true [] a = some a
put_groups must_true (g ∷ gs) a = elim (put_group must_true g a) [
  | none ↦ none
  | some b ↦ put_groups must_true gs b
]

-- The groups that the loop of `terminate` goes through: the first n.
unfoldable pub listed : ℕ → (ℕ → ℕ) → List ℕ
listed zero f = []
listed (suc n) f = listed n f ++ f n ∷ []

-- How many groups a task can have.
abbrev pub room : Bool → ℕ
room must_true = if must_true then 4 else 5

listed-same : (n : ℕ) (f g : ℕ → ℕ) → ((k : ℕ) → k < n → f k ≡ g k) → listed n f ≡ listed n g
unfolding listed
listed-same zero f g same = refl
listed-same (suc n) f g same =
    rw (listed-same n f g (λ k b. same k (omega arith)), same n (omega arith)) refl

put-listed : (n g : ℕ) (f : ℕ → ℕ) → listed (n + 1) (update f n g) ≡ listed n f ++ g ∷ []
unfolding listed
put-listed n g f =
    let next : n + 1 ≡ suc n = omega arith in
    rw
      (
        next,
        listed-same n (update f n g) f (λ k b. update-ne f n k g (omega arith)),
        update_self f n g,
      )
      refl

put_group-fits :
    (must_true : Bool) (g : ℕ) (a : GroupArray)
    → a.cur_groups < room must_true
    → put_group must_true g a
      ≡ some (record { groups = update a.groups a.cur_groups g; cur_groups = a.cur_groups + 1 })
unfolding put_group
put_group-fits true g a b = ground arith
put_group-fits false g a b = ground arith

put_group-full :
    (must_true : Bool) (g : ℕ) (a : GroupArray)
    → room must_true ≤ a.cur_groups
    → put_group must_true g a ≡ none
unfolding put_group
put_group-full true g a b = ground arith
put_group-full false g a b = ground arith

-- The registrations of a task with at most as many groups as there is room for, four where
-- `MUST_TRUE` is on and five where it is off: if they fit they are listed behind the others, in
-- order; if not, one of them stops the program or writes behind the array.
pub put_groups-listed :
    (must_true : Bool) (gs : List ℕ) (a : GroupArray)
    → a.cur_groups ≤ room must_true
    → ((a.cur_groups + length gs ≤ room must_true)
        × ((b : GroupArray) × (put_groups must_true gs a ≡ some b)
            × (listed b.cur_groups b.groups ≡ listed a.cur_groups a.groups ++ gs)))
      ⊎ (room must_true < a.cur_groups + length gs) × (put_groups must_true gs a ≡ none)
unfolding put_groups
put_groups-listed must_true [] a le =
    inl (omega arith, (a, refl, sym (append-nil (listed a.cur_groups a.groups))))
put_groups-listed must_true (g ∷ gs) a le = elim (lt_cases a.cur_groups (room must_true)) [
  | inr full ↦ inr (omega arith, rw (put_group-full must_true g a full, put_groups) refl)
  | inl some_room ↦
      (let b : GroupArray = record {
        groups = update a.groups a.cur_groups g;
        cur_groups = a.cur_groups + 1;
      } in
        let put = put_group-fits must_true g a some_room in
        elim (put_groups-listed must_true gs b (omega arith)) [
          | inl (fits, (c, e, all)) ↦ inl (
            omega arith,
            (
              c,
              rw (put, put_groups) e,
              all
                  ∙ ap (λ l. l ++ gs) (put-listed a.cur_groups g a.groups)
                  ∙ append_assoc (listed a.cur_groups a.groups) (g ∷ []) gs,
            ),
          )
          | inr (over, e) ↦ inr (omega arith, rw (put, put_groups) e)
        ])
]
