-- ===== src/Scheduler/Terminate.antt =====
-- A task that ends tells each of its groups as often as it was registered there.
use tythread.Base.{
  times, ℕ, zero, suc, ◌≡◌, refl, sym, ap, ◌∙◌, inl, inr, arith, ◌==◌, List, [], ◌∷◌, eq_cases,
  Bool-cases, update, update_self, update-ne, null,
}
use tythread.Group.{Group, int_pred, inform_done}
use tythread.Scheduler.{World, Task, inform_group, inform_all, terminate, set_state}
use tythread.Task.{terminated}

abbrev pub count_of : ℕ → World → ℕ
count_of g w = (w.group g).blocking_count

-- `int_pred`, n times.
abbrev pub int_sub : ℕ → ℕ → ℕ
int_sub c zero = c
int_sub c (suc n) = int_sub (int_pred c) n

inform_done-count : (g : Group) → (inform_done g).0.blocking_count ≡ int_pred g.blocking_count
unfolding inform_done
inform_done-count g = ground arith

inform_group-group :
    (me g : ℕ) (w : World)
    → (inform_group me g w).group ≡ update w.group g (inform_done (w.group g)).0
unfolding inform_group
inform_group-group me g w = elim (Bool-cases ((inform_done (w.group g)).1 == null)) [
  | inl e ↦ rw e refl
  | inr e ↦ rw e refl
]

inform_all-count :
    (me g : ℕ) (gs : List ℕ) (w : World)
    → count_of g (inform_all me gs w) ≡ int_sub (count_of g w) (times g gs)
unfolding inform_all
inform_all-count me g [] w = refl
inform_all-count me g (x ∷ xs) w =
    let rest = inform_all-count me g xs (inform_group me x w) in
    let now : (inform_group me x w).group g ≡ update w.group x (inform_done (w.group x)).0 g =
      ap (λ f. f g) (inform_group-group me x w) in
    elim (eq_cases x g) [
      | inl (test, e) ↦ rw test (
          let told = (inform_done (w.group x)).0 in
          let less : (update w.group x told g).blocking_count ≡ int_pred (count_of g w) =
            ap (λ k. (update w.group x told k).blocking_count) (sym e)
            ∙ ap Group.blocking_count (update_self w.group x told)
            ∙ inform_done-count (w.group x)
            ∙ ap (λ k. int_pred (count_of k w)) e in
          rest ∙ ap (λ c. int_sub c (times g xs)) (ap Group.blocking_count now ∙ less))
      | inr (test, ne) ↦ rw test (
          rest
          ∙ ap (λ c. int_sub c (times g xs))
              (ap Group.blocking_count (now ∙ update-ne w.group x g _ (λ e. ne (sym e)))))
    ]

-- When a task terminates the count of each group falls by the number of its registrations there, in
-- the arithmetic of `int`.
pub terminate-count :
    (me p g : ℕ) (w : World)
    → count_of g (terminate me p w) ≡ int_sub (count_of g w) (times g (w.task p).groups)
unfolding terminate
terminate-count me p g w = inform_all-count me g (w.task p).groups (set_state p terminated w)
