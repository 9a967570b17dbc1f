-- ===== src/Group/Protocol.antt =====
-- No wake-up is lost: whatever the order of the steps, the waiting task runs again, and not too soon.
use tythread.Base.{
  ℕ, zero, suc, ◌+◌, ◌-◌, ◌^◌, ◌<◌, ◌≡◌, refl, sym, ap, ◌∙◌, ◌⊎◌, inl, inr, arith, false, ◌==◌,
  if◌then◌else◌, eq_cases, lt_cases, Bool-cases, Ptr, null, subst,
}
use tythread.Group.{
  Group, Phase, before, leaving, parked, resumed, Sys, Step, Steps, finishes, looks, parks, done,
  more, finish, look, park, start, register_all, registe, new_group, inform_done, must_wait,
  resume_if_nothing_to_wait, int_pred, int_succ,
}

-- What the group knows of the waiting task p.
abbrev Holds : Ptr → Phase → Group → ℕ → Type 0
Holds p before g left = g.blocked_task ≡ null
Holds p leaving g left = g.blocked_task ≡ null
Holds p parked g left = (g.blocked_task ≡ p) × (0 < left)
Holds p resumed g left = (g.blocked_task ≡ null) × (left ≡ 0)

pub record IsSound (p : Ptr) (s : Sys) : Type 0 where
  pub counts : s.group.blocking_count ≡ s.left
  pub small : s.left < 2 ^ 31
  pub holds : Holds p s.phase s.group s.left

-- How many steps are still to come, at most.
abbrev pub rank : Phase → ℕ
rank before = 2
rank leaving = 1
rank parked = 0
rank resumed = 0

abbrev pub steps_left : Sys → ℕ
steps_left s = s.left + rank s.phase

last_one :
    (g : Group)
    → g.blocking_count ≡ 1
    → inform_done g ≡ (record { blocking_count = 0; blocked_task = null }, g.blocked_task)
unfolding inform_done
last_one g e = rw e refl

not_last :
    (g : Group) (n : ℕ)
    → g.blocking_count ≡ n
    → 1 < n
    → n < 2 ^ 31
    → inform_done g ≡ (record g { blocking_count = n - 1 }, null)
unfolding inform_done
not_last g n e big small =
    let fewer : int_pred n ≡ n - 1 = omega arith in
    let some_left : ((n - 1) == 0) ≡ false = ground arith in rw (e, fewer, some_left) refl

-- The waiting task behind the end of a member.
abbrev woken : Ptr → Phase → Phase
woken q ph = if q == null then ph else resumed

last-Holds :
    (p : Ptr) (ph : Phase) (g : Group)
    → 0 < p
    → Holds p ph g 1
    → Holds p (woken g.blocked_task ph) (record { blocking_count = 0; blocked_task = null }) 0
last-Holds p before g pos h = rw h refl
last-Holds p leaving g pos h = rw h refl
last-Holds p parked g pos h =
    (let real : (p == null) ≡ false = ground arith in rw (h.0, real) (refl, refl))
last-Holds p resumed g pos h = absurd (omega (arith, h.1))

other-Holds :
    (p : Ptr) (ph : Phase) (g : Group) (n : ℕ)
    → 1 < n
    → Holds p ph g n
    → Holds p ph (record g { blocking_count = n - 1 }) (n - 1)
other-Holds p before g n big h = h
other-Holds p leaving g n big h = h
other-Holds p parked g n big h = (h.0, omega arith)
other-Holds p resumed g n big h = absurd (omega (arith, h.1))

finish-IsSound : (p : Ptr) (s : Sys) → 0 < p → IsSound p s → 0 < s.left → IsSound p (finish s)
unfolding finish
finish-IsSound p s pos v some = elim (lt_cases 1 s.left) [
  | inl big ↦ rw (not_last s.group s.left v.counts big v.small) (record {
    counts = refl;
    small = omega (arith, v.small);
    holds = other-Holds p s.phase s.group s.left big v.holds;
  })
  | inr small ↦
      (let one : s.left ≡ 1 = omega arith in
        rw (last_one s.group (v.counts ∙ one), one)
          (record {
            counts = refl;
            small = omega arith;
            holds = last-Holds p s.phase s.group pos (subst (Holds p s.phase s.group) one v.holds);
          }))
]

look-IsSound : (p : Ptr) (s : Sys) → IsSound p s → s.phase ≡ before → IsSound p (look s)
unfolding look must_wait
look-IsSound p s v e =
    let free : s.group.blocked_task ≡ null = subst (λ ph. Holds p ph s.group s.left) e v.holds in
    elim (eq_cases s.group.blocking_count 0) [
      | inl (test, is) ↦
          rw test (record { counts = v.counts; small = v.small; holds = (free, sym v.counts ∙ is) })
      | inr (test, ne) ↦ rw test (record { counts = v.counts; small = v.small; holds = free })
    ]

park-IsSound : (p : Ptr) (s : Sys) → IsSound p s → s.phase ≡ leaving → IsSound p (park p s)
unfolding park resume_if_nothing_to_wait
park-IsSound p s v e =
    let free : s.group.blocked_task ≡ null = subst (λ ph. Holds p ph s.group s.left) e v.holds in
    elim (eq_cases s.group.blocking_count 0) [
      | inl (test, is) ↦
          rw test (record { counts = v.counts; small = v.small; holds = (free, sym v.counts ∙ is) })
      | inr (test, ne) ↦
          rw test
            (record { counts = v.counts; small = v.small; holds = (refl, omega (arith, v.counts)) })
    ]

Step-IsSound : (p : Ptr) (s t : Sys) → 0 < p → IsSound p s → Step p s t → IsSound p t
Step-IsSound p s t pos v (finishes _ some) = finish-IsSound p s pos v some
Step-IsSound p s t pos v (looks _ e) = look-IsSound p s v e
Step-IsSound p s t pos v (parks _ e) = park-IsSound p s v e

Steps-IsSound : (p : Ptr) (s t : Sys) → 0 < p → IsSound p s → Steps p s t → IsSound p t
Steps-IsSound p s t pos v (done _) = v
Steps-IsSound p s t pos v (more _ u _ step rest) =
    Steps-IsSound p u t pos (Step-IsSound p s u pos v step) rest

register_all-Group :
    (n : ℕ) (g : Group)
    → g.blocking_count + n < 2 ^ 31
    → register_all n g ≡ record g { blocking_count = g.blocking_count + n }
unfolding register_all registe
register_all-Group zero g small = ap (λ c. record g { blocking_count = c }) (omega arith)
register_all-Group (suc n) g small =
    let up : int_succ g.blocking_count ≡ g.blocking_count + 1 = omega arith in
    rw up (
      register_all-Group n (record g { blocking_count = g.blocking_count + 1 }) (omega arith)
      ∙ ap (λ c. record g { blocking_count = c }) (omega arith))

start-IsSound : (p : Ptr) (n : ℕ) → n < 2 ^ 31 → IsSound p (start n)
unfolding start
start-IsSound p n small =
    rw (register_all-Group n new_group (omega arith))
      (record { counts = omega arith; small = small; holds = refl })

-- What holds of a reachable state: the task runs again only when all members have finished; until all
-- steps are made there is one to make; and each step brings the end nearer.
pub record IsLive (p : Ptr) (s : Sys) : Type 0 where
  pub not_early : s.phase ≡ resumed → s.left ≡ 0
  pub not_stuck : (s.phase ≡ resumed) ⊎ ((t : Sys) × Step p s t)
  pub nearer : (t : Sys) → Step p s t → steps_left t < steps_left s

not-stuck :
    (p : Ptr) (s : Sys)
    → IsSound p s
    → (ph : Phase) → s.phase ≡ ph
    → (s.phase ≡ resumed) ⊎ ((t : Sys) × Step p s t)
not-stuck p s v before e = inr (look s, looks s e)
not-stuck p s v leaving e = inr (park p s, parks s e)
not-stuck p s v parked e =
    inr (finish s, finishes s (subst (λ ph. Holds p ph s.group s.left) e v.holds).1)
not-stuck p s v resumed e = inl e

finish-nearer : (s : Sys) → 0 < s.left → steps_left (finish s) < steps_left s
unfolding finish
finish-nearer s some = elim (eq_cases (inform_done s.group).1 null) [
  | inl (test, _) ↦ rw test (omega arith)
  | inr (test, _) ↦ rw test (omega arith)
]

look-nearer : (s : Sys) → s.phase ≡ before → steps_left (look s) < steps_left s
unfolding look
look-nearer s e = elim (Bool-cases (must_wait s.group)) [
  | inl test ↦ rw (test, e) (omega arith)
  | inr test ↦ rw (test, e) (omega arith)
]

park-nearer : (p : Ptr) (s : Sys) → s.phase ≡ leaving → steps_left (park p s) < steps_left s
unfolding park
park-nearer p s e = elim (Bool-cases (resume_if_nothing_to_wait p s.group).1) [
  | inl test ↦ rw (test, e) (omega arith)
  | inr test ↦ rw (test, e) (omega arith)
]

Step-nearer : (p : Ptr) (s t : Sys) → Step p s t → steps_left t < steps_left s
Step-nearer p s t (finishes _ some) = finish-nearer s some
Step-nearer p s t (looks _ e) = look-nearer s e
Step-nearer p s t (parks _ e) = park-nearer p s e

-- Of a task that is not null and waits for fewer than 2 ^ 31 unfinished members, in whatever order
-- these finish, test and park run: it runs again only when all have finished, in a state where it
-- does not run again a step can be made, and every step lessens the number that bounds the steps to
-- come, so that it does run again.
pub wait-IsLive :
    (p : Ptr) (n : ℕ) (s : Sys) → 0 < p → n < 2 ^ 31 → Steps p (start n) s → IsLive p s
wait-IsLive p n s pos small steps =
    let v = Steps-IsSound p (start n) s pos (start-IsSound p n small) steps in
    record {
      not_early = λ e. (subst (λ ph. Holds p ph s.group s.left) e v.holds).1;
      not_stuck = not-stuck p s v s.phase refl;
      nearer = λ t. Step-nearer p s t;
    }
