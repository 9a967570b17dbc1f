-- ===== src/Scheduler/Idle.antt =====
-- When a thread finds nothing to do.
use mathlib.Core.Bool.{true≢false}
use tythread.Base.{
  ℕ, zero, suc, ◌+◌, ◌^◌, ◌≤◌, ◌<◌, ◌≡◌, refl, sym, ap, ◌∙◌, ◌≢◌, inl, inr, arith, Bool, true,
  false, Bool-cases, if◌then◌else◌, eq_cases, subst, List, [], ◌∷◌, Ptr, null, length,
}
use tythread.Scheduler.{
  World, steal, steal_from, take_runnable, run_runnable, run_mpi_blocked, run_once, has_some,
}
use tythread.Scheduler.Shared.{IsOrderly, take_runnable-Leaves, take_runnable-tasks}
use tythread.Scheduler.Steal.{queue_of, tasks_of, steal_from-empty, steal_from-IsStolen}
use tythread.Scheduler.Theft.{no_theft, unchanged, no_theft-tasks}
use tythread.Skiplist.{size}
use tythread.Skiplist.Stack.{IsValid, size-length}

length-none : (l : List Ptr) → length l ≡ 0 → l ≡ []
length-none [] e = refl
length-none (x ∷ l) e = absurd (omega arith)

has_some-none : (l : List Ptr) → has_some l ≡ false → l ≡ []
has_some-none [] e = refl
has_some-none (x ∷ l) e = absurd (ground (arith, e))

-- The queues of the n threads are in a good state and apart, each of fewer than 2 ^ 30 tasks.
pub record IsReady (n : ℕ) (w : World) : Type 0 where
  pub orderly : IsOrderly n w
  pub few : (k : ℕ) → k < n → size (queue_of k w) < 2 ^ 30

module _ {n : ℕ} {w : World} (r : IsReady n w) (k : ℕ) (below : k < n) where
  queue-IsValid : IsValid w.mem (queue_of k w)
  queue-IsValid = record { at = r.orderly.at k; stack = r.orderly.all.stacks k below }

  no_tasks : size (queue_of k w) ≡ 0 → tasks_of k w ≡ []
  no_tasks bare = length-none (tasks_of k w) (sym (size-length queue-IsValid) ∙ bare)

-- What the loop of thread `me` sees from w to x, where others act before each try: from thread i on it
-- tries n threads, all but itself, and finds each queue empty when it comes to it.
pub data AllBare (meanwhile : ℕ → World → World) (me : ℕ) : ℕ → ℕ → World → World → Type 0 where
  all_tried : (i : ℕ) (w : World) → AllBare meanwhile me i zero w w
  skipped :
      (i n : ℕ) (w x : World)
      → i ≡ me
      → AllBare meanwhile me (suc i) n (meanwhile i w) x
      → AllBare meanwhile me i (suc n) w x
  tried :
      (i n : ℕ) (w x : World)
      → i ≢ me
      → tasks_of i (meanwhile i w) ≡ []
      → AllBare meanwhile me (suc i) n (steal_from me i (meanwhile i w)).1 x
      → AllBare meanwhile me i (suc n) w x

module _ {total : ℕ} (meanwhile : ℕ → World → World)
    (keeps : (i : ℕ) (x : World) → IsReady total x → IsReady total (meanwhile i x)) (me : ℕ) where
  -- A theft from an empty queue.
  bare-IsReady :
      (i : ℕ) {w : World}
      → i < total
      → IsReady total w
      → size (queue_of i w) ≡ 0
      → ((steal_from me i w).0 ≡ false) × IsReady total (steal_from me i w).1
  bare-IsReady i {w} b r bare = (
    (steal_from-empty me i w (queue-IsValid r i b) bare).0,
    record {
      orderly = (no_theft-tasks me i b r.orderly bare).0;
      few = λ k c.
          (let same =
              ap (queue_of k) (no_theft me i b r.orderly bare) ∙ unchanged me i b r.orderly k in
            subst (λ q. size q < 2 ^ 30) (sym same) (r.few k c));
    },
  )

  steal-AllBare :
      (n i : ℕ) (w : World)
      → i + n ≤ total
      → IsReady total w
      → (steal meanwhile me i n w).0 ≡ false
      → AllBare meanwhile me i n w (steal meanwhile me i n w).1
  unfolding steal
  steal-AllBare zero i w le r e = all_tried i w
  steal-AllBare (suc n) i w le r e =
      let seen = meanwhile i w in
      let ready = keeps i w r in
      let b : i < total = omega arith in
      elim (eq_cases i me) [
        | inl (test, is) ↦
            rw test
              (skipped i n w _ is (steal-AllBare n (suc i) seen (omega arith) ready (rw test at e)))
        | inr (test, other) ↦ elim (eq_cases (size (queue_of i seen)) 0) [
          | inl (_, bare) ↦
              (let (failed, ready') = bare-IsReady i b ready bare in
                rw (test, failed)
                  (tried i n w _ other (no_tasks ready i b bare) (
                    steal-AllBare n (suc i) (steal_from me i seen).1 (omega arith) ready'
                      (rw (test, failed) at e))))
          | inr (_, some_task) ↦
              (let won =
                  (steal_from-IsStolen me i seen other (queue-IsValid ready i b) (omega arith)
                    (ready.few i b)).0 in
                absurd (true≢false (sym won ∙ (rw (test, won) at e))))
        ]
      ]

-- The three tests of a round.
pick-none :
    (own stolen : Bool × World) (more : Bool) (polled last : World)
    → (if own.0
        then own
        else if stolen.0
        then stolen
        else if more
        then (true, polled)
        else (false, last)).0
      ≡ false
    → (own.0 ≡ false)
      × (stolen.0 ≡ false)
      × (more ≡ false)
      × ((if own.0
            then own
            else if stolen.0
            then stolen
            else if more
            then (true, polled)
            else (false, last))
          ≡ (false, last))
pick-none own stolen more polled last e = elim (Bool-cases own.0) [
  | inl a ↦ absurd (ground (arith, a, rw a at e))
  | inr a ↦ elim (Bool-cases stolen.0) [
    | inl b ↦ absurd (ground (arith, b, rw (a, b) at e))
    | inr b ↦ elim (Bool-cases more) [
      | inl c ↦ absurd (ground (arith, rw (a, b, c) at e))
      | inr c ↦ (a, b, c, rw (a, b, c) refl)
    ]
  ]
]

run_runnable-none :
    (run : Ptr → World → World × Bool) (me : ℕ) (w : World)
    → (run_runnable run me w).0 ≡ false
    → ((take_runnable me w).0 ≡ null) × ((run_runnable run me w).1 ≡ (take_runnable me w).1)
unfolding run_runnable
run_runnable-none run me w e = elim (eq_cases (take_runnable me w).0 null) [
  | inl (test, is) ↦ (is, rw test refl)
  | inr (test, _) ↦ absurd (ground (arith, rw test at e))
]

own-IsReady :
    {n : ℕ} (me : ℕ) {w : World}
    → me < n
    → IsReady n w
    → (take_runnable me w).0 ≡ null
    → (tasks_of me w ≡ []) × IsReady n (take_runnable me w).1
own-IsReady {n} me {w} below r gone =
    let left = take_runnable-Leaves me below r.orderly in
    elim (take_runnable-tasks me below r.orderly) [
      | inr (pos, _) ↦ absurd (omega (arith, gone))
      | inl (_, bare, still) ↦ (
        bare,
        record {
          orderly = left.orderly;
          few = λ k b.
              (let count = λ (x : World) (o : IsOrderly n x).
                  size-length (record { at = o.at k; stack = o.all.stacks k b }) in
                elim (eq_cases k me) [
                  | inl (_, e) ↦ omega (
                    arith,
                    count (take_runnable me w).1 left.orderly,
                    ap (λ j. length (tasks_of j (take_runnable me w).1)) e,
                    ap length still,
                  )
                  | inr (_, ne) ↦ omega (
                    arith,
                    count (take_runnable me w).1 left.orderly,
                    ap length (left.others k b ne),
                    count w r.orderly,
                    r.few k b,
                  )
                ]);
        },
      )
    ]

-- A round of thread `me`, one of n with queues in a good state and apart, each of fewer than 2 ^ 30
-- tasks, in which the other threads act before each try and behind the last, and keep the queues so,
-- reports that there is nothing to do only if its own queue had no task at the start, each other
-- queue had none when it was tried, all were tried in turn, and no task of the thread waits for MPI at
-- the end.
pub run_once-idle :
    (run : Ptr → World → World × Bool) (meanwhile : ℕ → World → World) (me n : ℕ) (w : World)
    → me < n
    → IsReady n w
    → ((i : ℕ) (x : World) → IsReady n x → IsReady n (meanwhile i x))
    → (run_once run meanwhile me n w).0 ≡ false
    → (tasks_of me w ≡ [])
      × ((x : World) × AllBare meanwhile me 0 n (take_runnable me w).1 x
          × ((run_once run meanwhile me n w).1 ≡ meanwhile n x))
      × (((run_once run meanwhile me n w).1.mgr me).mpi_blocked_queue ≡ [])
unfolding run_once
run_once-idle run meanwhile me n w below r keeps idle =
    let own = run_runnable run me w in
    let stolen = steal meanwhile me 0 n own.1 in
    let last = meanwhile n stolen.1 in
    let blocked = (last.mgr me).mpi_blocked_queue in
    let (none_own, failed, none_blocked, out) =
      pick-none own stolen (has_some blocked) (run_mpi_blocked run me last).1 last idle in
    let (gone, same) = run_runnable-none run me w none_own in
    let (bare, ready) = own-IsReady me below r gone in
    let loop = λ (x : World). steal meanwhile me 0 n x in
    (
      bare,
      (
        (loop (take_runnable me w).1).1,
        steal-AllBare meanwhile keeps me n 0 (take_runnable me w).1 (omega arith) ready
            (sym (ap (λ x. (loop x).0) same) ∙ failed),
        ap (λ p. p.1) out ∙ ap (λ x. meanwhile n (loop x).1) same,
      ),
      ap (λ p. (p.1.mgr me).mpi_blocked_queue) out ∙ has_some-none blocked none_blocked,
    )
