-- ===== src/Skiplist/Destroy.antt =====
-- The destructor of a queue, which gives up its share of each task.
use tythread.Base.{
  times, ℕ, zero, suc, ◌+◌, ◌-◌, ◌%◌, ◌^◌, ◌≤◌, ◌<◌, ◌≡◌, refl, arith, ltb, ◌==◌, if◌then◌else◌,
  Ptr, null, update, update-ne, true, false, sym, ap, ◌∙◌, List, [], ◌∷◌, subst, eq_cases, inl, inr,
}
use tythread.Skiplist.{Layer, Mem, Skiplist, contents}
use tythread.Skiplist.Row.{Row}
use tythread.Skiplist.Stack.{IsValid, slice, contents-slice}

-- What the destructor comes to: the counters behind it, or the read of the `next` of a task that its
-- `decrease` has deleted, or a loop that goes on when the rounds of the model have run out.
pub data Destruction : Type 0 where
  returns : (Ptr → ℕ) → Destruction
  reads_deleted : Ptr → Destruction
  goes_on : Destruction

-- The loop of `~Skiplist`, with the rounds that are left.
unfoldable pub release_all : ℕ → (Ptr → Ptr) → (Ptr → ℕ) → Ptr → Destruction
release_all zero next counter head = if head == null then returns counter else goes_on
release_all (suc n) next counter head =
    let less = (counter head + (2 ^ 32 - 1)) % 2 ^ 32 in
    let rest = release_all n next (update counter head less) (next head) in
    if head == null then returns counter else if less == 0 then reads_deleted head else rest

-- `~Skiplist`.
unfoldable pub destroy : Mem → Skiplist → Destruction
unfolding release_all
destroy m s = release_all (s.tail_off - s.head_off) m.next m.counter s.head

-- Each of the tasks has another owner than the queue.
abbrev pub AllShared : (Ptr → ℕ) → List Ptr → Type 0
AllShared counter [] = Unit
AllShared counter (x ∷ xs) = (1 < counter x) × (counter x < 2 ^ 32) × AllShared counter xs

AllShared-slice :
    (counter : Ptr → ℕ) (f : ℕ → Ptr) (n h : ℕ)
    → AllShared counter (slice f h n)
    → (q : ℕ) → h ≤ q
    → q < h + n
    → (1 < counter (f q)) × (counter (f q) < 2 ^ 32)
unfolding slice
AllShared-slice counter f zero h all q x y = absurd (omega arith)
AllShared-slice counter f (suc n) h all q x y = elim (eq_cases h q) [
  | inl (_, e) ↦ rw (← e) (all.0, all.1)
  | inr (_, ne) ↦ AllShared-slice counter f n (suc h) all.2 q (omega arith) (omega arith)
]

-- The loop has run through.
pub record Returns (o : Destruction) : Type 0 where
  pub counter : Ptr → ℕ
  pub ends : o ≡ returns counter

release_all-Returns :
    {f : ℕ → Ptr} {next : Ptr → Ptr} {r : Layer} (n h : ℕ) (counter : Ptr → ℕ)
    → Row f next r
    → r.head_off ≤ h
    → h + n ≡ r.tail_off
    → ((q : ℕ) → h ≤ q → q < r.tail_off → (1 < counter (f q)) × (counter (f q) < 2 ^ 32))
    → Returns (release_all n next counter (if ltb h r.tail_off then f h else null))
unfolding release_all
release_all-Returns {f} {next} {r} zero h counter base a b shared =
    let ended : ltb h r.tail_off ≡ false = ground arith in
    rw ended (record { counter = counter; ends = refl })
release_all-Returns {f} {next} {r} (suc n) h counter base a b shared =
    let going : ltb h r.tail_off ≡ true = ground arith in
    let real : (f h == null) ≡ false = ground (arith, base.real h) in
    let own = shared h (omega arith) (omega arith) in
    let stays : ((counter (f h) + (2 ^ 32 - 1)) % 2 ^ 32 == 0) ≡ false =
      ground (arith, own.0, own.1) in
    rw (going, real, stays, base.chain h a (omega arith))
      (release_all-Returns n (suc h)
        (update counter (f h) ((counter (f h) + (2 ^ 32 - 1)) % 2 ^ 32)) base (omega arith)
        (omega arith)
        (λ q x y.
          rw
            (update-ne counter (f h) (f q) ((counter (f h) + (2 ^ 32 - 1)) % 2 ^ 32)
              (λ e. absurd (omega (arith, base.once q h (omega arith) y a (omega arith) e))))
            (shared q (omega arith) y)))

-- The destructor of a queue in a good state returns when each of its tasks has another owner.
pub destroy-Returns :
    {m : Mem} {s : Skiplist}
    → IsValid m s
    → AllShared m.counter (contents m s)
    → Returns (destroy m s)
unfolding destroy
destroy-Returns {m} {s} v all =
    let base = v.stack.rows 0 (omega arith) in
    let here =
      AllShared-slice m.counter (v.at 0) (s.tail_off - s.head_off) s.head_off
        (subst (AllShared m.counter) (contents-slice v.stack) all) in
    rw base.first (
      release_all-Returns (s.tail_off - s.head_off) s.head_off m.counter base (omega arith)
        (omega (arith, base.order)) (λ q x y. here q x (omega arith)))

-- The loop has read a task of which the queue was the only owner.
pub record ReadsDeleted (counter : Ptr → ℕ) (o : Destruction) : Type 0 where
  pub deleted : Ptr
  pub owned : (counter deleted + (2 ^ 32 - 1)) % 2 ^ 32 ≡ 0
  pub ends : o ≡ reads_deleted deleted

release_all-ReadsDeleted :
    {f : ℕ → Ptr} {next : Ptr → Ptr} {r : Layer} (n h j : ℕ) (start counter : Ptr → ℕ)
    → Row f next r
    → r.head_off ≤ h
    → h + n ≡ r.tail_off
    → h ≤ j
    → j < r.tail_off
    → start (f j) ≡ 1
    → ((q : ℕ) → h ≤ q → q < r.tail_off → counter (f q) ≡ start (f q))
    → ReadsDeleted start (release_all n next counter (if ltb h r.tail_off then f h else null))
unfolding release_all
release_all-ReadsDeleted {f} {next} {r} zero h j start counter base a b lo hi one same =
    absurd (omega arith)
release_all-ReadsDeleted {f} {next} {r} (suc n) h j start counter base a b lo hi one same =
    let going : ltb h r.tail_off ≡ true = ground arith in
    let real : (f h == null) ≡ false = ground (arith, base.real h) in
    let less = (counter (f h) + (2 ^ 32 - 1)) % 2 ^ 32 in
    let now = same h (omega arith) (omega arith) in
    elim (eq_cases less 0) [
      | inl (test, e) ↦
          rw (going, real, test)
            (record {
              deleted = f h;
              owned = ap (λ c. (c + (2 ^ 32 - 1)) % 2 ^ 32) (sym now) ∙ e;
              ends = refl;
            })
      | inr (test, ne) ↦
          (let later : suc h ≤ j = elim (eq_cases j h) [
            | inl (_, is) ↦ absurd (
                ne (
                  ap (λ c. (c + (2 ^ 32 - 1)) % 2 ^ 32)
                    (now ∙ ap (λ k. start (f k)) (sym is) ∙ one)))
            | inr (_, off) ↦ omega arith
          ] in
            rw (going, real, test, base.chain h a (omega arith))
              (release_all-ReadsDeleted n (suc h) j start (update counter (f h) less) base
                (omega arith) (omega arith) later hi one
                (λ q x y.
                  update-ne counter (f h) (f q) less
                    (λ e. absurd (omega (arith, base.once q h (omega arith) y a (omega arith) e)))
                  ∙ same q (omega arith) y)))
    ]

times-slice :
    (p : Ptr) (f : ℕ → Ptr) (n h : ℕ)
    → 0 < times p (slice f h n)
    → (q : ℕ) × (h ≤ q) × (q < h + n) × (f q ≡ p)
unfolding slice
times-slice p f zero h some_there = absurd (omega arith)
times-slice p f (suc n) h some_there = elim (eq_cases (f h) p) [
  | inl (_, e) ↦ (h, omega arith, omega arith, e)
  | inr (test, _) ↦
      (let (q, lo, hi, e) = times-slice p f n (suc h) (rw test at some_there) in
        (q, omega arith, omega arith, e))
]

-- If a queue in a good state is the only owner of one of its tasks, wherever that stands, the
-- destructor reads a task that it has deleted.
pub destroy-ReadsDeleted :
    (m : Mem) (s : Skiplist) (p : Ptr)
    → IsValid m s
    → 0 < times p (contents m s)
    → m.counter p ≡ 1
    → ReadsDeleted m.counter (destroy m s)
unfolding destroy
destroy-ReadsDeleted m s p v there one =
    let base = v.stack.rows 0 (omega arith) in
    let n = s.tail_off - s.head_off in
    let (j, lo, hi, e) =
      times-slice p (v.at 0) n s.head_off
        (subst (λ l. 0 < times p l) (contents-slice v.stack) there) in
    rw base.first (
      release_all-ReadsDeleted n s.head_off j m.counter m.counter base (omega arith)
        (omega (arith, base.order)) lo (omega arith) (ap m.counter e ∙ one) (λ q x y. refl))
