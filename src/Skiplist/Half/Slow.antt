-- ===== src/Skiplist/Half/Slow.antt =====
-- `dequeue_half_` gives half of the tasks, one by one.
use mathlib.Core.List.{append-nil, append_assoc}
use tythread.Base.{
  Absent, ℕ, zero, suc, ◌+◌, ◌-◌, ◌/◌, ◌≤◌, ◌<◌, ◌==◌, false, ◌≡◌, refl, sym, ap, ◌∙◌, ◌≢◌, arith,
  Ptr, null, List, [], ◌∷◌, ◌++◌, length, Option, some,
}
use tythread.Skiplist.{Mem, Skiplist, empty, dequeue, enqueue_move, contents, size}
use tythread.Skiplist.Dequeue.{dequeue-IsStack, dequeue-head, dequeue-contents}
use tythread.Skiplist.Enqueue.{enqueue_move-Enqueued}
use tythread.Skiplist.Updated.{Enqueued-contents}
use tythread.Skiplist.Fill.{empty-IsStack}
use tythread.Skiplist.Frame.{In, Apart, Apart-sym, frame-IsStack, frame-contents, Within-Apart}
use tythread.Skiplist.Half.{give_tasks, dequeue_half_slow}
use tythread.Skiplist.Popped.{dequeue-gone, dequeue-Touches, dequeue-Within}
use tythread.Skiplist.Row.{first-null}
use tythread.Skiplist.Stack.{IsStack, IsValid, slice, contents-slice}

slice-Absent :
    {p : Ptr} (f : ℕ → Ptr) (n h : ℕ)
    → ((q : ℕ) → h ≤ q → q < h + n → f q ≢ p)
    → Absent p (slice f h n)
unfolding slice
slice-Absent f zero h off = tt
slice-Absent f (suc n) h off = (
  off h (omega arith) (omega arith),
  slice-Absent f n (suc h) (λ q x y. off q (omega arith) (omega arith)),
)

In-Absent :
    {m : Mem} {s : Skiplist} {at : ℕ → ℕ → Ptr} {p : Ptr}
    → IsStack m s at
    → ¬ In s at 0 p
    → Absent p (contents m s)
In-Absent {m} {s} {at} stack off = rw (contents-slice stack) (
    slice-Absent (at 0) (s.tail_off - s.head_off) s.head_off
      (λ q x y e. off (q, x, omega arith, e)))

-- Two queues that share a memory.
record Pair (m : Mem) (s r : Skiplist) : Type 0 where
  pub at : ℕ → ℕ → Ptr
  pub bt : ℕ → ℕ → Ptr
  pub left : IsStack m s at
  pub right : IsStack m r bt
  pub apart : Apart s at r bt

-- The outcome: the first tasks of s, `given`, stand behind those of r.
record Gives (n : ℕ) (m : Mem) (s r : Skiplist) (out : Skiplist × Skiplist × Mem) : Type 0 where
  pub pair : Pair out.2 out.1 out.0
  pub given : List Ptr
  pub many : length given ≡ n
  pub source : contents m s ≡ given ++ contents out.2 out.1
  pub target : contents out.2 out.0 ≡ contents m r ++ given

-- One task goes over.
record Passes (p : Ptr) (m : Mem) (s r : Skiplist) (m' : Mem) (s' r' : Skiplist) : Type 0 where
  pub pair : Pair m' s' r'
  pub source : contents m s ≡ p ∷ contents m' s'
  pub target : contents m' r' ≡ contents m r ++ p ∷ []
  pub head_more : s'.head_off ≡ suc s.head_off
  pub tail_same : s'.tail_off ≡ s.tail_off

module _ {m : Mem} {s r : Skiplist} (pair : Pair m s r) (some_task : s.head_off < s.tail_off) where
  some_head : s.head ≢ null
  some_head e = omega (arith, (first-null (pair.left.rows 0 (omega arith))).0 e)

  head_here : In s pair.at 0 s.head
  head_here = (
    s.head_off,
    omega arith,
    some_task,
    ground (arith, (pair.left.rows 0 (omega arith)).first, some_task),
  )

  null_away : ¬ In r pair.bt 0 null
  null_away (q, x, y, e) = omega (arith, (pair.right.rows 0 (omega arith)).real q x y, e)

  passes :
      Passes s.head m s r
        (enqueue_move s.head (dequeue m s).1 r).0
        (dequeue m s).2
        (enqueue_move s.head (dequeue m s).1 r).1
  passes =
      let m' = (dequeue m s).1 in
      let s' = (dequeue m s).2 in
      let touches = dequeue-Touches pair.left some_head null in
      let left = dequeue-IsStack pair.left some_head in
      let right = frame-IsStack pair.right touches pair.apart null_away in
      let rest_apart =
        Within-Apart pair.right touches pair.apart null_away
          (dequeue-Within pair.left some_head null) in
      let away = pair.apart.task s.head head_here in
      let done =
        enqueue_move-Enqueued right s.head (omega (arith, some_head)) (In-Absent right away) in
      let gone = dequeue-gone pair.left some_head in
      let (_, more, same) = dequeue-head pair.left some_head in
      let kept = frame-contents left done.touches (Apart-sym rest_apart) gone in
      record {
        pair = record {
          at = pair.at;
          bt = done.at';
          left = frame-IsStack left done.touches (Apart-sym rest_apart) gone;
          right = done.stack;
          apart =
              Apart-sym (Within-Apart left done.touches (Apart-sym rest_apart) gone done.within);
        };
        source = dequeue-contents pair.left some_head ∙ ap (λ l. s.head ∷ l) (sym kept);
        target =
            Enqueued-contents right s.head done
            ∙ ap (λ l. l ++ s.head ∷ []) (frame-contents pair.right touches pair.apart null_away);
        head_more = more;
        tail_same = same;
      }

Gives-suc :
    {n p : ℕ} {m m' : Mem} {s s' r r' : Skiplist} {out : Skiplist × Skiplist × Mem}
    → Passes p m s r m' s' r'
    → Gives n m' s' r' out
    → Gives (suc n) m s r out
Gives-suc {p} {r} step rest = record {
  pair = rest.pair;
  given = p ∷ rest.given;
  many = omega (arith, rest.many);
  source = step.source ∙ ap (λ l. p ∷ l) rest.source;
  target =
      rest.target
      ∙ ap (λ l. l ++ rest.given) step.target
      ∙ append_assoc (contents _ r) (p ∷ []) rest.given;
}

give_tasks-Gives :
    (n : ℕ) (m : Mem) (s r : Skiplist)
    → Pair m s r
    → n ≤ s.tail_off - s.head_off
    → Gives n m s r (give_tasks n m s r)
unfolding give_tasks
give_tasks-Gives zero m s r pair le = record {
  pair = pair;
  given = [];
  many = refl;
  source = refl;
  target = sym (append-nil (contents m r));
}
give_tasks-Gives (suc n) m s r pair le =
    let step = passes pair (omega arith) in
    let out = enqueue_move s.head (dequeue m s).1 r in
    let rest =
      give_tasks-Gives n out.0 (dequeue m s).2 out.1 step.pair
        (omega (arith, step.head_more, step.tail_same)) in
    rw (dequeue-head pair.left (some_head pair (omega arith))).0 (Gives-suc step rest)

-- The outcome `out` of a division of the queue s in the middle.
pub record IsExactHalf (m : Mem) (s : Skiplist) (out : Option Skiplist × Skiplist × Mem)
    : Type 0 where
  pub stolen : Skiplist
  pub is_stolen : out.0 ≡ some stolen
  pub stolen_valid : IsValid out.2 stolen
  pub rest_valid : IsValid out.2 out.1
  pub order : contents m s ≡ contents out.2 stolen ++ contents out.2 out.1
  pub half : length (contents out.2 stolen) ≡ (size s + 1) / 2

module _ {m : Mem} {s : Skiplist} (v : IsValid m s) where
  slow-some :
      s.head ≢ null
      → dequeue_half_slow m s ≡ (
        some (give_tasks ((size s + 1) / 2) m s empty).0,
        (give_tasks ((size s + 1) / 2) m s empty).1,
        (give_tasks ((size s + 1) / 2) m s empty).2,
      )
  unfolding dequeue_half_slow size
  slow-some ne = let test : (s.head == null) ≡ false = ground arith in rw test

  Gives-IsExactHalf :
      {out : Skiplist × Skiplist × Mem}
      → Gives ((size s + 1) / 2) m s empty out
      → IsExactHalf m s (some out.0, out.1, out.2)
  unfolding contents
  Gives-IsExactHalf {out} gives = record {
    stolen = out.0;
    is_stolen = refl;
    stolen_valid = record { at = gives.pair.bt; stack = gives.pair.right };
    rest_valid = record { at = gives.pair.at; stack = gives.pair.left };
    order = gives.source ∙ ap (λ l. l ++ contents out.2 out.1) (sym gives.target);
    half = ap length gives.target ∙ gives.many;
  }

  -- On a queue in a good state with at least one task, `dequeue_half_` returns a queue with exactly the
  -- first half of the tasks, rounded up, and leaves the others, in order; both are in a good state.
  pub dequeue_half_slow-IsExactHalf : 0 < size s → IsExactHalf m s (dequeue_half_slow m s)
  unfolding size
  dequeue_half_slow-IsExactHalf some_task =
      let pair : Pair m s empty = record {
        at = v.at;
        bt = λ _ _. 0;
        left = v.stack;
        right = empty-IsStack m v.stack.alloc;
        apart = record {
          task = λ a here (q, x, y, e). absurd (omega arith);
          node = λ i j a h h' here (q, x, y, e). absurd (omega arith);
        };
      } in
      let gives = give_tasks-Gives ((size s + 1) / 2) m s empty pair (omega arith) in
      rw (slow-some (some_head pair (omega arith))) (Gives-IsExactHalf gives)
