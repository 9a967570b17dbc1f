-- ===== src/Skiplist/Enqueue.antt =====
-- `enqueue` keeps the queue in order, and puts the task last.
use tythread.Base.{
  Absent, ℕ, zero, suc, ◌+◌, ◌-◌, ◌%◌, ◌^◌, ◌≤◌, ◌<◌, ◌≡◌, refl, sym, ap, ◌∙◌, subst, inl, inr, ◌≢◌,
  ◌==◌, arith, Ptr, null, update, eq_cases, false, Bool-cases, [], ◌∷◌, ◌++◌,
}
use tythread.Skiplist.{
  Mem, Skiplist, row, update_after_enqueue, link_tail, increase, enqueue, enqueue_move, contents,
}
use tythread.Skiplist.Row.{Row, first-null}
use tythread.Skiplist.Stack.{nexts, IsStack, IsValid, slice, contents-slice}
use tythread.Skiplist.Frame.{In}
use tythread.Skiplist.Updated.{with_last, Enqueued, Enqueued-contents, update-Enqueued}

pub Absent-slice :
    {p : Ptr} (f : ℕ → Ptr) (n h : ℕ)
    → Absent p (slice f h n)
    → (q : ℕ) → h ≤ q
    → q < h + n
    → f q ≢ p
unfolding slice
Absent-slice f zero h a q x y = absurd (omega arith)
Absent-slice f (suc n) h a q x y = elim (eq_cases h q) [
  | inl (_, e) ↦ ground (arith, e)
  | inr (_, ne) ↦ Absent-slice f n (suc h) a.1 q (omega arith) (omega arith)
]

module _ (p : Ptr) (m : Mem) (s : Skiplist) where
  enqueue-update :
      enqueue p m s ≡ update_after_enqueue (increase (link_tail p m s).0 p) (with_last p s)
  unfolding enqueue
  enqueue-update = elim (Bool-cases (s.head == null)) [ inl e ↦ rw e | inr e ↦ rw e ]

  enqueue_move-update :
      enqueue_move p m s ≡ update_after_enqueue (link_tail p m s).0 (with_last p s)
  unfolding enqueue_move
  enqueue_move-update = elim (Bool-cases (s.head == null)) [ inl e ↦ rw e | inr e ↦ rw e ]

  -- What `link_tail` does to the memory.
  link_tail-mem :
      ((link_tail p m s).0.node ≡ m.node)
      × ((link_tail p m s).0.fresh ≡ m.fresh)
      × ((link_tail p m s).0.counter ≡ m.counter)
      × ((link_tail p m s).0.next p ≡ null)
  unfolding link_tail
  link_tail-mem = ground arith

  link_tail-joint : s.head ≢ null → s.tail ≢ p → (link_tail p m s).0.next s.tail ≡ p
  unfolding link_tail
  link_tail-joint some ne = ground arith

  link_tail-else :
      (a : Ptr) → a ≢ p → (s.head ≢ null → a ≢ s.tail) → (link_tail p m s).0.next a ≡ m.next a
  unfolding link_tail
  link_tail-else a ne other = ground arith

module _ {m : Mem} {s : Skiplist} {at : ℕ → ℕ → Ptr} (stack : IsStack m s at) (p : Ptr)
    (pos : 0 < p) (absent : Absent p (contents m s)) where
  base_row : Row (at 0) (nexts m 0) (row s 0)
  base_row = stack.rows 0 (omega arith)

  new_task : (q : ℕ) → s.head_off ≤ q → q < s.tail_off → at 0 q ≢ p
  new_task q x y =
      Absent-slice (at 0) (s.tail_off - s.head_off) s.head_off
        (subst (Absent p) (contents-slice stack) absent) q x (omega arith)

  link-joint : s.head_off < s.tail_off → (link_tail p m s).0.next (at 0 (s.tail_off - 1)) ≡ p
  link-joint h = ground (
    arith,
    base_row.last h,
    first-null base_row,
    new_task (s.tail_off - 1),
    link_tail-joint p m s,
  )

  link-else :
      (q : ℕ)
      → s.head_off ≤ q
      → suc q < s.tail_off
      → (link_tail p m s).0.next (at 0 q) ≡ m.next (at 0 q)
  link-else q x y =
      link_tail-else p m s (at 0 q) (new_task q x (omega arith))
        λ some e. ground (arith, base_row.last, base_row.once q (s.tail_off - 1))

  link-written : (a : Ptr) → ¬ In s at 0 a → a ≢ p → (link_tail p m s).0.next a ≡ m.next a
  link-written a off ne = link_tail-else p m s a ne λ some e.
      let filled : s.head_off < s.tail_off = ground (arith, first-null base_row) in
      off (s.tail_off - 1, omega arith, omega arith, sym (base_row.last filled) ∙ sym e)

  pub enqueue_move-Enqueued :
      Enqueued m (link_tail p m s).0 (enqueue_move p m s).0 (enqueue_move p m s).1 s at p
  enqueue_move-Enqueued =
      let (en, ef, ec, end) = link_tail-mem p m s in
      rw enqueue_move-update (
        update-Enqueued stack p (link_tail p m s).0 pos new_task en ef end link-joint link-else
          link-written)

  pub enqueue-Enqueued :
      Enqueued m (increase (link_tail p m s).0 p) (enqueue p m s).0 (enqueue p m s).1 s at p
  enqueue-Enqueued =
      let (en, ef, ec, end) = link_tail-mem p m s in
      let here : (p == null) ≡ false = ground arith in
      rw (enqueue-update, here)
        (update-Enqueued stack p
          (record (link_tail p m s).0 {
            counter =
                update (link_tail p m s).0.counter p (((link_tail p m s).0.counter p + 1) % 2 ^ 32);
          })
          pos new_task en ef end link-joint link-else link-written)

module _ {m : Mem} {s : Skiplist} (v : IsValid m s) (p : Ptr) (pos : 0 < p)
    (absent : Absent p (contents m s)) where
  -- Both forms of `enqueue` keep the good state of the queue, for a task that is not null and not in
  -- the queue.
  pub enqueue-IsValid :
      IsValid (enqueue p m s).0 (enqueue p m s).1
      × IsValid (enqueue_move p m s).0 (enqueue_move p m s).1
  enqueue-IsValid =
      let copied = enqueue-Enqueued v.stack p pos absent in
      let moved = enqueue_move-Enqueued v.stack p pos absent in
      (
        record { at = copied.at'; stack = copied.stack },
        record { at = moved.at'; stack = moved.stack },
      )

  -- Both forms of `enqueue` on a queue in a good state put a task behind the others, if it is not null
  -- and not in the queue.
  pub contents-enqueue :
      (contents (enqueue p m s).0 (enqueue p m s).1 ≡ contents m s ++ p ∷ [])
      × (contents (enqueue_move p m s).0 (enqueue_move p m s).1 ≡ contents m s ++ p ∷ [])
  contents-enqueue = (
    Enqueued-contents v.stack p (enqueue-Enqueued v.stack p pos absent),
    Enqueued-contents v.stack p (enqueue_move-Enqueued v.stack p pos absent),
  )

  -- On a queue in a good state `enqueue(const&)` counts one owner more of the task and of no other,
  -- modulo 2 ^ 32, and `enqueue(&&)` leaves the counts, if the task is not null and not in the queue.
  pub counter-enqueue :
      ((enqueue p m s).0.counter ≡ update m.counter p ((m.counter p + 1) % 2 ^ 32))
      × ((enqueue_move p m s).0.counter ≡ m.counter)
  counter-enqueue = (
    (enqueue-Enqueued v.stack p pos absent).counts
        ∙ (rw here refl)
        ∙ ap (λ c. update c p ((c p + 1) % 2 ^ 32)) (link_tail-mem p m s).2,
    (enqueue_move-Enqueued v.stack p pos absent).counts ∙ (link_tail-mem p m s).2,
  )
    where
      here : (p == null) ≡ false
      here = ground arith
