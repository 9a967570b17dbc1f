-- ===== src/Skiplist/Updated.antt =====
-- `_update_after_enque` makes the linked task the last of the queue.
use tythread.Base.{
  ℕ, zero, suc, ◌+◌, ◌-◌, ◌%◌, ◌≤◌, ◌<◌, ◌≡◌, refl, sym, ap, ◌∙◌, subst, inl, inr, ◌≢◌, ◌==◌,
  if◌then◌else◌, arith, Ptr, null, update, update-ne, update_self, eq_cases, false, Bool-cases, [],
  ◌∷◌, ◌++◌,
}
use tythread.Skiplist.{Mem, Skiplist, n_layers, skip_gap, update_after_enqueue, contents}
use tythread.Skiplist.Row.{push-cand, cand_start}
use tythread.Skiplist.Stack.{IsStack, slice, contents-slice}
use tythread.Skiplist.Linked.{linked-IsLagging, linked-IsStack, linked_at}
use tythread.Skiplist.Frame.{In, Touches, Within, Touches-trans, Within-trans}
use tythread.Skiplist.Grown.{grow-Grown, open_group}

slice-push :
    (f g : ℕ → Ptr) (n h : ℕ) (p : Ptr)
    → ((q : ℕ) → h ≤ q → q < h + n → g q ≡ f q)
    → g (h + n) ≡ p
    → slice g h (suc n) ≡ slice f h n ++ p ∷ []
unfolding slice
slice-push f g zero h p same end = ap (λ x. x ∷ []) (ap g (omega arith) ∙ end)
slice-push f g (suc n) h p same end =
    let shift : suc h + n ≡ h + suc n = omega arith in
    let rest =
      slice-push f g n (suc h) p (λ q x y. same q (omega arith) (omega arith)) (ap g shift ∙ end) in
    rw (same h (omega arith) (omega arith)) (ap (λ l. f h ∷ l) rest)

-- The raw list with one more task, before its offset moves.
abbrev pub with_last : Ptr → Skiplist → Skiplist
with_last p s = record s { head = if s.head == null then p else s.head; tail = p }

-- The outcome: the rows are in order, and `p` is the last task.
pub record Enqueued (m mid m' : Mem) (s' : Skiplist) (s : Skiplist) (at : ℕ → ℕ → Ptr) (p : Ptr)
    : Type 0 where
  pub at' : ℕ → ℕ → Ptr
  pub stack : IsStack m' s' at'
  pub head_same : s'.head_off ≡ s.head_off
  pub tail_more : s'.tail_off ≡ suc s.tail_off
  pub counts : m'.counter ≡ mid.counter
  pub tasks : (q : ℕ) → at' 0 q ≡ update (at 0) s.tail_off p q
  pub touches : Touches m m' s at p
  pub within : Within m s at s' at' p

module _ {m : Mem} {s : Skiplist} {at : ℕ → ℕ → Ptr} (stack : IsStack m s at) (p : Ptr) where
  -- ... and the list of tasks is longer by `p`.
  pub Enqueued-contents :
      {mid m' : Mem} {s' : Skiplist} (done : Enqueued m mid m' s' s at p)
      → contents m' s' ≡ contents m s ++ p ∷ []
  Enqueued-contents {m'} {s'} done =
      let base = stack.rows 0 (omega arith) in
      let long : s'.tail_off - s'.head_off ≡ suc (s.tail_off - s.head_off) =
        omega (arith, done.head_same, done.tail_more, base.order) in
      rw (contents-slice done.stack, contents-slice stack, long, done.head_same)
        (slice-push (at 0) (done.at' 0) (s.tail_off - s.head_off) s.head_off p
          (λ q x y. done.tasks q ∙ update-ne (at 0) s.tail_off q p (omega arith))
          (done.tasks _
            ∙ ap (update (at 0) s.tail_off p) (omega (arith, base.order))
            ∙ update_self (at 0) s.tail_off p))

module _ {m : Mem} {s : Skiplist} {at : ℕ → ℕ → Ptr} (stack : IsStack m s at) (p : Ptr) (m' : Mem)
    (pos : 0 < p) (new : (q : ℕ) → s.head_off ≤ q → q < s.tail_off → at 0 q ≢ p)
    (en : m'.node ≡ m.node) (ef : m'.fresh ≡ m.fresh) (end : m'.next p ≡ null)
    (joint : s.head_off < s.tail_off → m'.next (at 0 (s.tail_off - 1)) ≡ p)
    (same : (q : ℕ) → s.head_off ≤ q → suc q < s.tail_off → m'.next (at 0 q) ≡ m.next (at 0 q))
    (written : (a : Ptr) → ¬ In s at 0 a → a ≢ p → m'.next a ≡ m.next a) where
  linked-Touches : Touches m m' s at p
  linked-Touches = record {
    next = written;
    node = λ a old off. ap (λ n. n a) en;
    fresh = omega (arith, ef);
  }

  -- The queue with the new task, whatever its candidate.
  linked-Within :
      {s' : Skiplist}
      → s'.head_off ≡ s.head_off
      → s'.tail_off ≡ suc s.tail_off
      → s'.layers ≡ s.layers
      → Within m s at s' (linked_at at s.tail_off p) p
  linked-Within {s'} eh et el = record {
    task = λ a (q, x, y, e). elim (eq_cases q s.tail_off) [
      | inl (_, top) ↦
          inr (sym e ∙ ap (update (at 0) s.tail_off p) top ∙ update_self (at 0) s.tail_off p)
      | inr (_, ne) ↦
          inl (q, omega arith, omega arith, sym (update-ne (at 0) s.tail_off q p ne) ∙ e)
    ];
    node = λ j a h (q, x, y, e).
        inl (q, subst (λ ls. (ls j).head_off ≤ q) el x, subst (λ ls. q < (ls j).tail_off) el y, e);
  }

  pub update-Enqueued :
      Enqueued m m'
        (update_after_enqueue m' (with_last p s)).0
        (update_after_enqueue m' (with_last p s)).1
        s
        at
        p
  unfolding update_after_enqueue
  update-Enqueued =
      let base = stack.rows 0 (omega arith) in
      let cand = push-cand base p in
      let gap =
        λ (h : (if s.candidate == null then false else (s.tail_off + 1) % skip_gap == 0) ≡ false).
          open_group base h in
      elim (Bool-cases (if s.candidate == null then false else (s.tail_off + 1) % skip_gap == 0)) [
        | inl full ↦ rw full (
            let s' : Skiplist = record (with_last p s) {
              tail_off = s.tail_off + 1;
              candidate = null;
            } in
            let start = cand_start base (ground arith) in
            let grown =
              grow-Grown n_layers 0 refl p s.candidate p m' s' (linked_at at s.tail_off p)
                (linked-IsLagging stack p m' s' pos new en ef end joint same refl refl (omega arith)
                  refl refl (ground arith))
                (ground (arith, start)) (ground arith) (ground arith) (ground (arith, start)) in
            record {
              at' = grown.at';
              stack = grown.stack;
              head_same = refl;
              tail_more = omega arith;
              counts = grown.same_counter;
              tasks = λ q. grown.same_at q;
              touches =
                  Touches-trans linked-Touches (linked-Within refl (omega arith) refl)
                    grown.touches;
              within =
                  Within-trans linked-Touches (linked-Within refl (omega arith) refl) grown.within;
            })
        | inr open_end ↦
            (rw (open_end, update_after_enqueue)
              (elim (Bool-cases ((s.tail_off + 1) % skip_gap == 1)) [
                | inl starts ↦ rw starts (record {
                  at' = linked_at at s.tail_off p;
                  stack =
                      linked-IsStack stack p m'
                        (record (with_last p s) { tail_off = s.tail_off + 1; candidate = p }) pos
                        new en ef end joint same refl refl (omega arith) refl refl
                        (ground (arith, cand)) (gap open_end);
                  head_same = refl;
                  tail_more = omega arith;
                  counts = refl;
                  tasks = λ q. refl;
                  touches = linked-Touches;
                  within = linked-Within refl (omega arith) refl;
                })
                | inr inside ↦ rw inside (record {
                  at' = linked_at at s.tail_off p;
                  stack =
                      linked-IsStack stack p m'
                        (record (with_last p s) { tail_off = s.tail_off + 1 }) pos new en ef end
                        joint same refl refl (omega arith) refl refl (ground (arith, cand))
                        (gap open_end);
                  head_same = refl;
                  tail_more = omega arith;
                  counts = refl;
                  tasks = λ q. refl;
                  touches = linked-Touches;
                  within = linked-Within refl (omega arith) refl;
                })
              ]))
      ]
