-- ===== src/Skiplist/Half/Steal.antt =====
-- What `dequeue_half` gives: two queues in a good state, one behind the other.
use tythread.Base.{
  ℕ, zero, suc, ◌+◌, ◌-◌, ◌*◌, ◌/◌, ◌^◌, ◌≤◌, ◌<◌, ◌==◌, true, ◌≡◌, refl, sym, ap, ap₂, ◌∙◌, inl,
  inr, arith, Ptr, ◌∷◌, ◌++◌, Option, none, some, null, subst,
}
use tythread.Skiplist.{Layer, Mem, Skiplist, n_layers, skip_gap, row, contents, size}
use tythread.Skiplist.Half.{Upper, Half, normal, dequeue_half, find_split, split_tasks, split_layer}
use tythread.Skiplist.Half.Cuts.{cuts}
use tythread.Skiplist.Half.Candidate.{mid_of}
use tythread.Skiplist.Half.Plan.{Plan, Splits}
use tythread.Skiplist.Half.Split.{half_state, split_layer-Splits, split_tasks-Splits}
use tythread.Skiplist.Half.Search.{NoneFull, search_Found}
use tythread.Skiplist.Half.Single.{top_of}
use tythread.Skiplist.Stack.{IsStack, IsValid, slice, contents-slice}

-- The outcome `out` of a division of the queue `s`: first the stolen queue, then what is left.
pub record IsHalved (m : Mem) (s : Skiplist) (out : Option Skiplist × Skiplist × Mem) : Type 0 where
  pub stolen : Skiplist
  pub is_stolen : out.0 ≡ some stolen
  pub stolen_valid : IsValid out.2 stolen
  pub rest_valid : IsValid out.2 out.1
  pub order : contents m s ≡ contents out.2 stolen ++ contents out.2 out.1
  pub progress : 0 < size stolen
  pub counters : out.2.counter ≡ m.counter

slice-++ : (f : ℕ → Ptr) (h n k : ℕ) → slice f h (n + k) ≡ slice f h n ++ slice f (h + n) k
unfolding slice
slice-++ f h zero k =
    let e : h ≡ h + 0 = omega arith in
    let e' : 0 + k ≡ k = omega arith in ap₂ (λ a b. slice f a b) e e'
slice-++ f h (suc n) k =
    let e : suc n + k ≡ suc (n + k) = omega arith in
    let e' : suc h + n ≡ h + suc n = omega arith in
    ap (slice f h) e
    ∙ ap (λ xs. f h ∷ xs) (slice-++ f (suc h) n k ∙ ap (λ a. slice f (suc h) n ++ slice f a k) e')

module _ {m : Mem} {s : Skiplist} {at : ℕ → ℕ → Ptr} {out : Option Skiplist × Skiplist × Mem}
    (stack : IsStack m s at) (splits : Splits m s at out) where
  pub Splits-order : contents m s ≡ contents out.2 splits.stolen ++ contents out.2 out.1
  Splits-order =
      let first = splits.stolen.tail_off - splits.stolen.head_off in
      let second = out.1.tail_off - out.1.head_off in
      let total : s.tail_off - s.head_off ≡ first + second =
        omega (arith, splits.starts, splits.joins, splits.ends, splits.takes, splits.leaves) in
      let behind : s.head_off + first ≡ out.1.head_off =
        omega (arith, splits.starts, splits.joins, splits.takes) in
      contents-slice stack
      ∙ ap (slice (at 0) s.head_off) total
      ∙ slice-++ (at 0) s.head_off first second
      ∙ ap₂ (λ a b. a ++ b)
          (ap (λ h. slice (at 0) h first) (sym splits.starts) ∙ sym (contents-slice splits.front))
          (ap (λ h. slice (at 0) h second) behind ∙ sym (contents-slice splits.back))

  Splits-IsHalved : IsHalved m s out
  unfolding size
  Splits-IsHalved = record {
    stolen = splits.stolen;
    is_stolen = splits.is_stolen;
    stolen_valid = record { at = at; stack = splits.front };
    rest_valid = record { at = at; stack = splits.back };
    order = Splits-order;
    progress = omega (arith, splits.starts, splits.joins, splits.takes);
    counters = splits.counts;
  }

-- The rows shrink by the gap from each to the next, so that few tasks leave the last without a full
-- group.
row_small :
    {m : Mem} {s : Skiplist} {at : ℕ → ℕ → Ptr} (i : ℕ)
    → IsStack m s at
    → i < n_layers
    → ((s.layers i).tail_off - (s.layers i).head_off) * skip_gap
      ≤ (row s i).tail_off - (row s i).head_off
row_small i stack le = omega (arith, (stack.links i le).groups)

last_NoneFull :
    {m : Mem} {s : Skiplist} {at : ℕ → ℕ → Ptr}
    → IsStack m s at
    → size s < 2 ^ 30
    → NoneFull (row s n_layers)
unfolding size
last_NoneFull stack small = omega (
  arith,
  row_small 0 stack (omega arith),
  row_small 1 stack (omega arith),
  row_small 2 stack (omega arith),
  row_small 3 stack (omega arith),
)

Plan-Splits :
    {m : Mem} {s : Skiplist} {at : ℕ → ℕ → Ptr} (stack : IsStack m s at) {ls : ℕ → Layer}
    {res : Option Skiplist} {u : Upper} {down : Ptr} (top : ℕ)
    → Plan s at top ls res u down
    → Splits m s at (elim (top_of top) [
      | none ↦ split_tasks m (half_state s ls res u down)
      | some i ↦ split_layer m (half_state s ls res u down) i
    ])
Plan-Splits {s = s} stack zero plan = split_tasks-Splits stack plan (
    cuts stack 0 (mid_of (row s 0)) plan.top_le (omega (arith, plan.filled))
      (omega (arith, plan.filled)))
Plan-Splits {s = s} stack (suc i) plan = split_layer-Splits stack i plan (
    cuts stack (suc i) (mid_of (row s (suc i))) plan.top_le (omega (arith, plan.filled))
      (omega (arith, plan.filled)))

-- The branch that the search chooses.
branch :
    (m : Mem) (s : Skiplist) (out : Half × Option ℕ)
    → find_split m n_layers (half_state s s.layers none normal null) ≡ out
    → dequeue_half m s
      ≡ (elim out.1 [ none ↦ split_tasks m out.0 | some i ↦ split_layer m out.0 i ])
unfolding dequeue_half
branch m s out e = ap (λ o. elim o.1 [ none ↦ split_tasks m o.0 | some i ↦ split_layer m o.0 i ]) e

pub dequeue_half-Splits :
    {m : Mem} {s : Skiplist} {at : ℕ → ℕ → Ptr}
    → IsStack m s at
    → 0 < size s
    → size s < 2 ^ 30
    → Splits m s at (dequeue_half m s)
unfolding size
dequeue_half-Splits {m} {s} {at} stack some_task small =
    elim (search_Found stack n_layers (omega arith) (last_NoneFull stack small)
      (λ j a b. absurd (omega arith))) [
        | inl found ↦
            subst (Splits m s at) (sym (branch m s _ found.is_out))
              (Plan-Splits stack found.top found.plan)
        | inr (bare, _) ↦ absurd (omega arith)
      ]

-- On a queue in a good state, with at least one task and fewer than 2 ^ 30, `dequeue_half` returns a
-- queue: both are in a good state, the tasks returned are a first part of the tasks that were there,
-- at least one, and all others stay, in order; no reference count changes.
pub dequeue_half-IsHalved :
    {m : Mem} {s : Skiplist}
    → IsValid m s
    → 0 < size s
    → size s < 2 ^ 30
    → IsHalved m s (dequeue_half m s)
dequeue_half-IsHalved v some_task small =
    Splits-IsHalved v.stack (dequeue_half-Splits v.stack some_task small)

bare_tasks :
    {m : Mem} {s : Skiplist}
    → s.tail_off - s.head_off ≡ 0
    → split_tasks m (half_state s s.layers none normal null) ≡ (none, s, m)
unfolding split_tasks
bare_tasks {m} {s} bare =
    let keep : (((s.tail_off - s.head_off + 1) / 2) == 0) ≡ true = ground (arith, bare) in
    rw keep refl

-- On an empty queue in a good state `dequeue_half` returns null and changes nothing.
pub dequeue_half-empty :
    {m : Mem} {s : Skiplist} → IsValid m s → size s ≡ 0 → dequeue_half m s ≡ (none, s, m)
unfolding size
dequeue_half-empty {m} {s} v bare =
    elim (search_Found v.stack n_layers (omega arith) (last_NoneFull v.stack (omega arith))
      (λ j a b. absurd (omega arith))) [
        | inl found ↦
            (let splits = Plan-Splits v.stack found.top found.plan in
              absurd (omega (arith, splits.takes, splits.leaves)))
        | inr (_, e) ↦ branch m s _ e ∙ bare_tasks bare
      ]
