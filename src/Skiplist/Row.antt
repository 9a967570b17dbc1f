-- ===== src/Skiplist/Row.antt =====
-- One row of the queue: a chain of nodes, with the offsets of its first node and of its end.
use tythread.Base.{
  ℕ, suc, ◌+◌, ◌-◌, ◌*◌, ◌/◌, ◌%◌, ◌≤◌, ◌<◌, ◌≡◌, ap, ◌↔◌, inl, inr, ◌≢◌, false, arith, ltb, ◌==◌,
  if◌then◌else◌, Ptr, null, update, lt_cases,
}
use tythread.Skiplist.{Layer, skip_gap}

-- Where the last group of a row begins that is not full, if its first node is there.
abbrev pub cand_of : (ℕ → Ptr) → ℕ → ℕ → Ptr
cand_of f h t =
    if t % skip_gap == 0
    then null
    else if ltb (t / skip_gap * skip_gap) h
    then null
    else f (t / skip_gap * skip_gap)

-- The row has the nodes `f p`, for each offset p from `head_off` below `tail_off`.
pub record Row (f : ℕ → Ptr) (next : Ptr → Ptr) (r : Layer) : Type 0 where
  pub order : r.head_off ≤ r.tail_off
  pub real : (p : ℕ) → r.head_off ≤ p → p < r.tail_off → 0 < f p
  pub once :
      (p q : ℕ)
      → r.head_off ≤ p
      → p < r.tail_off
      → r.head_off ≤ q
      → q < r.tail_off
      → f p ≡ f q
      → p ≡ q
  pub first : r.head_node ≡ (if ltb r.head_off r.tail_off then f r.head_off else null)
  pub last : r.head_off < r.tail_off → r.tail_node ≡ f (r.tail_off - 1)
  pub chain :
      (p : ℕ)
      → r.head_off ≤ p
      → p < r.tail_off
      → next (f p) ≡ (if ltb (suc p) r.tail_off then f (suc p) else null)
  pub waits : r.candidate ≡ cand_of f r.head_off r.tail_off

module _ {f : ℕ → Ptr} {next : Ptr → Ptr} {r : Layer} (row : Row f next r) where
  pub first-null : (r.head_node ≡ null) ↔ (r.tail_off ≤ r.head_off)
  first-null = (λ e. ground (arith, row.first, row.real r.head_off), λ e. ground (arith, row.first))

  -- The row with one more node.
  pub Row-push :
      (x : Ptr) (next' : Ptr → Ptr) (r' : Layer)
      → 0 < x
      → ((p : ℕ) → r.head_off ≤ p → p < r.tail_off → f p ≢ x)
      → next' x ≡ null
      → (r.head_off < r.tail_off → next' (f (r.tail_off - 1)) ≡ x)
      → ((p : ℕ) → r.head_off ≤ p → suc p < r.tail_off → next' (f p) ≡ next (f p))
      → r'.head_off ≡ r.head_off
      → r'.tail_off ≡ suc r.tail_off
      → r'.head_node ≡ (if r.head_node == null then x else r.head_node)
      → r'.tail_node ≡ x
      → r'.candidate ≡ cand_of (update f r.tail_off x) r.head_off (suc r.tail_off)
      → Row (update f r.tail_off x) next' r'
  Row-push x next' r' pos new end joint same eh et ef el ec = record {
    order = omega (arith, row.order);
    real = λ p a b. ground (arith, row.real p);
    once = λ p q a b c d e. ground (arith, row.once p q, new p, new q);
    first = ground (arith, row.first, row.order, row.real r.head_off);
    last = λ h. ground arith;
    chain = λ p a b. elim (lt_cases p (r.tail_off - 1)) [
      | inl i ↦ ground (arith, row.chain p, same p)
      | inr j ↦ elim (lt_cases p r.tail_off) [
        | inl k ↦ (let here : p ≡ r.tail_off - 1 = omega arith in rw here (ground arith))
        | inr k ↦ (let here : p ≡ r.tail_off = omega arith in rw here (ground arith))
      ]
    ];
    waits = ground arith;
  }

  -- The rows before and behind a cut at offset n.
  pub Row-front :
      (n : ℕ) (next' : Ptr → Ptr) (r' : Layer)
      → r.head_off < n
      → n ≤ r.tail_off
      → next' (f (n - 1)) ≡ null
      → ((p : ℕ) → r.head_off ≤ p → suc p < n → next' (f p) ≡ next (f p))
      → r'.head_off ≡ r.head_off
      → r'.tail_off ≡ n
      → r'.head_node ≡ r.head_node
      → r'.tail_node ≡ f (n - 1)
      → r'.candidate ≡ cand_of f r.head_off n
      → Row f next' r'
  Row-front n next' r' above below end same eh et ef el ec = record {
    order = omega arith;
    real = λ p a b. row.real p (omega arith) (omega arith);
    once = λ p q a b c d e. row.once p q (omega arith) (omega arith) (omega arith) (omega arith) e;
    first = ground (arith, row.first);
    last = λ h. ground arith;
    chain = λ p a b. elim (lt_cases (suc p) n) [
      | inl i ↦ ground (arith, row.chain p, same p)
      | inr j ↦ (let here : p ≡ n - 1 = omega arith in rw here (ground arith))
    ];
    waits = ground arith;
  }

  pub Row-back :
      (n : ℕ) (next' : Ptr → Ptr) (r' : Layer)
      → r.head_off < n
      → n ≤ r.tail_off
      → ((p : ℕ) → n ≤ p → p < r.tail_off → next' (f p) ≡ next (f p))
      → r'.head_off ≡ n
      → r'.tail_off ≡ r.tail_off
      → r'.head_node ≡ next (f (n - 1))
      → r'.tail_node ≡ r.tail_node
      → r'.candidate ≡ cand_of f n r.tail_off
      → Row f next' r'
  Row-back n next' r' above below same eh et ef el ec = record {
    order = omega arith;
    real = λ p a b. row.real p (omega arith) (omega arith);
    once = λ p q a b c d e. row.once p q (omega arith) (omega arith) (omega arith) (omega arith) e;
    first =
        (let here : suc (n - 1) ≡ n = omega arith in ground (arith, row.chain (n - 1), ap f here));
    last = λ h. ground (arith, row.last);
    chain = λ p a b. ground (arith, row.chain p, same p);
    waits = ground arith;
  }

  -- What does not touch the nodes of the row keeps it.
  pub Row-frame :
      (f' : ℕ → Ptr) (next' : Ptr → Ptr)
      → ((p : ℕ) → r.head_off ≤ p → p < r.tail_off → f' p ≡ f p)
      → ((p : ℕ) → r.head_off ≤ p → p < r.tail_off → next' (f p) ≡ next (f p))
      → Row f' next' r
  Row-frame f' next' here same = record {
    order = row.order;
    real = λ p a b. ground (arith, here p, row.real p);
    once = λ p q a b c d e. ground (arith, here p, here q, row.once p q);
    first = ground (arith, row.first, here r.head_off);
    last = λ h. ground (arith, row.last, here (r.tail_off - 1));
    chain = λ p a b. ground (arith, row.chain p, here p, here (suc p), same p);
    waits = ground (arith, row.waits, here (r.tail_off / skip_gap * skip_gap));
  }

  -- The candidate behind a push, on the three branches of the code.
  pub push-cand :
      (x : Ptr)
      → (if (if r.candidate == null then false else (r.tail_off + 1) % skip_gap == 0)
          then null
          else if (r.tail_off + 1) % skip_gap == 1
          then x
          else r.candidate)
        ≡ cand_of (update f r.tail_off x) r.head_off (suc r.tail_off)
  push-cand x = ground (arith, row.waits, row.order, row.real (r.tail_off / skip_gap * skip_gap))

  -- A candidate that is there begins the last group.
  pub cand_start :
      r.candidate ≢ null
      → (r.candidate ≡ f (r.tail_off / skip_gap * skip_gap))
        × (r.head_off ≤ r.tail_off / skip_gap * skip_gap)
        × (r.tail_off / skip_gap * skip_gap < r.tail_off)
  cand_start h = ground (arith, row.waits)

  -- The candidate behind a pop.
  pub pop-cand :
      r.head_off < r.tail_off
      → (if r.head_node == r.candidate then null else r.candidate)
        ≡ cand_of f (suc r.head_off) r.tail_off
  pop-cand h = ground (
    arith,
    row.waits,
    row.first,
    row.real r.head_off,
    row.once r.head_off (r.tail_off / skip_gap * skip_gap),
  )

-- A row with no node.
pub record IsEmpty (r : Layer) : Type 0 where
  pub ends : r.head_off ≡ r.tail_off
  pub no_head : r.head_node ≡ null
  pub no_candidate : r.candidate ≡ null

pub Row-empty : {r : Layer} (f : ℕ → Ptr) (next : Ptr → Ptr) → IsEmpty r → Row f next r
Row-empty {r} f next e = record {
  order = omega (arith, e.ends);
  real = λ p a b. absurd (omega (arith, e.ends));
  once = λ p q a b c d x. absurd (omega (arith, e.ends));
  first = ground (arith, e.ends, e.no_head);
  last = λ h. absurd (omega (arith, e.ends));
  chain = λ p a b. absurd (omega (arith, e.ends));
  waits = ground (arith, e.ends, e.no_candidate);
}

pub Row-IsEmpty :
    {r : Layer} {f : ℕ → Ptr} {next : Ptr → Ptr}
    → Row f next r
    → r.tail_off ≤ r.head_off
    → IsEmpty r
Row-IsEmpty {r} row h = record {
  ends = omega (arith, row.order);
  no_head = (first-null row).1 h;
  no_candidate = ground (arith, row.waits);
}
