-- ===== src/Skiplist.antt =====
-- The run queue, Skiplist.hh: an intrusive list of tasks under layers of skip nodes.
pub mod Dequeue
pub mod Destroy
pub mod Divide
pub mod Shrink
pub mod Enqueue
pub mod Fill
pub mod Frame
pub mod Grow
pub mod Grown
pub mod Half
pub mod Link
pub mod Linked
pub mod Popped
pub mod Pushed
pub mod Row
pub mod Stack
pub mod Tests
pub mod Updated
use tythread.Base.{
  ℕ, zero, suc, ◌+◌, ◌-◌, ◌%◌, ◌^◌, Bool, false, List, [], ◌∷◌, ltb, ◌==◌, if◌then◌else◌, Ptr, null,
  update,
}

-- `SkipGap` and `NLayers`: `dequeue_half` compiles for these defaults only.
abbrev pub skip_gap : ℕ
skip_gap = 64

abbrev pub n_layers : ℕ
n_layers = 4

pub record SkipNode : Type 0 where
  pub down_node : Ptr
  pub last_down_node : Ptr
  pub next_node : Ptr

pub record Layer : Type 0 where
  pub head_off : ℕ
  pub tail_off : ℕ
  pub head_node : Ptr
  pub tail_node : Ptr
  pub candidate : Ptr

-- What the queue's pointers lead to: the `next` and `counter__` of the tasks, the skip nodes, and
-- the next address that `make_unique<SkipNode>` gives.
pub record Mem : Type 0 where
  pub next : Ptr → Ptr
  pub counter : Ptr → ℕ
  pub node : Ptr → SkipNode
  pub fresh : Ptr

pub record Skiplist : Type 0 where
  pub layers : ℕ → Layer
  pub head : Ptr
  pub tail : Ptr
  pub candidate : Ptr
  pub head_off : ℕ
  pub tail_off : ℕ

abbrev pub empty_layer : Layer
empty_layer = record {
  head_off = 0;
  tail_off = 0;
  head_node = null;
  tail_node = null;
  candidate = null;
}

abbrev pub empty : Skiplist
empty = record {
  layers = λ _. empty_layer;
  head = null;
  tail = null;
  candidate = null;
  head_off = 0;
  tail_off = 0;
}

-- `Layer::cleanup`.
abbrev pub cleanup : Layer → Layer
cleanup l = record l { head_off = l.tail_off; head_node = null; tail_node = null; candidate = null }

-- `Layer::_handleMove`: the layer that was moved from keeps its offset. Its `headNode` is a
-- `unique_ptr`, so it is null afterwards.
abbrev pub moved_from : Layer → Layer
moved_from = cleanup

-- A row: the raw list, seen as a layer, below the layers.
abbrev pub row : Skiplist → ℕ → Layer
row s zero = record {
  head_off = s.head_off;
  tail_off = s.tail_off;
  head_node = s.head;
  tail_node = s.tail;
  candidate = s.candidate;
}
row s (suc i) = s.layers i

abbrev pub set_next : Mem → Ptr → Ptr → Mem
set_next m a v = record m { next = update m.next a v }

abbrev pub set_node : Mem → Ptr → SkipNode → Mem
set_node m a n = record m { node = update m.node a n }

abbrev pub set_next_node : Mem → Ptr → Ptr → Mem
set_next_node m a v = set_node m a (record (m.node a) { next_node = v })

-- `make_unique<SkipNode>()` with its two fields filled in.
abbrev new_node : Mem → Ptr → Ptr → Mem
new_node m cur last = record m {
  node =
      update m.node m.fresh (record { down_node = cur; last_down_node = last; next_node = null });
  fresh = m.fresh + 1;
}

-- A new last node in a layer, for `cur` to `last` of the row below.
pub append_node : Ptr → Ptr → Mem → Layer → Mem × Layer
append_node cur last m l =
    if l.head_node == null
    then (
      new_node m cur last,
      record l { head_node = m.fresh; tail_node = m.fresh; tail_off = l.tail_off + 1 },
    )
    else (
      set_next_node (new_node m cur last) l.tail_node m.fresh,
      record l { tail_node = m.fresh; tail_off = l.tail_off + 1 },
    )

-- The test at the end of a round: the layer's candidate begins a full group.
abbrev pub group_full : Layer → Bool
group_full l = if l.candidate == null then false else l.tail_off % skip_gap == 0

abbrev pub new_candidate : Layer → Layer
new_candidate l = if l.tail_off % skip_gap == 1 then record l { candidate = l.tail_node } else l

-- The loop of `_update_after_enque`, from layer i on, with the rounds that are left.
pub grow : ℕ → ℕ → Ptr → Ptr → Mem → (ℕ → Layer) → Mem × (ℕ → Layer)
grow zero i cur last m ls = (m, ls)
grow (suc k) i cur last m ls =
    let (m', l) = append_node cur last m (ls i) in
    let up =
      grow k (suc i) l.candidate l.tail_node m' (update ls i (record l { candidate = null })) in
    if group_full l then up else (m', update ls i (new_candidate l))

pub update_after_enqueue : Mem → Skiplist → Mem × Skiplist
unfolding grow append_node
update_after_enqueue m s =
    if (if s.candidate == null then false else (s.tail_off + 1) % skip_gap == 0)
    then (let (m', ls) = grow n_layers 0 s.candidate s.tail m s.layers in
        (m', record s { tail_off = s.tail_off + 1; candidate = null; layers = ls }))
    else if (s.tail_off + 1) % skip_gap == 1
    then (m, record s { tail_off = s.tail_off + 1; candidate = s.tail })
    else (m, record s { tail_off = s.tail_off + 1 })

-- The part of both `enqueue`s above the reference count: `p` becomes the last task.
pub link_tail : Ptr → Mem → Skiplist → Mem × Skiplist
link_tail p m s =
    if s.head == null
    then (set_next m p null, record s { head = p; tail = p })
    else (set_next (set_next m s.tail p) p null, record s { tail = p })

abbrev pub increase : Mem → Ptr → Mem
increase m p =
    if p == null then m else record m { counter = update m.counter p ((m.counter p + 1) % 2 ^ 32) }

-- `enqueue(DerivedRefPtr<T> const &)`: the queue counts as one more owner.
unfoldable pub enqueue : Ptr → Mem → Skiplist → Mem × Skiplist
unfolding link_tail update_after_enqueue
enqueue p m s = let (m', s') = link_tail p m s in update_after_enqueue (increase m' s'.tail) s'

-- `enqueue(DerivedRefPtr<T> &&)`: the caller's pointer is emptied, the count stays.
unfoldable pub enqueue_move : Ptr → Mem → Skiplist → Mem × Skiplist
unfolding link_tail update_after_enqueue
enqueue_move p m s = let (m', s') = link_tail p m s in update_after_enqueue m' s'

-- One round of the loop in `dequeue_`: the first node of a layer goes.
pub pop_node : Mem → Layer → Layer
pop_node m l = record l {
  candidate = if l.head_node == l.candidate then null else l.candidate;
  head_node = (m.node l.head_node).next_node;
  head_off = l.head_off + 1;
}

pub shrink : ℕ → ℕ → Mem → (ℕ → Layer) → ℕ → Layer
shrink zero i m ls = ls
shrink (suc k) i m ls =
    let ls' = update ls i (pop_node m (ls i)) in
    let up = shrink k (suc i) m ls' in
    if (ls' i).head_off % skip_gap == 1
    then (if ltb (suc i) n_layers
        then (if (ls' (suc i)).head_node == null then ls' else up)
        else ls')
    else ls'

-- `dequeue_`: null when there is no task.
unfoldable pub dequeue : Mem → Skiplist → Ptr × Mem × Skiplist
unfolding shrink pop_node
dequeue m s =
    if s.head == null
    then (null, m, s)
    else (let m' = set_next m s.head null in
        let s' = record s {
          head = m.next s.head;
          candidate = if s.head == s.candidate then null else s.candidate;
          head_off = s.head_off + 1;
        } in
        (
          s.head,
          m',
          record s' {
            layers =
                if s'.head_off % skip_gap == 1
                then (if (s.layers 0).head_node == null
                    then s.layers
                    else shrink n_layers 0 m' s.layers)
                else s.layers;
          },
        ))

unfoldable pub size : Skiplist → ℕ
size s = s.tail_off - s.head_off

-- `replace`: this queue takes all that `ptr` holds; the result is this and what is left of `ptr`.
unfoldable pub replace : Skiplist → Skiplist × Skiplist
replace ptr = (
  ptr,
  record {
    layers = λ i. moved_from (ptr.layers i);
    head = null;
    tail = null;
    candidate = null;
    head_off = 0;
    tail_off = 0;
  },
)

-- The tasks from `p` on, `n` at most, as the `next` pointers lead.
unfoldable pub walk : ℕ → (Ptr → Ptr) → Ptr → List Ptr
walk zero next p = []
walk (suc n) next p = if p == null then [] else p ∷ walk n next (next p)

-- The tasks in a queue, first to last.
unfoldable pub contents : Mem → Skiplist → List Ptr
unfolding walk
contents m s = walk (s.tail_off - s.head_off) m.next s.head
