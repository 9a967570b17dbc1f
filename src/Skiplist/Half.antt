-- ===== src/Skiplist/Half.antt =====
-- `dequeue_half` of Skiplist.hh: the first half of the queue becomes a queue of its own.
pub mod Candidate
pub mod Carved
pub mod Cuts
pub mod Divided
pub mod Plan
pub mod Search
pub mod Single
pub mod Slow
pub mod Split
pub mod Steal
use tythread.Base.{
  ℕ, zero, suc, ◌+◌, ◌-◌, ◌*◌, ◌/◌, ◌%◌, Bool, true, false, Option, none, some, ltb, leb, ◌==◌,
  if◌then◌else◌, Ptr, null, update,
}
use tythread.Skiplist.{
  skip_gap, n_layers, Layer, Mem, Skiplist, empty, row, cleanup, moved_from, set_next,
  set_next_node, dequeue, enqueue_move,
}

pub data Upper : Type 0 where
  upper_cleanuped single_node_preserved normal : Upper

-- The locals of `dequeue_half`, with this queue.
pub record Half : Type 0 where
  pub this : Skiplist
  pub res : Option Skiplist
  pub upper_state : Upper
  pub that_down_node : Ptr

abbrev pub or_new : Option Skiplist → Skiplist
or_new none = empty
or_new (some r) = r

-- What the single node of layer i becomes. Its row below begins with the node's group and ends one
-- short of a second group: then the node goes to `res`. Otherwise it is dropped.
pub single_node : Mem → ℕ → Half → Half
single_node m i h =
    let s = h.this in
    let l = s.layers i in
    let down = (m.node l.head_node).down_node in
    if (if down == (row s i).head_node
      then (row s i).tail_off - (row s i).head_off == 2 * skip_gap - 1
      else false)
    then record {
      this = record s { layers = update s.layers i (moved_from l) };
      res = some (record empty { layers = update empty.layers i l });
      upper_state = single_node_preserved;
      that_down_node = h.that_down_node;
    }
    else record {
      this = record s { layers = update s.layers i (cleanup l) };
      res = h.res;
      upper_state = upper_cleanuped;
      that_down_node = down;
    }

-- The search from the top for a layer with two nodes; `none` is -1.
pub find_split : Mem → ℕ → Half → Half × Option ℕ
find_split m zero h = (h, none)
find_split m (suc i) h =
    let sz = (h.this.layers i).tail_off - (h.this.layers i).head_off in
    let rest = find_split m i (if sz == 1 then single_node m i h else h) in
    if ltb 1 sz then (h, some i) else rest

-- `ROUND_DOWN_IF_NOT_MULLIPLE`; `none` is -1.
abbrev round_down : ℕ → Option ℕ
round_down n = if n % skip_gap == 0 then none else some (n - n % skip_gap)

-- Whether the candidate stands among the first `give`.
abbrev candidate_goes : Option ℕ → ℕ → ℕ → Bool
candidate_goes none head_off give = false
candidate_goes (some p) head_off give = if leb head_off p then ltb p (head_off + give) else false

-- The candidates of `res` and of this queue in the row that is split.
pub hand_candidate : Upper → Ptr → (mine theirs : Layer) → ℕ → Layer × Layer
hand_candidate upper_cleanuped down mine theirs give = (mine, record theirs { candidate = down })
hand_candidate single_node_preserved down mine theirs give = (mine, theirs)
hand_candidate normal down mine theirs give =
    if candidate_goes (round_down mine.tail_off) mine.head_off give
    then (record mine { candidate = null }, record theirs { candidate = mine.candidate })
    else (mine, theirs)

-- `n` steps along a chain.
pub hop : ℕ → (Ptr → Ptr) → Ptr → Ptr
hop zero next p = p
hop (suc n) next p = hop n next (next p)

-- How many of the row below go with `give` nodes, where that row begins at `head_off`.
abbrev give_below : ℕ → ℕ → ℕ
give_below give head_off = (1 + give) * skip_gap - (head_off + skip_gap - 1) % skip_gap - 1

-- The state of the second loop.
pub record Carve : Type 0 where
  pub mem : Mem
  pub mine : ℕ → Layer
  pub theirs : ℕ → Layer
  pub cur : Ptr
  pub give : ℕ

-- Where the row below layer i begins: `tmp_head_off`.
abbrev pub below_off : ℕ → (ℕ → Layer) → ℕ → ℕ
below_off base_off ls zero = base_off
below_off base_off ls (suc i) = (ls i).head_off

-- One round: layer i is cut behind `cur`.
pub cut_layer : ℕ → ℕ → Carve → Carve
cut_layer base_off i c =
    let l = c.mine i in
    record {
      mem = set_next_node c.mem c.cur null;
      mine =
          update c.mine i
            (record l { head_node = (c.mem.node c.cur).next_node; head_off = l.head_off + c.give });
      theirs = update c.theirs i (record (c.theirs i) {
        head_node = l.head_node;
        tail_node = c.cur;
        head_off = l.head_off;
        tail_off = l.head_off + c.give;
      });
      cur = (c.mem.node c.cur).last_down_node;
      give = give_below c.give (below_off base_off c.mine i);
    }

-- The loop from layer i - 1 down; `base_off` is the queue's own `head_off`.
pub carve : ℕ → ℕ → Carve → Carve
carve base_off zero c = c
carve base_off (suc i) c = carve base_off i (cut_layer base_off i c)

-- The raw list is cut behind `cur`, its first `give` tasks go.
pub cut_tasks : Mem → Ptr → ℕ → Skiplist → Skiplist → Option Skiplist × Skiplist × Mem
cut_tasks m cur give this res = (
  some (record res {
    head = this.head;
    tail = cur;
    head_off = this.head_off;
    tail_off = this.head_off + give;
  }),
  record this { head = m.next cur; head_off = this.head_off + give },
  set_next m cur null,
)

-- The branch for a layer with two nodes or more.
pub split_layer : Mem → Half → ℕ → Option Skiplist × Skiplist × Mem
unfolding hand_candidate hop carve cut_layer cut_tasks
split_layer m h i =
    let s = h.this in
    let r = or_new h.res in
    let l = s.layers i in
    let give = (l.tail_off - l.head_off + 1) / 2 in
    let (mine, theirs) = hand_candidate h.upper_state h.that_down_node l (r.layers i) give in
    let c = carve s.head_off (suc i) (record {
      mem = m;
      mine = update s.layers i mine;
      theirs = update r.layers i theirs;
      cur = hop (give - 1) (λ a. (m.node a).next_node) l.head_node;
      give = give;
    }) in
    cut_tasks c.mem c.cur c.give (record s { layers = c.mine }) (record r { layers = c.theirs })

-- The branch for a queue with no such layer.
pub split_tasks : Mem → Half → Option Skiplist × Skiplist × Mem
unfolding hand_candidate hop cut_tasks
split_tasks m h =
    let s = h.this in
    let give = (s.tail_off - s.head_off + 1) / 2 in
    if give == 0
    then (none, s, m)
    else (let r = or_new h.res in
        let (mine, theirs) =
          hand_candidate h.upper_state h.that_down_node (row s 0) (row r 0) give in
        cut_tasks m (hop (give - 1) m.next s.head) give (record s { candidate = mine.candidate })
          (record r { candidate = theirs.candidate }))

-- The stolen queue, what is left of this one, and the memory.
unfoldable pub dequeue_half : Mem → Skiplist → Option Skiplist × Skiplist × Mem
unfolding find_split single_node split_layer split_tasks
dequeue_half m s =
    let (h, split) =
      find_split m n_layers
        (record { this = s; res = none; upper_state = normal; that_down_node = null }) in
    elim split [ none ↦ split_tasks m h | some i ↦ split_layer m h i ]

-- The loop of `dequeue_half_`: n tasks go to the queue `res`, one by one.
pub give_tasks : ℕ → Mem → Skiplist → Skiplist → Skiplist × Skiplist × Mem
unfolding dequeue enqueue_move
give_tasks zero m s res = (res, s, m)
give_tasks (suc n) m s res =
    let (p, m', s') = dequeue m s in
    let (m'', res') = enqueue_move p m' res in give_tasks n m'' s' res'

-- `dequeue_half_`, with results as `dequeue_half`.
unfoldable pub dequeue_half_slow : Mem → Skiplist → Option Skiplist × Skiplist × Mem
unfolding give_tasks
dequeue_half_slow m s =
    let (res, s', m') = give_tasks ((s.tail_off - s.head_off + 1) / 2) m s empty in
    if s.head == null then (none, s, m) else (some res, s', m')
