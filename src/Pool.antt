-- ===== src/Pool.antt =====
-- The object pool, ObjectPool.hh: arenas of entries with a free list, stacked in layers.
pub mod Arena
pub mod Bits
pub mod Cached
pub mod Fresh
pub mod Growth
pub mod Mediator
pub mod Reclaim
pub mod Sizes
pub mod Tests
use tythread.Base.{
  not, Option, none, some, ℕ, zero, suc, ◌+◌, ◌-◌, ◌*◌, ◌/◌, ◌%◌, ◌^◌, Bool, true, false, ltb, leb,
  ◌==◌, if◌then◌else◌, Ptr, null, update,
}

-- The unions `FakeEntry`: the `next` of a free one. An entry takes `unit` bytes.
abbrev pub Entries : Type 0
Entries = Ptr → Ptr

pub record ObjectLayer : Type 0 where
  pub arena : Ptr
  pub arena_cap : ℕ
  pub head : Ptr
  pub used : ℕ

pub record PerLayerCache : Type 0 where
  pub head : Ptr
  pub tail : Ptr
  pub num_cached : ℕ

abbrev pub empty_cache : PerLayerCache
empty_cache = record { head = null; tail = null; num_cached = 0 }

pub data Released : Type 0 where
  not_here here_but_not_multiple not_in_use_after still_in_use_after : Released

abbrev pub slot : ℕ → Ptr → ℕ → Ptr
slot unit arena i = arena + i * unit

-- The loop of the constructor: entries i to i + n, the last of them without `next`.
pub link_entries : ℕ → Ptr → ℕ → ℕ → Entries → Entries
link_entries unit arena i zero next = update next (slot unit arena i) null
link_entries unit arena i (suc n) next =
    link_entries unit arena (suc i) n (update next (slot unit arena i) (slot unit arena (suc i)))

-- A new layer of `sz` entries in the array at `arena`.
unfoldable pub object_layer : ℕ → ℕ → Ptr → Entries → Entries × ObjectLayer
unfolding link_entries
object_layer unit sz arena next = (
  link_entries unit arena 0 (sz - 1) next,
  record { arena = arena; arena_cap = sz; head = arena; used = 0 },
)

-- `ObjectLayer::my_alloc`: null when no entry is free. `used` is a `size_t`.
unfoldable pub layer_alloc : Entries → ObjectLayer → Ptr × ObjectLayer
layer_alloc next l =
    if l.head == null
    then (null, l)
    else (l.head, record l { head = next l.head; used = (l.used + 1) % 2 ^ 64 })

abbrev pub in_use_after : ℕ → Released
in_use_after used = if used == 0 then not_in_use_after else still_in_use_after

-- `ObjectLayer::my_release(FakeEntry *)`.
unfoldable pub layer_release : ℕ → Ptr → Entries → ObjectLayer → Released × Entries × ObjectLayer
layer_release unit p next l =
    let used = (l.used + (2 ^ 64 - 1)) % 2 ^ 64 in
    if p == null
    then (in_use_after l.used, next, l)
    else if (if ltb p l.arena then true else leb (l.arena + l.arena_cap * unit) p)
    then (not_here, next, l)
    else if (p - l.arena) % unit == 0
    then (in_use_after used, update next p l.head, record l { head = p; used = used })
    else (here_but_not_multiple, next, l)

-- `ObjectLayer::my_release(PerLayerCache &)`: all entries of a cache at once.
unfoldable pub layer_release_cache :
    PerLayerCache → Entries → ObjectLayer → Released × Entries × ObjectLayer × PerLayerCache
layer_release_cache c next l =
    let used = (l.used + (2 ^ 64 - c.num_cached)) % 2 ^ 64 in
    (
      in_use_after used,
      update next c.tail l.head,
      record l { head = c.head; used = used },
      empty_cache,
    )

-- `ObjectPool::my_release` for an entry of another pool: it goes to the cache of that pool's layer.
unfoldable pub cache_push : Ptr → Entries → PerLayerCache → Entries × PerLayerCache
cache_push p next c =
    if c.tail == null
    then (next, record { head = p; tail = p; num_cached = c.num_cached + 1 })
    else (update next p c.head, record c { head = p; num_cached = c.num_cached + 1 })

-- `ObjectPool`: its layers, of which those above `current_layer` are null.
pub record ObjectPool : Type 0 where
  pub layers : ℕ → Option ObjectLayer
  pub current_layer : ℕ
  pub current_size : ℕ

abbrev pub is_in_use : Option ObjectLayer → Bool
is_in_use none = false
is_in_use (some l) = not (l.used == 0)

-- The loop that frees the layers below: `c` is `current_layer`.
pub sweep : ℕ → ℕ → ObjectPool → ObjectPool
sweep rate zero q = q
sweep rate (suc c) q =
    let lower = sweep rate c (record {
      layers = update q.layers (suc c) none;
      current_layer = c;
      current_size = q.current_size / rate;
    }) in
    if is_in_use (q.layers (suc c)) then q else lower

abbrev pub is_not_in_use : Released → Bool
is_not_in_use not_in_use_after = true
is_not_in_use still_in_use_after = false
is_not_in_use not_here = false
is_not_in_use here_but_not_multiple = false

unfoldable pub remove_layer_if_not_in_use : ℕ → ℕ → Released → ObjectPool → ObjectPool
unfolding sweep
remove_layer_if_not_in_use rate layer state q =
    if (if is_not_in_use state
      then (if ltb 0 layer then layer == q.current_layer else false)
      else false)
    then sweep rate (layer - 1) (record {
      layers = update q.layers layer none;
      current_layer = layer - 1;
      current_size = q.current_size / rate;
    })
    else q

-- `my_alloc` from the layers i, i - 1 and so on; null when they are full. With the address comes the
-- layer that it is tagged with.
pub alloc_from : ℕ → Entries → ObjectPool → Ptr × ℕ × ObjectPool
alloc_from i next q = elim (q.layers i) [
  | none ↦ (null, i, q)
  | some l ↦
      (let (p, l') = layer_alloc next l in
        (p, i, record q { layers = update q.layers i (some l') }))
]

pub alloc_down : ℕ → Entries → ObjectPool → Ptr × ℕ × ObjectPool
unfolding alloc_from
alloc_down zero next q = alloc_from zero next q
alloc_down (suc i) next q =
    let here = alloc_from (suc i) next q in
    let below = alloc_down i next q in if here.0 == null then below else here

-- `ObjectPool::my_alloc`; `arena` is the address that `new FakeEntry<T>[]` gives for a new layer.
unfoldable pub pool_alloc : ℕ → ℕ → Ptr → Entries → ObjectPool → Ptr × ℕ × Entries × ObjectPool
unfolding alloc_down
pool_alloc unit rate arena next q =
    let found = alloc_down q.current_layer next q in
    let size = q.current_size * rate % 2 ^ 32 in
    let top = q.current_layer + 1 in
    let (next', l) = object_layer unit size arena next in
    let (p, l') = layer_alloc next' l in
    if found.0 == null
    then (
      p,
      top,
      next',
      record { layers = update q.layers top (some l'); current_layer = top; current_size = size },
    )
    else (found.0, found.1, next, found.2)

-- `ObjectPool::my_release` of an entry that this pool created in `layer`.
unfoldable pub pool_release : ℕ → ℕ → ℕ → Ptr → Entries → ObjectPool → Entries × ObjectPool
unfolding remove_layer_if_not_in_use
pool_release unit rate layer p next q = elim (q.layers layer) [
  | none ↦ (next, q)
  | some l ↦
      (let (state, next', l') = layer_release unit p next l in
        (
          next',
          remove_layer_if_not_in_use rate layer state
              (record q { layers = update q.layers layer (some l') }),
        ))
]
