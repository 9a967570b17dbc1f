-- ===== src/RefPtr.antt =====
-- The counting pointers of util.hh, `DerivedRefPtr`, over the objects that they count.
pub mod Count
pub mod Make
pub mod Owners
pub mod Tests
use tythread.Base.{
  ℕ, zero, suc, ◌+◌, ◌-◌, ◌%◌, ◌^◌, Bool, true, false, ◌==◌, if◌then◌else◌, Ptr, null, update,
}

-- `handle h` is the `real_ptr__` of the pointer with number h, null before its constructor and behind
-- its destructor; `counter` is an `unsigned int`; an object that is deleted is no longer alive.
pub record Store : Type 0 where
  pub handle : ℕ → Ptr
  pub counter : Ptr → ℕ
  pub alive : Ptr → Bool

unfoldable pub increase : Ptr → Store → Store
increase p s =
    if p == null then s else record s { counter = update s.counter p ((s.counter p + 1) % 2 ^ 32) }

unfoldable pub decrease : Ptr → Store → Store
decrease p s =
    let n = (s.counter p + (2 ^ 32 - 1)) % 2 ^ 32 in
    if p == null then s else record s {
      counter = update s.counter p n;
      alive = if n == 0 then update s.alive p false else s.alive;
    }

abbrev pub set : ℕ → Ptr → Store → Store
set h p s = record s { handle = update s.handle h p }

-- `DerivedRefPtr(Derived *)`.
unfoldable pub share : ℕ → Ptr → Store → Store
unfolding increase
share h p s = set h p (increase p s)

-- `~DerivedRefPtr`, and assignment of `nullptr`.
unfoldable pub drop : ℕ → Store → Store
unfolding decrease
drop h s = set h null (decrease (s.handle h) s)

-- `DerivedRefPtr(DerivedRefPtr const &)`.
unfoldable pub copy : ℕ → ℕ → Store → Store
unfolding increase
copy h k s = set h (s.handle k) (increase (s.handle k) s)

-- Assignment of a pointer, which may be the same one.
unfoldable pub assign_copy : ℕ → ℕ → Store → Store
unfolding increase decrease
assign_copy h k s = set h (s.handle k) (decrease (s.handle h) (increase (s.handle k) s))

-- `DerivedRefPtr(DerivedRefPtr &&)`.
unfoldable pub move : ℕ → ℕ → Store → Store
move h k s = set k null (set h (s.handle k) s)

-- Move assignment.
unfoldable pub assign_move : ℕ → ℕ → Store → Store
unfolding decrease
assign_move h k s = set k null (set h (s.handle k) (decrease (s.handle h) s))
