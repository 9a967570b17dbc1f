-- ===== src/Spinlock.antt =====
-- `Spinlock`, with any number of threads that lock and unlock it.
pub mod Exclusion
pub mod Tests
use tythread.Base.{ℕ, Bool, true, false, update, ◌==◌, if◌then◌else◌, ◌≡◌}

-- `atomic_flag::test_and_set`: the value before, and the flag behind it.
unfoldable pub test_and_set : Bool → Bool × Bool
test_and_set locked = (locked, true)

-- A round of the loop of `lock`: whether the loop ends, and the flag.
unfoldable pub lock_round : Bool → Bool × Bool
unfolding test_and_set
lock_round locked =
    let (before, after) = test_and_set locked in (if before then false else true, after)

-- `unlock`: `atomic_flag::clear`.
unfoldable pub unlock : Bool → Bool
unlock locked = false

-- Where a thread is: outside, in the loop of `lock`, or behind it and before `unlock`.
pub data Place : Type 0 where
  outside spinning inside : Place

pub record Threads : Type 0 where
  pub locked : Bool
  pub place : ℕ → Place

-- What a thread does next; the flag is all that it shares.
pub data Step : Threads → Threads → Type 0 where
  call :
      (i : ℕ) (x : Threads)
      → x.place i ≡ outside
      → Step x (record x { place = update x.place i spinning })
  round :
      (i : ℕ) (x : Threads)
      → x.place i ≡ spinning
      → Step x (record {
        locked = (lock_round x.locked).1;
        place = update x.place i (if (lock_round x.locked).0 then inside else spinning);
      })
  leave :
      (i : ℕ) (x : Threads)
      → x.place i ≡ inside
      → Step x (record { locked = unlock x.locked; place = update x.place i outside })

pub data Reach (x : Threads) : Threads → Type 0 where
  here : Reach x x
  after : {y z : Threads} → Reach x y → Step y z → Reach x z
