-- ===== src/Group/Tests.antt =====
-- The theorems about groups and latches at concrete ones.
use tythread.Base.{◌-◌, ◌^◌, ◌≡◌, refl, arith, false, true, [], ◌∷◌}
use tythread.Group.{Sys, Steps, finishes, looks, parks, done, more, finish, look, park, start}
use tythread.Group.Latch.{add, wait, downs, wait-downs, downs-wait}
use tythread.Group.Protocol.{IsLive, wait-IsLive}

-- The task 7 tests and parks while two members run; then one of them finishes.
abbrev parked_state : Sys
parked_state = park 7 (look (start 2))

one_of_two : Steps 7 (start 2) (finish parked_state)
unfolding look park finish start
one_of_two = more (start 2) (look (start 2)) (finish parked_state) (looks (start 2) refl) (
    more (look (start 2)) parked_state (finish parked_state) (parks (look (start 2)) refl) (
      more parked_state (finish parked_state) (finish parked_state)
        (finishes parked_state (omega arith)) (done (finish parked_state))))

wait-IsLive_example : IsLive 7 (finish parked_state)
wait-IsLive_example = wait-IsLive 7 2 (finish parked_state) (omega arith) (omega arith) one_of_two

wait-downs_example :
    ((wait 7 (add 3)).1 ≡ false)
    × ((downs 2 (wait 7 (add 3)).0).1 ≡ [])
    × ((downs 3 (wait 7 (add 3)).0).1 ≡ 7 ∷ [])
wait-downs_example = wait-downs 7 2 2 (omega arith) (omega arith) (omega arith)

downs-wait_example : wait 7 (downs 3 (add 3)).0 ≡ (
  record {
    counter = 0;
    fake_is_fini = true;
    group = record { blocking_count = 2 ^ 32 - 1; blocked_task = 7 };
  },
  false,
)
downs-wait_example = downs-wait 7 2 (omega arith)
