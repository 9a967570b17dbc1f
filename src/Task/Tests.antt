-- ===== src/Task/Tests.antt =====
-- Tasks with few and with many groups, and names of states.
use tythread.Base.{
  ℕ, ◌+◌, ◌≤◌, ◌<◌, ◌≡◌, refl, arith, true, false, ◌⊎◌, none, some, List, [], ◌∷◌, ◌++◌, length,
}
use tythread.Config.{pos}
use tythread.Task.Groups.{GroupArray, put_groups, listed, room, put_groups-listed}
use tythread.Task.Names.{get_state_name}

abbrev no_groups : GroupArray
no_groups = record { groups = λ _. 0; cur_groups = 0 }

abbrev two_groups : List ℕ
two_groups = 7 ∷ 8 ∷ []

five_refused : put_groups true (7 ∷ 8 ∷ 9 ∷ 10 ∷ 11 ∷ []) no_groups ≡ none
unfolding put_groups
five_refused = refl

mpi_name : get_state_name (pos 2) ≡ "MPIBlocked"
unfolding get_state_name
mpi_name = refl

put_groups-listed_example :
    ((no_groups.cur_groups + length two_groups ≤ room false)
      × ((b : GroupArray) × (put_groups false two_groups no_groups ≡ some b)
          × (listed b.cur_groups b.groups
              ≡ listed no_groups.cur_groups no_groups.groups ++ two_groups)))
    ⊎ (room false < no_groups.cur_groups + length two_groups)
      × (put_groups false two_groups no_groups ≡ none)
put_groups-listed_example = put_groups-listed false two_groups no_groups (omega arith)
