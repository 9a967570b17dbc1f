-- ===== src/Task/Names.antt =====
-- `Task::getStateName`.
use Prim.Native.Char.{code}
use Prim.Native.String.{String}
use tythread.Base.{
  ℕ, zero, suc, ◌+◌, ◌-◌, ◌^◌, ◌<◌, ◌≡◌, refl, ap, arith, if◌then◌else◌, ltb, List, [], ◌∷◌,
}
use tythread.Config.{ℤ, pos, negsuc}
use tythread.Task.{TaskState, initial, runnable, mpi_blocked, group_wait, terminated}

-- The `int` that the enumeration gives a state.
abbrev pub ordinal : TaskState → ℕ
ordinal initial = 0
ordinal runnable = 1
ordinal mpi_blocked = 2
ordinal group_wait = 3
ordinal terminated = 4

abbrev pub dict : List String
dict = "Initial" ∷ "Runnable" ∷ "MPIBlocked" ∷ "GroupWait" ∷ "Terminated" ∷ []

abbrev pub name_at : List String → ℕ → String
name_at [] n = "<unknown>"
name_at (x ∷ xs) zero = x
name_at (x ∷ xs) (suc n) = name_at xs n

-- An `int` compared with a `size_t`.
abbrev pub to_size : ℤ → ℕ
to_size (pos n) = n
to_size (negsuc n) = 2 ^ 64 - (n + 1)

unfoldable pub get_state_name : ℤ → String
get_state_name s = if ltb (to_size s) 5 then name_at dict (to_size s) else "<unknown>"

-- The code of the first character.
abbrev first_code : String → ℕ
first_code String.[] = 0
first_code (String.◌∷◌ c s) = code c

-- The states have different names.
pub ordinal-names :
    (a b : TaskState) → get_state_name (pos (ordinal a)) ≡ get_state_name (pos (ordinal b)) → a ≡ b
unfolding get_state_name
ordinal-names initial initial e = refl
ordinal-names runnable runnable e = refl
ordinal-names mpi_blocked mpi_blocked e = refl
ordinal-names group_wait group_wait e = refl
ordinal-names terminated terminated e = refl
ordinal-names a b e = absurd (omega (arith, ap first_code e))

-- An `int` that is the number of no state, negative or too large, is unknown.
pub unknown_names :
    (n : ℕ)
    → n < 2 ^ 31
    → (get_state_name (pos (n + 5)) ≡ "<unknown>") × (get_state_name (negsuc n) ≡ "<unknown>")
unfolding get_state_name
unknown_names n small = (ground arith, ground arith)
