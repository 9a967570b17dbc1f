-- ===== src/Config/Tests.antt =====
-- The constructor when the variable says 0.
use tythread.Base.{ℕ, ◌≡◌, refl, Option, some}
use tythread.Config.{ℤ, pos, negsuc, new_config}

abbrev zero_threads : ℕ → Option ℤ
zero_threads text = some (pos text)

local_taken : (new_config zero_threads (pos 12) (some 0)).num_of_threads ≡ pos 12
unfolding new_config
local_taken = refl

zero_taken : (new_config zero_threads (negsuc 11) (some 0)).num_of_threads ≡ pos 0
unfolding new_config
zero_taken = refl
