-- ===== src/Config.antt =====
-- `Config`: the defaults and what its constructor makes of the environment.
pub mod Tests
use tythread.Base.{
  ℕ, zero, suc, ◌*◌, ◌≡◌, refl, Bool, true, false, Option, none, some, if◌then◌else◌, inl, inr, ap,
}

-- An `int`, which may be negative.
pub data ℤ : Type 0 where
  pos negsuc : ℕ → ℤ

pub record Config : Type 0 where
  pub max_stack_size : ℕ
  pub num_of_threads : ℤ
  pub max_wait_task_time : ℕ
  pub init_task_pool_size : ℕ
  pub enlarge_rate : ℕ
  pub max_total_cached : ℕ
  pub cache_reclaim_period : ℕ

abbrev pub default_config : Config
default_config = record {
  max_stack_size = 512 * 8;
  num_of_threads = pos 3;
  max_wait_task_time = 1000;
  init_task_pool_size = 256;
  enlarge_rate = 2;
  max_total_cached = 128;
  cache_reclaim_period = 2000;
}

abbrev pub is_positive : ℤ → Bool
is_positive (pos zero) = false
is_positive (pos (suc n)) = true
is_positive (negsuc n) = false

-- The body of the `try`: an exception leaves the member.
abbrev pub store : Option ℤ → Config → Config
store none c = c
store (some n) c = record c { num_of_threads = n }

-- What `std::stoi` gives for a text, none for an exception, is a parameter; so is the value that
-- `user_num_of_threads` happens to have.
module _ {Text : Type 0} (stoi : Text → Option ℤ) (user_num_of_threads : ℤ) where
  -- The constructor, where `env_value` is what `getenv` returns.
  unfoldable pub new_config : Option Text → Config
  new_config none = default_config
  new_config (some env_value) =
      let c = store (stoi env_value) default_config in
      if is_positive user_num_of_threads
      then record c { num_of_threads = user_num_of_threads }
      else c
