-- ===== src/Group/Latch.antt =====
-- `CountDownLatch` of co_user.hh: a group with one fake task, which the last `down` finishes.
use tythread.Base.{
  ℕ, zero, suc, ◌-◌, ◌^◌, ◌≤◌, ◌<◌, ◌≡◌, refl, ap, ◌∙◌, arith, Bool, true, false, ◌==◌,
  if◌then◌else◌, Ptr, null, List, [], ◌∷◌,
}
use tythread.Group.{
  Group, new_group, int_pred, inform_done, registe, must_wait, resume_if_nothing_to_wait,
}

pub record CountDownLatch : Type 0 where
  pub counter : ℕ
  pub fake_is_fini : Bool
  pub group : Group

-- A new latch, behind `add(n)`.
abbrev pub add : ℕ → CountDownLatch
add n = record { counter = n; fake_is_fini = false; group = new_group }

-- `down`: the latch, and the task that now can run, or null.
unfoldable pub down : CountDownLatch → CountDownLatch × Ptr
unfolding inform_done
down l =
    if int_pred l.counter == 0
    then (let (g, p) = inform_done l.group in
        (record { counter = int_pred l.counter; fake_is_fini = true; group = g }, p))
    else (record l { counter = int_pred l.counter }, null)

-- `wait` of the task p, with what its thread does if it yields: the latch, and whether p goes on.
unfoldable pub wait : Ptr → CountDownLatch → CountDownLatch × Bool
unfolding registe must_wait resume_if_nothing_to_wait
wait p l =
    let g = registe l.fake_is_fini l.group in
    if must_wait g
    then (let (g', ready) = resume_if_nothing_to_wait p g in (record l { group = g' }, ready))
    else (record l { group = g }, true)

-- `down`, n times: the latch, and the tasks that then can run.
unfoldable pub downs : ℕ → CountDownLatch → CountDownLatch × List Ptr
unfolding down
downs zero l = (l, [])
downs (suc n) l =
    let (l', p) = down l in let (l'', ps) = downs n l' in (l'', if p == null then ps else p ∷ ps)

down-counts :
    (n : ℕ) (g : Group)
    → 0 < n
    → n < 2 ^ 31
    → down (record { counter = suc n; fake_is_fini = false; group = g })
      ≡ (record { counter = n; fake_is_fini = false; group = g }, null)
unfolding down
down-counts n g pos small =
    let less : int_pred (suc n) ≡ n = omega arith in
    let some_left : (n == 0) ≡ false = ground arith in rw (less, some_left) refl

downs-early :
    (k n : ℕ) (g : Group)
    → k < n
    → n < 2 ^ 31
    → downs k (record { counter = n; fake_is_fini = false; group = g })
      ≡ (record { counter = n - k; fake_is_fini = false; group = g }, [])
unfolding downs
downs-early k zero g lt small = absurd (omega arith)
downs-early zero (suc n) g lt small =
    ap (λ c. (record { counter = c; fake_is_fini = false; group = g }, [])) (omega arith)
downs-early (suc k) (suc n) g lt small =
    rw (down-counts n g (omega arith) (omega arith), downs-early k n g (omega arith) (omega arith))
      (ap (λ c. (record { counter = c; fake_is_fini = false; group = g }, [])) (omega arith))

downs-last :
    (n : ℕ) (g : Group)
    → n < 2 ^ 31
    → downs (suc n) (record { counter = suc n; fake_is_fini = false; group = g }) ≡ (
      record { counter = 0; fake_is_fini = true; group = (inform_done g).0 },
      if (inform_done g).1 == null then [] else (inform_done g).1 ∷ [],
    )
unfolding downs down
downs-last zero g small = refl
downs-last (suc n) g small =
    rw (down-counts (suc n) g (omega arith) (omega arith), downs-last n g (omega arith)) refl

-- A task that is not null and waits at a latch of n + 1 steps, n below 2 ^ 31 - 1, before any step is
-- made does not go on at once; the first k steps, k at most n, let no task run; all n + 1 let this
-- task run, once.
pub wait-downs :
    (p : Ptr) (n k : ℕ)
    → 0 < p
    → suc n < 2 ^ 31
    → k ≤ n
    → ((wait p (add (suc n))).1 ≡ false)
      × ((downs k (wait p (add (suc n))).0).1 ≡ [])
      × ((downs (suc n) (wait p (add (suc n))).0).1 ≡ p ∷ [])
unfolding wait registe must_wait resume_if_nothing_to_wait inform_done
wait-downs p n k pos small le =
    let real : (p == null) ≡ false = ground arith in
    let g : Group = record { blocking_count = 1; blocked_task = p } in
    (
      refl,
      ap (λ r. r.1) (downs-early k (suc n) g (omega arith) small),
      ap (λ r. r.1) (downs-last n g (omega arith)) ∙ (rw real refl),
    )

-- A task that waits at a latch of n + 1 steps, n below 2 ^ 31, when all steps have been made is held by
-- the group, with a blocking count of -1 and the fake task finished.
pub downs-wait :
    (p : Ptr) (n : ℕ)
    → n < 2 ^ 31
    → wait p (downs (suc n) (add (suc n))).0 ≡ (
      record {
        counter = 0;
        fake_is_fini = true;
        group = record { blocking_count = 2 ^ 32 - 1; blocked_task = p };
      },
      false,
    )
unfolding wait registe must_wait resume_if_nothing_to_wait inform_done
downs-wait p n small = ap (λ r. wait p r.0) (downs-last n new_group small)
