-- ===== src/Spinlock/Exclusion.antt =====
-- No two threads are behind `lock` of one spin lock at once.
use tythread.Base.{
  ℕ, Bool, true, false, ◌≡◌, refl, sym, ap, ◌∙◌, ◌≢◌, inl, inr, arith, update, update_self,
  update-ne, eq_cases, Bool-cases,
}
use tythread.Spinlock.{
  Threads, Place, outside, spinning, inside, lock_round, unlock, Step, call, round, leave, Reach,
  here, after,
}

abbrev is_inside : Place → Bool
is_inside outside = false
is_inside spinning = false
is_inside inside = true

not_inside : (p : Place) → is_inside p ≡ false → p ≢ inside
not_inside p e is = absurd (ground (arith, e, ap is_inside is))

-- A thread inside is the only one, and the flag is set exactly while there is one.
record IsExclusive (x : Threads) : Type 0 where
  pub held : (i : ℕ) → x.place i ≡ inside → x.locked ≡ true
  pub alone : (i j : ℕ) → x.place i ≡ inside → x.place j ≡ inside → i ≡ j
  pub owner : x.locked ≡ true → (i : ℕ) × (x.place i ≡ inside)

-- Thread i goes from a place that is not inside to another; the flag stays.
module _ (i : ℕ) (x : Threads) (p : Place) (out : x.place i ≢ inside) (still : p ≢ inside) where
  same_inside : (j : ℕ) → update x.place i p j ≡ inside → x.place j ≡ inside
  same_inside j e = elim (eq_cases j i) [
    | inl (test, _) ↦ absurd (still (rw test at e))
    | inr (test, _) ↦ rw test at e
  ]

  moved-IsExclusive : IsExclusive x → IsExclusive (record x { place = update x.place i p })
  moved-IsExclusive v = record {
    held = λ j e. v.held j (same_inside j e);
    alone = λ j k a b. v.alone j k (same_inside j a) (same_inside k b);
    owner = λ e.
        (let (j, is) = v.owner e in
          (j, update-ne x.place i j p (λ here. out (ap x.place (sym here) ∙ is)) ∙ is));
  }

enter-IsExclusive :
    (i : ℕ) (x : Threads)
    → x.locked ≡ false
    → IsExclusive x
    → IsExclusive (record { locked = true; place = update x.place i inside })
enter-IsExclusive i x free v = record {
  held = λ j e. refl;
  alone = λ j k a b. only j a ∙ sym (only k b);
  owner = λ e. (i, update_self x.place i inside);
}
  where
    only : (j : ℕ) → update x.place i inside j ≡ inside → j ≡ i
    only j e = elim (eq_cases j i) [
      | inl (_, is) ↦ is
      | inr (test, _) ↦ absurd (ground (arith, free, v.held j (rw test at e)))
    ]

leave-IsExclusive :
    (i : ℕ) (x : Threads)
    → x.place i ≡ inside
    → IsExclusive x
    → IsExclusive (record { locked = false; place = update x.place i outside })
leave-IsExclusive i x is v = record {
  held = λ j e. absurd (gone j e);
  alone = λ j k a b. absurd (gone j a);
  owner = λ e. absurd (ground (arith, e));
}
  where
    gone : (j : ℕ) → update x.place i outside j ≢ inside
    gone j e = elim (eq_cases j i) [
      | inl (test, _) ↦ not_inside outside refl (rw test at e)
      | inr (test, ne) ↦ ne (v.alone j i (rw test at e) is)
    ]

Step-IsExclusive : {x y : Threads} → IsExclusive x → Step x y → IsExclusive y
unfolding lock_round unlock
Step-IsExclusive v (call i x is) =
    moved-IsExclusive i x spinning (rw is (not_inside outside refl)) (not_inside spinning refl) v
Step-IsExclusive v (round i x is) = elim (Bool-cases x.locked) [
  | inl e ↦
      (let moved =
          moved-IsExclusive i x spinning (rw is (not_inside spinning refl))
            (not_inside spinning refl) v in
        rw e (rw e at moved))
  | inr e ↦ rw e (enter-IsExclusive i x e v)
]
Step-IsExclusive v (leave i x is) = leave-IsExclusive i x is v

Reach-IsExclusive : {x y : Threads} → IsExclusive x → Reach x y → IsExclusive y
Reach-IsExclusive v here = v
Reach-IsExclusive v (after r s) = Step-IsExclusive (Reach-IsExclusive v r) s

-- All threads begin outside, with the flag clear.
pub record IsStart (x : Threads) : Type 0 where
  pub clear : x.locked ≡ false
  pub none_inside : (i : ℕ) → x.place i ≡ outside

start-IsExclusive : (x : Threads) → IsStart x → IsExclusive x
start-IsExclusive x s = record {
  held = λ i e. absurd (not_inside outside refl (sym (s.none_inside i) ∙ e));
  alone = λ i j e. absurd (not_inside outside refl (sym (s.none_inside i) ∙ e));
  owner = λ e. absurd (ground (arith, e, s.clear));
}

-- From a clear flag and threads outside, whatever the threads do in whatever order: while one of them is
-- behind `lock` and before `unlock`, no other is.
pub Reach-alone :
    (x y : Threads)
    → IsStart x
    → Reach x y
    → (i j : ℕ) → i ≢ j
    → y.place i ≡ inside
    → y.place j ≢ inside
Reach-alone x y s r i j ne a b = ne ((Reach-IsExclusive (start-IsExclusive x s) r).alone i j a b)

-- From there, while no thread is behind `lock`, the next round of any thread's loop ends it.
pub Reach-round :
    (x y : Threads)
    → IsStart x
    → Reach x y
    → ((i : ℕ) → y.place i ≢ inside)
    → lock_round y.locked ≡ (true, true)
unfolding lock_round
Reach-round x y s r none_inside = elim (Bool-cases y.locked) [
  | inl e ↦
      (let (i, is) = (Reach-IsExclusive (start-IsExclusive x s) r).owner e in
        absurd (none_inside i is))
  | inr e ↦ rw e refl
]
