-- ===== src/RefPtr/Make.antt =====
-- `makeRefPtr`: a new object and the first pointer to it.
use tythread.Base.{
  ℕ, ◌-◌, ◌^◌, ◌<◌, ◌≡◌, ◌≢◌, refl, sym, ap, ap₂, ◌∙◌, inl, inr, arith, true, eq_cases, update,
  update_self, update-ne, Ptr, null,
}
use tythread.RefPtr.{Store, increase, decrease, share, drop, move}
use tythread.RefPtr.Count.{
  IsCounted, increase-counter, increase-alive, increase-handle, counted, construct-IsCounted,
}
use tythread.RefPtr.Owners.{owners, one_if, owners-update, owners-bound}

-- `new Derived`: the constructor of `RefCounted` sets the counter to 0.
unfoldable pub new_object : Ptr → Store → Store
new_object p s = record s { counter = update s.counter p 0; alive = update s.alive p true }

-- `makeRefPtr` into the pointer h; t is the pointer that is moved from.
unfoldable pub make_ref : ℕ → ℕ → Ptr → Store → Store
unfolding new_object share move drop
make_ref h t p s = drop t (move h t (share t p (new_object p s)))

module _ (n : ℕ) (s : Store) (v : IsCounted n s) (small : n < 2 ^ 32 - 1) where
  new_object-IsCounted : (p : Ptr) → owners n s.handle p ≡ 0 → IsCounted n (new_object p s)
  unfolding new_object
  new_object-IsCounted p unused = record {
    counts = λ q pos. elim (eq_cases q p) [
      | inl (_, e) ↦ rw e (update_self s.counter p 0 ∙ sym unused)
      | inr (_, ne) ↦ update-ne s.counter p q 0 ne ∙ v.counts q pos
    ];
    lives = λ q pos some. elim (eq_cases q p) [
      | inl (_, e) ↦ rw e (update_self s.alive p true)
      | inr (_, ne) ↦ update-ne s.alive p q true ne ∙ v.lives q pos some
    ];
  }

  share-IsCounted :
      (h : ℕ) (p : Ptr)
      → h < n
      → s.handle h ≡ null
      → (0 < p → s.alive p ≡ true)
      → IsCounted n (share h p s)
  unfolding share
  share-IsCounted h p below bare alive =
      counted n s v small (share h p s) p null
        (λ q pos.
          (let up =
              increase-counter p s q pos
                (omega (arith, v.counts q pos, owners-bound n s.handle q)) in
            let none_off : one_if null q ≡ 0 = ground arith in omega (arith, up, none_off)))
        (λ q pos.
          rw (increase-handle p s)
            (ground (arith, owners-update n h s.handle p q below, ap (λ a. one_if a q) bare)))
        (λ q pos some lives. ap (λ f. f q) (increase-alive p s) ∙ lives)
        (λ q pos one. elim (eq_cases p q) [
          | inl (_, e) ↦ rw (sym e) (alive (omega (arith, e)))
          | inr (_, ne) ↦ absurd (ground arith)
        ])

  -- The destructor of a pointer that points to nothing.
  drop-null-IsCounted : (h : ℕ) → h < n → s.handle h ≡ null → IsCounted n (drop h s)
  unfolding drop decrease
  drop-null-IsCounted h below bare = rw bare (
      counted n s v small _ null null (λ q pos. refl)
        (λ q pos.
          ground (arith, owners-update n h s.handle null q below, ap (λ a. one_if a q) bare))
        (λ q pos some lives. lives) (λ q pos one. absurd (ground arith)))

drop-null :
    (h : ℕ) (s : Store)
    → s.handle h ≡ null
    → ((drop h s).counter ≡ s.counter)
      × ((drop h s).alive ≡ s.alive)
      × ((drop h s).handle ≡ update s.handle h null)
unfolding drop decrease
drop-null h s bare = rw bare (refl, refl, refl)

new_object-increase :
    (p : Ptr) (s : Store)
    → 0 < p
    → ((increase p (new_object p s)).counter p ≡ 1) × ((increase p (new_object p s)).alive p ≡ true)
unfolding increase new_object
new_object-increase p s pos = (ground arith, ground arith)

-- The pointers and the new object behind `makeRefPtr`.
module _ (h t : ℕ) (p : Ptr) (s : Store) (pos : 0 < p) (other : h ≢ t) where
  abbrev moved : Store
  unfolding move share new_object
  moved = move h t (share t p (new_object p s))

  shared-handle : (share t p (new_object p s)).handle ≡ update s.handle t p
  unfolding share new_object
  shared-handle = rw (increase-handle p (new_object p s)) refl

  moved-handle : moved.handle ≡ update (update (update s.handle t p) h p) t null
  unfolding moved
  moved-handle =
      ap₂ (λ f q. update (update f h q) t null) shared-handle
        (ap (λ f. f t) shared-handle ∙ update_self s.handle t p)

  moved-bare : moved.handle t ≡ null
  moved-bare = ap (λ f. f t) moved-handle ∙ update_self (update (update s.handle t p) h p) t null

  made :
      ((make_ref h t p s).handle h ≡ p)
      × ((make_ref h t p s).counter p ≡ 1)
      × ((make_ref h t p s).alive p ≡ true)
  unfolding make_ref moved
  made =
      let (counter, alive, handle) = drop-null t moved moved-bare in
      let base = update (update s.handle t p) h p in
      (
        ap (λ f. f h) handle
            ∙ update-ne moved.handle t h null other
            ∙ ap (λ f. f h) moved-handle
            ∙ update-ne base t h null other
            ∙ update_self (update s.handle t p) h p,
        ap (λ f. f p) counter ∙ (new_object-increase p s pos).0,
        ap (λ f. f p) alive ∙ (new_object-increase p s pos).1,
      )

-- `makeRefPtr` into one of n pointers, fewer than 2 ^ 32 - 1, by way of another of them, when neither
-- points to anything and nothing points to the address of the new object, which is not null: the
-- result points to the object, which is alive with a counter of 1, and the counters stay right and
-- the objects that are pointed to alive.
pub make_ref-IsCounted :
    (n : ℕ) (s : Store) (h t : ℕ) (p : Ptr)
    → IsCounted n s
    → n < 2 ^ 32 - 1
    → h < n
    → t < n
    → h ≢ t
    → s.handle h ≡ null
    → s.handle t ≡ null
    → 0 < p
    → owners n s.handle p ≡ 0
    → IsCounted n (make_ref h t p s)
      × ((make_ref h t p s).handle h ≡ p)
      × ((make_ref h t p s).counter p ≡ 1)
      × ((make_ref h t p s).alive p ≡ true)
unfolding make_ref moved
make_ref-IsCounted n s h t p v small in_h in_t other bare_h bare_t pos unused =
    let fresh = new_object-IsCounted n s v small p unused in
    let shared =
      share-IsCounted n (new_object p s) fresh small t p in_t bare_t
        (λ _. update_self s.alive p true) in
    let free : (share t p (new_object p s)).handle h ≡ null =
      ap (λ f. f h) (shared-handle h t p s pos other) ∙ update-ne s.handle t h p other ∙ bare_h in
    let constructed =
      (construct-IsCounted n (share t p (new_object p s)) shared small h t in_h in_t free).1 in
    let (handle, counter, alive) = made h t p s pos other in
    (
      drop-null-IsCounted n (moved h t p s pos other) constructed small t in_t
          (moved-bare h t p s pos other),
      handle,
      counter,
      alive,
    )
