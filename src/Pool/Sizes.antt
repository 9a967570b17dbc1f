-- ===== src/Pool/Sizes.antt =====
-- The layers of a pool: each new one is larger by a rate, and unused ones at the top are freed.
use mathlib.Core.Bool.{true≢false}
use native.Mathlib.Nat.{pow-suc, mul_assoc, mul-div_left}
use tythread.Base.{
  ℕ, zero, suc, ◌+◌, ◌-◌, ◌*◌, ◌/◌, ◌%◌, ◌^◌, ◌≤◌, ◌<◌, ◌≡◌, refl, sym, ap, ◌∙◌, ◌⊎◌, inl, inr,
  arith, ◌==◌, true, ltb, leb, if◌then◌else◌, eq_cases, Bool-cases, null, update, update_self,
  update-ne, subst, Option, none, some,
}
use tythread.Pool.{
  ObjectPool, is_in_use, sweep, is_not_in_use, remove_layer_if_not_in_use, pool_release, Entries,
  ObjectLayer, Released, layer_release,
}

-- The capacity of a layer that is there.
abbrev pub HasCap : ℕ → Option ObjectLayer → Type 0
HasCap cap none = ⊥
HasCap cap (some l) = l.arena_cap ≡ cap

-- The layers up to the current one are there, each larger than the one below by the rate.
pub record IsSized (init rate : ℕ) (q : ObjectPool) : Type 0 where
  pub size : q.current_size ≡ init * rate ^ q.current_layer
  pub caps : (i : ℕ) → i ≤ q.current_layer → HasCap (init * rate ^ i) (q.layers i)
  pub none_above : (i : ℕ) → q.current_layer < i → q.layers i ≡ none

-- Nothing is to be freed at the top.
abbrev pub IsTrim : ObjectPool → Type 0
IsTrim q = (q.current_layer ≡ 0) ⊎ (is_in_use (q.layers q.current_layer) ≡ true)

shrunk-IsSized :
    (init rate c : ℕ) (q : ObjectPool)
    → 0 < rate
    → q.current_layer ≡ suc c
    → IsSized init rate q
    → IsSized init rate (record {
      layers = update q.layers (suc c) none;
      current_layer = c;
      current_size = q.current_size / rate;
    })
shrunk-IsSized init rate c q pos e v = record {
  size =
      ap (λ n. n / rate)
        (v.size
          ∙ ap (λ k. init * rate ^ k) e
          ∙ ap (λ n. init * n) (pow-suc rate c)
          ∙ sym (mul_assoc init (rate ^ c) rate))
      ∙ mul-div_left (init * rate ^ c) pos;
  caps = λ i le. rw (update-ne q.layers (suc c) i none (omega arith)) (v.caps i (omega arith));
  none_above = λ i lt. elim (eq_cases i (suc c)) [
    | inl (_, is) ↦ rw is (update_self q.layers (suc c) none)
    | inr (_, ne) ↦ update-ne q.layers (suc c) i none ne ∙ v.none_above i (omega arith)
  ];
}

sweep-IsSized :
    (init rate c : ℕ) (q : ObjectPool)
    → 0 < rate
    → q.current_layer ≡ c
    → IsSized init rate q
    → IsSized init rate (sweep rate c q) × IsTrim (sweep rate c q)
unfolding sweep
sweep-IsSized init rate zero q pos e v = (v, inl e)
sweep-IsSized init rate (suc c) q pos e v = elim (Bool-cases (is_in_use (q.layers (suc c)))) [
  | inl used ↦ rw used (v, inr (ap (λ i. is_in_use (q.layers i)) e ∙ used))
  | inr free ↦ rw free (sweep-IsSized init rate c _ pos refl (shrunk-IsSized init rate c q pos e v))
]

pub Option-cases : (o : Option ObjectLayer) → (o ≡ none) ⊎ ((l : ObjectLayer) × (o ≡ some l))
Option-cases none = inl refl
Option-cases (some l) = inr (l, refl)

-- A layer changed in place.
pub changed-IsSized :
    (init rate i : ℕ) (l l' : ObjectLayer) (q : ObjectPool)
    → q.layers i ≡ some l
    → l'.arena_cap ≡ l.arena_cap
    → i ≤ q.current_layer
    → IsSized init rate q
    → IsSized init rate (record q { layers = update q.layers i (some l') })
changed-IsSized init rate i l l' q is same le v = record {
  size = v.size;
  caps = λ j h. elim (eq_cases j i) [
    | inl (_, e) ↦
        rw (e, update_self q.layers i (some l'))
          (same ∙ subst (HasCap (init * rate ^ i)) is (v.caps i le))
    | inr (_, ne) ↦ rw (update-ne q.layers i j (some l') ne) (v.caps j h)
  ];
  none_above = λ j lt. update-ne q.layers i j (some l') (omega arith) ∙ v.none_above j lt;
}

release-cap :
    (unit p : ℕ) (next : Entries) (l : ObjectLayer)
    → (layer_release unit p next l).2.arena_cap ≡ l.arena_cap
unfolding layer_release
release-cap unit p next l = ground arith

release-state :
    (unit p : ℕ) (next : Entries) (l : ObjectLayer)
    → (is_not_in_use (layer_release unit p next l).0 ≡ true)
      ⊎ (is_in_use (some (layer_release unit p next l).2) ≡ true)
      ⊎ ((layer_release unit p next l).2 ≡ l)
unfolding layer_release
release-state unit p next l = elim (eq_cases p null) [
  | inl (a, _) ↦ rw a (inr (inr refl))
  | inr (a, _) ↦
      rw a
        (elim (Bool-cases (if ltb p l.arena then true else leb (l.arena + l.arena_cap * unit) p)) [
          | inl b ↦ rw b (inr (inr refl))
          | inr b ↦ rw b (elim (Bool-cases ((p - l.arena) % unit == 0)) [
            | inr c ↦ rw c (inr (inr refl))
            | inl c ↦ rw c (elim (Bool-cases ((l.used + (2 ^ 64 - 1)) % 2 ^ 64 == 0)) [
              | inl d ↦ rw d (inl refl)
              | inr d ↦ rw d (inr (inl refl))
            ])
          ])
        ])
]

pub remove-IsSized :
    (init rate layer : ℕ) (state : Released) (q : ObjectPool)
    → 0 < rate
    → layer ≤ q.current_layer
    → IsSized init rate q
    → (IsTrim q ⊎ (is_not_in_use state ≡ true) × (layer ≡ q.current_layer))
    → IsSized init rate (remove_layer_if_not_in_use rate layer state q)
      × IsTrim (remove_layer_if_not_in_use rate layer state q)
unfolding remove_layer_if_not_in_use
remove-IsSized init rate zero state q pos le v how =
    let trim : IsTrim q = elim how [ inl trim ↦ trim | inr top ↦ inl (sym top.1) ] in
    elim (Bool-cases (is_not_in_use state)) [ inl e ↦ rw e (v, trim) | inr e ↦ rw e (v, trim) ]
remove-IsSized init rate (suc c) state q pos le v how = elim (Bool-cases (is_not_in_use state)) [
  | inr e ↦ rw e (v, elim how [ inl trim ↦ trim | inr top ↦ absurd (true≢false (sym top.0 ∙ e)) ])
  | inl e ↦ rw e (elim (eq_cases (suc c) q.current_layer) [
    | inr (ne, other) ↦
        (let above : ltb 0 (suc c) ≡ true = ground arith in
          rw (ne, above) (v, elim how [ inl trim ↦ trim | inr top ↦ absurd (other top.1) ]))
    | inl (top, is) ↦
        (let above : ltb 0 (suc c) ≡ true = ground arith in
          let less : suc c - 1 ≡ c = omega arith in
          rw (top, above, less)
            (sweep-IsSized init rate c _ pos refl (shrunk-IsSized init rate c q pos (sym is) v)))
  ])
]

pool_release-some :
    (unit rate layer p : ℕ) (next : Entries) (q : ObjectPool) (l : ObjectLayer)
    → q.layers layer ≡ some l
    → pool_release unit rate layer p next q ≡ (
      (layer_release unit p next l).1,
      remove_layer_if_not_in_use rate layer
          (layer_release unit p next l).0
          (record q { layers = update q.layers layer (some (layer_release unit p next l).2) }),
    )
unfolding pool_release
pool_release-some unit rate layer p next q l is =
    ap
      (λ o. elim o [
        | none ↦ (next, q)
        | some x ↦ (
          (layer_release unit p next x).1,
          remove_layer_if_not_in_use rate layer (layer_release unit p next x).0
              (record q { layers = update q.layers layer (some (layer_release unit p next x).2) }),
        )
      ])
      is

-- Of a pool whose layers have the sizes that the rate gives, with none to be freed at the top, any
-- release to a layer that is there keeps the sizes and leaves none to be freed at the top.
pub pool_release-IsSized :
    (unit init rate layer p : ℕ) (next : Entries) (q : ObjectPool)
    → 0 < rate
    → layer ≤ q.current_layer
    → IsSized init rate q
    → IsTrim q
    → IsSized init rate (pool_release unit rate layer p next q).1
      × IsTrim (pool_release unit rate layer p next q).1
pool_release-IsSized unit init rate layer p next q pos le v trim =
    elim (Option-cases (q.layers layer)) [
      | inl gone ↦ absurd (subst (HasCap (init * rate ^ layer)) gone (v.caps layer le))
      | inr (l, is) ↦
          (let l' = (layer_release unit p next l).2 in
            let state = (layer_release unit p next l).0 in
            let q' : ObjectPool = record q { layers = update q.layers layer (some l') } in
            let sized =
              changed-IsSized init rate layer l l' q is (release-cap unit p next l) le v in
            let self = update_self q.layers layer (some l') in
            rw (pool_release-some unit rate layer p next q l is) (
              remove-IsSized init rate layer state q' pos le sized
                (elim (eq_cases layer q.current_layer) [
                  | inr (_, other) ↦ inl (
                      rw (update-ne q.layers layer q.current_layer (some l') (λ e. other (sym e)))
                        trim)
                  | inl (_, top) ↦ elim (release-state unit p next l) [
                    | inl free ↦ inr (free, top)
                    | inr (inl used) ↦ inl (inr (rw (sym top) (ap is_in_use self ∙ used)))
                    | inr (inr same) ↦
                        (let stays : update q.layers layer (some l') q.current_layer
                              ≡ q.layers q.current_layer =
                            ap (update q.layers layer (some l')) (sym top)
                            ∙ self
                            ∙ ap some same
                            ∙ sym is
                            ∙ ap q.layers top in
                          inl (elim trim [
                            | inl bottom ↦ inl bottom
                            | inr used ↦ inr (ap is_in_use stays ∙ used)
                          ]))
                  ]
                ])))
    ]
