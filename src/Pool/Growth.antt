-- ===== src/Pool/Growth.antt =====
-- An allocation from a pool, and the new layer when all are full.
use native.Mathlib.Nat.{pow-suc, mul_assoc}
use tythread.Base.{
  ℕ, zero, suc, ◌+◌, ◌*◌, ◌%◌, ◌^◌, ◌≤◌, ◌<◌, ◌≡◌, refl, sym, ap, ◌∙◌, inl, inr, arith, ◌==◌,
  eq_cases, Bool-cases, Ptr, null, update, update_self, update-ne, subst, none, some,
}
use tythread.Pool.{
  Entries, ObjectLayer, object_layer, layer_alloc, ObjectPool, alloc_from, alloc_down, pool_alloc,
}
use tythread.Pool.Sizes.{HasCap, IsSized, Option-cases, changed-IsSized}

alloc-cap : (next : Entries) (l : ObjectLayer) → (layer_alloc next l).1.arena_cap ≡ l.arena_cap
unfolding layer_alloc
alloc-cap next l = ground arith

pub alloc_from-some :
    (i : ℕ) (next : Entries) (q : ObjectPool) (l : ObjectLayer)
    → q.layers i ≡ some l
    → alloc_from i next q ≡ (
      (layer_alloc next l).0,
      i,
      record q { layers = update q.layers i (some (layer_alloc next l).1) },
    )
unfolding alloc_from
alloc_from-some i next q l is =
    ap
      (λ o. elim o [
        | none ↦ (null, i, q)
        | some x ↦ (
          (layer_alloc next x).0,
          i,
          record q { layers = update q.layers i (some (layer_alloc next x).1) },
        )
      ])
      is

alloc_from-IsSized :
    (init rate i : ℕ) (next : Entries) (q : ObjectPool)
    → i ≤ q.current_layer
    → IsSized init rate q
    → IsSized init rate (alloc_from i next q).2
      × ((alloc_from i next q).2.current_layer ≡ q.current_layer)
      × ((alloc_from i next q).1 ≤ q.current_layer)
alloc_from-IsSized init rate i next q le v = elim (Option-cases (q.layers i)) [
  | inl gone ↦ absurd (subst (HasCap (init * rate ^ i)) gone (v.caps i le))
  | inr (l, is) ↦
      rw (alloc_from-some i next q l is) (
        changed-IsSized init rate i l (layer_alloc next l).1 q is (alloc-cap next l) le v,
        refl,
        le,
      )
]

alloc_down-IsSized :
    (init rate i : ℕ) (next : Entries) (q : ObjectPool)
    → i ≤ q.current_layer
    → IsSized init rate q
    → IsSized init rate (alloc_down i next q).2
      × ((alloc_down i next q).2.current_layer ≡ q.current_layer)
      × ((alloc_down i next q).1 ≤ q.current_layer)
unfolding alloc_down
alloc_down-IsSized init rate zero next q le v = alloc_from-IsSized init rate 0 next q le v
alloc_down-IsSized init rate (suc i) next q le v =
    elim (Bool-cases ((alloc_from (suc i) next q).0 == null)) [
      | inl full ↦ rw full (alloc_down-IsSized init rate i next q (omega arith) v)
      | inr found ↦ rw found (alloc_from-IsSized init rate (suc i) next q le v)
    ]

object_layer-cap :
    (unit sz : ℕ) (arena : Ptr) (next : Entries)
    → (object_layer unit sz arena next).1.arena_cap ≡ sz
unfolding object_layer
object_layer-cap unit sz arena next = refl

next_size :
    (init rate : ℕ) (q : ObjectPool)
    → IsSized init rate q
    → init * rate ^ suc q.current_layer < 2 ^ 31
    → q.current_size * rate % 2 ^ 32 ≡ init * rate ^ (q.current_layer + 1)
next_size init rate q v small =
    let top : suc q.current_layer ≡ q.current_layer + 1 = omega arith in
    let product : q.current_size * rate ≡ init * rate ^ suc q.current_layer =
      ap (λ n. n * rate) v.size
      ∙ mul_assoc init (rate ^ q.current_layer) rate
      ∙ ap (λ n. init * n) (sym (pow-suc rate q.current_layer)) in
    let fits : q.current_size * rate % 2 ^ 32 ≡ q.current_size * rate = omega arith in
    fits ∙ product ∙ ap (λ n. init * rate ^ n) top

grown-IsSized :
    (init rate size : ℕ) (l : ObjectLayer) (q : ObjectPool)
    → IsSized init rate q
    → size ≡ init * rate ^ (q.current_layer + 1)
    → l.arena_cap ≡ size
    → IsSized init rate (record {
      layers = update q.layers (q.current_layer + 1) (some l);
      current_layer = q.current_layer + 1;
      current_size = size;
    })
grown-IsSized init rate size l q v fits cap = record {
  size = fits;
  caps = λ i le. elim (eq_cases i (q.current_layer + 1)) [
    | inl (_, e) ↦ rw (e, update_self q.layers (q.current_layer + 1) (some l)) (cap ∙ fits)
    | inr (_, ne) ↦
        rw (update-ne q.layers (q.current_layer + 1) i (some l) ne) (v.caps i (omega arith))
  ];
  none_above = λ i lt.
      update-ne q.layers (q.current_layer + 1) i (some l) (omega arith)
      ∙ v.none_above i (omega arith);
}

-- Of a pool whose layers have the sizes that the rate gives, when the next size is below 2 ^ 31, an
-- allocation keeps the sizes, and the layer it is tagged with is there afterwards.
pub pool_alloc-IsSized :
    (unit init rate : ℕ) (arena : Ptr) (next : Entries) (q : ObjectPool)
    → IsSized init rate q
    → init * rate ^ suc q.current_layer < 2 ^ 31
    → IsSized init rate (pool_alloc unit rate arena next q).3
      × ((pool_alloc unit rate arena next q).1
          ≤ (pool_alloc unit rate arena next q).3.current_layer)
unfolding pool_alloc
pool_alloc-IsSized unit init rate arena next q v small =
    let size = q.current_size * rate % 2 ^ 32 in
    let fits : size ≡ init * rate ^ (q.current_layer + 1) = next_size init rate q v small in
    let l =
      (layer_alloc (object_layer unit size arena next).0 (object_layer unit size arena next).1).1 in
    let old = alloc_down-IsSized init rate q.current_layer next q (omega arith) v in
    elim (Bool-cases ((alloc_down q.current_layer next q).0 == null)) [
      | inr found ↦ rw found (old.0, omega (arith, old.1, old.2))
      | inl full ↦ rw full (
        grown-IsSized init rate size l q v fits
            (alloc-cap _ _ ∙ object_layer-cap unit size arena next),
        omega arith,
      )
    ]
