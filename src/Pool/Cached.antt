-- ===== src/Pool/Cached.antt =====
-- Entries of another pool wait in a cache and go back to their layer together.
use tythread.Base.{
  ℕ, ◌+◌, ◌-◌, ◌%◌, ◌^◌, ◌≤◌, ◌<◌, ◌≡◌, refl, sym, ap, ◌∙◌, ◌≢◌, ◌⊎◌, inl, inr, arith, ◌==◌, false,
  if◌then◌else◌, Ptr, null, update, update_self, update-ne, subst, List, [], ◌∷◌, ◌++◌, length,
  Absent,
}
use tythread.Pool.{
  Entries, ObjectLayer, PerLayerCache, not_in_use_after, still_in_use_after, layer_release_cache,
  cache_push,
}
use tythread.Pool.Arena.{Chain, Chain-frame, Distinct, Slots, IsArena}

-- The entries from p to t, as `next` leads, are xs; the `next` of t is free.
abbrev pub Run : Entries → Ptr → Ptr → List Ptr → Type 0
Run next p t [] = ⊥
Run next p t (x ∷ []) = (p ≡ x) × (t ≡ x) × (0 < x)
Run next p t (x ∷ y ∷ ys) = (p ≡ x) × (0 < x) × Run next (next x) t (y ∷ ys)

pub record IsCache (next : Entries) (c : PerLayerCache) (xs : List Ptr) : Type 0 where
  pub counts : c.num_cached ≡ length xs
  pub run : (xs ≡ []) × (c.tail ≡ null) ⊎ Run next c.head c.tail xs

module _ (next : Entries) where
  Run-last : (x p t : Ptr) (xs free : List Ptr) → Run next p t xs → Absent x (xs ++ free) → t ≢ x
  Run-last x p t [] free r away = absurd r
  Run-last x p t (y ∷ []) free r away = λ e. away.0 (sym r.1 ∙ e)
  Run-last x p t (y ∷ z ∷ zs) free r away = Run-last x (next y) t (z ∷ zs) free r.2 away.1

  Run-real : (p t : Ptr) (xs : List Ptr) → Run next p t xs → 0 < t
  Run-real p t [] r = absurd r
  Run-real p t (x ∷ []) r = omega (arith, r.1, r.2)
  Run-real p t (x ∷ y ∷ ys) r = Run-real (next x) t (y ∷ ys) r.2

  Run-frame :
      (a v p t : Ptr) (xs : List Ptr) → Absent a xs → Run next p t xs → Run (update next a v) p t xs
  Run-frame a v p t [] away r = r
  Run-frame a v p t (x ∷ []) away r = r
  Run-frame a v p t (x ∷ y ∷ ys) away r =
      (r.0, r.1, rw (update-ne next a x v away.0) (Run-frame a v (next x) t (y ∷ ys) away.1 r.2))

  Run-Chain :
      (p t q : Ptr) (xs free : List Ptr)
      → Run next p t xs
      → Chain next q free
      → Distinct (xs ++ free)
      → Chain (update next t q) p (xs ++ free)
  Run-Chain p t q [] free r c d = absurd r
  Run-Chain p t q (x ∷ []) free r c d = (
    r.0,
    r.2,
    subst (λ a. Chain (update next a q) (update next a q x) free) (sym r.1)
        (rw (update_self next x q) (Chain-frame next x q q free d.0 c)),
  )
  Run-Chain p t q (x ∷ y ∷ ys) free r c d =
      let other = Run-last x (next x) t (y ∷ ys) free r.2 d.0 in
      (
        r.0,
        r.1,
        rw (update-ne next t x q (λ e. other (sym e)))
            (Run-Chain (next x) t q (y ∷ ys) free r.2 c d.1),
      )

Slots-++ :
    (unit : ℕ) (arena : Ptr) (cap : ℕ) (xs ys : List Ptr)
    → Slots unit arena cap xs
    → Slots unit arena cap ys
    → Slots unit arena cap (xs ++ ys)
Slots-++ unit arena cap [] ys a b = b
Slots-++ unit arena cap (x ∷ xs) ys a b = (a.0, Slots-++ unit arena cap xs ys a.1 b)

length-++ : (xs ys : List Ptr) → length (xs ++ ys) ≡ length xs + length ys
length-++ [] ys = omega arith
length-++ (x ∷ xs) ys = omega (arith, length-++ xs ys)

-- `my_release` of a cache that is not empty, to the layer in a good state whose entries it holds, none
-- of them free and no more than are in use: all its entries become free, before the others, the layer
-- stays in a good state, the result says whether entries are in use, and the cache is empty.
pub layer_release_cache-IsArena :
    {unit : ℕ} {next : Entries} {l : ObjectLayer} {c : PerLayerCache} (xs free : List Ptr)
    → IsArena unit next l free
    → IsCache next c xs
    → xs ≢ []
    → Distinct (xs ++ free)
    → Slots unit l.arena l.arena_cap xs
    → length xs ≤ l.used
    → IsArena unit (layer_release_cache c next l).1 (layer_release_cache c next l).2 (xs ++ free)
      × ((layer_release_cache c next l).0
          ≡ (if l.used == length xs then not_in_use_after else still_in_use_after))
      × IsCache next (layer_release_cache c next l).3 []
unfolding layer_release_cache
layer_release_cache-IsArena {unit} {next} {l} {c} xs free v w some d here fits =
    let less : (l.used + (2 ^ 64 - c.num_cached)) % 2 ^ 64 ≡ l.used - length xs =
      omega (arith, v.balance, v.small, w.counts) in
    rw less (elim w.run [
      | inl bare ↦ absurd (some bare.0)
      | inr run ↦ (
        record {
          placed = v.placed;
          small = v.small;
          chain = Run-Chain next c.head c.tail l.head xs free run v.chain d;
          distinct = d;
          slots = Slots-++ unit l.arena l.arena_cap xs free here v.slots;
          balance = omega (arith, v.balance, length-++ xs free);
        },
        ground arith,
        record { counts = refl; run = inl (refl, refl) },
      )
    ])

-- An entry that is not null and not in a cache becomes its first.
pub cache_push-IsCache :
    {next : Entries} {c : PerLayerCache} (xs : List Ptr) (p : Ptr)
    → IsCache next c xs
    → 0 < p
    → Absent p xs
    → IsCache (cache_push p next c).0 (cache_push p next c).1 (p ∷ xs)
unfolding cache_push
cache_push-IsCache {next} {c} [] p w pos away = (elim w.run [
  | inr r ↦ absurd r
  | inl bare ↦ rw bare.1 (record { counts = omega (arith, w.counts); run = inr (refl, refl, pos) })
])
cache_push-IsCache {next} {c} (x ∷ xs) p w pos away = elim w.run [
  | inl bare ↦ absurd (omega (arith, ap length bare.0))
  | inr r ↦
      (let some_tail : (c.tail == null) ≡ false =
          ground (arith, Run-real next c.head c.tail (x ∷ xs) r) in
        rw some_tail (record {
          counts = omega (arith, w.counts);
          run = inr (
            refl,
            pos,
            rw (update_self next p c.head) (Run-frame next p c.head c.head c.tail (x ∷ xs) away r),
          );
        }))
]
