-- ===== src/Pool/Mediator/Reuse.antt =====
-- An entry that a thread allocates and releases again.
use tythread.Base.{
  ℕ, ◌^◌, ◌<◌, ◌≡◌, refl, sym, ap, ◌∙◌, arith, true, false, ◌==◌, update, update_self, Ptr, null,
  List, ◌∷◌, none, some, Absent, subst,
}
use tythread.Pool.{
  Entries, ObjectLayer, ObjectPool, Released, not_here, here_but_not_multiple, not_in_use_after,
  still_in_use_after, layer_alloc, layer_release, remove_layer_if_not_in_use, alloc_down,
  pool_alloc, pool_release,
}
use tythread.Pool.Arena.{IsArena, Slot, layer_alloc-Allocates, layer_release-IsArena}
use tythread.Pool.Growth.{alloc_from-some}
use tythread.Pool.Mediator.{
  ObjectPoolConfig, ObjectPoolMediator, read_id, read_layer, set_id_and_layer, mediator_alloc,
  mediator_release,
}
use tythread.Pool.Mediator.Tag.{set_id_and_layer-read}

-- A pool of one layer.
record HasOne (q : ObjectPool) (l : ObjectLayer) : Type 0 where
  bottom : q.current_layer ≡ 0
  layer : q.layers 0 ≡ some l

pool_alloc-first :
    (unit rate : ℕ) (arena : Ptr) (next : Entries) (q : ObjectPool) (l : ObjectLayer)
    → HasOne q l
    → 0 < (layer_alloc next l).0
    → pool_alloc unit rate arena next q ≡ (
      (layer_alloc next l).0,
      0,
      next,
      record q { layers = update q.layers 0 (some (layer_alloc next l).1) },
    )
unfolding pool_alloc alloc_down
pool_alloc-first unit rate arena next q l one pos =
    let found = ap (λ i. alloc_down i next q) one.bottom ∙ alloc_from-some 0 next q l one.layer in
    let some_free : ((layer_alloc next l).0 == null) ≡ false = ground arith in
    rw (found, some_free) refl

-- The lowest layer is never freed.
remove-first :
    (rate : ℕ) (state : Released) (q : ObjectPool) → remove_layer_if_not_in_use rate 0 state q ≡ q
unfolding remove_layer_if_not_in_use
remove-first rate not_here q = refl
remove-first rate here_but_not_multiple q = refl
remove-first rate not_in_use_after q = refl
remove-first rate still_in_use_after q = refl

pool_release-first :
    (unit rate : ℕ) (p : Ptr) (next : Entries) (q : ObjectPool) (l : ObjectLayer)
    → q.layers 0 ≡ some l
    → pool_release unit rate 0 p next q ≡ (
      (layer_release unit p next l).1,
      record q { layers = update q.layers 0 (some (layer_release unit p next l).2) },
    )
unfolding pool_release
pool_release-first unit rate p next q l is =
    ap
      (λ o. elim o as (λ _. Entries × ObjectPool) [
        | none ↦ (next, q)
        | some x ↦ (
          (layer_release unit p next x).1,
          remove_layer_if_not_in_use rate 0 (layer_release unit p next x).0
              (record q { layers = update q.layers 0 (some (layer_release unit p next x).2) }),
        )
      ])
      is
    ∙ ap (λ r. ((layer_release unit p next l).1, r))
        (remove-first rate (layer_release unit p next l).0 _)

module _ (config : ObjectPoolConfig) (me : ℕ) (arena : Ptr) (w : ObjectPoolMediator)
    (l : ObjectLayer) (one : HasOne (w.pools me) l) where
  -- The world behind an allocation from that layer.
  abbrev given : Ptr × ObjectLayer → ObjectPoolMediator
  unfolding set_id_and_layer
  given (p, l') = record w {
    combined_info = update w.combined_info p (set_id_and_layer me 0);
    pools =
        update w.pools me (record (w.pools me) { layers = update (w.pools me).layers 0 (some l') });
  }

  allocated :
      0 < (layer_alloc w.next l).0
      → mediator_alloc config me arena w ≡ ((layer_alloc w.next l).0, given (layer_alloc w.next l))
  unfolding mediator_alloc given
  allocated pos =
      ap
        (λ o. (
          o.0,
          record w {
            next = o.2;
            combined_info = update w.combined_info o.0 (set_id_and_layer me o.1);
            pools = update w.pools me o.3;
          },
        ))
        (pool_alloc-first config.unit config.enlarge_rate arena w.next (w.pools me) l one pos)

  -- The entry p comes back to the layer that it is from.
  released :
      (p : Ptr) (l' : ObjectLayer)
      → me < 2 ^ 16
      → ((mediator_release config me p (given (p, l'))).next
          ≡ (layer_release config.unit p w.next l').1)
        × (((mediator_release config me p (given (p, l'))).pools me).layers 0
            ≡ some (layer_release config.unit p w.next l').2)
  unfolding mediator_release given
  released p l' few =
      let q : ObjectPool = record (w.pools me) {
        layers = update (w.pools me).layers 0 (some l');
      } in
      let tag : update w.combined_info p (set_id_and_layer me 0) p ≡ set_id_and_layer me 0 =
        update_self w.combined_info p (set_id_and_layer me 0) in
      let (is_id, is_layer, _) = set_id_and_layer-read me 0 few (omega arith) in
      let mine : (read_id (update w.combined_info p (set_id_and_layer me 0) p) == me) ≡ true =
        ap (λ t. read_id t == me) tag ∙ ap (λ i. i == me) is_id ∙ (ground arith) in
      let bottom = ap read_layer tag ∙ is_layer in
      let pool : update w.pools me q me ≡ q = update_self w.pools me q in
      let out =
        ap (λ j. pool_release config.unit config.enlarge_rate j p w.next (update w.pools me q me))
          bottom
        ∙ ap (λ r. pool_release config.unit config.enlarge_rate 0 p w.next r) pool
        ∙ pool_release-first config.unit config.enlarge_rate p w.next q l'
            (update_self (w.pools me).layers 0 (some l')) in
      rw (mine, out)
        (
          refl,
          ap (λ (r : ObjectPool). r.layers 0) (update_self (update w.pools me q) me _)
              ∙ update_self q.layers 0 _,
        )

layer_alloc-array :
    (next : Entries) (l : ObjectLayer)
    → ((layer_alloc next l).1.arena ≡ l.arena) × ((layer_alloc next l).1.arena_cap ≡ l.arena_cap)
unfolding layer_alloc
layer_alloc-array next l = (ground arith, ground arith)

-- A pool of one layer, in a good state with x as its first free entry, of fewer than 2 ^ 16 pools: an
-- allocation by its thread returns x, and when this thread releases it, the pool has a layer in a
-- good state with the same free entries in the same order.
pub alloc-release :
    (config : ObjectPoolConfig) (me : ℕ) (arena : Ptr) (w : ObjectPoolMediator) (l : ObjectLayer)
    (x : Ptr) (free : List Ptr)
    → me < 2 ^ 16
    → (w.pools me).current_layer ≡ 0
    → (w.pools me).layers 0 ≡ some l
    → IsArena config.unit w.next l (x ∷ free)
    → ((mediator_alloc config me arena w).0 ≡ x)
      × ((l' : ObjectLayer) × (((mediator_release config me x
                  (mediator_alloc config me arena w).1).pools
                me).layers
              0
            ≡ some l')
          × IsArena config.unit
              (mediator_release config me x (mediator_alloc config me arena w).1).next
              l'
              (x ∷ free))
alloc-release config me arena w l x free few bottom layer v =
    let one : HasOne (w.pools me) l = record { bottom = bottom; layer = layer } in
    let (is, pos, away, here, taken) = layer_alloc-Allocates (x ∷ free) v in
    let out = allocated config me arena w l one pos in
    let l1 = (layer_alloc w.next l).1 in
    let alike = layer_alloc-array w.next l in
    let same : (mediator_alloc config me arena w).1 ≡ given config me arena w l one (x, l1) =
      ap (λ o. o.1) out ∙ ap (λ p. given config me arena w l one (p, l1)) is in
    let (next, back) = released config me arena w l one x l1 few in
    let slot : Slot config.unit l1.arena l1.arena_cap x =
      rw (alike.0, alike.1) (subst (Slot config.unit l.arena l.arena_cap) is here) in
    let restored =
      (layer_release-IsArena free x taken slot (subst (λ p. Absent p free) is away)
        (omega (arith, taken.balance, v.balance, alike.1))).0 in
    (
      ap (λ o. o.0) out ∙ is,
      rw same (
        (layer_release config.unit x w.next l1).2,
        back,
        subst (λ n. IsArena config.unit n (layer_release config.unit x w.next l1).2 (x ∷ free))
            (sym next) restored,
      ),
    )
