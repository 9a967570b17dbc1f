-- ===== src/Pool/Fresh.antt =====
-- A new layer (Pool.object_layer, the constructor of ObjectLayer) and the free list it links.
use native.Mathlib.Nat.{mul-lt-mul_of_pos_right}
use tythread.Base.{
  ℕ, zero, suc, ◌+◌, ◌-◌, ◌*◌, ◌^◌, ◌<◌, ◌≡◌, refl, ap, ◌∙◌, arith, Ptr, null, update, update_self,
  update-ne, subst, List, [], ◌∷◌, length, Absent,
}
use tythread.Pool.{Entries, slot, link_entries, object_layer}
use tythread.Pool.Arena.{Chain, Distinct, Slots, IsArena}

-- The entries i to i + n of an array, in order.
abbrev pub entries_from : ℕ → Ptr → ℕ → ℕ → List Ptr
entries_from unit arena i zero = slot unit arena i ∷ []
entries_from unit arena i (suc n) = slot unit arena i ∷ entries_from unit arena (suc i) n

module _ (unit : ℕ) (arena : Ptr) (pos : 0 < unit) where
  slot-step : (i : ℕ) → slot unit arena i < slot unit arena (suc i)
  slot-step i =
      (let up : i * unit < suc i * unit = mul-lt-mul_of_pos_right (omega arith) pos in omega arith)

  link_entries-below :
      (n i : ℕ) (next : Entries) (a : Ptr)
      → a < slot unit arena i
      → link_entries unit arena i n next a ≡ next a
  unfolding link_entries
  link_entries-below zero i next a lt = update-ne next (slot unit arena i) a null (omega arith)
  link_entries-below (suc n) i next a lt =
      let up = slot-step i in
      link_entries-below n (suc i) (update next (slot unit arena i) (slot unit arena (suc i))) a
        (omega arith)
      ∙ update-ne next (slot unit arena i) a (slot unit arena (suc i)) (omega arith)

  entries_from-Absent :
      (n i : ℕ) (a : Ptr) → a < slot unit arena i → Absent a (entries_from unit arena i n)
  entries_from-Absent zero i a lt = ((λ e. omega arith), tt)
  entries_from-Absent (suc n) i a lt =
      let up = slot-step i in ((λ e. omega arith), entries_from-Absent n (suc i) a (omega arith))

  entries_from-Distinct : (n i : ℕ) → Distinct (entries_from unit arena i n)
  entries_from-Distinct zero i = (tt, tt)
  entries_from-Distinct (suc n) i = (
    entries_from-Absent n (suc i) (slot unit arena i) (slot-step i),
    entries_from-Distinct n (suc i),
  )

  entries_from-Slots :
      (n i cap : ℕ) → i + n < cap → Slots unit arena cap (entries_from unit arena i n)
  entries_from-Slots zero i cap lt = ((i, omega arith, refl), tt)
  entries_from-Slots (suc n) i cap lt =
      ((i, omega arith, refl), entries_from-Slots n (suc i) cap (omega arith))

  length-entries_from : (n i : ℕ) → length (entries_from unit arena i n) ≡ suc n
  length-entries_from zero i = refl
  length-entries_from (suc n) i = ap suc (length-entries_from n (suc i))

  link_entries-Chain :
      (n i : ℕ) (next : Entries)
      → 0 < arena
      → Chain (link_entries unit arena i n next) (slot unit arena i) (entries_from unit arena i n)
  unfolding link_entries
  link_entries-Chain zero i next real =
      (refl, omega arith, update_self next (slot unit arena i) null)
  link_entries-Chain (suc n) i next real =
      let next' = update next (slot unit arena i) (slot unit arena (suc i)) in
      let step =
        link_entries-below n (suc i) next' (slot unit arena i) (slot-step i)
        ∙ update_self next (slot unit arena i) (slot unit arena (suc i)) in
      (refl, omega arith, rw step (link_entries-Chain n (suc i) next' real))

-- A new layer of n + 1 entries in an array that is there is in a good state, with all its entries free.
pub object_layer-IsArena :
    (unit n : ℕ) (arena : Ptr) (next : Entries)
    → 0 < unit
    → 0 < arena
    → suc n < 2 ^ 64
    → IsArena unit
        (object_layer unit (suc n) arena next).0
        (object_layer unit (suc n) arena next).1
        (entries_from unit arena 0 n)
unfolding object_layer
object_layer-IsArena unit n arena next pos real small = record {
  placed = (real, pos);
  small = small;
  chain = first_entry;
  distinct = entries_from-Distinct unit arena pos n 0;
  slots = entries_from-Slots unit arena pos n 0 (suc n) (omega arith);
  balance = omega (arith, length-entries_from unit arena pos n 0);
}
  where
    first_entry :
        Chain (link_entries unit arena 0 (suc n - 1) next) arena (entries_from unit arena 0 n)
    first_entry =
        let here : slot unit arena 0 ≡ arena = omega arith in
        let last : n ≡ suc n - 1 = omega arith in
        subst (λ k. Chain (link_entries unit arena 0 k next) arena (entries_from unit arena 0 n))
          last
          (subst (λ p. Chain (link_entries unit arena 0 n next) p (entries_from unit arena 0 n))
            here (link_entries-Chain unit arena pos n 0 next real))
