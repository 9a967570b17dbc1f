-- ===== src/Pool/Arena.antt =====
-- The free list of one layer: no entry is handed out twice, and each comes back.
use native.Mathlib.Nat.{mul-lt-mul_of_pos_right, mul-mod_left}
use mathlib.Core.Bool.{true≢false}
use tythread.Base.{
  ℕ, ◌+◌, ◌-◌, ◌*◌, ◌%◌, ◌^◌, ◌≤◌, ◌<◌, ◌≡◌, refl, sym, ◌∙◌, ◌≢◌, ◌⊎◌, inl, inr, arith, Bool, true,
  false, ltb, leb, ◌==◌, if◌then◌else◌, Bool-cases, Ptr, null, update, update_self, update-ne, List,
  [], ◌∷◌, length, Absent,
}
use tythread.Pool.{
  Entries, ObjectLayer, not_here, here_but_not_multiple, not_in_use_after, still_in_use_after, slot,
  layer_alloc, layer_release,
}

-- The entries from p on, as `next` leads, are xs.
abbrev pub Chain : Entries → Ptr → List Ptr → Type 0
Chain next p [] = p ≡ null
Chain next p (x ∷ xs) = (p ≡ x) × (0 < x) × Chain next (next x) xs

abbrev pub Distinct : List Ptr → Type 0
Distinct [] = Unit
Distinct (x ∷ xs) = Absent x xs × Distinct xs

-- The entry is one of the array.
abbrev pub Slot : ℕ → Ptr → ℕ → Ptr → Type 0
Slot unit arena cap p = (i : ℕ) × (i < cap) × (p ≡ slot unit arena i)

abbrev pub Slots : ℕ → Ptr → ℕ → List Ptr → Type 0
Slots unit arena cap [] = Unit
Slots unit arena cap (x ∷ xs) = Slot unit arena cap x × Slots unit arena cap xs

-- The free entries of the layer are `free`, in order, and all others are in use.
pub record IsArena (unit : ℕ) (next : Entries) (l : ObjectLayer) (free : List Ptr) : Type 0 where
  pub placed : (0 < l.arena) × (0 < unit)
  pub small : l.arena_cap < 2 ^ 64
  pub chain : Chain next l.head free
  pub distinct : Distinct free
  pub slots : Slots unit l.arena l.arena_cap free
  pub balance : l.used + length free ≡ l.arena_cap

pub Chain-frame :
    (next : Entries) (a v p : Ptr) (xs : List Ptr)
    → Absent a xs
    → Chain next p xs
    → Chain (update next a v) p xs
Chain-frame next a v p [] away c = c
Chain-frame next a v p (x ∷ xs) away c =
    (c.0, c.1, rw (update-ne next a x v away.0) (Chain-frame next a v (next x) xs away.1 c.2))

-- What an allocation is to do with the free entries `free`.
abbrev pub Allocates : ℕ → Entries → ObjectLayer → List Ptr → Ptr × ObjectLayer → Type 0
Allocates unit next l [] (p, l') = (p ≡ null) × (l' ≡ l) × (l.used ≡ l.arena_cap)
Allocates unit next l (x ∷ free) (p, l') =
    (p ≡ x) × (0 < p) × Absent p free × Slot unit l.arena l.arena_cap p × IsArena unit next l' free

-- `my_alloc` on a layer in a good state: if all entries are in use it returns null and changes
-- nothing; otherwise it returns the first free entry, an entry of the array that is not free
-- afterwards, and the layer stays in a good state.
pub layer_alloc-Allocates :
    {unit : ℕ} {next : Entries} {l : ObjectLayer} (free : List Ptr)
    → IsArena unit next l free
    → Allocates unit next l free (layer_alloc next l)
unfolding layer_alloc
layer_alloc-Allocates {l = l} [] v =
    let full : (l.head == null) ≡ true = ground (arith, v.chain) in
    rw full (refl, refl, omega (arith, v.balance))
layer_alloc-Allocates {unit} {next} {l} (x ∷ free) v =
    let some_free : (l.head == null) ≡ false = ground (arith, v.chain.0, v.chain.1) in
    let more : (l.used + 1) % 2 ^ 64 ≡ l.used + 1 = omega (arith, v.balance, v.small) in
    rw (some_free, more)
      (
        v.chain.0,
        omega (arith, v.chain.0, v.chain.1),
        rw v.chain.0 v.distinct.0,
        rw v.chain.0 v.slots.0,
        record {
          placed = v.placed;
          small = v.small;
          chain = rw v.chain.0 v.chain.2;
          distinct = v.distinct.1;
          slots = v.slots.1;
          balance = omega (arith, v.balance);
        },
      )

Slot-position :
    (unit arena cap p : ℕ)
    → 0 < unit
    → Slot unit arena cap p
    → ((p - arena) % unit ≡ 0) × (arena ≤ p) × (p < arena + cap * unit)
Slot-position unit arena cap p pos (i, lt, e) =
    let inside : i * unit < cap * unit = mul-lt-mul_of_pos_right lt pos in
    let offset : p - arena ≡ i * unit = omega arith in
    (rw offset (mul-mod_left i unit), omega arith, omega arith)

-- `my_release` of an entry of the array that is in use, to a layer in a good state: it becomes the
-- first free entry, the layer stays in a good state, and the result says whether entries are in use.
pub layer_release-IsArena :
    {unit : ℕ} {next : Entries} {l : ObjectLayer} (free : List Ptr) (p : Ptr)
    → IsArena unit next l free
    → Slot unit l.arena l.arena_cap p
    → Absent p free
    → 0 < l.used
    → IsArena unit (layer_release unit p next l).1 (layer_release unit p next l).2 (p ∷ free)
      × ((layer_release unit p next l).0
          ≡ (if l.used == 1 then not_in_use_after else still_in_use_after))
unfolding layer_release
layer_release-IsArena {unit} {next} {l} free p v here away some =
    let (aligned, above, below) = Slot-position unit l.arena l.arena_cap p v.placed.1 here in
    let real : (p == null) ≡ false = ground (arith, v.placed.0) in
    let inside : (if ltb p l.arena then true else leb (l.arena + l.arena_cap * unit) p) ≡ false =
      ground arith in
    let less : (l.used + (2 ^ 64 - 1)) % 2 ^ 64 ≡ l.used - 1 = omega (arith, v.balance, v.small) in
    let ok : ((p - l.arena) % unit == 0) ≡ true = rw aligned refl in
    rw (real, inside, ok, less)
      (
        record {
          placed = v.placed;
          small = v.small;
          chain = (
            refl,
            omega (arith, v.placed.0),
            rw (update_self next p l.head) (Chain-frame next p l.head l.head free away v.chain),
          );
          distinct = (away, v.distinct);
          slots = (here, v.slots);
          balance = omega (arith, v.balance);
        },
        ground arith,
      )

abbrev pub outside : ℕ → Ptr → ObjectLayer → Bool
outside unit p l = if ltb p l.arena then true else leb (l.arena + l.arena_cap * unit) p

-- An address that is not null and lies outside the array, or inside but not at an entry, changes
-- nothing, and the result says which of both it is.
pub layer_release-refuses :
    (unit p : ℕ) (next : Entries) (l : ObjectLayer)
    → 0 < p
    → (outside unit p l ≡ true) ⊎ ((p - l.arena) % unit ≢ 0)
    → layer_release unit p next l
      ≡ ((if outside unit p l then not_here else here_but_not_multiple), next, l)
unfolding layer_release
layer_release-refuses unit p next l pos how =
    let real : (p == null) ≡ false = ground arith in
    rw real (elim (Bool-cases (outside unit p l)) [
      | inl out ↦ rw out refl
      | inr inside ↦ rw inside (elim how [
        | inl out ↦ absurd (true≢false (sym out ∙ inside))
        | inr ne ↦ (let off : ((p - l.arena) % unit == 0) ≡ false = ground arith in rw off refl)
      ])
    ])
