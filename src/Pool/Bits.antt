-- ===== src/Pool/Bits.antt =====
-- Digits of words: a number above another, and the mask of the low digits.
use Prim.Native.Nat.{bit_and, bit_or, digits, bit_and-bitwise, bit_or-bitwise, min, max}
use native.Mathlib.Nat.{add-mul-mod_self_left, div-add-mod, mod-lt, mod-eq_of_lt}
use tythread.Base.{ℕ, zero, suc, ◌+◌, ◌-◌, ◌*◌, ◌/◌, ◌%◌, ◌^◌, ◌≤◌, ◌<◌, ◌≡◌, refl, ap, ◌∙◌, arith}

module _ (z : ℕ → ℕ) (f : ℕ → ℕ → ℕ) where
  -- More room than the first number has digits changes nothing.
  digits-room : (n m a b : ℕ) → a ≤ n → a ≤ m → digits z f n a b ≡ digits z f m a b
  digits-room zero zero a b p q = refl
  digits-room zero (suc m) zero b p q = refl
  digits-room (suc n) zero zero b p q = refl
  digits-room (suc n) (suc m) zero b p q = refl
  digits-room zero (suc m) (suc a) b p q = absurd (omega arith)
  digits-room (suc n) zero (suc a) b p q = absurd (omega arith)
  digits-room (suc n) (suc m) (suc a) b p q =
      let rest = digits-room n m (suc a / 2) (b / 2) (omega arith) (omega arith) in
      ap (λ r. r * 2 + f (suc a % 2) (b % 2)) rest

or_zero : (b : ℕ) → bit_or 0 b ≡ b
or_zero b = bit_or-bitwise 0 b

and_zero : (b : ℕ) → bit_and 0 b ≡ 0
and_zero b = bit_and-bitwise 0 b

or_lowest : (a b : ℕ) → bit_or a b ≡ bit_or (a / 2) (b / 2) * 2 + max (a % 2) (b % 2)
or_lowest zero b = omega (arith, or_zero b, or_zero (b / 2))
or_lowest (suc a) b = omega (
  arith,
  bit_or-bitwise (suc a) b,
  bit_or-bitwise (suc a / 2) (b / 2),
  digits-room (λ b. b) max a (suc a / 2) (suc a / 2) (b / 2) (omega arith) (omega arith),
)

and_lowest : (a b : ℕ) → bit_and a b ≡ bit_and (a / 2) (b / 2) * 2 + min (a % 2) (b % 2)
and_lowest zero b = omega (arith, and_zero b, and_zero (b / 2))
and_lowest (suc a) b = omega (
  arith,
  bit_and-bitwise (suc a) b,
  bit_and-bitwise (suc a / 2) (b / 2),
  digits-room (λ b. 0) min a (suc a / 2) (suc a / 2) (b / 2) (omega arith) (omega arith),
)

or_nothing : (n a : ℕ) → a ≤ n → bit_or a 0 ≡ a
or_nothing n zero h = or_zero 0
or_nothing zero (suc a) h = absurd (omega arith)
or_nothing (suc n) (suc a) h =
    omega (arith, or_lowest (suc a) 0, or_nothing n (suc a / 2) (omega arith))

and_nothing : (n a : ℕ) → a ≤ n → bit_and a 0 ≡ 0
and_nothing n zero h = and_zero 0
and_nothing zero (suc a) h = absurd (omega arith)
and_nothing (suc n) (suc a) h =
    omega (arith, and_lowest (suc a) 0, and_nothing n (suc a / 2) (omega arith))

pow_suc : (k : ℕ) → 2 ^ suc k ≡ 2 * 2 ^ k
pow_suc k = grind arith

mul_two : (a y : ℕ) → a * (2 * y) ≡ 2 * (a * y)
mul_two a y = omega arith

-- `a << k | b` for b of k digits.
pub or_above : (k a b : ℕ) → b < 2 ^ k → bit_or (a * 2 ^ k) b ≡ a * 2 ^ k + b
or_above zero a b h =
    let none : b ≡ 0 = omega (arith, h) in
    rw none (ap (λ x. bit_or x 0) (omega arith) ∙ or_nothing a a (omega arith) ∙ omega arith)
or_above (suc k) a b h =
    let double : a * 2 ^ suc k ≡ 2 * (a * 2 ^ k) =
      ap (λ x. a * x) (pow_suc k) ∙ mul_two a (2 ^ k) in
    let half : a * 2 ^ suc k / 2 ≡ a * 2 ^ k = omega (arith, double) in
    let rest = or_above k a (b / 2) (omega (arith, h, pow_suc k)) in
    let shift = ap (λ x. bit_or x (b / 2)) half in
    omega (arith, or_lowest (a * 2 ^ suc k) b, shift, rest, double)

positive : (k : ℕ) → 0 < 2 ^ k
positive zero = omega arith
positive (suc k) = omega (arith, pow_suc k, positive k)

mod_two_mul : (a y : ℕ) → 0 < y → a % (2 * y) ≡ a / 2 % y * 2 + a % 2
mod_two_mul a y pos =
    let q = a / 2 / y in
    let r = a / 2 % y in
    let parts : y * q + r ≡ a / 2 = div-add-mod (a / 2) y in
    let less : r < y = mod-lt (a / 2) pos in
    let whole : a ≡ (r * 2 + a % 2) + (2 * y) * q = omega (arith, parts) in
    ap (λ n. n % (2 * y)) whole
    ∙ add-mul-mod_self_left (r * 2 + a % 2) (2 * y) q
    ∙ mod-eq_of_lt (omega (arith, less))

-- `a & m` for the mask m of k ones.
pub and_mask : (k a : ℕ) → bit_and a (2 ^ k - 1) ≡ a % 2 ^ k
and_mask zero a = and_nothing a a (omega arith) ∙ omega arith
and_mask (suc k) a =
    let half : (2 ^ suc k - 1) / 2 ≡ 2 ^ k - 1 = omega (arith, pow_suc k, positive k) in
    let rest = and_mask k (a / 2) in
    let shift = ap (bit_and (a / 2)) half in
    let odd : (2 ^ suc k - 1) % 2 ≡ 1 = omega (arith, pow_suc k, positive k) in
    let split = ap (λ y. a % y) (pow_suc k) ∙ mod_two_mul a (2 ^ k) (positive k) in
    omega (arith, and_lowest a (2 ^ suc k - 1), rest, shift, odd, split)
