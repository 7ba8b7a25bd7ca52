-- ===== src/Base/Bits.antt =====
-- Shifts and masks as arithmetic: small ranges by evaluation, disjoint words by recursion on digits.
use Prim.Native.Nat.{
  ℕ, zero, suc, ◌+◌, ◌-◌, ◌*◌, ◌/◌, ◌%◌, ◌^◌, ◌≤◌, ◌<◌, min, max, bit_and, bit_or, digits,
  bit_and-bitwise, bit_or-bitwise,
}
use mathlib.Core.Path.{◌≡◌, refl, ap, ◌∙◌}
use mathlib.Core.Bool.{Bool, true, ◌&&◌}
use native.Mathlib.Nat.{pow-suc, mod-lt, mod-eq_of_lt, div-add-mod', mul-add-mod_self_right}
use native.Mathlib.Omega.{arith}
use go_svn.Base.Tests.{◌==◌}

agree_below : ℕ → (ℕ → ℕ) → (ℕ → ℕ) → Bool
agree_below zero f g = true
agree_below (suc n) f g = f n == g n && agree_below n f g

agree_below→eq : (n : ℕ) (f g : ℕ → ℕ) → agree_below n f g ≡ true → (x : ℕ) → x < n → f x ≡ g x
unfolding agree_below
agree_below→eq zero f g h x lt = absurd (omega arith)
agree_below→eq (suc n) f g h x lt = ground (arith, agree_below→eq n f g (ground arith) x)

-- `b & 0x7f`, `b & 0x3f`, `b & 0x0f`, `b & 0x80` and `b | 0x80` on a byte.
pub low_seven : (b : ℕ) → b < 256 → bit_and b 0x7f ≡ b % 128
unfolding agree_below
low_seven = agree_below→eq 256 _ _ refl

pub low_six : (b : ℕ) → b < 256 → bit_and b 0x3f ≡ b % 64
unfolding agree_below
low_six = agree_below→eq 256 _ _ refl

pub low_four : (b : ℕ) → b < 256 → bit_and b 0x0f ≡ b % 16
unfolding agree_below
low_four = agree_below→eq 256 _ _ refl

pub top_bit : (b : ℕ) → b < 256 → bit_and b 0x80 ≡ b / 128 * 128
unfolding agree_below
top_bit = agree_below→eq 256 _ _ refl

pub set_top_bit : (b : ℕ) → b < 128 → bit_or b 0x80 ≡ b + 128
unfolding agree_below
set_top_bit = agree_below→eq 128 _ _ refl

-- The native operations recur on a count of digits; any count that covers the first number serves.
module _ (z : ℕ → ℕ) (f : ℕ → ℕ → ℕ) where
  digits_count : (n m a b : ℕ) → a ≤ n → a ≤ m → digits z f n a b ≡ digits z f m a b
  digits_count zero zero a b p q = refl
  digits_count zero (suc m) zero b p q = refl
  digits_count zero (suc m) (suc a) b p q = absurd (omega arith)
  digits_count (suc n) zero zero b p q = refl
  digits_count (suc n) zero (suc a) b p q = absurd (omega arith)
  digits_count (suc n) (suc m) zero b p q = refl
  digits_count (suc n) (suc m) (suc a) b p q =
      omega (arith, digits_count n m (suc a / 2) (b / 2) (omega arith) (omega arith))

zero-bit_and : (b : ℕ) → bit_and 0 b ≡ 0
zero-bit_and b = bit_and-bitwise 0 b

bit_and_halves : (a b : ℕ) → bit_and a b ≡ bit_and (a / 2) (b / 2) * 2 + min (a % 2) (b % 2)
bit_and_halves zero b = omega (arith, zero-bit_and b, zero-bit_and (b / 2))
bit_and_halves (suc a) b =
    let h : suc a / 2 ≤ a = omega arith in
    let below = digits_count (λ b. zero) min a (suc a / 2) (suc a / 2) (b / 2) h (omega arith) in
    omega (arith, bit_and-bitwise (suc a) b, bit_and-bitwise (suc a / 2) (b / 2), below)

bit_and-zero_bound : (n a : ℕ) → a ≤ n → bit_and a 0 ≡ 0
bit_and-zero_bound zero a h = let e : a ≡ 0 = omega arith in rw e
bit_and-zero_bound (suc n) a h =
    omega (arith, bit_and_halves a 0, bit_and-zero_bound n (a / 2) (omega arith))

pow-pos : (k : ℕ) → 0 < 2 ^ k
pow-pos zero = omega arith
pow-pos (suc k) = omega (arith, pow-suc 2 k, pow-pos k)

half_of_mask : (n m : ℕ) → 0 < m → n ≡ m * 2 → (n - 1) / 2 ≡ m - 1
half_of_mask n m p e = omega arith

mod_double : (a m : ℕ) → 0 < m → a % (m * 2) ≡ a / 2 % m * 2 + a % 2
mod_double a m p =
    let low : ℕ = a / 2 % m * 2 + a % 2 in
    let bound : low < m * 2 = omega (arith, mod-lt (a / 2) p) in
    let whole : a ≡ a / 2 / m * (m * 2) + low = omega (arith, div-add-mod' (a / 2) m) in
    ap (λ (t : ℕ). t % (m * 2)) whole
    ∙ mul-add-mod_self_right (a / 2 / m) (m * 2) low
    ∙ mod-eq_of_lt bound

-- A mask of `k` ones keeps the value modulo 2 ^ k, whatever the width of the value.
pub bit_and_mask : (k a : ℕ) → bit_and a (2 ^ k - 1) ≡ a % 2 ^ k
bit_and_mask zero a = omega (arith, bit_and-zero_bound a a (omega arith))
bit_and_mask (suc k) a =
    let p : 0 < 2 ^ k = pow-pos k in
    omega (
      arith,
      pow-suc 2 k,
      bit_and_halves a (2 ^ suc k - 1),
      ap (λ (t : ℕ). bit_and (a / 2) t) (half_of_mask (2 ^ suc k) (2 ^ k) p (pow-suc 2 k)),
      bit_and_mask k (a / 2),
      ap (λ (t : ℕ). a % t) (pow-suc 2 k),
      mod_double a (2 ^ k) p,
    )

zero-bit_or : (b : ℕ) → bit_or 0 b ≡ b
zero-bit_or b = bit_or-bitwise 0 b

bit_or_halves : (a b : ℕ) → bit_or a b ≡ bit_or (a / 2) (b / 2) * 2 + max (a % 2) (b % 2)
bit_or_halves zero b = omega (arith, zero-bit_or b, zero-bit_or (b / 2))
bit_or_halves (suc a) b =
    let h : suc a / 2 ≤ a = omega arith in
    let below = digits_count (λ b. b) max a (suc a / 2) (suc a / 2) (b / 2) h (omega arith) in
    omega (arith, bit_or-bitwise (suc a) b, bit_or-bitwise (suc a / 2) (b / 2), below)

half_of : (n m : ℕ) → n ≡ m * 2 → n / 2 ≡ m
half_of n m e = omega arith

-- Words without a common bit are joined by a sum: `low | high<<k` for `low` below 2 ^ k.
pub bit_or_disjoint :
    (k low high : ℕ) → low < 2 ^ k → bit_or low (high * 2 ^ k) ≡ low + high * 2 ^ k
bit_or_disjoint zero low high h =
    let e : low ≡ 0 = omega arith in rw e (omega (arith, zero-bit_or (high * 1)))
bit_or_disjoint (suc k) low high h =
    let shifted : high * 2 ^ suc k ≡ high * 2 ^ k * 2 =
      omega (arith, ap (λ (t : ℕ). high * t) (pow-suc 2 k)) in
    let small : low / 2 < 2 ^ k = omega (arith, pow-suc 2 k) in
    omega (
      arith,
      shifted,
      bit_or_halves low (high * 2 ^ suc k),
      ap (λ (t : ℕ). bit_or (low / 2) t) (half_of (high * 2 ^ suc k) (high * 2 ^ k) shifted),
      bit_or_disjoint k (low / 2) high small,
    )

bit_or-comm_fuel : (n a b : ℕ) → a ≤ n → b ≤ n → bit_or a b ≡ bit_or b a
bit_or-comm_fuel zero zero zero p q = refl
bit_or-comm_fuel zero zero (suc b) p q = absurd (omega arith)
bit_or-comm_fuel zero (suc a) b p q = absurd (omega arith)
bit_or-comm_fuel (suc n) a b p q = omega (
  arith,
  bit_or_halves a b,
  bit_or_halves b a,
  bit_or-comm_fuel n (a / 2) (b / 2) (omega arith) (omega arith),
)

pub bit_or_comm : (a b : ℕ) → bit_or a b ≡ bit_or b a
bit_or_comm a b = bit_or-comm_fuel (a + b) a b (omega arith) (omega arith)
