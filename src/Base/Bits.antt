-- ===== src/Base/Bits.antt =====
-- The bit operations of C on bytes and words, as arithmetic.
use Prim.Native.Nat.{ℕ, zero, suc, ◌+◌, ◌*◌, ◌/◌, ◌%◌, ◌^◌, ◌<◌, ◌≤◌, max}
use Prim.Native.Nat.{min, bit_and, bit_or, digits, bit_and-bitwise, bit_or-bitwise}
use mathlib.Core.Path.{◌≡◌, refl, ap, ◌∙◌}
use mathlib.Core.Bool.{Bool, true, ◌&&◌}
use native.Mathlib.Nat.{pow-suc}
use native.Mathlib.Omega.{arith}
use fip.Base.Tests.{◌==◌, ==_iff}

-- The casts of C to an unsigned type.
abbrev pub u8 : ℕ → ℕ
u8 n = n % 2 ^ 8

abbrev pub u16 : ℕ → ℕ
u16 n = n % 2 ^ 16

-- A property of a byte, by evaluation of all 256.
unfoldable pub every_below : ℕ → (ℕ → Bool) → Bool
every_below zero p = true
every_below (suc n) p = p n && every_below n p

pub every_below_sound : (n : ℕ) (p : ℕ → Bool) (x : ℕ) → every_below n p ≡ true → x < n → p x ≡ true
unfolding every_below
every_below_sound zero p x h l = absurd (omega arith)
every_below_sound (suc n) p x h l = ground (arith, every_below_sound n p x)

bit_and-one_table : every_below 256 (λ x. bit_and x 1 == x % 2) ≡ true
unfolding every_below
bit_and-one_table = refl

-- `c & 1` of a byte.
pub bit_and-one : (x : ℕ) → x < 256 → bit_and x 1 ≡ x % 2
bit_and-one x h = (==_iff _ _).0 (every_below_sound 256 _ x bit_and-one_table h)

and_digits-zero : (n a : ℕ) → digits (λ b. zero) min n a 0 ≡ 0
and_digits-zero zero a = refl
and_digits-zero (suc n) zero = refl
and_digits-zero (suc n) (suc a) = omega (arith, and_digits-zero n (suc a / 2))

pub bit_and_zero : (x : ℕ) → bit_and x 0 ≡ 0
bit_and_zero x = bit_and-bitwise x 0 ∙ and_digits-zero x x

-- `b & 1` of any number.
pub bit_and_low : (x : ℕ) → bit_and x 1 ≡ x % 2
bit_and_low zero = bit_and-bitwise 0 1
bit_and_low (suc x) = omega (arith, bit_and-bitwise (suc x) 1, and_digits-zero x (suc x / 2))

-- `bit_or` recurs on the digits of its first argument, on fuel; here the fuel is dropped.
abbrev or_digits : ℕ → ℕ → ℕ → ℕ
or_digits n a b = digits (λ y. y) max n a b

or_digits_fuel : (n m a b : ℕ) → a ≤ n → a ≤ m → or_digits n a b ≡ or_digits m a b
or_digits_fuel zero zero a b p q = refl
or_digits_fuel zero (suc m) zero b p q = refl
or_digits_fuel zero (suc m) (suc a) b p q = absurd (omega arith)
or_digits_fuel (suc n) zero zero b p q = refl
or_digits_fuel (suc n) zero (suc a) b p q = absurd (omega arith)
or_digits_fuel (suc n) (suc m) zero b p q = refl
or_digits_fuel (suc n) (suc m) (suc a) b p q =
    omega (arith, or_digits_fuel n m (suc a / 2) (b / 2) (omega arith) (omega arith))

pub zero-bit_or : (b : ℕ) → bit_or 0 b ≡ b
zero-bit_or b = bit_or-bitwise 0 b

bit_or_step : (a b : ℕ) → bit_or a b ≡ bit_or (a / 2) (b / 2) * 2 + max (a % 2) (b % 2)
bit_or_step zero b = omega (arith, zero-bit_or b, zero-bit_or (b / 2))
bit_or_step (suc a) b = omega (
  arith,
  bit_or-bitwise (suc a) b,
  bit_or-bitwise (suc a / 2) (b / 2),
  or_digits_fuel a (suc a / 2) (suc a / 2) (b / 2) (omega arith) (omega arith),
)

-- `a | b << k` is a sum where `a` has only bits below `k`.
pub bit_or_above : (k a b : ℕ) → a < 2 ^ k → bit_or a (b * 2 ^ k) ≡ a + b * 2 ^ k
bit_or_above zero a b h =
    let e : a ≡ 0 = omega arith in
    ap (λ (t : ℕ). bit_or t (b * 2 ^ 0)) e ∙ zero-bit_or _ ∙ omega arith
bit_or_above (suc k) a b h = omega (
  arith,
  bit_or_step a (b * 2 ^ suc k),
  pow-suc 2 k,
  ap (λ (t : ℕ). b * t) (pow-suc 2 k),
  bit_or_above k (a / 2) b (omega (arith, pow-suc 2 k)),
  ap (λ (t : ℕ). bit_or (a / 2) t) halved,
)
  where
    halved : b * 2 ^ suc k / 2 ≡ b * 2 ^ k
    halved = omega (arith, ap (λ (t : ℕ). b * t) (pow-suc 2 k))

bit_or_comm_fuel : (n a b : ℕ) → a ≤ n → b ≤ n → bit_or a b ≡ bit_or b a
bit_or_comm_fuel zero zero zero p q = refl
bit_or_comm_fuel zero (suc a) b p q = absurd (omega arith)
bit_or_comm_fuel zero zero (suc b) p q = absurd (omega arith)
bit_or_comm_fuel (suc n) a b p q = omega (
  arith,
  bit_or_step a b,
  bit_or_step b a,
  bit_or_comm_fuel n (a / 2) (b / 2) (omega arith) (omega arith),
)

pub bit_or_comm : (a b : ℕ) → bit_or a b ≡ bit_or b a
bit_or_comm a b = bit_or_comm_fuel (a + b) a b (omega arith) (omega arith)
