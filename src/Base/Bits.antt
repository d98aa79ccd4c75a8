-- ===== src/Base/Bits.antt =====
-- C's `&` and `|` as arithmetic: the equation of each operation for the lowest digit, and masks.
-- The native operations mean `bitwise`, which works off the digits of the first number.
use Prim.Native.Nat.{ℕ, zero, suc, ◌+◌, ◌*◌, ◌/◌, ◌%◌, ◌^◌, ◌≤◌, ◌<◌, bit_and, bit_or, bit_xor}
use Prim.Native.Nat.{min, max, digits, bitwise, differ}
use Prim.Native.Nat.{bit_and-bitwise, bit_or-bitwise, bit_xor-bitwise}
use mathlib.Core.Path.{◌≡◌, refl, ap, ◌∙◌, sym}
use native.Mathlib.Nat.{pow-suc, one-le-pow, div-add-mod, mod-lt}
use native.Mathlib.Omega.{arith}

module _ (tail : ℕ → ℕ) (op : ℕ → ℕ → ℕ) where
  -- More digits than the number has change nothing.
  surplus :
      (bound more a b : ℕ) → a ≤ bound → a ≤ more → digits tail op more a b ≡ bitwise tail op a b
  surplus bound zero zero b h k = refl
  surplus bound (suc more) zero b h k = refl
  surplus bound zero (suc a) b h k = absurd (omega arith)
  surplus zero (suc more) (suc a) b h k = absurd (omega arith)
  surplus (suc bound) (suc more) (suc a) b h k =
      let half = suc a / 2 in
      let here = surplus bound more half (b / 2) (omega arith) (omega arith) in
      let there = surplus bound a half (b / 2) (omega arith) (omega arith) in
      ap (λ (t : ℕ). t * 2 + op (suc a % 2) (b % 2)) (here ∙ sym there)

  lowest_digit :
      (a b : ℕ)
      → bitwise tail op (suc a) b ≡ bitwise tail op (suc a / 2) (b / 2) * 2 + op (suc a % 2) (b % 2)
  lowest_digit a b =
      ap (λ (t : ℕ). t * 2 + op (suc a % 2) (b % 2))
        (surplus (suc a) a (suc a / 2) (b / 2) (omega arith) (omega arith))

pub bit_and_step : (a b : ℕ) → bit_and a b ≡ bit_and (a / 2) (b / 2) * 2 + min (a % 2) (b % 2)
bit_and_step (suc a) b = simp bit_and-bitwise (lowest_digit (λ _. 0) min a b)
bit_and_step zero b = simp bit_and-bitwise (omega arith)

pub bit_or_step : (a b : ℕ) → bit_or a b ≡ bit_or (a / 2) (b / 2) * 2 + max (a % 2) (b % 2)
bit_or_step (suc a) b = simp bit_or-bitwise (lowest_digit (λ t. t) max a b)
bit_or_step zero b = simp bit_or-bitwise (omega arith)

pub bit_xor_step : (a b : ℕ) → bit_xor a b ≡ bit_xor (a / 2) (b / 2) * 2 + differ (a % 2) (b % 2)
bit_xor_step (suc a) b = simp bit_xor-bitwise (lowest_digit (λ t. t) differ a b)
bit_xor_step zero b = simp bit_xor-bitwise (omega arith)

and_nothing : (bound a : ℕ) → a ≤ bound → bit_and a 0 ≡ 0
and_nothing zero a h = let none : a ≡ 0 = omega arith in rw none
and_nothing (suc bound) a h =
    omega (arith, and_nothing bound (a / 2) (omega arith), bit_and_step a 0)

pub bit_and-zero : (a : ℕ) → bit_and a 0 ≡ 0
bit_and-zero a = and_nothing a a (omega arith)

or_nothing : (bound a : ℕ) → a ≤ bound → bit_or a 0 ≡ a
or_nothing zero a h = let none : a ≡ 0 = omega arith in rw none
or_nothing (suc bound) a h = omega (arith, or_nothing bound (a / 2) (omega arith), bit_or_step a 0)

pub bit_or-zero : (a : ℕ) → bit_or a 0 ≡ a
bit_or-zero a = or_nothing a a (omega arith)

pub bit_and-one : (a : ℕ) → bit_and a 1 ≡ a % 2
bit_and-one a = omega (arith, bit_and-zero (a / 2), bit_and_step a 1)

pub bit_or-bit : (a v : ℕ) → v < 2 → bit_or (a * 2) v ≡ a * 2 + v
bit_or-bit a zero h = rw bit_or-zero (omega arith)
bit_or-bit a (suc zero) h =
    let half : a * 2 / 2 ≡ a = omega arith in
    bit_or_step (a * 2) 1 ∙ rw half (rw bit_or-zero (omega arith))
bit_or-bit a (suc (suc v)) h = absurd (omega arith)

-- A field at bit `k + 1` is twice the field at bit `k`.
pub double_field : (q k : ℕ) → q * 2 ^ suc k ≡ 2 * (q * 2 ^ k)
double_field q k = omega (arith, ap (λ (t : ℕ). q * t) (pow-suc 2 k))

pub half_block : (k q r : ℕ) → (q * 2 ^ suc k + r) / 2 ≡ q * 2 ^ k + r / 2
half_block k q r = omega (arith, double_field q k)

and_block : (k m q r : ℕ) → m + 1 ≡ 2 ^ k → r < 2 ^ k → bit_and (q * 2 ^ k + r) m ≡ r
and_block zero m q r e h = let none : m ≡ 0 = omega arith in rw none (rw bit_and-zero (omega arith))
and_block (suc k) m q r e h =
    let rest =
      and_block k (m / 2) q (r / 2) (omega (arith, pow-suc 2 k)) (omega (arith, pow-suc 2 k)) in
    bit_and_step (q * 2 ^ suc k + r) m
    ∙ rw (half_block k q r) (rw rest (omega (arith, double_field q k, pow-suc 2 k)))

-- A mask of low bits is a remainder.
pub bit_and-mask : (k m a : ℕ) → m + 1 ≡ 2 ^ k → bit_and a m ≡ a % 2 ^ k
bit_and-mask k m a e =
    let split : a ≡ a / 2 ^ k * 2 ^ k + a % 2 ^ k = omega (arith, div-add-mod a (2 ^ k)) in
    ap (λ t. bit_and t m) split
    ∙ and_block k m (a / 2 ^ k) (a % 2 ^ k) e (mod-lt _ (one-le-pow k 2 (omega arith)))
