-- ===== src/Base/Masks.antt =====
-- Masks that do not begin at bit 0, and fields that are put together with `|`.
use Prim.Native.Nat.{ℕ, zero, suc, ◌+◌, ◌*◌, ◌/◌, ◌%◌, ◌^◌, ◌≤◌, ◌<◌, bit_and, bit_or}
use mathlib.Core.Path.{◌≡◌, refl, ap, ◌∙◌}
use morse_cli.Base.Bits.{bit_and_step, bit_or_step, bit_or-zero, double_field}
use native.Mathlib.Nat.{pow-suc, div-div-eq-div-mul}
use native.Mathlib.Omega.{arith}

and_double : (a m : ℕ) → bit_and a (m * 2) ≡ bit_and (a / 2) m * 2
and_double a m =
    let half : m * 2 / 2 ≡ m = omega arith in
    let even : m * 2 % 2 ≡ 0 = omega arith in
    bit_and_step a (m * 2) ∙ rw half (rw even (omega arith))

pub bit_and-shifted : (k a m : ℕ) → bit_and a (m * 2 ^ k) ≡ bit_and (a / 2 ^ k) m * 2 ^ k
bit_and-shifted zero a m =
    let same : m * 2 ^ 0 ≡ m = omega arith in
    let whole : a / 2 ^ 0 ≡ a = omega arith in rw same (rw whole (omega arith))
bit_and-shifted (suc k) a m =
    let twice : m * 2 ^ suc k ≡ m * 2 ^ k * 2 = omega (arith, double_field m k) in
    let halves : a / 2 / 2 ^ k ≡ a / 2 ^ suc k =
      div-div-eq-div-mul a 2 (2 ^ k) ∙ ap (λ t. a / t) (omega (arith, pow-suc 2 k)) in
    ap (bit_and a) twice
    ∙ and_double a (m * 2 ^ k)
    ∙ rw (bit_and-shifted k (a / 2) m)
        (rw halves (omega (arith, double_field (bit_and (a / 2 ^ suc k) m) k)))

pub bit_or-fields : (k q r : ℕ) → r < 2 ^ k → bit_or (q * 2 ^ k) r ≡ q * 2 ^ k + r
bit_or-fields zero q r h = let none : r ≡ 0 = omega arith in rw none (rw bit_or-zero (omega arith))
bit_or-fields (suc k) q r h =
    let rest = bit_or-fields k q (r / 2) (omega (arith, pow-suc 2 k)) in
    let half : q * 2 ^ suc k / 2 ≡ q * 2 ^ k = omega (arith, double_field q k) in
    let even : q * 2 ^ suc k % 2 ≡ 0 = omega (arith, double_field q k) in
    bit_or_step (q * 2 ^ suc k) r ∙ rw half (rw rest (rw even (omega (arith, double_field q k))))

or_comm_bounded : (bound a b : ℕ) → a ≤ bound → b ≤ bound → bit_or a b ≡ bit_or b a
or_comm_bounded zero a b h k =
    let none : a ≡ 0 = omega arith in let none' : b ≡ 0 = omega arith in rw (none, none') refl
or_comm_bounded (suc bound) a b h k =
    let rest = or_comm_bounded bound (a / 2) (b / 2) (omega arith) (omega arith) in
    omega (arith, rest, bit_or_step a b, bit_or_step b a)

pub bit_or_comm : (a b : ℕ) → bit_or a b ≡ bit_or b a
bit_or_comm a b = or_comm_bounded (a + b) a b (omega arith) (omega arith)

-- The field of the higher bits may come second.
pub bit_or-fields' : (k q r : ℕ) → r < 2 ^ k → bit_or r (q * 2 ^ k) ≡ q * 2 ^ k + r
bit_or-fields' k q r h = bit_or_comm r (q * 2 ^ k) ∙ bit_or-fields k q r h
