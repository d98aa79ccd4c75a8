-- ===== src/Crc/Shift.antt =====
-- The shift register of the polynomial x^16 + x^12 + x^5 + 1 as plain arithmetic on 16 bits.
use morse_cli.Base.{
  ℕ, zero, suc, ◌+◌, ◌*◌, ◌/◌, ◌%◌, ◌^◌, ◌<◌, ◌≡◌, refl, sym, ap, ◌∙◌, arith, bit_xor,
}
use morse_cli.Base.Xor.{xor-zero, xor-mod16, xor-div15, xor_double, xor_exchange, xor_halves}
use mathlib.Core.Path.{ap₂}

-- One shift to the left: the bit that falls out is fed back.
abbrev pub feed : ℕ → ℕ
feed bit = bit * 0x1021

unfoldable pub shift : ℕ → ℕ
shift c = bit_xor (c * 2) (feed (c / 2 ^ 15 % 2)) % 2 ^ 16

-- The bit that falls out of a sum.
pub xor_top_bit : (a b : ℕ) → bit_xor a b / 2 ^ 15 % 2 ≡ (a / 2 ^ 15 + b / 2 ^ 15) % 2
xor_top_bit a b = omega (arith, xor-div15 a b, xor_halves (a / 2 ^ 15) (b / 2 ^ 15))

feed_bits : (x y : ℕ) → x < 2 → y < 2 → feed ((x + y) % 2) ≡ bit_xor (feed x) (feed y)
feed_bits zero zero p q = refl
feed_bits zero (suc zero) p q = refl
feed_bits zero (suc (suc y)) p q = absurd (omega arith)
feed_bits (suc zero) zero p q = refl
feed_bits (suc zero) (suc zero) p q = refl
feed_bits (suc zero) (suc (suc y)) p q = absurd (omega arith)
feed_bits (suc (suc x)) y p q = absurd (omega arith)

pub feed-xor : (x y : ℕ) → feed ((x + y) % 2) ≡ bit_xor (feed (x % 2)) (feed (y % 2))
feed-xor x y = ap feed (omega arith) ∙ feed_bits (x % 2) (y % 2) (omega arith) (omega arith)

-- The register is linear.
pub shift-xor : (a b : ℕ) → shift (bit_xor a b) ≡ bit_xor (shift a) (shift b)
unfolding shift
shift-xor a b =
    ap (λ t. t % 2 ^ 16)
      (ap₂ bit_xor (sym (xor_double a b))
          (ap feed (xor_top_bit a b) ∙ feed-xor (a / 2 ^ 15) (b / 2 ^ 15))
        ∙ xor_exchange (a * 2) (b * 2) (feed (a / 2 ^ 15 % 2)) (feed (b / 2 ^ 15 % 2)))
    ∙ xor-mod16 _ _

pub shift-lt : (a : ℕ) → shift a < 2 ^ 16
unfolding shift
shift-lt a = omega arith

-- While no bit falls out, a shift doubles.
pub shift_low : (a : ℕ) → a < 2 ^ 15 → shift a ≡ a * 2
unfolding shift
shift_low a h =
    let top : a / 2 ^ 15 % 2 ≡ 0 = omega arith in
    ap (λ t. t % 2 ^ 16) (ap (λ t. bit_xor (a * 2) (feed t)) top ∙ xor-zero (a * 2)) ∙ omega arith

-- Only the 16 low bits count.
pub shift-mod : (a : ℕ) → shift (a % 2 ^ 16) ≡ shift a
unfolding shift
shift-mod a =
    let top : a % 2 ^ 16 / 2 ^ 15 % 2 ≡ a / 2 ^ 15 % 2 = omega arith in
    let low : a % 2 ^ 16 * 2 % 2 ^ 16 ≡ a * 2 % 2 ^ 16 = omega arith in
    xor-mod16 _ _ ∙ ap₂ bit_xor low (ap (λ t. feed t % 2 ^ 16) top) ∙ sym (xor-mod16 _ _)

abbrev pub shifts : ℕ → ℕ → ℕ
shifts zero c = c
shifts (suc n) c = shifts n (shift c)

pub shifts-xor : (n a b : ℕ) → shifts n (bit_xor a b) ≡ bit_xor (shifts n a) (shifts n b)
shifts-xor zero a b = refl
shifts-xor (suc n) a b = ap (shifts n) (shift-xor a b) ∙ shifts-xor n (shift a) (shift b)

pub shifts-mod : (n a : ℕ) → shifts n (a % 2 ^ 16) % 2 ^ 16 ≡ shifts n a % 2 ^ 16
shifts-mod zero a = omega arith
shifts-mod (suc n) a = ap (λ t. shifts n t % 2 ^ 16) (shift-mod a)
