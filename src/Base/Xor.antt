-- ===== src/Base/Xor.antt =====
-- C's `^` on numbers of any width: the laws that shift registers need.
use Prim.Native.Nat.{
  ℕ, zero, suc, ◌+◌, ◌*◌, ◌/◌, ◌%◌, ◌^◌, ◌≤◌, ◌<◌, bit_xor, differ, bit_xor-bitwise,
}
use mathlib.Core.Path.{◌≡◌, refl, sym, ap, ap₂, ◌∙◌}
use native.Mathlib.Nat.{pow-suc, one-le-pow}
use native.Mathlib.Omega.{arith}
use morse_cli.Base.Bits.{bit_xor_step, double_field, half_block}

differ_bits : (x y : ℕ) → x < 2 → y < 2 → differ x y ≡ (x + y) % 2
differ_bits zero y p q = omega arith
differ_bits (suc zero) zero p q = refl
differ_bits (suc zero) (suc zero) p q = refl
differ_bits (suc zero) (suc (suc y)) p q = absurd (omega arith)
differ_bits (suc (suc x)) y p q = absurd (omega arith)

pub xor_halves :
    (a b : ℕ) → (bit_xor a b / 2 ≡ bit_xor (a / 2) (b / 2)) × (bit_xor a b % 2 ≡ (a + b) % 2)
xor_halves a b = omega (arith, bit_xor_step a b, differ_bits (a % 2) (b % 2))

-- Two numbers with the same halves are equal.
le-zero : {a : ℕ} → a ≤ 0 → a ≡ 0
le-zero h = omega arith

eq_of_halves : (a b : ℕ) → a / 2 ≡ b / 2 → a % 2 ≡ b % 2 → a ≡ b
eq_of_halves a b h p = omega arith

pub zero-xor : (b : ℕ) → bit_xor 0 b ≡ b
zero-xor b = bit_xor-bitwise 0 b

xor-zero_fuel : (n a : ℕ) → a ≤ n → bit_xor a 0 ≡ a
xor-zero_fuel zero a h = rw (le-zero h) (zero-xor 0)
xor-zero_fuel (suc n) a h = omega (arith, xor_halves a 0, xor-zero_fuel n (a / 2) (omega arith))

pub xor-zero : (a : ℕ) → bit_xor a 0 ≡ a
xor-zero a = xor-zero_fuel a a (omega arith)

xor_comm_fuel : (n a b : ℕ) → a ≤ n → bit_xor a b ≡ bit_xor b a
xor_comm_fuel zero a b h = rw (le-zero h) (zero-xor b ∙ sym (xor-zero b))
xor_comm_fuel (suc n) a b h =
    omega (arith, xor_halves a b, xor_halves b a, xor_comm_fuel n (a / 2) (b / 2) (omega arith))

pub xor_comm : (a b : ℕ) → bit_xor a b ≡ bit_xor b a
xor_comm a b = xor_comm_fuel a a b (omega arith)

xor_assoc_fuel : (n a b c : ℕ) → a ≤ n → bit_xor (bit_xor a b) c ≡ bit_xor a (bit_xor b c)
xor_assoc_fuel zero a b c h =
    rw (le-zero h) (ap (λ t. bit_xor t c) (zero-xor b) ∙ sym (zero-xor (bit_xor b c)))
xor_assoc_fuel (suc n) a b c h =
    let (l, l') = xor_halves (bit_xor a b) c in
    let (r, r') = xor_halves a (bit_xor b c) in
    let (p, p') = xor_halves a b in
    let (q, q') = xor_halves b c in
    eq_of_halves _ _
      (l
        ∙ ap (λ t. bit_xor t (c / 2)) p
        ∙ xor_assoc_fuel n (a / 2) (b / 2) (c / 2) (omega arith)
        ∙ ap (bit_xor (a / 2)) (sym q)
        ∙ sym r)
      (omega arith)

pub xor_assoc : (a b c : ℕ) → bit_xor (bit_xor a b) c ≡ bit_xor a (bit_xor b c)
xor_assoc a b c = xor_assoc_fuel a a b c (omega arith)

xor_self_fuel : (n a : ℕ) → a ≤ n → bit_xor a a ≡ 0
xor_self_fuel zero a h = rw (le-zero h) (zero-xor 0)
xor_self_fuel (suc n) a h = omega (arith, xor_halves a a, xor_self_fuel n (a / 2) (omega arith))

pub xor_self : (a : ℕ) → bit_xor a a ≡ 0
xor_self a = xor_self_fuel a a (omega arith)

-- `^` works on the bits above and below position `k` apart.
pub xor_blocks :
    (k q r q' r' : ℕ)
    → r < 2 ^ k
    → r' < 2 ^ k
    → bit_xor (q * 2 ^ k + r) (q' * 2 ^ k + r') ≡ bit_xor q q' * 2 ^ k + bit_xor r r'
xor_blocks zero q r q' r' h h' =
    let low : r ≡ 0 = omega arith in
    let low' : r' ≡ 0 = omega arith in
    let left : q * 2 ^ 0 + r ≡ q = omega arith in
    let right : q' * 2 ^ 0 + r' ≡ q' = omega arith in
    ap₂ bit_xor left right ∙ omega (arith, ap₂ bit_xor low low', xor_self 0)
xor_blocks (suc k) q r q' r' h h' =
    let (hi, lo) = xor_halves (q * 2 ^ suc k + r) (q' * 2 ^ suc k + r') in
    let (hi', lo') = xor_halves r r' in
    let ih =
      xor_blocks k q (r / 2) q' (r' / 2) (omega (arith, pow-suc 2 k))
        (omega (arith, pow-suc 2 k)) in
    eq_of_halves _ _
      (hi
        ∙ ap₂ bit_xor (half_block k q r) (half_block k q' r')
        ∙ ih
        ∙ omega (arith, hi', half_block k (bit_xor q q') (bit_xor r r')))
      (omega (arith, double_field q k, double_field q' k, double_field (bit_xor q q') k))

pub xor_bound : (k a b : ℕ) → a < 2 ^ k → b < 2 ^ k → bit_xor a b < 2 ^ k
xor_bound zero a b h h' =
    let low : a ≡ 0 = omega arith in
    let low' : b ≡ 0 = omega arith in omega (arith, ap₂ bit_xor low low', xor_self 0)
xor_bound (suc k) a b h h' = omega (
  arith,
  pow-suc 2 k,
  xor_halves a b,
  xor_bound k (a / 2) (b / 2) (omega (arith, pow-suc 2 k)) (omega (arith, pow-suc 2 k)),
)

-- The case of a register of sixteen bits.
pub xor-mod16 : (a b : ℕ) → bit_xor a b % 2 ^ 16 ≡ bit_xor (a % 2 ^ 16) (b % 2 ^ 16)
xor-mod16 a b =
    let bound = xor_bound 16 (a % 2 ^ 16) (b % 2 ^ 16) (omega arith) (omega arith) in
    let blocks =
      xor_blocks 16 (a / 2 ^ 16) (a % 2 ^ 16) (b / 2 ^ 16) (b % 2 ^ 16) (omega arith)
        (omega arith) in
    let whole : bit_xor a b
        ≡ bit_xor (a / 2 ^ 16 * 2 ^ 16 + a % 2 ^ 16) (b / 2 ^ 16 * 2 ^ 16 + b % 2 ^ 16) =
      ap₂ bit_xor (omega arith) (omega arith) in
    omega (arith, whole, blocks, bound)

-- A field above bit `k` and one below it: `^` is a sum.
pub xor_fields : (k q r : ℕ) → r < 2 ^ k → bit_xor (q * 2 ^ k) r ≡ q * 2 ^ k + r
xor_fields k q r h =
    let left : q * 2 ^ k ≡ q * 2 ^ k + 0 = omega arith in
    let right : r ≡ 0 * 2 ^ k + r = omega arith in
    ap₂ bit_xor left right
    ∙ xor_blocks k q 0 0 r (one-le-pow k 2 (omega arith)) h
    ∙ omega (arith, ap (λ (t : ℕ). t * 2 ^ k) (xor-zero q), zero-xor r)

pub xor-div15 : (a b : ℕ) → bit_xor a b / 2 ^ 15 ≡ bit_xor (a / 2 ^ 15) (b / 2 ^ 15)
xor-div15 a b =
    let bound = xor_bound 15 (a % 2 ^ 15) (b % 2 ^ 15) (omega arith) (omega arith) in
    let blocks =
      xor_blocks 15 (a / 2 ^ 15) (a % 2 ^ 15) (b / 2 ^ 15) (b % 2 ^ 15) (omega arith)
        (omega arith) in
    let whole : bit_xor a b
        ≡ bit_xor (a / 2 ^ 15 * 2 ^ 15 + a % 2 ^ 15) (b / 2 ^ 15 * 2 ^ 15 + b % 2 ^ 15) =
      ap₂ bit_xor (omega arith) (omega arith) in
    omega (arith, whole, blocks, bound)

pub xor_double : (a b : ℕ) → bit_xor (a * 2) (b * 2) ≡ bit_xor a b * 2
xor_double a b =
    let left : a * 2 / 2 ≡ a = omega arith in
    let right : b * 2 / 2 ≡ b = omega arith in
    omega (arith, xor_halves (a * 2) (b * 2), ap₂ bit_xor left right)

-- Four terms regrouped.
pub xor_exchange :
    (w x y z : ℕ) → bit_xor (bit_xor w x) (bit_xor y z) ≡ bit_xor (bit_xor w y) (bit_xor x z)
xor_exchange w x y z =
    xor_assoc w x (bit_xor y z)
    ∙ ap (bit_xor w)
        (sym (xor_assoc x y z) ∙ ap (λ t. bit_xor t z) (xor_comm x y) ∙ xor_assoc y x z)
    ∙ sym (xor_assoc w y (bit_xor x z))
