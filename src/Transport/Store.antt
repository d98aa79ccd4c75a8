-- ===== src/Transport/Store.antt =====
-- Bytes stored behind the data of a buffer: they extend what the data pointer shows.
use morse_cli.Base.{
  ℕ, zero, suc, ◌+◌, ◌≤◌, ◌≡◌, refl, ap, ◌∙◌, sym, arith, [], ◌∷◌, ◌++◌, Bytes, length, take, drop,
  set, length-set, take-set_end, append_assoc, append-nil, length-drop,
}
use morse_cli.Transport.{slice, store_bytes}
use native.Mathlib.Nat.{suc-add}

drop-set :
    (mem : Bytes) (offset n v : ℕ)
    → drop offset (set mem (offset + n) v) ≡ set (drop offset mem) n v
drop-set mem zero n v = ap (λ k. set mem k v) (omega arith)
drop-set [] (suc offset) n v = refl
drop-set (x ∷ mem) (suc offset) n v = rw suc-add (drop-set mem offset n v)

drop-store_bytes :
    (bs mem : Bytes) (offset n : ℕ)
    → drop offset (store_bytes mem (offset + n) bs) ≡ store_bytes (drop offset mem) n bs
drop-store_bytes [] mem offset n = refl
drop-store_bytes (b ∷ bs) mem offset n =
    ap (λ k. drop offset (store_bytes (set mem (offset + n) b) k bs)) (omega arith)
    ∙ drop-store_bytes bs (set mem (offset + n) b) offset (n + 1)
    ∙ ap (λ m. store_bytes m (n + 1) bs) (drop-set mem offset n b)

pub take-store_bytes :
    (bs mem : Bytes) (n : ℕ)
    → n + length bs ≤ length mem
    → take (n + length bs) (store_bytes mem n bs) ≡ take n mem ++ bs
take-store_bytes [] mem n h = ap (λ k. take k mem) (omega arith) ∙ sym (append-nil (take n mem))
take-store_bytes (b ∷ bs) mem n h =
    ap (λ k. take k (store_bytes (set mem n b) (n + 1) bs)) (omega arith)
    ∙ take-store_bytes bs (set mem n b) (n + 1) (omega (arith, length-set mem n b))
    ∙ ap (λ t. t ++ bs) (take-set_end mem n b (omega arith))
    ∙ append_assoc (take n mem) (b ∷ []) bs

pub length-store_bytes : (bs mem : Bytes) (n : ℕ) → length (store_bytes mem n bs) ≡ length mem
length-store_bytes [] mem n = refl
length-store_bytes (b ∷ bs) mem n = length-store_bytes bs (set mem n b) (n + 1) ∙ length-set mem n b

pub slice-store_bytes :
    (bs mem : Bytes) (offset n : ℕ)
    → offset + n + length bs ≤ length mem
    → slice (store_bytes mem (offset + n) bs) offset (n + length bs) ≡ slice mem offset n ++ bs
slice-store_bytes bs mem offset n h =
    ap (take (n + length bs)) (drop-store_bytes bs mem offset n)
    ∙ take-store_bytes bs (drop offset mem) n (omega (arith, length-drop offset mem))

store_bytes-cons :
    (bs mem : Bytes) (x n : ℕ) → store_bytes (x ∷ mem) (suc n) bs ≡ x ∷ store_bytes mem n bs
store_bytes-cons [] mem x n = refl
store_bytes-cons (b ∷ bs) mem x n =
    ap (λ k. store_bytes (x ∷ set mem n b) k bs) {y = suc (n + 1)} (omega arith)
    ∙ store_bytes-cons bs (set mem n b) x (n + 1)

-- A store at the front.
pub store_bytes-front :
    (bs mem : Bytes) → length bs ≤ length mem → store_bytes mem 0 bs ≡ bs ++ drop (length bs) mem
store_bytes-front [] mem h = refl
store_bytes-front (b ∷ bs) [] h = absurd (omega arith)
store_bytes-front (b ∷ bs) (x ∷ mem) h =
    store_bytes-cons bs mem b 0 ∙ ap (◌∷◌ b) (store_bytes-front bs mem (omega arith))

take-behind : (xs ys : Bytes) (m : ℕ) → take (length xs + m) (xs ++ ys) ≡ xs ++ take m ys
take-behind [] ys m = ap (λ k. take k ys) (omega arith)
take-behind (x ∷ xs) ys m =
    ap (λ k. take k (x ∷ (xs ++ ys))) {y = suc (length xs + m)} (omega arith)
    ∙ ap (◌∷◌ x) (take-behind xs ys m)

drop-drop : (mem : Bytes) (n m : ℕ) → drop m (drop n mem) ≡ drop (n + m) mem
drop-drop mem zero m = ap (λ k. drop k mem) (omega arith)
drop-drop [] (suc n) m = nothing m ∙ ap (λ k. drop k []) {x = suc (n + m)} (omega arith)
  where
    nothing : (m : ℕ) → drop {A = ℕ} m [] ≡ []
    nothing zero = refl
    nothing (suc m) = refl
drop-drop (x ∷ mem) (suc n) m =
    drop-drop mem n m ∙ ap (λ k. drop k (x ∷ mem)) {x = suc (n + m)} (omega arith)

-- The data of a buffer after a store at its start.
pub slice-store_front :
    (bs mem : Bytes) (offset m : ℕ)
    → offset + (length bs + m) ≤ length mem
    → slice (store_bytes mem offset bs) offset (length bs + m)
      ≡ bs ++ slice mem (offset + length bs) m
slice-store_front bs mem offset m h =
    let n = length bs + m in
    ap (λ j. take n (drop offset (store_bytes mem j bs))) {y = offset + 0} (omega arith)
    ∙ ap (take n) (drop-store_bytes bs mem offset 0)
    ∙ ap (take n) (store_bytes-front bs (drop offset mem) (omega (arith, length-drop offset mem)))
    ∙ take-behind bs (drop (length bs) (drop offset mem)) m
    ∙ ap (λ t. bs ++ take m t) (drop-drop mem offset (length bs))
