-- ===== src/Base/Strings.antt =====
-- The C library's view of a block of memory as a text that ends at its first zero octet. A read
-- behind the block gives zero.
use Prim.Native.Nat.{ℕ, zero, suc, ◌+◌, ◌-◌, ◌≤◌}
use mathlib.Core.Path.{◌≡◌, refl, ap, ◌∙◌}
use mathlib.Core.Logic.{◌≢◌}
use mathlib.Core.Bool.{Bool, true, false, ◌&&◌, ◌||◌}
use mathlib.Core.List.{List, [], ◌∷◌, ◌++◌, append_assoc}
use native.Mathlib.Omega.{arith}
use morse_cli.Base.Tests.{leb, ◌==◌, if◌then◌else◌}
use morse_cli.Base.Lists.{
  Bytes, length, get_or, take, drop, All, length-append, length-take, length-drop,
}

-- The text in a block.
unfoldable pub c_str : Bytes → Bytes
c_str [] = []
c_str (c ∷ cs) = if c == 0 then [] else c ∷ c_str cs

abbrev pub strlen : Bytes → ℕ
strlen b = length (c_str b)

-- A text that may stand in a block: no octet of it is zero.
abbrev pub IsText : Bytes → Type 0
IsText = All (λ c. c ≢ 0)

-- isspace in the C locale.
unfoldable pub is_space : ℕ → Bool
is_space c = (leb 9 c && leb c 13) || c == 32

-- strncmp (b, s, strlen (s)) == 0, for a text s.
unfoldable pub starts_with : Bytes → Bytes → Bool
starts_with [] b = true
starts_with (c ∷ cs) [] = false
starts_with (c ∷ cs) (d ∷ ds) = c == d && starts_with cs ds

-- The octets `text` written from `at` on; what is written behind the end makes the block longer.
unfoldable pub write_at : ℕ → Bytes → Bytes → Bytes
write_at at text b = take at b ++ (text ++ drop (at + length text) b)

-- snprintf (&b[at], size, "%s", src), for a size that is not zero.
unfoldable pub snprintf_s : ℕ → ℕ → Bytes → Bytes → Bytes
snprintf_s at size src b = write_at at (take (size - 1) (c_str src) ++ (0 ∷ [])) b

pub c_str-IsText : (b : Bytes) → IsText (c_str b)
unfolding c_str
c_str-IsText [] = tt
c_str-IsText (c ∷ cs) = ground (arith, c_str-IsText cs)

pub c_str-append : (t rest : Bytes) → IsText t → c_str (t ++ (0 ∷ rest)) ≡ t
unfolding c_str
c_str-append [] rest h = refl
c_str-append (c ∷ cs) rest (h, hs) = ground (arith, c_str-append cs rest hs)

pub strlen-le : (b : Bytes) → strlen b ≤ length b
unfolding c_str
strlen-le [] = omega arith
strlen-le (c ∷ cs) = ground (arith, strlen-le cs)

pub length-write_at :
    (at : ℕ) (text b : Bytes) → at + length text ≤ length b → length (write_at at text b) ≡ length b
unfolding write_at
length-write_at at text b h = omega (
  arith,
  length-append (take at b) (text ++ drop (at + length text) b),
  length-append text (drop (at + length text) b),
  length-take at b,
  length-drop (at + length text) b,
)

pub take-IsText : (n : ℕ) (t : Bytes) → IsText t → IsText (take n t)
take-IsText zero t h = tt
take-IsText (suc n) [] h = tt
take-IsText (suc n) (c ∷ cs) (h, hs) = (h, take-IsText n cs hs)

pub take_all {ℓ} : {A : Type ℓ} (n : ℕ) (xs : List A) → length xs ≤ n → take n xs ≡ xs
take_all zero [] h = refl
take_all zero (x ∷ xs) h = absurd (omega arith)
take_all (suc n) [] h = refl
take_all (suc n) (x ∷ xs) h = ap (◌∷◌ x) (take_all n xs (omega arith))

c_str-take_append :
    (b text rest : Bytes) (n : ℕ)
    → n ≤ strlen b
    → IsText text
    → c_str (take n b ++ (text ++ (0 ∷ rest))) ≡ take n (c_str b) ++ text
unfolding c_str
c_str-take_append b text rest zero h t = c_str-append text rest t
c_str-take_append [] text rest (suc n) h t = absurd (omega arith)
c_str-take_append (c ∷ b) text rest (suc n) h t = ground (arith, c_str-take_append b text rest n)

-- Writing behind the text in a block, or inside of it.
pub c_str-write_at :
    (b text : Bytes) (n : ℕ)
    → n ≤ strlen b
    → IsText text
    → c_str (write_at n (text ++ (0 ∷ [])) b) ≡ take n (c_str b) ++ text
unfolding write_at
c_str-write_at b text n h t =
    ap c_str
      (ap (◌++◌ (take n b)) (append_assoc text (0 ∷ []) (drop (n + length (text ++ (0 ∷ []))) b)))
    ∙ c_str-take_append b text (drop (n + length (text ++ (0 ∷ []))) b) n h t

pub first-c_str : (b : Bytes) {c : ℕ} {cs : Bytes} → c_str b ≡ c ∷ cs → get_or b 0 0 ≡ c
unfolding c_str
first-c_str [] h = cc
first-c_str (d ∷ b) h = ground arith

pub starts_with-c_str : (s b : Bytes) → IsText s → starts_with s b ≡ starts_with s (c_str b)
unfolding starts_with c_str
starts_with-c_str [] b h = refl
starts_with-c_str (c ∷ s) [] h = refl
starts_with-c_str (c ∷ s) (d ∷ b) (h, hs) = ground (arith, starts_with-c_str s b hs)

pub starts_with-append : (s rest : Bytes) → starts_with s (s ++ rest) ≡ true
unfolding starts_with
starts_with-append [] rest = refl
starts_with-append (c ∷ s) rest = ground (arith, starts_with-append s rest)

pub c_str-drop : (b s rest : Bytes) → c_str b ≡ s ++ rest → c_str (drop (length s) b) ≡ rest
unfolding c_str
c_str-drop b [] rest h = h
c_str-drop [] (c ∷ s) rest h = cc
c_str-drop (d ∷ b) (c ∷ s) rest h = ground (arith, c_str-drop b s rest)
