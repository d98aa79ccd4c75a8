-- ===== src/Base/Trim.antt =====
-- Space at the end of a text, and the lines of a file as the C library reads them.
use native.Mathlib.Numerals.{add-one}
use morse_cli.Base.Tests.{◌==◌, if◌then◌else◌}
use morse_cli.Base.Strings.{c_str, strlen, is_space, IsText, write_at}
use morse_cli.Base.Lists.{Bytes, length, get_or, set, take, drop, All}
use Prim.Native.Nat.{ℕ, zero, suc, ◌+◌, ◌-◌, ◌≤◌, ◌<◌}
use mathlib.Core.Path.{◌≡◌, refl, ap, ◌∙◌}
use mathlib.Core.Logic.{◌≢◌}
use mathlib.Core.Bool.{true, false}
use mathlib.Core.Option.{Option, none, some}
use mathlib.Core.List.{[], ◌∷◌, ◌++◌}
use native.Mathlib.Omega.{arith}

-- An octet in front of what is left of the text behind it.
unfoldable pub before : ℕ → Bytes → Bytes
before c [] = if is_space c then [] else c ∷ []
before c (d ∷ ds) = c ∷ d ∷ ds

-- A text without the space at its end.
unfoldable pub trimmed : Bytes → Bytes
trimmed [] = []
trimmed (c ∷ cs) = before c (trimmed cs)

pub trimmed-space : (t : Bytes) (c : ℕ) → is_space c ≡ true → trimmed (t ++ (c ∷ [])) ≡ trimmed t
unfolding trimmed before
trimmed-space [] c h = rw h
trimmed-space (d ∷ t) c h = ap (before d) (trimmed-space t c h)

before-snoc : (d : ℕ) (t : Bytes) (c : ℕ) → before d (t ++ (c ∷ [])) ≡ d ∷ (t ++ (c ∷ []))
unfolding before
before-snoc d [] c = refl
before-snoc d (e ∷ t) c = refl

pub trimmed_other :
    (t : Bytes) (c : ℕ) → is_space c ≡ false → trimmed (t ++ (c ∷ [])) ≡ t ++ (c ∷ [])
unfolding trimmed before
trimmed_other [] c h = rw h
trimmed_other (d ∷ t) c h = ap (before d) (trimmed_other t c h) ∙ before-snoc d t c

pub c_str-set : (b : Bytes) (i : ℕ) → c_str (set b i 0) ≡ take i (c_str b)
unfolding c_str
c_str-set [] zero = refl
c_str-set [] (suc i) = refl
c_str-set (c ∷ b) zero = refl
c_str-set (c ∷ b) (suc i) = ground (arith, c_str-set b i)

pub c_str-nil : (b : Bytes) → strlen b ≡ 0 → c_str b ≡ []
unfolding c_str
c_str-nil [] h = refl
c_str-nil (c ∷ b) h = ground arith

pub c_str-snoc :
    (b : Bytes) (i : ℕ) → strlen b ≡ suc i → c_str b ≡ take i (c_str b) ++ (get_or b i 0 ∷ [])
unfolding c_str
c_str-snoc [] i h = absurd (omega arith)
c_str-snoc (c ∷ b) zero h = ground (arith, c_str-nil b)
c_str-snoc (c ∷ b) (suc i) h = ground (arith, c_str-snoc b i)

pub c_str-drop-suc :
    (b : Bytes) (i : ℕ)
    → c_str (drop i b) ≡ (if get_or b i 0 == 0 then [] else get_or b i 0 ∷ c_str (drop (suc i) b))
unfolding c_str
c_str-drop-suc [] zero = refl
c_str-drop-suc [] (suc i) = refl
c_str-drop-suc (c ∷ b) zero = refl
c_str-drop-suc (c ∷ b) (suc i) = c_str-drop-suc b i

pub c_str-drop_get :
    (b : Bytes) (i : ℕ)
    → c_str (drop i b) ≡ (if get_or b i 0 == 0 then [] else get_or b i 0 ∷ c_str (drop (i + 1) b))
c_str-drop_get b i = rw add-one (c_str-drop-suc b i)

-- strchr: the index of the first such octet before the end of the text.
unfoldable pub strchr : ℕ → Bytes → Option ℕ
strchr c [] = none
strchr c (d ∷ ds) =
    let rest = strchr c ds in
    if d == 0
    then none
    else if d == c
    then some 0
    else elim rest [ none ↦ none | some i ↦ some (suc i) ]

-- The octets up to the end of the line, which is one of them, but not more than `size`, and the
-- rest of the file.
unfoldable pub take_line : ℕ → Bytes → Bytes × Bytes
take_line zero file = ([], file)
take_line (suc size) [] = ([], [])
take_line (suc size) (c ∷ file) =
    let (l, rest) = take_line size file in if c == 10 then (c ∷ [], file) else (c ∷ l, rest)

-- fgets (line, size, file), where the file has not ended: the buffer and the rest of the file.
unfoldable pub fgets : ℕ → Bytes → Bytes → Bytes × Bytes
fgets size line file =
    let (text, rest) = take_line (size - 1) file in (write_at 0 (text ++ (0 ∷ [])) line, rest)

-- The text of one line, without the zero octets that would end it early.
abbrev pub IsLine : Bytes → Type 0
IsLine = All (λ c. (c ≢ 0) × (c ≢ 10))

pub IsLine-IsText : (t : Bytes) → IsLine t → IsText t
IsLine-IsText [] h = tt
IsLine-IsText (c ∷ cs) (h, hs) = (h.0, IsLine-IsText cs hs)

pub take_line-end :
    (size : ℕ) (text rest : Bytes)
    → IsLine text
    → length text < size
    → take_line size (text ++ (10 ∷ rest)) ≡ (text ++ (10 ∷ []), rest)
unfolding take_line
take_line-end zero text rest t h = absurd (omega arith)
take_line-end (suc size) [] rest t h = refl
take_line-end (suc size) (c ∷ text) rest (t, ts) h = ground (arith, take_line-end size text rest ts)

pub IsText-snoc : (t : Bytes) → IsLine t → IsText (t ++ (10 ∷ []))
IsText-snoc [] h = omega arith
IsText-snoc (c ∷ cs) (h, hs) = (h.0, IsText-snoc cs hs)

pub take_line-shorter :
    (size c : ℕ) (file : Bytes) → length (take_line (suc size) (c ∷ file)).1 ≤ length file
unfolding take_line
take_line-shorter zero c file = ground arith
take_line-shorter (suc size) c [] = ground arith
take_line-shorter (suc size) c (d ∷ file) = ground (arith, take_line-shorter size d file)
