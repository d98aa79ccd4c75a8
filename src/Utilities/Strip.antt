-- ===== src/Utilities/Strip.antt =====
-- utilities.c: the text that strip leaves.
use morse_cli.Base.{
  ℕ, zero, suc, ◌-◌, ◌≤◌, leb, true, false, if◌then◌else◌, Bytes, [], ◌∷◌, length, get_or, set,
  take, drop, ◌≡◌, refl, sym, ap, ◌∙◌, inl, inr, Bool-cases, arith, length-take,
}
use morse_cli.Base.Strings.{c_str, strlen, is_space}
use morse_cli.Base.Trim.{trimmed, trimmed-space, trimmed_other, c_str-set, c_str-nil, c_str-snoc}
use morse_cli.Utilities.Text.{strip_start, strip_end, strip}

-- A text without the space in front of it.
unfoldable pub front_trimmed : Bytes → Bytes
front_trimmed [] = []
front_trimmed (c ∷ cs) = if is_space c then front_trimmed cs else c ∷ cs

c_str-strip_start : (s : Bytes) → c_str (drop (strip_start s) s) ≡ front_trimmed (c_str s)
unfolding c_str strip_start front_trimmed is_space
c_str-strip_start [] = refl
c_str-strip_start (c ∷ s) = ground (arith, c_str-strip_start s)

strip_start-le : (s : Bytes) → strip_start s ≤ strlen s
unfolding c_str strip_start is_space
strip_start-le [] = omega arith
strip_start-le (c ∷ s) = ground (arith, strip_start-le s)

drop-set :
    (b : Bytes) (start i v : ℕ)
    → start ≤ i
    → drop start (set b i v) ≡ set (drop start b) (i - start) v
drop-set b zero i v h = ap (λ k. set b k v) (omega arith)
drop-set [] (suc start) i v h = refl
drop-set (c ∷ b) (suc start) zero v h = absurd (omega arith)
drop-set (c ∷ b) (suc start) (suc i) v h =
    drop-set b start i v (omega arith) ∙ ap (λ k. set (drop start b) k v) (omega arith)

get_or-drop :
    (b : Bytes) (start i d : ℕ) → start ≤ i → get_or (drop start b) (i - start) d ≡ get_or b i d
get_or-drop b zero i d h = ap (λ k. get_or b k d) (omega arith)
get_or-drop [] (suc start) i d h = refl
get_or-drop (c ∷ b) (suc start) zero d h = absurd (omega arith)
get_or-drop (c ∷ b) (suc start) (suc i) d h =
    ap (λ k. get_or (drop start b) k d) {y = i - start} (omega arith)
    ∙ get_or-drop b start i d (omega arith)

strlen-drop : (b : Bytes) (start : ℕ) → start ≤ strlen b → strlen (drop start b) ≡ strlen b - start
unfolding c_str
strlen-drop b zero h = omega arith
strlen-drop [] (suc start) h = absurd (omega arith)
strlen-drop (c ∷ b) (suc start) h = ground (arith, strlen-drop b start)

strlen-set : (b : Bytes) (i : ℕ) → strlen b ≡ suc i → strlen (set b i 0) ≡ i
strlen-set b i h = ap length (c_str-set b i) ∙ omega (arith, length-take i (c_str b))

-- At the last octet of a text: it is left out if it is space, and then the text is shorter.
module _ (d : Bytes) (i : ℕ) (size : strlen d ≡ suc i) where
  trimmed-shorter : is_space (get_or d i 0) ≡ true → trimmed (c_str (set d i 0)) ≡ trimmed (c_str d)
  trimmed-shorter s =
      ap trimmed (c_str-set d i)
      ∙ sym (trimmed-space (take i (c_str d)) (get_or d i 0) s)
      ∙ sym (ap trimmed (c_str-snoc d i size))

  trimmed_same : is_space (get_or d i 0) ≡ false → c_str d ≡ trimmed (c_str d)
  trimmed_same s =
      c_str-snoc d i size
      ∙ sym (trimmed_other (take i (c_str d)) (get_or d i 0) s)
      ∙ sym (ap trimmed (c_str-snoc d i size))

trimmed_ended : (d : Bytes) → strlen d ≡ 0 → c_str d ≡ trimmed (c_str d)
unfolding trimmed
trimmed_ended d h = c_str-nil d h ∙ sym (ap trimmed (c_str-nil d h))

c_str-strip_end :
    (start end : ℕ) (b : Bytes)
    → strlen b ≡ end
    → start ≤ end
    → c_str (drop start (strip_end start end b)) ≡ trimmed (c_str (drop start b))
unfolding strip_end
c_str-strip_end start zero b h le =
    trimmed_ended (drop start b) (omega (arith, strlen-drop b start))
c_str-strip_end start (suc end) b h le = elim (Bool-cases (leb start end)) [
  | inr past ↦ rw past (trimmed_ended (drop start b) (ground (arith, strlen-drop b start)))
  | inl before_end ↦
      let le' : start ≤ end = ground arith in
      let same = get_or-drop b start end 0 le' in
      let size : strlen (drop start b) ≡ suc (end - start) = omega (arith, strlen-drop b start) in
      elim (Bool-cases (is_space (get_or b end 0))) [
        | inl s ↦
            rw (before_end, s)
              (c_str-strip_end start end (set b end 0) (strlen-set b end h) le'
                ∙ ap (λ d. trimmed (c_str d)) (drop-set b start end 0 le')
                ∙ trimmed-shorter (drop start b) (end - start) size (rw same s))
        | inr s ↦ rw (before_end, s) (trimmed_same (drop start b) (end - start) size (rw same s))
      ]
]

-- For every memory of a text, the text at the index that strip returns, in the memory that it leaves,
-- is the text without the space in front of it and at its end, as defined by recursion on the text.
pub strip_lem :
    (s : Bytes) → c_str (drop (strip s).0 (strip s).1) ≡ trimmed (front_trimmed (c_str s))
unfolding strip
strip_lem s =
    c_str-strip_end (strip_start s) (strlen s) s refl (strip_start-le s)
    ∙ ap trimmed (c_str-strip_start s)
