-- ===== src/Sdio/Response.antt =====
-- The search for the response of a command (transport/sdio_over_spi.c).
use morse_cli.Base.{
  ℕ, zero, suc, ◌+◌, ◌-◌, ◌≤◌, ◌<◌, ◌≡◌, refl, ap, ◌∙◌, arith, ◌==◌, ltb, Bool, true, false,
  Bool-cases, inl, inr, ◌||◌, ◌&&◌, if◌then◌else◌, Bytes, All, [], ◌∷◌, ◌++◌, get_or, length,
  Option, some, none,
}
use morse_cli.Sdio.{is_success, find_resp_from, cmd_find_resp}

abbrev pub is_filler : ℕ → Bool
is_filler octet = octet == 0xff || octet == 0xfe

abbrev pub Fillers : Bytes → Type 0
Fillers = All (λ octet. is_filler octet ≡ true)

-- What the octet that decides, with the one behind it, makes of a search in `size` octets where it
-- stands at index `k`.
abbrev pub answer : ℕ → ℕ → ℕ → ℕ → Option ℕ
answer status behind k size =
    if is_success status
    then (if ltb k (size - 2) && is_success behind then some (k + 2) else some (k + 1))
    else none

get_or-Fillers :
    (fillers rest : Bytes) (i : ℕ)
    → Fillers fillers
    → i < length fillers
    → is_filler (get_or (fillers ++ rest) i 0) ≡ true
get_or-Fillers [] rest i h k = absurd (omega arith)
get_or-Fillers (f ∷ fs) rest zero (h, hs) k = h
get_or-Fillers (f ∷ fs) rest (suc i) (h, hs) k = get_or-Fillers fs rest i hs (omega arith)

get_or-status :
    (fillers : Bytes) (status : ℕ) (rest : Bytes)
    → get_or (fillers ++ (status ∷ rest)) (length fillers) 0 ≡ status
get_or-status [] status rest = refl
get_or-status (f ∷ fs) status rest = get_or-status fs status rest

get_or-next :
    (fillers : Bytes) (status : ℕ) (rest : Bytes)
    → get_or (fillers ++ (status ∷ rest)) (length fillers + 1) 0 ≡ get_or rest 0 0
get_or-next [] status rest = refl
get_or-next (f ∷ fs) status rest =
    ap (λ n. get_or (f ∷ (fs ++ (status ∷ rest))) n 0) {y = suc (length fs + 1)} (omega arith)
    ∙ get_or-next fs status rest

find_resp_from-answer :
    (fillers rest : Bytes) (status size ii rounds : ℕ)
    → Fillers fillers
    → is_filler status ≡ false
    → ii ≤ length fillers
    → length fillers < ii + rounds
    → find_resp_from (fillers ++ (status ∷ rest)) size ii rounds
      ≡ answer status (get_or rest 0 0) (length fillers) size
unfolding find_resp_from
find_resp_from-answer fillers rest status size ii zero h s k l = absurd (omega arith)
find_resp_from-answer fillers rest status size ii (suc rounds) h s k l =
    elim (Bool-cases (ltb ii (length fillers))) [
      | inl e ↦ rw (get_or-Fillers fillers (status ∷ rest) ii h (ground arith)) (
          find_resp_from-answer fillers rest status size (ii + 1) rounds h s (ground arith)
            (omega arith))
      | inr e ↦
          let here : ii ≡ length fillers = ground arith in
          rw here (rw (get_or-status fillers status rest, s, get_or-next fillers status rest) refl)
    ]

-- Behind fewer filling octets, 0xff or 0xfe, than the search has rounds, the first other octet
-- decides: a success (0x00 or 0x01) gives the index behind it, or behind a second status octet where
-- one follows that is not the last of the size, and any other octet gives no response.
pub cmd_find_resp-answer :
    (fillers rest : Bytes) (status size : ℕ)
    → Fillers fillers
    → is_filler status ≡ false
    → length fillers + 1 < size
    → cmd_find_resp (fillers ++ (status ∷ rest)) size
      ≡ answer status (get_or rest 0 0) (length fillers) size
unfolding cmd_find_resp
cmd_find_resp-answer fillers rest status size h s k =
    find_resp_from-answer fillers rest status size 0 (size - 1) h s (omega arith) (omega arith)
