-- ===== src/Raw/Parse.antt =====
-- What the chip is sent by raw.c, read back: the layout of the structures as a parser, and the
-- ranges that the messages of the program promise.
use morse_cli.Base.{
  ℕ, zero, suc, ◌+◌, ◌*◌, ◌%◌, ◌/◌, ◌^◌, ◌≤◌, ◌<◌, ◌≡◌, refl, ap, ◌∙◌, arith, Option, none, some,
  Bytes, List, [], ◌∷◌, ◌++◌, All,
}
use morse_cli.Sdio.Memblock.{le32_octets}
use morse_cli.Raw.{Tlv, slot_def, group, start_time, praw, bcn_spread, tlv_octets, tlvs_octets}

abbrev le16 : ℕ → ℕ → ℕ
le16 a b = a + b * 2 ^ 8

abbrev le32 : ℕ → ℕ → ℕ → ℕ → ℕ
le32 a b c d = a + b * 2 ^ 8 + c * 2 ^ 16 + d * 2 ^ 24

abbrev after : Tlv → Option (List Tlv) → Option (List Tlv)
after t none = none
after t (some ts) = some (t ∷ ts)

-- A sequence of TLVs, each with the length that its tag has.
abbrev pub parse_tlvs : Bytes → Option (List Tlv)
parse_tlvs [] = some []
parse_tlvs (zero ∷ a ∷ b ∷ c ∷ d ∷ slots ∷ bleed ∷ rest) =
    after (slot_def (le32 a b c d) slots bleed) (parse_tlvs rest)
parse_tlvs (suc zero ∷ a ∷ b ∷ c ∷ d ∷ rest) = after (group (le16 a b) (le16 c d)) (parse_tlvs rest)
parse_tlvs (suc (suc zero) ∷ a ∷ b ∷ c ∷ d ∷ rest) =
    after (start_time (le32 a b c d)) (parse_tlvs rest)
parse_tlvs (suc (suc (suc zero)) ∷ p ∷ v ∷ o ∷ r ∷ rest) = after (praw p v o r) (parse_tlvs rest)
parse_tlvs (suc (suc (suc (suc zero))) ∷ a ∷ b ∷ c ∷ d ∷ rest) =
    after (bcn_spread (le16 a b) (le16 c d)) (parse_tlvs rest)
parse_tlvs _ = none

-- The ranges.
abbrev pub IsValid : Tlv → Type 0
IsValid (slot_def duration slots bleed) =
    (0 < slots)
    × (slots ≤ 63)
    × (slots * 500 ≤ duration)
    × (duration ≤ slots * 410099)
    × (bleed ≤ 1)
IsValid (group first last) = (0 < first) × (first ≤ last) × (last ≤ 2007)
IsValid (start_time t) = t ≤ 522240
IsValid (praw periodicity validity offset refresh) =
    (0 < periodicity)
    × (periodicity < 256)
    × (validity < 256)
    × (offset < periodicity)
    × (refresh ≤ 1)
IsValid (bcn_spread max nominal) = (max < 2 ^ 16) × (nominal < 2 ^ 16)

le32_octets-value :
    (v : ℕ)
    → v < 2 ^ 32
    → le32 (v % 2 ^ 8) (v / 2 ^ 8 % 2 ^ 8) (v / 2 ^ 16 % 2 ^ 8) (v / 2 ^ 24 % 2 ^ 8) ≡ v
le32_octets-value v h = omega arith

le16_octets-value : (v : ℕ) → v < 2 ^ 16 → le16 (v % 2 ^ 8) (v / 2 ^ 8 % 2 ^ 8) ≡ v
le16_octets-value v h = omega arith

parse_tlvs-octets :
    (t : Tlv) (rest : Bytes)
    → IsValid t
    → parse_tlvs (tlv_octets t ++ rest) ≡ after t (parse_tlvs rest)
unfolding tlv_octets le32_octets
parse_tlvs-octets (slot_def duration slots bleed) rest (a, b, c, d, e) =
    rw (le32_octets-value duration (omega arith)) refl
parse_tlvs-octets (group first last) rest (a, b, c) =
    rw (le16_octets-value first (omega arith), le16_octets-value last (omega arith)) refl
parse_tlvs-octets (start_time t) rest h = rw (le32_octets-value t (omega arith)) refl
parse_tlvs-octets (praw periodicity validity offset refresh) rest h = refl
parse_tlvs-octets (bcn_spread max nominal) rest (a, b) =
    rw (le16_octets-value max a, le16_octets-value nominal b) refl

pub parse_tlvs-tlvs_octets :
    (ts : List Tlv) → All IsValid ts → parse_tlvs (tlvs_octets ts) ≡ some ts
unfolding tlvs_octets
parse_tlvs-tlvs_octets [] h = refl
parse_tlvs-tlvs_octets (t ∷ ts) (h, hs) =
    parse_tlvs-octets t (tlvs_octets ts) h ∙ ap (after t) (parse_tlvs-tlvs_octets ts hs)
