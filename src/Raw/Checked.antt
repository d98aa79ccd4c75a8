-- ===== src/Raw/Checked.antt =====
-- The checks of raw.c against the ranges of Raw.Parse, from one option to the whole request.
use morse_cli.Base.{
  ℕ, ◌+◌, ◌^◌, ◌<◌, ◌≡◌, ◌≢◌, arith, Option, none, some, Bytes, List, [], ◌∷◌, All, map, ◌++◌, ℤ,
  pos, negsuc,
}
use morse_cli.Raw.{
  Tlv, slot_def, group, start_time, praw, bcn_spread, wrap, RawArgs, raw_cfg, Enable, enable,
}
use morse_cli.Raw.Parse.{IsValid, parse_tlvs}
use native.Mathlib.Nat.{mod-lt, one-le-pow}

-- The kinds of the TLVs, and those that the options ask for, by their tags.
abbrev pub tag : Tlv → ℕ
tag (slot_def a b c) = 0
tag (group a b) = 1
tag (start_time a) = 2
tag (praw a b c d) = 3
tag (bcn_spread a b) = 4

abbrev pub asked {ℓ} : {A : Type ℓ} → ℕ → Option A → List ℕ
asked n none = []
asked n (some v) = n ∷ []

-- What a check lets through: a TLV of its kind, in its range.
abbrev Passes : ℕ → Option Tlv → Type 0
Passes kind none = Unit
Passes kind (some t) = IsValid t × (tag t ≡ kind)

abbrev AllPass : List ℕ → Option (List Tlv) → Type 0
AllPass kinds none = Unit
AllPass kinds (some ts) = All IsValid ts × (map tag ts ≡ kinds)

pub wrap_bound : (w : ℕ) (z : ℤ) → wrap w z < 2 ^ w
unfolding wrap
wrap_bound w (pos n) = mod-lt n (one-le-pow w 2 (omega arith))
wrap_bound w (negsuc n) = let some_bit = one-le-pow w 2 (omega arith) in omega arith

abbrev pub asked_tags : RawArgs → List ℕ
asked_tags args =
    asked 0 args.slots
    ++ (asked 1 args.aid_group
        ++ (asked 2 args.start ++ (asked 3 args.periodic ++ asked 4 args.spread)))

-- The id of 16 bits that the option gives, or the global one.
abbrev pub HasId : Option ℤ → ℕ → Type 0
HasId none id = id ≡ 0
HasId (some (pos n)) id = (id ≡ n) × (n < 2 ^ 16)
HasId (some (negsuc n)) id = (id ≡ wrap 16 (negsuc n)) × (id < 2 ^ 16)

-- The flags: bit 0 to enable, bit 2 where there are TLVs.
abbrev pub enable_flag : Option Enable → ℕ
enable_flag (some enable) = 1
enable_flag _ = 0

abbrev pub update_flag : List Tlv → ℕ
update_flag [] = 0
update_flag (t ∷ ts) = 4

-- What a request that configures a window is made of: the flags, the id of the options, which is not
-- the global one where there are TLVs, and a TLV for each option, all within their ranges, that the
-- chip's parser reads.
abbrev pub Configures : RawArgs → Bytes → Type 0
Configures args octets =
    (id : ℕ) × (variable : Bytes) × (ts : List Tlv) × (octets
      ≡ raw_cfg (enable_flag args.action + update_flag ts) id variable)
    × HasId args.id id
    × (parse_tlvs variable ≡ some ts)
    × (map tag ts ≡ asked_tags args)
    × All IsValid ts
    × (ts ≢ [] → id ≢ 0)
