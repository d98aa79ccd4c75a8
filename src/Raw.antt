-- ===== src/Raw.antt =====
-- raw.c: the request that configures restricted access windows, from the values of the options.
pub mod Parse
pub mod Checked
mod Runs
use morse_cli.Base.{
  ℕ, ◌+◌, ◌-◌, ◌*◌, ◌%◌, ◌/◌, ◌^◌, ◌==◌, ltb, Bool, true, false, not, ◌&&◌, ◌||◌, if◌then◌else◌,
  Option, none, some, Bytes, List, [], ◌∷◌, ◌++◌, replicate, ℤ, pos, negsuc,
}
use morse_cli.Command.{le16_octets}
use morse_cli.Sdio.Memblock.{le32_octets}

-- An int stored in an unsigned integer of `w` bits.
unfoldable pub wrap : ℕ → ℤ → ℕ
wrap w (pos n) = n % 2 ^ w
wrap w (negsuc n) = 2 ^ w - 1 - n % 2 ^ w

-- a > b and a < b for an int and a constant
unfoldable pub exceeds : ℤ → ℕ → Bool
exceeds (pos n) b = ltb b n
exceeds (negsuc n) b = false

unfoldable pub below : ℤ → ℕ → Bool
below (pos n) b = ltb n b
below (negsuc n) b = true

unfoldable pub is_minus_one : ℤ → Bool
is_minus_one (pos n) = false
is_minus_one (negsuc n) = n == 0

abbrev pub raw_cmd_min_slot_dur_us : ℕ
raw_cmd_min_slot_dur_us = 500

abbrev pub raw_cmd_max_slot_dur_us : ℕ
raw_cmd_max_slot_dur_us = 500 + (200 * 2 ^ 11 - 1)

abbrev pub raw_cmd_max_start_time_us : ℕ
raw_cmd_max_start_time_us = 255 * 2 * 1024

abbrev pub raw_cmd_max_aid : ℕ
raw_cmd_max_aid = 2007

-- union morse_cmd_raw_tlvs, with the fields behind the tag.
pub data Tlv : Type 0 where
  slot_def : ℕ → ℕ → ℕ → Tlv
  group : ℕ → ℕ → Tlv
  start_time : ℕ → Tlv
  praw : ℕ → ℕ → ℕ → ℕ → Tlv
  bcn_spread : ℕ → ℕ → Tlv

-- The octets of each, as the packed structures lay them out.
unfoldable pub tlv_octets : Tlv → Bytes
tlv_octets (slot_def duration slots bleed) = 0 ∷ (le32_octets duration ++ (slots ∷ bleed ∷ []))
tlv_octets (group first last) = 1 ∷ (le16_octets first ++ le16_octets last)
tlv_octets (start_time t) = 2 ∷ le32_octets t
tlv_octets (praw periodicity validity offset refresh) =
    3 ∷ periodicity ∷ validity ∷ offset ∷ refresh ∷ []
tlv_octets (bcn_spread max nominal) = 4 ∷ (le16_octets max ++ le16_octets nominal)

unfoldable pub tlvs_octets : List Tlv → Bytes
tlvs_octets [] = []
tlvs_octets (t ∷ ts) = tlv_octets t ++ tlvs_octets ts

-- {enable|disable|delete}
pub data Enable : Type 0 where
  enable : Enable
  disable : Enable
  delete : Enable

-- The options; one that was not given is `none`.
pub record RawArgs : Type 0 where
  pub slots : Option (ℤ × ℤ)
  pub cross_slot : Bool
  pub aid_group : Option (ℤ × ℤ)
  pub start : Option ℤ
  pub spread : Option (ℤ × ℤ)
  pub periodic : Option (ℤ × ℤ × ℤ)
  pub action : Option Enable
  pub id : Option ℤ

-- Each option's check; `none` is the return with -1.
unfoldable pub make_slot_def : ℤ → ℤ → Bool → Option Tlv
make_slot_def duration slots cross_slot =
    let num_slots = wrap 8 slots in
    let raw_duration_us = wrap 32 duration in
    if ltb num_slots 1 || ltb 63 num_slots
    then none
    else if ltb raw_duration_us (num_slots * raw_cmd_min_slot_dur_us)
        || ltb (num_slots * raw_cmd_max_slot_dur_us) raw_duration_us
    then none
    else some (slot_def raw_duration_us num_slots (if cross_slot then 1 else 0))

unfoldable pub make_group : ℤ → ℤ → Option Tlv
make_group first last =
    let aid_start = wrap 16 first in
    let aid_end = wrap 16 last in
    if ltb aid_end aid_start
    then none
    else if ltb aid_start 1 || ltb raw_cmd_max_aid aid_end
    then none
    else some (group aid_start aid_end)

unfoldable pub make_start_time : ℤ → Option Tlv
make_start_time t =
    let start_time_us = wrap 32 t in
    if ltb raw_cmd_max_start_time_us start_time_us then none else some (start_time start_time_us)

-- The second test reads the periodicity where the message speaks of the validity.
unfoldable pub make_praw : ℤ → ℤ → ℤ → Option Tlv
make_praw periodicity validity offset =
    if exceeds periodicity 255 || below periodicity 1
    then none
    else if not (is_minus_one validity) && (exceeds validity 255 || below periodicity 1)
    then none
    else if exceeds offset 255 || below offset 0
    then none
    else if not (ltb (wrap 8 offset) (wrap 8 periodicity))
    then none
    else if is_minus_one validity
    then some (praw (wrap 8 periodicity) 255 (wrap 8 offset) 1)
    else some (praw (wrap 8 periodicity) (wrap 8 validity) (wrap 8 offset) 0)

-- The fields have 16 bits when they are tested against 16 bits.
unfoldable pub make_bcn_spread : ℤ → ℤ → Option Tlv
make_bcn_spread max nominal =
    let max_spread = wrap 16 max in
    let nominal_sta_per_bcn = wrap 16 nominal in
    if ltb 0xffff max_spread
    then none
    else if ltb 0xffff nominal_sta_per_bcn
    then none
    else some (bcn_spread max_spread nominal_sta_per_bcn)

-- An option's TLV behind those before it.
unfoldable pub add_tlv : Option Tlv → Option (List Tlv) → Option (List Tlv)
add_tlv none rest = none
add_tlv (some t) none = none
add_tlv (some t) (some ts) = some (t ∷ ts)

-- The TLVs from each option on, in the order of the function.
unfoldable pub spread_tlvs : Option (ℤ × ℤ) → Option (List Tlv)
spread_tlvs none = some []
spread_tlvs (some (max, nominal)) = add_tlv (make_bcn_spread max nominal) (some [])

unfoldable pub praw_tlvs : Option (ℤ × ℤ × ℤ) → Option (ℤ × ℤ) → Option (List Tlv)
praw_tlvs none spread = spread_tlvs spread
praw_tlvs (some both) (some spread) = none
praw_tlvs (some (periodicity, validity, offset)) none =
    add_tlv (make_praw periodicity validity offset) (spread_tlvs none)

unfoldable pub start_tlvs : Option ℤ → Option (List Tlv) → Option (List Tlv)
start_tlvs none rest = rest
start_tlvs (some t) rest = add_tlv (make_start_time t) rest

unfoldable pub group_tlvs : Option (ℤ × ℤ) → Option (List Tlv) → Option (List Tlv)
group_tlvs none rest = rest
group_tlvs (some (first, last)) rest = add_tlv (make_group first last) rest

unfoldable pub slot_tlvs : Option (ℤ × ℤ) → Bool → Option (List Tlv) → Option (List Tlv)
slot_tlvs none cross_slot rest = rest
slot_tlvs (some (duration, slots)) cross_slot rest =
    add_tlv (make_slot_def duration slots cross_slot) rest

unfoldable pub raw_tlvs : RawArgs → Option (List Tlv)
raw_tlvs args =
    slot_tlvs args.slots args.cross_slot
      (group_tlvs args.aid_group (start_tlvs args.start (praw_tlvs args.periodic args.spread)))

-- struct morse_cmd_raw_cfg
unfoldable pub raw_cfg : ℕ → ℕ → Bytes → Bytes
raw_cfg flags id variable = le32_octets flags ++ (le16_octets id ++ variable)

-- RAW_CMD_FLAG_UPDATE where there are options; none of them goes with the global id.
unfoldable pub raw_update : ℕ → ℕ → List Tlv → Option Bytes
raw_update flags id [] = some (raw_cfg flags id [])
raw_update flags id (t ∷ ts) =
    if id == 0 then none else some (raw_cfg (flags + 2 ^ 2) id (tlvs_octets (t ∷ ts)))

unfoldable pub raw_id : RawArgs → Option ℕ
raw_id args = elim args.id [
  | none ↦ some 0
  | some i ↦ if exceeds i 0xffff then none else some (wrap 16 i)
]

unfoldable pub raw_configure : ℕ → ℕ → RawArgs → Option Bytes
raw_configure flags id args = elim (raw_tlvs args) [
  | none ↦ none
  | some ts ↦ raw_update flags id ts
]

-- The data of the command. A deletion goes out at once, with the whole buffer: five TLVs of seven
-- octets, all zero.
unfoldable pub raw_request : RawArgs → Option Bytes
raw_request args = elim (raw_id args) [
  | none ↦ none
  | some id ↦ elim args.action [
    | none ↦ raw_configure 0 id args
    | some enable ↦ raw_configure (2 ^ 0) id args
    | some disable ↦ raw_configure 0 id args
    | some delete ↦ some (raw_cfg (2 ^ 1) id (replicate (5 * 7) 0))
  ]
]

-- raw, for the two allocations and what sending the data returns.
module _ {S : Type 0} (send : Bytes → S → ℤ × S) where
  unfoldable pub raw : Bool → RawArgs → S → ℤ × S
  raw allocated args s =
      if not allocated
      then (negsuc 0, s)
      else elim (raw_request args) [ none ↦ (negsuc 0, s) | some octets ↦ send octets s ]
