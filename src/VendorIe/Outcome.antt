-- ===== src/VendorIe/Outcome.antt =====
-- vendor_ie.c: what the request holds when the command is sent.
use morse_cli.Base.{
  ℕ, zero, suc, ◌+◌, ◌*◌, ◌%◌, ◌/◌, ◌≤◌, ◌==◌, ltb, Bool, true, false, if◌then◌else◌, Option, none,
  some, Bytes, List, [], ◌∷◌, ◌++◌, bit_or, ◌||◌, replicate, length, take, drop, ℤ, pos, negsuc,
  ◌≡◌, ◌≢◌, ◌⊎◌, refl, sym, ap, ◌∙◌, inl, inr, Bool-cases, arith, take-append_left, take-length,
}
use mathlib.Core.Path.{subst}
use morse_cli.Base.Strings.{write_at}
use morse_cli.Command.{le16_octets}
use morse_cli.Utilities.{hex2byte, store_octet, hexstr2bin}
use morse_cli.VendorIe.{
  VendorIeOpcode, opcode_number, add_element, clear_elements, add_filter, clear_filters,
  VendorIeReq, empty_req, Parsing, stop, going, max_vendor_ie_length, num_oui_bytes, unless_set,
  store_element, element_option, filter_option, ie_option, ie_options, vendor_ie_octets,
  send_opcode, send_parsed, vendor_ie,
}

-- What the options ask for: the frames of -b, -p and -s, and the options that give an opcode, the last
-- first.
pub record Want : Type 0 where
  pub beacons : Bool
  pub probes : Bool
  pub assocs : Bool
  pub commands : List (ℕ × Bytes)

unfoldable pub is_command : ℕ → Bool
is_command option = option == b'a' || (option == b'c' || (option == b'o' || option == b'r'))

unfoldable pub with_option : ℕ → Bytes → Want → Want
with_option option arg w = record {
  beacons = option == b'b' || w.beacons;
  probes = option == b'p' || w.probes;
  assocs = option == b's' || w.assocs;
  commands = if is_command option then (option, arg) ∷ w.commands else w.commands;
}

unfoldable pub wanted : List (ℕ × Bytes) → Want → Want
wanted [] w = w
wanted ((option, arg) ∷ opts) w = wanted opts (with_option option arg w)

abbrev pub nothing_wanted : Want
nothing_wanted = record { beacons = false; probes = false; assocs = false; commands = [] }

unfoldable pub frames : Bool → Bool → Bool → ℕ
frames b p s = (if b then 1 else 0) + (if p then 6 else 0) + (if s then 24 else 0)

-- The opcode of an option and the data behind it.
pub data Asks (arg : Bytes) : ℕ → VendorIeOpcode → Bytes → Type 0 where
  element :
      (n : ℕ) (octets : Bytes)
      → length arg ≡ 2 * n
      → n ≤ 255
      → hexstr2bin arg n ≡ (pos 0, octets)
      → Asks arg b'a' add_element octets
  oui :
      length arg / 2 ≡ 3
      → Asks arg b'o' add_filter (take 3 (write_at 0 (hexstr2bin arg 3).1 (replicate 255 0)))
  clearing : Asks arg b'c' clear_elements []
  resetting : Asks arg b'r' clear_filters []

abbrev One : ℕ → Bytes → Option VendorIeOpcode → Bytes → Type 0
One option arg opcode octets =
    (op : VendorIeOpcode) × (opcode ≡ some op) × Asks arg option op octets

abbrev Content : List (ℕ × Bytes) → Option VendorIeOpcode → Bytes → ℕ → Type 0
Content [] opcode octets n = (opcode ≡ none) × (octets ≡ replicate max_vendor_ie_length 0) × (n ≡ 0)
Content ((option, arg) ∷ []) opcode octets n = One option arg opcode (take n octets)
Content (first ∷ second ∷ more) opcode octets n = ⊥

abbrev Holds : List (ℕ × Bytes) → VendorIeReq → Type 0
Holds commands r = Content commands r.opcode r.data_octets r.data_length

abbrev HoldsOne : ℕ → Bytes → VendorIeReq → Type 0
HoldsOne option arg r = One option arg r.opcode (take r.data_length r.data_octets)

abbrev Fits : Want → VendorIeReq → Type 0
Fits w r = (r.mgmt_type_mask ≡ frames w.beacons w.probes w.assocs) × Holds w.commands r

abbrev Stops : ℤ → Type 0
Stops ret = (ret ≡ pos 0) ⊎ (ret ≡ negsuc 0)

abbrev Goes : Want → Parsing → Type 0
Goes w (stop ret) = Stops ret
Goes w (going r) = Fits w r

-- One round for an option gives what is wanted with it.
abbrev Next : Want → Bytes → ℕ → Parsing → Type 0
Next w arg option x = Goes (with_option option arg w) x

Next-if :
    (w : Want) (arg : Bytes) (option c : ℕ) (x y : Parsing)
    → Next w arg c x
    → Next w arg option y
    → Next w arg option (if option == c then x else y)
Next-if w arg option c x y h k = elim (Bool-cases (option == c)) [
  | inl e ↦ let is : c ≡ option = ground arith in rw e (subst (λ o. Next w arg o x) is h)
  | inr e ↦ rw e k
]

with_beacon : (b p s : Bool) → bit_or (frames b p s) 1 ≡ frames true p s
unfolding frames
with_beacon true true true = refl
with_beacon true true false = refl
with_beacon true false true = refl
with_beacon true false false = refl
with_beacon false true true = refl
with_beacon false true false = refl
with_beacon false false true = refl
with_beacon false false false = refl

with_probe : (b p s : Bool) → bit_or (frames b p s) 6 ≡ frames b true s
unfolding frames
with_probe true true true = refl
with_probe true true false = refl
with_probe true false true = refl
with_probe true false false = refl
with_probe false true true = refl
with_probe false true false = refl
with_probe false false true = refl
with_probe false false false = refl

with_assoc : (b p s : Bool) → bit_or (frames b p s) 24 ≡ frames b p true
unfolding frames
with_assoc true true true = refl
with_assoc true true false = refl
with_assoc true false true = refl
with_assoc true false false = refl
with_assoc false true true = refl
with_assoc false true false = refl
with_assoc false false true = refl
with_assoc false false false = refl

length-store_octet :
    (z : ℤ) (rest : ℤ × Bytes) (n : ℕ)
    → (rest.0 ≡ pos 0 → length rest.1 ≡ n)
    → (store_octet z rest).0 ≡ pos 0
    → length (store_octet z rest).1 ≡ suc n
length-store_octet (pos a) (ret, octets) n h e = omega (arith, h e)
length-store_octet (negsuc a) rest n h e = absurd cc

length-hexstr2bin :
    (hex : Bytes) (n : ℕ) → (hexstr2bin hex n).0 ≡ pos 0 → length (hexstr2bin hex n).1 ≡ n
unfolding hexstr2bin
length-hexstr2bin hex zero e = refl
length-hexstr2bin hex (suc n) e =
    length-store_octet (hex2byte hex) (hexstr2bin (drop 2 hex) n) n
      (length-hexstr2bin (drop 2 hex) n) e

taken : (n : ℕ) (octets rest : Bytes) → length octets ≡ n → take n (write_at 0 octets rest) ≡ octets
unfolding write_at
taken n octets rest e =
    ap (λ k. take k (octets ++ drop (0 + length octets) rest)) (sym e)
    ∙ take-append_left octets (drop (0 + length octets) rest) (length octets) (omega arith)
    ∙ take-length octets

-- What an option with an opcode makes of a request that has none.
abbrev Puts : ℕ → Bytes → ℕ → Parsing → Type 0
Puts option arg mask (stop ret) = Stops ret
Puts option arg mask (going r) = (r.mgmt_type_mask ≡ mask) × HoldsOne option arg r

store_element-Puts :
    (arg : Bytes) (r : VendorIeReq) (n : ℕ) (read : ℤ × Bytes)
    → length arg ≡ 2 * n
    → n ≤ max_vendor_ie_length
    → hexstr2bin arg n ≡ read
    → Puts b'a' arg r.mgmt_type_mask (store_element r n read)
unfolding store_element
store_element-Puts arg r n (negsuc a, octets) even fits is = inr refl
store_element-Puts arg r n (pos (suc a), octets) even fits is = inr refl
store_element-Puts arg r n (pos zero, octets) even fits is =
    let size : length octets ≡ n =
      ap (λ (z : ℤ × Bytes). length z.1) (sym is)
      ∙ length-hexstr2bin arg n (ap (λ (z : ℤ × Bytes). z.0) is) in
    (
      refl,
      (add_element, refl, rw (taken n octets r.data_octets size) (element n octets even fits is)),
    )

element_option-Puts :
    (arg : Bytes) (r : VendorIeReq) → Puts b'a' arg r.mgmt_type_mask (element_option arg r)
unfolding element_option
element_option-Puts arg r = elim (Bool-cases (length arg % 2 == 0)) [
  | inr odd ↦ rw odd (inr refl)
  | inl even ↦ elim (Bool-cases (ltb max_vendor_ie_length (length arg / 2))) [
    | inl long ↦ rw (even, long) (inr refl)
    | inr fits ↦
        rw (even, fits)
          (store_element-Puts arg r (length arg / 2) (hexstr2bin arg (length arg / 2))
            (ground arith) (ground arith) refl)
  ]
]

filter_option-Puts :
    (arg : Bytes) (r : VendorIeReq)
    → r.data_octets ≡ replicate max_vendor_ie_length 0
    → Puts b'o' arg r.mgmt_type_mask (filter_option arg r)
unfolding filter_option
filter_option-Puts arg r zeros = elim (Bool-cases (length arg / 2 == num_oui_bytes)) [
  | inr other ↦ rw other (inr refl)
  | inl three ↦ rw (three, zeros) (refl, (add_filter, refl, oui (ground arith)))
]

set_opcode-One :
    (option : ℕ) (arg : Bytes) (op : VendorIeOpcode) (r : VendorIeReq)
    → r.data_length ≡ 0
    → Asks arg option op []
    → HoldsOne option arg (record r { opcode = some op })
set_opcode-One option arg op r none_yet asks = (op, refl, rw none_yet asks)

-- An option with an opcode: the first goes on, any other stops.
command-Goes :
    (b p s : Bool) (commands : List (ℕ × Bytes)) (option : ℕ) (arg : Bytes) (r : VendorIeReq)
    (next : Parsing)
    → (r.mgmt_type_mask ≡ frames b p s) × Holds commands r
    → (r.data_octets ≡ replicate max_vendor_ie_length 0
        → r.data_length ≡ 0
        → Puts option arg r.mgmt_type_mask next)
    → Goes
        (record { beacons = b; probes = p; assocs = s; commands = (option, arg) ∷ commands })
        (unless_set r.opcode next)
unfolding unless_set
command-Goes b p s [] option arg r (stop ret) (mask, (unset, zeros, none_yet)) k =
    rw unset (k zeros none_yet)
command-Goes b p s [] option arg r (going r') (mask, (unset, zeros, none_yet)) k =
    let (same, one) = k zeros none_yet in rw unset (same ∙ mask, one)
command-Goes b p s ((c, arg') ∷ []) option arg r next (mask, (op, is, asks)) k = rw is (inr refl)
command-Goes b p s (first ∷ second ∷ more) option arg r next (mask, no_two) k = absurd no_two

ie_option-Goes :
    (w : Want) (option : ℕ) (arg : Bytes) (r : VendorIeReq)
    → Fits w r
    → Next w arg option (ie_option option arg r)
unfolding ie_option with_option is_command
ie_option-Goes w option arg r h =
    let b = w.beacons in
    let p = w.probes in
    let s = w.assocs in
    let commands = w.commands in
    Next-if w arg option b'a' _ _
      (command-Goes b p s commands b'a' arg r (element_option arg r) h
        (λ zeros none_yet. element_option-Puts arg r))
      (Next-if w arg option b'p' _ _ (ap (λ m. bit_or m 6) h.0 ∙ with_probe b p s, h.1)
        (Next-if w arg option b's' _ _ (ap (λ m. bit_or m 24) h.0 ∙ with_assoc b p s, h.1)
          (Next-if w arg option b'b' _ _ (ap (λ m. bit_or m 1) h.0 ∙ with_beacon b p s, h.1)
            (Next-if w arg option b'c' _ _
              (command-Goes b p s commands b'c' arg r
                (going (record r { opcode = some clear_elements })) h
                (λ zeros none_yet.
                  (refl, set_opcode-One b'c' arg clear_elements r none_yet clearing)))
              (Next-if w arg option b'o' _ _
                (command-Goes b p s commands b'o' arg r (filter_option arg r) h
                  (λ zeros none_yet. filter_option-Puts arg r zeros))
                (Next-if w arg option b'r' _ _
                  (command-Goes b p s commands b'r' arg r
                    (going (record r { opcode = some clear_filters })) h
                    (λ zeros none_yet.
                      (refl, set_opcode-One b'r' arg clear_filters r none_yet resetting)))
                  (Next-if w arg option b'h' _ _ (inl refl) (inr refl))))))))

ie_options-Goes :
    (opts : List (ℕ × Bytes)) (w : Want) (p : Parsing)
    → Goes w p
    → Goes (wanted opts w) (ie_options opts p)
unfolding ie_options wanted
ie_options-Goes opts w (stop ret) h = h
ie_options-Goes [] w (going r) h = h
ie_options-Goes ((option, arg) ∷ opts) w (going r) h =
    ie_options-Goes opts (with_option option arg w) (ie_option option arg r)
      (ie_option-Goes w option arg r h)

-- Nothing is sent, with the result 0 or -1, or one request, which is what the options ask for: the
-- one opcode among them with its data, for their frames.
abbrev pub Sends : {S : Type 0} → (ℕ → Bytes → S → ℤ × S) → List (ℕ × Bytes) → S → ℤ × S → Type 0
Sends {S} send opts s result =
    let w = wanted opts nothing_wanted in
    let mask = frames w.beacons w.probes w.assocs in
    ((result ≡ (pos 0, s)) ⊎ (result ≡ (negsuc 0, s)))
    ⊎ ((option : ℕ) × (arg : Bytes) × (op : VendorIeOpcode) × (octets : Bytes) × (w.commands
          ≡ (option, arg) ∷ [])
        × Asks arg option op octets
        × (mask ≢ 0)
        × (result ≡ send 0xa009 (le16_octets (opcode_number op) ++ (le16_octets mask ++ octets)) s))

module _ {S : Type 0} (send : ℕ → Bytes → S → ℤ × S) (opts : List (ℕ × Bytes)) where
  going-Sends :
      (commands : List (ℕ × Bytes)) (o : Option VendorIeOpcode) (r : VendorIeReq) (s : S)
      → (wanted opts nothing_wanted).commands ≡ commands
      → r.opcode ≡ o
      → r.mgmt_type_mask
        ≡ frames
            (wanted opts nothing_wanted).beacons
            (wanted opts nothing_wanted).probes
            (wanted opts nothing_wanted).assocs
      → Holds commands r
      → Sends send opts s (send_opcode send o r s)
  unfolding send_opcode vendor_ie_octets
  going-Sends commands none r s is unset mask h = inl (inl refl)
  going-Sends [] (some op) r s is set mask h = absurd cc
  going-Sends (first ∷ second ∷ more) (some op) r s is set mask h = absurd h
  going-Sends ((option, arg) ∷ []) (some op) r s is set mask (op', set', asks) =
      elim (Bool-cases (r.mgmt_type_mask == 0)) [
        | inl z ↦ inl (inl (rw z refl))
        | inr n ↦
            let same : op' ≡ op = cc in
            inr (
              option,
              arg,
              op,
              take r.data_length r.data_octets,
              is,
              rw same at asks,
              (λ zero_mask. ground arith),
              rw n (
                  ap
                    (λ m.
                      send 0xa009
                        (le16_octets (opcode_number op)
                          ++ (le16_octets m ++ take r.data_length r.data_octets))
                        s)
                    mask),
            )
      ]

  send_parsed-Sends :
      (p : Parsing) (s : S)
      → Goes (wanted opts nothing_wanted) p
      → Sends send opts s (send_parsed send p s)
  unfolding send_parsed
  send_parsed-Sends (stop ret) s (inl e) = inl (inl (ap (λ k. (k, s)) e))
  send_parsed-Sends (stop ret) s (inr e) = inl (inr (ap (λ k. (k, s)) e))
  send_parsed-Sends (going r) s h = going-Sends _ r.opcode r s refl refl h.0 h.1

  run-Sends :
      (allocated : Bool) (s : S)
      → Sends send opts s (
          if allocated
          then send_parsed send (ie_options opts (going empty_req)) s
          else (negsuc 0, s))
  unfolding frames
  run-Sends false s = inl (inr refl)
  run-Sends true s =
      send_parsed-Sends (ie_options opts (going empty_req)) s
        (ie_options-Goes opts nothing_wanted (going empty_req) (refl, (refl, refl, refl)))

  -- Whatever the options, vendor_ie sends nothing and returns 0 or -1, or its result is that of one
  -- request, where the options hold exactly one with an opcode and one or more with frames: the
  -- opcode of that option, the mask with bit 0 for -b, bits 1 and 2 for -p, bits 3 and 4 for -s, and
  -- for -a the octets that its hexadecimal argument of whole octets, at most 255, stands for, for -o
  -- three octets with what hexstr2bin stores of its argument over zeros, for -c and -r nothing.
  pub vendor_ie-Sends :
      (argc : ℕ) (allocated : Bool) (s : S)
      → Sends send opts s (vendor_ie send argc allocated opts s)
  unfolding vendor_ie
  vendor_ie-Sends argc allocated s = elim (Bool-cases (argc == 0)) [
    | inl z ↦ inl (inl (rw z refl))
    | inr n ↦ elim (Bool-cases (ltb argc 2)) [
      | inl few ↦ inl (inr (rw (n, few) refl))
      | inr m ↦ rw (n, m) (run-Sends allocated s)
    ]
  ]
