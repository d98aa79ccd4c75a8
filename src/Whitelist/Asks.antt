-- ===== src/Whitelist/Asks.antt =====
-- whitelist.c: what the request asks for, when the command is sent.
use native.Mathlib.Nat.{one-le-pow}
use morse_cli.Base.{
  ℕ, ◌<◌, ◌^◌, ◌==◌, Bool, true, false, ◌||◌, Option, none, some, Bytes, bit_and, ℤ, negsuc, ◌⊎◌,
  ◌≡◌, refl, sym, ap, ◌∙◌, inl, inr, Bool-cases, arith,
}
use morse_cli.Raw.{wrap}
use morse_cli.Raw.Checked.{wrap_bound}
use morse_cli.Whitelist.{
  WhitelistArgs, Whitelist, whitelist_octets, is_there, is_added, protocol, is_above_port_max,
  port_of, is_uncovered, check_mask, ported, masked, address, netmask_of, addressed, request_of,
  whitelist_request, send_whitelist, whitelist,
}

-- No address, or one inside the mask.
abbrev pub Covers : ℕ → ℕ → Type 0
Covers mask ip = (ip ≡ 0) ⊎ (bit_and ip mask ≡ ip)

-- Without the option no mask; with it an address to mask, and the addresses inside it.
abbrev pub Masks : WhitelistArgs → Whitelist → Type 0
Masks a c =
    (a.netmask ≡ none) × (c.netmask ≡ 0)
    ⊎ ((is_there a.src_ip || is_there a.dest_ip) ≡ true)
      × Covers c.netmask c.src_ip
      × Covers c.netmask c.dest_ip

abbrev pub HasWidths : Whitelist → Type 0
HasWidths c =
    (c.ip_protocol < 2 ^ 8)
    × (c.llc_protocol < 2 ^ 16)
    × (c.src_port < 2 ^ 16)
    × (c.dest_port < 2 ^ 16)

some-eq : {A : Type 0} (a b : A) → some a ≡ some b → a ≡ b
some-eq a b e = cc

found_or_none : {A : Type 0} (x : Option A) → (x ≡ none) ⊎ ((a : A) × (x ≡ some a))
found_or_none none = inl refl
found_or_none (some a) = inr (a, refl)

uncovered-Covers : (ip mask : ℕ) → is_uncovered ip mask ≡ false → Covers mask ip
unfolding is_uncovered
uncovered-Covers ip mask e = elim (Bool-cases (ip == 0)) [
  | inl z ↦ inl (ground arith)
  | inr n ↦ inr (ground arith)
]

check_mask-Covers :
    (given : Bool) (src dest : ℕ) (m : Option ℕ) (mask : ℕ)
    → check_mask given src dest m ≡ some mask
    → (given ≡ true) × Covers mask src × Covers mask dest
unfolding check_mask
check_mask-Covers given src dest none mask e = absurd cc
check_mask-Covers false src dest (some m) mask e = absurd cc
check_mask-Covers true src dest (some m) mask e = elim (Bool-cases (is_uncovered src m)) [
  | inl y ↦ let e' = rw y at e in absurd cc
  | inr n ↦ elim (Bool-cases (is_uncovered dest m)) [
    | inl y ↦ let e' = rw (n, y) at e in absurd cc
    | inr n' ↦
        let m_mask : m ≡ mask = some-eq m mask (rw (n, n') at e) in
        (refl, rw m_mask at (uncovered-Covers src m n), rw m_mask at (uncovered-Covers dest m n'))
  ]
]

module _ (inet_pton : Bytes → Option ℕ) where
  netmask_of-Masks :
      (given : Bool) (src dest mask : ℕ) (text : Option Bytes)
      → netmask_of inet_pton given src dest text ≡ some mask
      → (text ≡ none) × (mask ≡ 0) ⊎ (given ≡ true) × Covers mask src × Covers mask dest
  unfolding netmask_of
  netmask_of-Masks given src dest mask none e = inl (refl, cc)
  netmask_of-Masks given src dest mask (some s) e =
      inr (check_mask-Covers given src dest (inet_pton s) mask e)

port_bound : (v : Option ℤ) (port : ℕ) → port_of v ≡ some port → port < 2 ^ 16
unfolding port_of
port_bound none port e = let z : 0 ≡ port = cc in omega arith
port_bound (some v) port e = elim (Bool-cases (is_above_port_max v)) [
  | inl y ↦ let e' = rw y at e in absurd cc
  | inr n ↦ let e' = rw n at e in let is : wrap 16 v ≡ port = cc in omega (arith, wrap_bound 16 v)
]

protocol_bound : (w : ℕ) (v : Option ℤ) → protocol w v < 2 ^ w
unfolding protocol
protocol_bound w none = let some_bit = one-le-pow w 2 (omega arith) in omega arith
protocol_bound w (some v) = wrap_bound w v

-- What the steps behind the addresses give.
abbrev Asked : WhitelistArgs → ℕ → ℕ → ℕ → Whitelist → Type 0
Asked a flags src dest c = (c.flags ≡ flags) × (c.src_ip ≡ src) × (c.dest_ip ≡ dest) × HasWidths c

abbrev asking : WhitelistArgs → ℕ → ℕ → ℕ → ℕ → ℕ → ℕ → Whitelist
asking a flags src dest mask src_port dest_port = record {
  flags = flags;
  ip_protocol = protocol 8 a.ip_protocol;
  llc_protocol = protocol 16 a.llc_protocol;
  src_ip = src;
  dest_ip = dest;
  netmask = mask;
  src_port = src_port;
  dest_port = dest_port;
}

ported-Asked :
    (a : WhitelistArgs) (flags src dest mask : ℕ) (sp dp : Option ℕ) (c : Whitelist)
    → ((port : ℕ) → sp ≡ some port → port < 2 ^ 16)
    → ((port : ℕ) → dp ≡ some port → port < 2 ^ 16)
    → ported a flags src dest mask sp dp ≡ some c
    → Asked a flags src dest c × (c.netmask ≡ mask)
unfolding ported
ported-Asked a flags src dest mask none dp c sh dh e = absurd cc
ported-Asked a flags src dest mask (some s) none c sh dh e = absurd cc
ported-Asked a flags src dest mask (some s) (some d) c sh dh e =
    let is = some-eq (asking a flags src dest mask s d) c e in
    (
      (
        sym (ap (λ (x : Whitelist). x.flags) is),
        sym (ap (λ (x : Whitelist). x.src_ip) is),
        sym (ap (λ (x : Whitelist). x.dest_ip) is),
        (
          omega (arith, ap (λ (x : Whitelist). x.ip_protocol) is, protocol_bound 8 a.ip_protocol),
          omega
              (arith, ap (λ (x : Whitelist). x.llc_protocol) is, protocol_bound 16 a.llc_protocol),
          omega (arith, ap (λ (x : Whitelist). x.src_port) is, sh s refl),
          omega (arith, ap (λ (x : Whitelist). x.dest_port) is, dh d refl),
        ),
      ),
      sym (ap (λ (x : Whitelist). x.netmask) is),
    )

masked-Asked :
    (a : WhitelistArgs) (flags src dest : ℕ) (m : Option ℕ) (c : Whitelist)
    → masked a flags src dest m ≡ some c
    → Asked a flags src dest c × (m ≡ some c.netmask)
unfolding masked
masked-Asked a flags src dest none c e = absurd cc
masked-Asked a flags src dest (some mask) c e =
    let (asked, is) =
      ported-Asked a flags src dest mask (port_of a.src_port) (port_of a.dest_port) c
        (port_bound a.src_port) (port_bound a.dest_port) e in
    (asked, ap some (sym is))

-- A request that clears has nothing else in it.
abbrev pub cleared : Whitelist
cleared = record {
  flags = 1;
  ip_protocol = 0;
  llc_protocol = 0;
  src_ip = 0;
  dest_ip = 0;
  netmask = 0;
  src_port = 0;
  dest_port = 0;
}

-- A request that clears the filter, or one that adds an entry with the addresses of the options.
abbrev pub Asks : (Bytes → Option ℕ) → WhitelistArgs → Whitelist → Type 0
Asks inet_pton a c =
    (a.clear ≡ true) × (c ≡ cleared)
    ⊎ (a.clear ≡ false)
      × (is_added a ≡ true)
      × (c.flags ≡ 0)
      × (address inet_pton a.src_ip ≡ some c.src_ip)
      × (address inet_pton a.dest_ip ≡ some c.dest_ip)
      × Masks a c
      × HasWidths c

none_there : {A : Type 0} (v : Option A) → is_there v ≡ false → v ≡ none
unfolding is_there
none_there none e = refl
none_there (some v) e = absurd cc

module _ (inet_pton : Bytes → Option ℕ) where
  addressed-Masks :
      (a : WhitelistArgs) (flags : ℕ) (src dest : Option ℕ) (c : Whitelist)
      → addressed inet_pton a flags src dest ≡ some c
      → (c.flags ≡ flags)
        × (src ≡ some c.src_ip)
        × (dest ≡ some c.dest_ip)
        × Masks a c
        × HasWidths c
  unfolding addressed
  addressed-Masks a flags none dest c e = absurd cc
  addressed-Masks a flags (some src) none c e = absurd cc
  addressed-Masks a flags (some src) (some dest) c e =
      let given = is_there a.src_ip || is_there a.dest_ip in
      let ((flag, from, to, widths), mask) =
        masked-Asked a flags src dest (netmask_of inet_pton given src dest a.netmask) c e in
      (
        flag,
        ap some (sym from),
        ap some (sym to),
        rw (from, to) (netmask_of-Masks inet_pton given src dest c.netmask a.netmask mask),
        widths,
      )

  addressed-cleared :
      (a : WhitelistArgs)
      → is_added a ≡ false
      → addressed inet_pton a 1 (address inet_pton a.src_ip) (address inet_pton a.dest_ip)
        ≡ some cleared
  unfolding addressed address masked netmask_of ported port_of protocol is_added
  addressed-cleared a e =
      let llc : is_there a.llc_protocol ≡ false = ground arith in
      let ip : is_there a.ip_protocol ≡ false = ground arith in
      let src : is_there a.src_ip ≡ false = ground arith in
      let dest : is_there a.dest_ip ≡ false = ground arith in
      let mask : is_there a.netmask ≡ false = ground arith in
      let sp : is_there a.src_port ≡ false = ground arith in
      let dp : is_there a.dest_port ≡ false = ground arith in
      rw
        (
          none_there a.llc_protocol llc,
          none_there a.ip_protocol ip,
          none_there a.src_ip src,
          none_there a.dest_ip dest,
          none_there a.netmask mask,
          none_there a.src_port sp,
          none_there a.dest_port dp,
        )
        refl

  request_of-Asks :
      (a : WhitelistArgs) (clear added : Bool) (c : Whitelist)
      → a.clear ≡ clear
      → is_added a ≡ added
      → request_of inet_pton a clear added ≡ some c
      → Asks inet_pton a c
  unfolding request_of
  request_of-Asks a true true c _ _ e = absurd cc
  request_of-Asks a false false c _ _ e = absurd cc
  request_of-Asks a true false c clear added e =
      inl (clear, some-eq c cleared (sym e ∙ addressed-cleared a added))
  request_of-Asks a false true c clear added e =
      let (flag, from, to, masks, widths) =
        addressed-Masks a 0 (address inet_pton a.src_ip) (address inet_pton a.dest_ip) c e in
      inr (clear, added, flag, from, to, masks, widths)

  module _ {S : Type 0} (send : ℕ → Bytes → S → ℤ × S) where
    -- Whatever the options, whitelist returns -1 and has sent nothing, or its result is that of one
    -- request: to clear the filter, with no option beside and nothing else in it, or to add an entry,
    -- with an option beside, the addresses that the options give, a mask only where an address is
    -- given, which contains both that are not 0, and the protocols and ports in their widths.
    pub whitelist-Asks :
        (allocated : Bool) (a : WhitelistArgs) (s : S)
        → (whitelist inet_pton send allocated a s ≡ (negsuc 0, s))
          ⊎ ((c : Whitelist) × Asks inet_pton a c
              × (whitelist inet_pton send allocated a s ≡ send 0x45 (whitelist_octets c) s))
    unfolding whitelist whitelist_request send_whitelist
    whitelist-Asks false a s = inl refl
    whitelist-Asks true a s = elim (found_or_none (whitelist_request inet_pton a)) [
      | inl n ↦ inl (ap (λ r. send_whitelist inet_pton send r s) n)
      | inr (c, e) ↦ inr (
        c,
        request_of-Asks a a.clear (is_added a) c refl refl e,
        ap (λ r. send_whitelist inet_pton send r s) e,
      )
    ]
