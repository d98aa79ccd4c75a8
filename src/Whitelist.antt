-- ===== src/Whitelist.antt =====
-- whitelist.c: the command that sets the packet filter, from the values of its options.
pub mod Asks
mod Runs
use morse_cli.Base.{
  ℕ, ◌+◌, ◌/◌, ◌%◌, ◌^◌, ◌==◌, ltb, Bool, true, false, not, ◌&&◌, ◌||◌, if◌then◌else◌, Option, none,
  some, Bytes, [], ◌∷◌, ◌++◌, bit_and, ℤ, pos, negsuc,
}
use morse_cli.Raw.{wrap}
use morse_cli.Sdio.Memblock.{le32_octets}

-- The options; one that was not given is `none`.
pub record WhitelistArgs : Type 0 where
  pub clear : Bool
  pub llc_protocol : Option ℤ
  pub ip_protocol : Option ℤ
  pub src_ip : Option Bytes
  pub dest_ip : Option Bytes
  pub netmask : Option Bytes
  pub src_port : Option ℤ
  pub dest_port : Option ℤ

-- struct command_whitelist; an address is the number that its four octets are on the host.
pub record Whitelist : Type 0 where
  pub flags : ℕ
  pub ip_protocol : ℕ
  pub llc_protocol : ℕ
  pub src_ip : ℕ
  pub dest_ip : ℕ
  pub netmask : ℕ
  pub src_port : ℕ
  pub dest_port : ℕ

abbrev pub be16_octets : ℕ → Bytes
be16_octets v = v / 2 ^ 8 % 2 ^ 8 ∷ v % 2 ^ 8 ∷ []

unfoldable pub whitelist_octets : Whitelist → Bytes
whitelist_octets c =
    (c.flags ∷ c.ip_protocol ∷ be16_octets c.llc_protocol)
    ++ le32_octets c.src_ip
    ++ le32_octets c.dest_ip
    ++ le32_octets c.netmask
    ++ be16_octets c.src_port
    ++ be16_octets c.dest_port

unfoldable pub is_there : {A : Type 0} → Option A → Bool
is_there none = false
is_there (some v) = true

-- add_arg_count is not 0.
unfoldable pub is_added : WhitelistArgs → Bool
is_added a =
    is_there a.llc_protocol
    || (is_there a.ip_protocol
        || (is_there a.src_ip
            || (is_there a.dest_ip
                || (is_there a.netmask || (is_there a.src_port || is_there a.dest_port)))))

unfoldable pub protocol : ℕ → Option ℤ → ℕ
protocol w none = 0
protocol w (some v) = wrap w v

unfoldable pub is_above_port_max : ℤ → Bool
is_above_port_max (pos n) = ltb 65535 n
is_above_port_max (negsuc n) = false

unfoldable pub port_of : Option ℤ → Option ℕ
port_of none = some 0
port_of (some v) = if is_above_port_max v then none else some (wrap 16 v)

unfoldable pub is_uncovered : ℕ → ℕ → Bool
is_uncovered ip mask = not (ip == 0) && not (bit_and ip mask == ip)

unfoldable pub check_mask : Bool → ℕ → ℕ → Option ℕ → Option ℕ
check_mask given src dest none = none
check_mask given src dest (some mask) =
    if not given
    then none
    else if is_uncovered src mask
    then none
    else if is_uncovered dest mask
    then none
    else some mask

unfoldable pub ported : WhitelistArgs → ℕ → ℕ → ℕ → ℕ → Option ℕ → Option ℕ → Option Whitelist
ported a flags src dest mask none dest_port = none
ported a flags src dest mask (some src_port) none = none
ported a flags src dest mask (some src_port) (some dest_port) = some (record {
  flags = flags;
  ip_protocol = protocol 8 a.ip_protocol;
  llc_protocol = protocol 16 a.llc_protocol;
  src_ip = src;
  dest_ip = dest;
  netmask = mask;
  src_port = src_port;
  dest_port = dest_port;
})

unfoldable pub masked : WhitelistArgs → ℕ → ℕ → ℕ → Option ℕ → Option Whitelist
masked a flags src dest none = none
masked a flags src dest (some mask) =
    ported a flags src dest mask (port_of a.src_port) (port_of a.dest_port)

module _ (inet_pton : Bytes → Option ℕ) where
  unfoldable pub address : Option Bytes → Option ℕ
  address none = some 0
  address (some s) = inet_pton s

  unfoldable pub netmask_of : Bool → ℕ → ℕ → Option Bytes → Option ℕ
  netmask_of given src dest none = some 0
  netmask_of given src dest (some s) = check_mask given src dest (inet_pton s)

  unfoldable pub addressed : WhitelistArgs → ℕ → Option ℕ → Option ℕ → Option Whitelist
  addressed a flags none dest = none
  addressed a flags (some src) none = none
  addressed a flags (some src) (some dest) =
      masked a flags src dest
        (netmask_of (is_there a.src_ip || is_there a.dest_ip) src dest a.netmask)

  -- Whether the filter is to be cleared, and whether there is an option beside.
  unfoldable pub request_of : WhitelistArgs → Bool → Bool → Option Whitelist
  request_of a true true = none
  request_of a true false = addressed a 1 (address a.src_ip) (address a.dest_ip)
  request_of a false false = none
  request_of a false true = addressed a 0 (address a.src_ip) (address a.dest_ip)

  -- The request, if the command is sent.
  unfoldable pub whitelist_request : WhitelistArgs → Option Whitelist
  whitelist_request a = request_of a a.clear (is_added a)

  module _ {S : Type 0} (send : ℕ → Bytes → S → ℤ × S) where
    -- MORSE_COMMAND_SET_WHITELIST
    unfoldable pub send_whitelist : Option Whitelist → S → ℤ × S
    send_whitelist none s = (negsuc 0, s)
    send_whitelist (some c) s = send 0x45 (whitelist_octets c) s

    -- whitelist, for the two allocations.
    unfoldable pub whitelist : Bool → WhitelistArgs → S → ℤ × S
    whitelist allocated a s =
        if allocated then send_whitelist (whitelist_request a) s else (negsuc 0, s)
