-- ===== src/Whitelist/Runs.antt =====
-- An entry for the addresses of a network, and a mask that does not contain it.
use morse_cli.Base.{
  ℕ, if◌then◌else◌, true, false, Option, none, some, Bytes, List, [], ◌∷◌, ℤ, pos, negsuc, ◌≡◌, ◌⊎◌,
  refl,
}
use morse_cli.Raw.{wrap}
use morse_cli.Sdio.Memblock.{le32_octets}
use morse_cli.Transport.Table.{strings_eq}
use morse_cli.Utilities.Text.{codes}
use morse_cli.Whitelist.{
  WhitelistArgs, Whitelist, whitelist_octets, is_there, is_added, protocol, is_above_port_max,
  port_of, is_uncovered, check_mask, ported, masked, address, netmask_of, addressed, request_of,
  whitelist_request, send_whitelist, whitelist,
}
use morse_cli.Whitelist.Asks.{Asks, whitelist-Asks}

abbrev pton : Bytes → Option ℕ
pton s =
    if strings_eq s (codes "10.0.0.0")
    then some 10
    else if strings_eq s (codes "255.0.0.0")
    then some 255
    else none

abbrev sent : ℕ → Bytes → List Bytes → ℤ × List Bytes
sent id b log = (pos 0, b ∷ log)

abbrev network : WhitelistArgs
network = record {
  clear = false;
  llc_protocol = some (pos 0x0800);
  ip_protocol = some (pos 6);
  src_ip = some (codes "10.0.0.0");
  dest_ip = none;
  netmask = some (codes "255.0.0.0");
  src_port = none;
  dest_port = some (pos 80);
}

whitelist-Asks_example :
    (whitelist pton sent true network [] ≡ (negsuc 0, []))
    ⊎ ((c : Whitelist) × Asks pton network c
        × (whitelist pton sent true network [] ≡ sent 0x45 (whitelist_octets c) []))
whitelist-Asks_example = whitelist-Asks pton sent true network []

network_run : whitelist pton sent true network [] ≡ (
  pos 0,
  (0 ∷ 6 ∷ 8 ∷ 0 ∷ 10 ∷ 0 ∷ 0 ∷ 0 ∷ 0 ∷ 0 ∷ 0 ∷ 0 ∷ 255 ∷ 0 ∷ 0 ∷ 0 ∷ 0 ∷ 0 ∷ 0 ∷ 80 ∷ []) ∷ [],
)
unfolding whitelist whitelist_request request_of addressed address masked netmask_of ported port_of
    protocol is_added is_there is_above_port_max is_uncovered check_mask send_whitelist
    whitelist_octets wrap le32_octets strings_eq
network_run = refl

-- A port of -1 is not refused.
negative_run : port_of (some (negsuc 0)) ≡ some 65535
unfolding port_of is_above_port_max wrap
negative_run = refl
