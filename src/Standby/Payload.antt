-- ===== src/Standby/Payload.antt =====
-- standby.c: the payload command, from the digits of its argument to the request.
use morse_cli.Base.{
  ℕ, ◌*◌, ◌/◌, ◌%◌, ◌^◌, ◌==◌, ◌≤◌, ◌<◌, ltb, true, false, Option, some, Bytes, List, [], ◌∷◌, ◌++◌,
  length, ℤ, pos, ◌≡◌, refl, All, IsByte, arith,
}
use morse_cli.Sdio.Memblock.{le32_octets}
use morse_cli.Transport.Table.{strings_eq}
use morse_cli.Utilities.Hex.{print_hex}
use morse_cli.Utilities.Text.{codes}
use morse_cli.Standby.Session.{ChannelFields, hex_pair}
use morse_cli.Standby.Request.{
  payload_octets, process_set_status_payload, send_payload, request, set_status_payload,
  standby_mode_id, mode_req_size, payload_max_len, standby_get_cmd,
}
use morse_cli.Standby.Top.{standby, run_named, run_allocated, run_mode, run_payload}

length-print_hex : (octets : Bytes) → length (print_hex false octets) ≡ 2 * length octets
length-print_hex [] = omega arith
length-print_hex (b ∷ bs) = omega (arith, length-print_hex bs)

module _ (sscanf_octet : Bytes → Option ℕ)
    (scans : (b : ℕ) (rest : Bytes) → b < 256 → sscanf_octet (hex_pair b rest) ≡ some b) where
  payload_octets-print_hex :
      (octets : Bytes)
      → All IsByte octets
      → payload_octets sscanf_octet (length octets) (print_hex false octets) ≡ (pos 0, octets)
  unfolding payload_octets
  payload_octets-print_hex [] h = refl
  payload_octets-print_hex (b ∷ bs) (h, hs) =
      rw (scans b (print_hex false bs) h, payload_octets, payload_octets-print_hex bs hs) refl

  payload-print_hex :
      (octets : Bytes)
      → All IsByte octets
      → length octets ≤ payload_max_len
      → process_set_status_payload sscanf_octet (print_hex false octets)
        ≡ (pos 0, le32_octets (length octets) ++ octets)
  unfolding process_set_status_payload
  payload-print_hex octets h fits =
      let size : length (print_hex false octets) % 2 ^ 32 ≡ 2 * length octets =
        omega (arith, length-print_hex octets) in
      let half : 2 * length octets / 2 ≡ length octets = omega arith in
      let even : (2 * length octets % 2 == 0) ≡ true = ground arith in
      let short : ltb payload_max_len (length octets) ≡ false = ground arith in
      rw (size, half, even, short, payload_octets-print_hex octets h) refl

module _ {S : Type 0} (cmd_alloc : ℕ → Option Bytes) (send : ℕ → Bytes → S → ℤ × S)
    (ask : ℕ → Bytes → S → ℤ × (ChannelFields × S)) (read_file : Bytes → Option Bytes)
    (save : Bytes → Bytes → S → ℤ × S) (strtoul : Bytes → ℕ × ℕ) (inet_pton : Bytes → Option ℕ)
    (sscanf_octet : Bytes → Option ℕ) (sscanf_mac : Bytes → Bytes → ℕ × Bytes)
    (ifname : Option Bytes) (getopt : List Bytes → List (ℕ × Bytes)) where
  -- Where sscanf reads two digits as their octet, and the allocations of the command succeed:
  -- `standby payload` with the digits of 64 octets at most sends exactly one command, the request
  -- that carries their number and the octets, and gives its result.
  pub standby-payload :
      (scans : (b : ℕ) (rest : Bytes) → b < 256 → sscanf_octet (hex_pair b rest) ≡ some b)
      (name octets mem : Bytes) (s : S)
      → cmd_alloc mode_req_size ≡ some mem
      → All IsByte octets
      → length octets ≤ payload_max_len
      → standby cmd_alloc true send ask read_file save strtoul inet_pton sscanf_octet sscanf_mac
          ifname getopt
          (name ∷ codes "payload" ∷ print_hex false octets ∷ [])
          s
        ≡ some (
            send standby_mode_id
              (request set_status_payload (le32_octets (length octets) ++ octets) mem)
              s)
  unfolding standby run_named run_allocated run_mode run_payload send_payload standby_get_cmd
      strings_eq
  standby-payload scans name octets mem s given h fits =
      rw (given, run_allocated)
        (rw (payload-print_hex sscanf_octet scans octets h fits, send_payload) refl)
