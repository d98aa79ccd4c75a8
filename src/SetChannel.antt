-- ===== src/SetChannel.antt =====
-- channel.c: the command that sets and reads the channel, from the values of its options. What is
-- printed of the answers is left out.
pub mod Requests
mod Runs
use morse_cli.Base.{
  ℕ, ◌+◌, ◌*◌, ◌%◌, ◌^◌, ◌==◌, Bool, true, false, not, ◌&&◌, ◌||◌, if◌then◌else◌, Option, none,
  some, Bytes, [], ◌∷◌, ◌++◌, ℤ, pos, negsuc, is_negative,
}
use morse_cli.Raw.{wrap}
use morse_cli.Sdio.Memblock.{le32_octets}

-- The options; one that was not given is `none`. What `-r` says is kept by itself: the code tests
-- the pointer to the option, which is never null, and not its count.
pub record ChannelArgs : Type 0 where
  pub all_channels : Bool
  pub frequency : Option ℤ
  pub operating_bandwidth : Option ℤ
  pub primary_bandwidth : Option ℤ
  pub primary_idx : Option ℤ
  pub ignore_reg_power : Bool

abbrev pub is_given : Option ℤ → Bool
is_given none = false
is_given (some v) = true

-- BANDWIDTH_DEFAULT and PRIMARY_1MHZ_CHANNEL_INDEX_DEFAULT are both 0xFF.
unfoldable pub octet_or_default : Option ℤ → ℕ
octet_or_default none = 0xff
octet_or_default (some v) = wrap 8 v

unfoldable pub freq_khz : ChannelArgs → ℕ
freq_khz args = elim args.frequency [ none ↦ 0 | some f ↦ wrap 32 f ]

unfoldable pub set_freq : ChannelArgs → Bool
set_freq args =
    is_given args.frequency
    || (is_given args.operating_bandwidth
        || (is_given args.primary_bandwidth || is_given args.primary_idx))

-- struct command_set_channel_req; the frequency in Hz has 32 bits.
unfoldable pub set_channel_req : ChannelArgs → Bytes
set_channel_req args =
    le32_octets (freq_khz args * 1000 % 2 ^ 32)
    ++ (octet_or_default args.operating_bandwidth
        ∷ octet_or_default args.primary_bandwidth
        ∷ octet_or_default args.primary_idx
        ∷ 0
        ∷ 1
        ∷ [])

-- `send` is morsectrl_send_command, for the message id and the data of the command.
module _ {S : Type 0} (send : ℕ → Bytes → S → ℤ × S) where
  -- The DTIM and the current channel, behind the full one.
  unfoldable pub get_others : Bool → ℤ → S → ℤ × S
  get_others all ret s =
      let (ret1, s1) = send 0x1c [] s in
      let (ret2, s2) = send 0x1d [] s1 in
      if not all then (ret, s) else if is_negative ret1 then (ret1, s1) else (ret2, s2)

  unfoldable pub get_channels : Bool → S → ℤ × S
  get_channels all s =
      let (ret, s1) = send 0x13 [] s in
      let others = get_others all ret s1 in if is_negative ret then (ret, s1) else others

  -- channel, for the four allocations.
  unfoldable pub channel : Bool → ChannelArgs → S → ℤ × S
  channel allocated args s =
      let (ret, s1) = send 0x1 (set_channel_req args) s in
      let read = get_channels args.all_channels s in
      let read' = get_channels args.all_channels s1 in
      if not allocated
      then (negsuc 0, s)
      else if not (set_freq args)
      then read
      else if freq_khz args == 0
      then (negsuc 0, s)
      else if is_negative ret
      then (ret, s1)
      else read'
