-- ===== src/SetChannel/Requests.antt =====
-- The commands of channel.c, noted in their order by a transport where each succeeds.
use morse_cli.Base.{
  ℕ, ◌≡◌, refl, ap, ◌∙◌, ◌==◌, Bool, true, false, Bool-cases, inl, inr, if◌then◌else◌, ◌&&◌, Bytes,
  List, [], ◌∷◌, ◌++◌, append_assoc, ℤ, pos,
}
use morse_cli.SetChannel.{
  ChannelArgs, set_freq, freq_khz, set_channel_req, get_others, get_channels, channel,
}

-- A command: its message id and its data.
abbrev pub Sent : Type 0
Sent = ℕ × Bytes

abbrev pub note : ℕ → Bytes → List Sent → ℤ × List Sent
note message_id octets sent = (pos 0, sent ++ ((message_id, octets) ∷ []))

abbrev pub reads : Bool → List Sent
reads all = (0x13, []) ∷ (if all then ((0x1c, []) ∷ (0x1d, []) ∷ []) else [])

abbrev pub requests : ChannelArgs → List Sent
requests args =
    if set_freq args
    then (0x1, set_channel_req args) ∷ reads args.all_channels
    else reads args.all_channels

get_channels-reads :
    (all : Bool) (sent : List Sent) → get_channels note all sent ≡ (pos 0, sent ++ reads all)
unfolding get_channels get_others
get_channels-reads true sent = ap (λ l. (pos 0, l)) (simp append_assoc refl)
get_channels-reads false sent = refl

-- Where every command succeeds and a frequency other than 0 is given with any setting, channel
-- returns 0 and sends in this order: the setting, if there is one, then the question for the full
-- channel, and, if all channels are asked for, those for the DTIM and the current channel.
pub channel-requests :
    (args : ChannelArgs) (sent : List Sent)
    → (set_freq args && freq_khz args == 0) ≡ false
    → channel note true args sent ≡ (pos 0, sent ++ requests args)
unfolding channel
channel-requests args sent h = elim (Bool-cases (set_freq args)) [
  | inl e ↦
      let f : (freq_khz args == 0) ≡ false = rw e at h in
      rw (channel, e, f)
        (get_channels-reads args.all_channels (sent ++ ((0x1, set_channel_req args) ∷ []))
          ∙ ap (λ l. (pos 0, l))
              (append_assoc sent ((0x1, set_channel_req args) ∷ []) (reads args.all_channels)))
  | inr e ↦ rw (channel, e) (get_channels-reads args.all_channels sent)
]
