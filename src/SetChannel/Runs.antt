-- ===== src/SetChannel/Runs.antt =====
-- channel -c 915000 -a
use morse_cli.Base.{◌≡◌, ◌==◌, ◌&&◌, refl, true, false, [], pos, some, none}
use morse_cli.Raw.{wrap}
use morse_cli.SetChannel.{ChannelArgs, freq_khz, set_freq, channel}
use morse_cli.SetChannel.Requests.{note, requests, channel-requests}

abbrev args : ChannelArgs
args = record {
  all_channels = true;
  frequency = some (pos 915000);
  operating_bandwidth = none;
  primary_bandwidth = none;
  primary_idx = none;
  ignore_reg_power = false;
}

given : (set_freq args && freq_khz args == 0) ≡ false
unfolding freq_khz set_freq wrap
given = refl

channel-requests_example : channel note true args [] ≡ (pos 0, requests args)
channel-requests_example = channel-requests args [] given
