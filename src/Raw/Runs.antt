-- ===== src/Raw/Runs.antt =====
-- A request for a window of five slots.
use morse_cli.Base.{false, [], ◌∷◌, Bytes, pos, some, none}
use morse_cli.Raw.{RawArgs, enable}

abbrev five_slots : RawArgs
five_slots = record {
  slots = some (pos 20000, pos 5);
  cross_slot = false;
  aid_group = none;
  start = none;
  spread = none;
  periodic = none;
  action = some enable;
  id = some (pos 1);
}

abbrev sent : Bytes
sent = 5 ∷ 0 ∷ 0 ∷ 0 ∷ 1 ∷ 0 ∷ 0 ∷ 32 ∷ 78 ∷ 0 ∷ 0 ∷ 5 ∷ 0 ∷ []
