-- ===== src/Transport/Runs.antt =====
-- A table with a dummy before, between and behind two transports.
use morse_cli.Base.{ℕ, ◌≡◌, arith, true, false, [], ◌∷◌, Bytes, List, none, some}
use morse_cli.Transport.Table.{Entry, built, find_transport_ops, get_regex}
use morse_cli.Transport.Choice.{first_match, find_transport_ops-first_match, get_regex-alternatives}

abbrev dummy : Entry ℕ
dummy = record { name = none; has_driver = false; operations = 0 }

abbrev named : Bytes → ℕ → Entry ℕ
named name ops = record { name = some name; has_driver = true; operations = ops }

abbrev table : List (Entry ℕ)
table = dummy ∷ named (1 ∷ 2 ∷ []) 7 ∷ dummy ∷ named (3 ∷ []) 8 ∷ dummy ∷ []

find_transport_ops-first_match_example :
    find_transport_ops (some (3 ∷ [])) table ≡ first_match (some (3 ∷ [])) table
find_transport_ops-first_match_example = find_transport_ops-first_match (some (3 ∷ [])) table

get_regex-alternatives_example : get_regex table ≡ built (0x28 ∷ 1 ∷ 2 ∷ 0x7c ∷ 3 ∷ 0x29 ∷ [])
get_regex-alternatives_example = get_regex-alternatives table (omega arith) (omega arith)
