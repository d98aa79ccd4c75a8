-- ===== src/Twt/Runs.antt =====
-- twt with a flow id, over conversions that read the first character as a digit.
use morse_cli.Base.{ℕ, ◌-◌, true, [], ◌∷◌, Bytes, List, ℤ, pos, some, get_or, length, replicate}
use morse_cli.Twt.{twt, conf_name}
use morse_cli.Twt.InRange.{Outcome, twt-Outcome}

abbrev one_digit : Bytes → ℕ × ℕ
one_digit str = (get_or str 0 48 - 48, length str)

abbrev wire : Bytes → List Bytes → ℤ × List Bytes
wire octets sent = (pos 0, octets ∷ sent)

-- twt conf -f 3
abbrev words : List Bytes
words = [] ∷ conf_name ∷ (45 ∷ 102 ∷ []) ∷ (51 ∷ []) ∷ []

twt-Outcome_example :
    Outcome wire []
      (twt one_digit one_digit wire words ((102, 51 ∷ []) ∷ []) true (some (replicate 26 0)) [])
twt-Outcome_example =
    twt-Outcome one_digit one_digit wire words ((102, 51 ∷ []) ∷ []) true (some (replicate 26 0)) []
