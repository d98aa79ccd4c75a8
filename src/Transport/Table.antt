-- ===== src/Transport/Table.antt =====
-- transport/transport.c: the table of transports that the linker puts together, the choice of one
-- by its name, and the regular expression of their names.
use morse_cli.Base.{
  ℕ, zero, suc, ◌+◌, ◌-◌, ◌==◌, leb, ltb, Bool, true, false, if◌then◌else◌, ◌&&◌, Option, none,
  some, Bytes, List, [], ◌∷◌, ◌++◌, length,
}

-- What the table says of a transport. A null name marks a dummy that keeps the table non-empty.
-- `A` is what else the entry holds.
pub record Entry (A : Type 0) : Type 0 where
  pub name : Option Bytes
  pub has_driver : Bool
  pub operations : A

-- strcmp(a, b) == 0
unfoldable pub strings_eq : Bytes → Bytes → Bool
strings_eq [] [] = true
strings_eq (x ∷ xs) (y ∷ ys) = x == y && strings_eq xs ys
strings_eq _ _ = false

module _ {A : Type 0} where
  -- An iterator is the rest of the table from its entry on; NULL is the empty rest.
  unfoldable pub skip_dummies : List (Entry A) → List (Entry A)
  skip_dummies [] = []
  skip_dummies (e ∷ es) = elim e.name [ none ↦ skip_dummies es | some n ↦ e ∷ es ]

  unfoldable pub ops_table_iterator_next : List (Entry A) → List (Entry A)
  ops_table_iterator_next [] = []
  ops_table_iterator_next (e ∷ es) = skip_dummies es

  unfoldable pub get_ops_table_iterator : List (Entry A) → List (Entry A)
  get_ops_table_iterator [] = []
  get_ops_table_iterator (e ∷ es) = elim e.name [
    | none ↦ ops_table_iterator_next (e ∷ es)
    | some n ↦ e ∷ es
  ]

  -- !transport_name || strcmp(transport_name, name) == 0
  unfoldable pub name_matches : Option Bytes → Entry A → Bool
  name_matches none e = true
  name_matches (some wanted) e = elim e.name [ none ↦ false | some n ↦ strings_eq wanted n ]

  -- The loops over the table take the number of its entries as fuel.
  unfoldable pub find_from : ℕ → Option Bytes → List (Entry A) → Option (Entry A)
  find_from zero wanted es = none
  find_from (suc fuel) wanted [] = none
  find_from (suc fuel) wanted (e ∷ es) =
      let rest = find_from fuel wanted (ops_table_iterator_next (e ∷ es)) in
      if name_matches wanted e then some e else rest

  unfoldable pub find_transport_ops : Option Bytes → List (Entry A) → Option (Entry A)
  find_transport_ops wanted table = find_from (length table) wanted (get_ops_table_iterator table)

  unfoldable pub driver_from : ℕ → List (Entry A) → Bool
  driver_from zero es = false
  driver_from (suc fuel) [] = false
  driver_from (suc fuel) (e ∷ es) =
      let rest = driver_from fuel (ops_table_iterator_next (e ∷ es)) in
      if e.has_driver then true else rest

  unfoldable pub driver_commands_supported : List (Entry A) → Bool
  driver_commands_supported table = driver_from (length table) (get_ops_table_iterator table)

-- TRANSPORT_REGEX_MAXLEN
abbrev pub transport_regex_maxlen : ℕ
transport_regex_maxlen = 127

-- `refused` is the NULL of the function, and `overrun` a write behind the allocated octets.
pub data Regex : Type 0 where
  refused : Regex
  overrun : Regex
  built : Bytes → Regex

-- Behind the loop: `str` is what has been written, and its length is `len`.
unfoldable pub regex_end : Bytes → Regex
regex_end str =
    if length str == 0
    then refused
    else if leb (transport_regex_maxlen - length str) 1
    then refused
    else built (str ++ (0x29 ∷ []))

module _ {A : Type 0} where
  -- The loop. Its test of the length is an equation.
  unfoldable pub regex_from : ℕ → Bytes → Bool → List (Entry A) → Regex
  regex_from zero str first es = regex_end str
  regex_from (suc fuel) str first [] = regex_end str
  regex_from (suc fuel) str first (e ∷ es) = elim e.name [
    | none ↦ refused
    | some n ↦
        let str' = str ++ ((if first then 0x28 else 0x7c) ∷ n) in
        let rest = regex_from fuel str' false (ops_table_iterator_next (e ∷ es)) in
        if length n + 1 + length str == transport_regex_maxlen
        then refused
        else if ltb transport_regex_maxlen (length str')
        then overrun
        else rest
  ]

  unfoldable pub get_regex : List (Entry A) → Regex
  get_regex table = regex_from (length table) [] true (get_ops_table_iterator table)
