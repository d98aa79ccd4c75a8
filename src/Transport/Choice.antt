-- ===== src/Transport/Choice.antt =====
-- The loops over the table of transports (transport/transport.c) and the entries with a name.
use morse_cli.Base.{
  ℕ, zero, suc, ◌+◌, ◌≤◌, ◌<◌, ◌≡◌, refl, ap, ◌∙◌, arith, ◌==◌, ltb, Bool, true, false,
  if◌then◌else◌, Option, none, some, Bytes, List, [], ◌∷◌, ◌++◌, length, length-append,
  append_assoc, append-nil,
}
use morse_cli.Transport.Table.{
  Entry, skip_dummies, ops_table_iterator_next, get_ops_table_iterator, name_matches, find_from,
  find_transport_ops, built, regex_end, regex_from, get_regex,
}

regex_end-built :
    (str : Bytes) → 0 < length str → length str ≤ 125 → regex_end str ≡ built (str ++ (0x29 ∷ []))
unfolding regex_end
regex_end-built str h k = ground arith

module _ {A : Type 0} where
  -- The first entry with a name that is wanted.
  abbrev pub first_match : Option Bytes → List (Entry A) → Option (Entry A)
  first_match wanted [] = none
  first_match wanted (e ∷ es) =
      let rest = first_match wanted es in
      elim e.name [ none ↦ rest | some n ↦ if name_matches wanted e then some e else rest ]

  find_from-entry :
      (fuel : ℕ) (wanted : Option Bytes) (e : Entry A) (es : List (Entry A)) (n : Option Bytes)
      → e.name ≡ n
      → find_from (suc fuel) wanted (skip_dummies es) ≡ first_match wanted es
      → find_from fuel wanted (skip_dummies es) ≡ first_match wanted es
      → find_from (suc fuel) wanted (skip_dummies (e ∷ es)) ≡ first_match wanted (e ∷ es)
  unfolding find_from skip_dummies ops_table_iterator_next
  find_from-entry fuel wanted e es none k here next = rw k here
  find_from-entry fuel wanted e es (some n) k here next =
      rw k (ap (λ r. if name_matches wanted e then some e else r) next)

  find_from-first :
      (fuel : ℕ) (wanted : Option Bytes) (es : List (Entry A))
      → length es ≤ fuel
      → find_from fuel wanted (skip_dummies es) ≡ first_match wanted es
  unfolding find_from skip_dummies
  find_from-first zero wanted [] h = refl
  find_from-first (suc fuel) wanted [] h = refl
  find_from-first zero wanted (e ∷ es) h = absurd (omega arith)
  find_from-first (suc fuel) wanted (e ∷ es) h =
      find_from-entry fuel wanted e es e.name refl
        (find_from-first (suc fuel) wanted es (omega arith))
        (find_from-first fuel wanted es (omega arith))

  iterator_start : (table : List (Entry A)) → get_ops_table_iterator table ≡ skip_dummies table
  unfolding get_ops_table_iterator skip_dummies ops_table_iterator_next
  iterator_start [] = refl
  iterator_start (e ∷ es) = refl

  -- find_transport_ops gives the first entry of the table with a name that is the wanted one, or
  -- with any name where none is wanted; dummies are passed over wherever they stand.
  pub find_transport_ops-first_match :
      (wanted : Option Bytes) (table : List (Entry A))
      → find_transport_ops wanted table ≡ first_match wanted table
  unfolding find_transport_ops
  find_transport_ops-first_match wanted table =
      ap (find_from (length table) wanted) (iterator_start table)
      ∙ find_from-first (length table) wanted table (omega arith)

  -- The names of the table, each behind its separator.
  abbrev pub alternatives : Bool → List (Entry A) → Bytes
  alternatives first [] = []
  alternatives first (e ∷ es) =
      let rest = alternatives first es in
      let rest' = alternatives false es in
      elim e.name [ none ↦ rest | some n ↦ ((if first then 0x28 else 0x7c) ∷ n) ++ rest' ]

  -- The regular expression from an iterator on, behind what has been written.
  abbrev Builds : ℕ → Bytes → Bool → List (Entry A) → Type 0
  Builds fuel str first es =
      0 < length (str ++ alternatives first es)
      → length (str ++ alternatives first es) ≤ 125
      → regex_from fuel str first (skip_dummies es)
        ≡ built ((str ++ alternatives first es) ++ (0x29 ∷ []))

  regex_from-entry :
      (fuel : ℕ) (str : Bytes) (first : Bool) (e : Entry A) (es : List (Entry A)) (n : Option Bytes)
      → e.name ≡ n
      → Builds (suc fuel) str first es
      → ((n : Bytes) → Builds fuel (str ++ ((if first then 0x28 else 0x7c) ∷ n)) false es)
      → Builds (suc fuel) str first (e ∷ es)
  unfolding regex_from skip_dummies ops_table_iterator_next
  regex_from-entry fuel str first e es none k here next = rw k here
  regex_from-entry fuel str first e es (some n) k here next = rw k (λ h l.
      let piece = (if first then 0x28 else 0x7c) ∷ n in
      let rest = alternatives false es in
      let all = length-append str (piece ++ rest) in
      let front = length-append piece rest in
      let written = length-append str piece in
      let no_end : (length n + 1 + length str == 127) ≡ false = ground arith in
      let no_overrun : ltb 127 (length (str ++ piece)) ≡ false = ground arith in
      let joined : (str ++ piece) ++ rest ≡ str ++ (piece ++ rest) = append_assoc str piece rest in
      rw (regex_from, k, no_end, no_overrun) (rw joined at (next n) h l))

  regex_from-built :
      (fuel : ℕ) (str : Bytes) (first : Bool) (es : List (Entry A))
      → length es ≤ fuel
      → Builds fuel str first es
  unfolding regex_from skip_dummies
  regex_from-built zero str first [] h = λ k l. rw (append-nil str) (
      regex_end-built str (omega (arith, length-append str []))
        (omega (arith, length-append str [])))
  regex_from-built (suc fuel) str first [] h = λ k l. rw (append-nil str) (
      regex_end-built str (omega (arith, length-append str []))
        (omega (arith, length-append str [])))
  regex_from-built zero str first (e ∷ es) h = absurd (omega arith)
  regex_from-built (suc fuel) str first (e ∷ es) h =
      regex_from-entry fuel str first e es e.name refl
        (regex_from-built (suc fuel) str first es (omega arith))
        (λ n.
          regex_from-built fuel (str ++ ((if first then 0x28 else 0x7c) ∷ n)) false es
            (omega arith))

  -- Where the table has a named entry, and the names with a separator before each have at most 125
  -- octets together, get_regex gives the names between brackets with bars between them.
  pub get_regex-alternatives :
      (table : List (Entry A))
      → 0 < length (alternatives true table)
      → length (alternatives true table) ≤ 125
      → get_regex table ≡ built (alternatives true table ++ (0x29 ∷ []))
  unfolding get_regex
  get_regex-alternatives table h k =
      ap (regex_from (length table) [] true) (iterator_start table)
      ∙ regex_from-built (length table) [] true table (omega arith) h k
