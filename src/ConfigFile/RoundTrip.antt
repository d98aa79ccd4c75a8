-- ===== src/ConfigFile/RoundTrip.antt =====
-- config_file.c: the file of one transport, one interface and some options, from its first octet to its
-- last.
use morse_cli.Base.{
  ℕ, suc, ◌+◌, ◌-◌, ◌≤◌, ◌<◌, Bytes, List, [], ◌∷◌, ◌++◌, length, length-set, set, Option, some,
  pos, ◌≡◌, refl, ap, ◌∙◌, arith, All,
}
use morse_cli.Base.Strings.{c_str, c_str-drop}
use morse_cli.ConfigFile.{
  Purpose, line_buffer, options_block, null, block, Options, is_null, max_line_length,
  max_cfg_length, trans_str, iface_str, take_trans, take_iface, parse_lines, parse_opened,
  cfg_block, morsectrl_config_file_parse,
}
use morse_cli.ConfigFile.Append.{joined}
use morse_cli.ConfigFile.Lines.{
  IsWord, Says, fgets_line, take_trans-Says, take_iface-Says, parse_line_trans, parse_line_iface,
}
use morse_cli.ConfigFile.File.{
  option_lines, printed, all_joined, IsOption, IsLine-append, length-joined, length-all_joined,
  length-printed, parse_lines-step, option-step, options-step,
}
use morse_cli.Base.Trim.{fgets}

c_str-cleared : (b : Bytes) → c_str (set b 0 0) ≡ []
unfolding c_str
c_str-cleared [] = refl
c_str-cleared (c ∷ b) = refl

module _ (malloc : Purpose → ℕ → Option Bytes)
    (malloc_gives : (w : Purpose) (n : ℕ)
      → (b : Bytes) × (malloc w n ≡ some b) × (length b ≡ n)) where
  -- The first option makes the block.
  new_block :
      (b : Bytes) × (cfg_block (malloc options_block) null ≡ some b)
      × (c_str b ≡ [])
      × (length b ≡ max_cfg_length)
  unfolding cfg_block
  new_block =
      let (b, given, size) = malloc_gives options_block max_cfg_length in
      (set b 0 0, rw (given, cfg_block) refl, c_str-cleared b, length-set b 0 0 ∙ size)

  trans_line :
      (rounds : ℕ) (w rest line : Bytes) (o : Options)
      → IsWord w
      → length w < 244
      → o.trans_opts ≡ null
      → (line' : Bytes) × (o' : Options) × (parse_lines malloc
            (suc rounds)
            ((trans_str ++ (b'=' ∷ w)) ++ (10 ∷ rest))
            line
            o
          ≡ parse_lines malloc rounds rest line' o')
        × Says o'.trans_opts w
        × (o'.iface_opts ≡ o.iface_opts)
        × (o'.cfg_opts ≡ o.cfg_opts)
  trans_line rounds w rest line o word short h =
      let text = trans_str ++ (b'=' ∷ w) in
      let (held, left) =
        fgets_line line text rest
          (IsLine-append trans_str (b'=' ∷ w) (omega arith) (omega arith, word.line))
          (omega arith) in
      let read = (fgets max_line_length line (text ++ (10 ∷ rest))).0 in
      let shape : c_str read ≡ trans_str ++ (b'=' ∷ (w ++ (10 ∷ []))) = held in
      let said =
        take_trans-Says malloc malloc_gives (length trans_str) read w o
          (c_str-drop read trans_str (b'=' ∷ (w ++ (10 ∷ []))) shape) word (omega arith) in
      (
        (take_trans malloc (length trans_str) read o).1,
        (take_trans malloc (length trans_str) read o).2,
        parse_lines-step malloc rounds text rest line o
            (take_trans malloc (length trans_str) read o) (parse_line_trans malloc read w o shape h)
            said.0 left,
        said.1,
        said.2,
        said.3,
      )

  iface_line :
      (rounds : ℕ) (w rest line : Bytes) (o : Options)
      → IsWord w
      → length w < 244
      → o.iface_opts ≡ null
      → (line' : Bytes) × (o' : Options) × (parse_lines malloc
            (suc rounds)
            ((iface_str ++ (b'=' ∷ w)) ++ (10 ∷ rest))
            line
            o
          ≡ parse_lines malloc rounds rest line' o')
        × (o'.trans_opts ≡ o.trans_opts)
        × Says o'.iface_opts w
        × (o'.cfg_opts ≡ o.cfg_opts)
  iface_line rounds w rest line o word short h =
      let text = iface_str ++ (b'=' ∷ w) in
      let (held, left) =
        fgets_line line text rest
          (IsLine-append iface_str (b'=' ∷ w) (omega arith) (omega arith, word.line))
          (omega arith) in
      let read = (fgets max_line_length line (text ++ (10 ∷ rest))).0 in
      let shape : c_str read ≡ iface_str ++ (b'=' ∷ (w ++ (10 ∷ []))) = held in
      let said =
        take_iface-Says malloc malloc_gives (length iface_str) read w o
          (c_str-drop read iface_str (b'=' ∷ (w ++ (10 ∷ []))) shape) word (omega arith) in
      (
        (take_iface malloc (length iface_str) read o).1,
        (take_iface malloc (length iface_str) read o).2,
        parse_lines-step malloc rounds text rest line o
            (take_iface malloc (length iface_str) read o) (parse_line_iface malloc read w o shape h)
            said.0 left,
        said.1,
        said.2,
        said.3,
      )

  -- A file is read back: where malloc gives every block that is asked for, and no option was given
  -- on the command line, the file with the lines `transport=t`, `interface=i` and `t_v` for each of
  -- one or more options v gives 0, the transport t, the interface i, and the options joined with
  -- commas. t and i begin neither with space nor with `=` or `#`, no text ends with space or holds a
  -- zero octet or a line's end, the lines have less than 254 octets with t and i less than 244, and
  -- the joined options have 253 octets at most.
  pub config_file_parse-printed :
      (t i v : Bytes) (vs : List Bytes) (o : Options)
      → IsWord t
      → IsWord i
      → length t < 244
      → length i < 244
      → All (IsOption t) (v ∷ vs)
      → length (all_joined [] (v ∷ vs)) + 2 ≤ max_cfg_length
      → o.trans_opts ≡ null
      → o.iface_opts ≡ null
      → o.cfg_opts ≡ null
      → (o' : Options) × (morsectrl_config_file_parse malloc (some (printed t i (v ∷ vs))) o
          ≡ some (pos 0, o'))
        × Says o'.trans_opts t
        × Says o'.iface_opts i
        × Says o'.cfg_opts (all_joined [] (v ∷ vs))
  unfolding morsectrl_config_file_parse parse_opened all_joined printed option_lines
  config_file_parse-printed t i v vs o wt wi lt li opts fits ht hi hc =
      let (line, given, _) = malloc_gives line_buffer max_line_length in
      let rounds = length (printed t i (v ∷ vs)) - 2 in
      let options = option_lines t (v ∷ vs) in
      let (line1, o1, run1, (b, is_b, names), if1, cf1) =
        trans_line (suc (suc rounds)) t ((iface_str ++ (b'=' ∷ i)) ++ (10 ∷ options)) line o wt lt
          ht in
      let (line2, o2, run2, tr2, (bi, is_bi, says_i), cf2) =
        iface_line (suc rounds) i options line1 o1 wi li (if1 ∙ hi) in
      let (ptr, made, empty, size) = new_block in
      let (line3, b1, run3, text1, size1) =
        option-step malloc t b names wt.first wt.line rounds v (option_lines t vs) line2 ptr o2
          (tr2 ∙ is_b) (ap is_null is_bi)
          (ap (cfg_block (malloc options_block)) (cf2 ∙ cf1 ∙ hc) ∙ made) (omega (arith, size))
          opts.0
          (omega
            (arith, ap length empty, length-joined [] v, length-all_joined (joined [] v) vs)) in
      let text1' : c_str b1 ≡ joined [] v = text1 ∙ ap (λ a. joined a v) empty in
      let (b', run4, text') =
        options-step malloc t b names wt.first wt.line vs rounds line3 b1
          (record o2 { cfg_opts = block b1 }) (tr2 ∙ is_b) (ap is_null is_bi) refl
          (omega (arith, size1, size)) opts.1 (rw text1' fits)
          (omega (arith, length-printed t i (v ∷ vs))) in
      (
        record o2 { cfg_opts = block b' },
        ap (parse_opened malloc (printed t i (v ∷ vs)) o) given
            ∙ (ap (λ k. parse_lines malloc k (printed t i (v ∷ vs)) line o)
                  {x = suc (length (printed t i (v ∷ vs)))} {y = suc (suc (suc rounds))}
                  (omega (arith, length-printed t i (v ∷ vs)))
                ∙ run1
                ∙ run2
                ∙ run3
                ∙ run4),
        (b, tr2 ∙ is_b, names),
        (bi, is_bi, says_i),
        (b', refl, text' ∙ ap (λ a. all_joined a vs) text1'),
      )
