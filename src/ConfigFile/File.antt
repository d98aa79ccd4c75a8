-- ===== src/ConfigFile/File.antt =====
-- config_file.c: whole files, which name a transport, an interface and options of the transport.
use morse_cli.Base.{
  ℕ, zero, suc, ◌+◌, ◌-◌, ◌≤◌, ◌<◌, true, false, Bytes, List, [], ◌∷◌, ◌++◌, length, take, drop,
  Option, some, ℤ, pos, ◌≡◌, refl, sym, ap, ◌∙◌, arith, length-append, append_assoc, All,
}
use morse_cli.Base.Strings.{c_str, strlen, c_str-drop}
use morse_cli.ConfigFile.{
  Purpose, options_block, Pointer, block, Options, is_null, max_line_length, max_cfg_length,
  trans_str, iface_str, take_cfg, parse_line, parse_lines, cfg_block, config_file_cfg,
}
use morse_cli.ConfigFile.Append.{joined, config_file_cfg-joined}
use morse_cli.ConfigFile.Lines.{begins, fgets_line, trimmed_line, parse_line_option}
use morse_cli.Base.Trim.{trimmed, fgets, IsLine}

-- The lines of a file that gives options to the transport `t`.
unfoldable pub option_lines : Bytes → List Bytes → Bytes
option_lines t [] = []
option_lines t (v ∷ vs) = (t ++ (b'_' ∷ v)) ++ (10 ∷ option_lines t vs)

-- The file: the transport, the interface, and the options.
unfoldable pub printed : Bytes → Bytes → List Bytes → Bytes
printed t i vs =
    (trans_str ++ (b'=' ∷ t)) ++ (10 ∷ ((iface_str ++ (b'=' ∷ i)) ++ (10 ∷ option_lines t vs)))

-- The options behind those that the block holds.
unfoldable pub all_joined : Bytes → List Bytes → Bytes
all_joined acc [] = acc
all_joined acc (v ∷ vs) = all_joined (joined acc v) vs

-- An option that a line can give.
pub record IsOption (t v : Bytes) : Type 0 where
  pub line : IsLine v
  pub last : trimmed v ≡ v
  pub short : length t + length v + 1 < max_line_length - 1

pub IsLine-append : (s t : Bytes) → IsLine s → IsLine t → IsLine (s ++ t)
IsLine-append [] t _ h = h
IsLine-append (c ∷ s) t (h, hs) ht = (h, IsLine-append s t hs ht)

pub length-joined : (acc v : Bytes) → length acc + length v ≤ length (joined acc v)
unfolding joined
length-joined [] v = omega arith
length-joined (c ∷ acc) v = omega (arith, length-append acc (b',' ∷ v))

pub length-all_joined : (acc : Bytes) (vs : List Bytes) → length acc ≤ length (all_joined acc vs)
unfolding all_joined
length-all_joined acc [] = omega arith
length-all_joined acc (v ∷ vs) =
    omega (arith, length-joined acc v, length-all_joined (joined acc v) vs)

length-option_lines : (t : Bytes) (vs : List Bytes) → length vs ≤ length (option_lines t vs)
unfolding option_lines
length-option_lines t [] = omega arith
length-option_lines t (v ∷ vs) =
    omega
      (arith, length-option_lines t vs, length-append (t ++ (b'_' ∷ v)) (10 ∷ option_lines t vs))

pub length-printed : (t i : Bytes) (vs : List Bytes) → length vs + 2 < length (printed t i vs)
unfolding printed
length-printed t i vs = omega (
  arith,
  length-option_lines t vs,
  length-append (trans_str ++ (b'=' ∷ t))
      (10 ∷ ((iface_str ++ (b'=' ∷ i)) ++ (10 ∷ option_lines t vs))),
  length-append (iface_str ++ (b'=' ∷ i)) (10 ∷ option_lines t vs),
)

module _ (malloc : Purpose → ℕ → Option Bytes) where
  -- One round of the loop, over a line that gives no error.
  pub parse_lines-step :
      (rounds : ℕ) (text rest line : Bytes) (o : Options) (r : ℤ × Bytes × Options)
      → parse_line malloc (fgets max_line_length line (text ++ (10 ∷ rest))).0 o ≡ r
      → r.0 ≡ pos 0
      → (fgets max_line_length line (text ++ (10 ∷ rest))).1 ≡ rest
      → parse_lines malloc (suc rounds) (text ++ (10 ∷ rest)) line o
        ≡ parse_lines malloc rounds rest r.1 r.2
  unfolding parse_lines
  parse_lines-step rounds [] rest line o r e z f = rw (e, z, f) refl
  parse_lines-step rounds (c ∷ text) rest line o r e z f = rw (e, z, f) refl

c_str-drop_at :
    (b : Bytes) (n : ℕ) (s rest : Bytes)
    → length s ≡ n
    → c_str b ≡ s ++ rest
    → c_str (drop n b) ≡ rest
c_str-drop_at b n s rest e h = ap (λ k. c_str (drop k b)) (sym e) ∙ c_str-drop b s rest h

module _ (malloc : Purpose → ℕ → Option Bytes) (t b : Bytes) (names : c_str b ≡ t)
    (good : begins t ≡ true) (one : IsLine t) where
  -- The line of one option, when the block for them is there or can be made.
  pub option-step :
      (rounds : ℕ) (v rest line ptr : Bytes) (o : Options)
      → o.trans_opts ≡ block b
      → is_null o.iface_opts ≡ false
      → cfg_block (malloc options_block) o.cfg_opts ≡ some ptr
      → max_cfg_length ≤ length ptr
      → IsOption t v
      → strlen ptr + length v + 2 ≤ max_cfg_length
      → (line' : Bytes) × (b' : Bytes) × (parse_lines malloc
            (suc rounds)
            ((t ++ (b'_' ∷ v)) ++ (10 ∷ rest))
            line
            o
          ≡ parse_lines malloc rounds rest line' (record o { cfg_opts = block b' }))
        × (c_str b' ≡ joined (c_str ptr) v)
        × (length b' ≡ length ptr)
  unfolding take_cfg
  option-step rounds v rest line ptr o ht hi hc room opt fits =
      let text = t ++ (b'_' ∷ v) in
      let (held, left) =
        fgets_line line text rest (IsLine-append t (b'_' ∷ v) one (omega arith, opt.line))
          (omega (arith, length-append t (b'_' ∷ v), opt.short)) in
      let read = (fgets max_line_length line (text ++ (10 ∷ rest))).0 in
      let shape : c_str read ≡ t ++ (b'_' ∷ (v ++ (10 ∷ []))) =
        held ∙ append_assoc t (b'_' ∷ v) (10 ∷ []) in
      let value : c_str (drop (length t + 1) read) ≡ v ++ (10 ∷ []) =
        c_str-drop_at read (length t + 1) (t ++ (b'_' ∷ [])) (v ++ (10 ∷ []))
          (length-append t (b'_' ∷ []))
          (shape ∙ sym (append_assoc t (b'_' ∷ []) (v ++ (10 ∷ [])))) in
      let said : trimmed (c_str (drop (length t + 1) read)) ≡ v =
        ap trimmed value ∙ trimmed_line v opt.last in
      let (b', is_b', zero_ret, text_b', size_b') =
        config_file_cfg-joined (malloc options_block) (drop (length t + 1) read) ptr o.cfg_opts hc
          room (rw said fits) in
      (
        take (length t + 1) read
            ++ (config_file_cfg (malloc options_block) (drop (length t + 1) read) o.cfg_opts).1,
        b',
        parse_lines-step malloc rounds text rest line o (take_cfg malloc (length t + 1) read o)
              (parse_line_option malloc read b t v o shape good one ht names hi) zero_ret left
            ∙ (rw is_b' refl),
        text_b' ∙ ap (joined (c_str ptr)) said,
        size_b',
      )

  -- The lines of further options.
  pub options-step :
      (vs : List Bytes) (rounds : ℕ) (line ptr : Bytes) (o : Options)
      → o.trans_opts ≡ block b
      → is_null o.iface_opts ≡ false
      → o.cfg_opts ≡ block ptr
      → max_cfg_length ≤ length ptr
      → All (IsOption t) vs
      → length (all_joined (c_str ptr) vs) + 2 ≤ max_cfg_length
      → length vs < rounds
      → (b' : Bytes) × (parse_lines malloc rounds (option_lines t vs) line o
          ≡ some (pos 0, record o { cfg_opts = block b' }))
        × (c_str b' ≡ all_joined (c_str ptr) vs)
  unfolding option_lines all_joined parse_lines cfg_block
  options-step vs zero line ptr o ht hi hc room opts fits h = absurd (omega arith)
  options-step [] (suc rounds) line ptr o ht hi hc room opts fits h =
      (ptr, ap (λ (c : Pointer). some (pos 0, record o { cfg_opts = c })) hc, refl)
  options-step (v ∷ vs) (suc rounds) line ptr o ht hi hc room (opt, opts) fits h =
      let (line', b1, stepped, text_b1, size_b1) =
        option-step rounds v (option_lines t vs) line ptr o ht hi (rw hc refl) room opt (
          omega
            (arith, length-joined (c_str ptr) v, length-all_joined (joined (c_str ptr) v) vs)) in
      let (b', run, text_b') =
        options-step vs rounds line' b1 (record o { cfg_opts = block b1 }) ht hi refl
          (omega (arith, size_b1)) opts (rw text_b1 fits) (omega arith) in
      (b', stepped ∙ run, text_b' ∙ ap (λ a. all_joined a vs) text_b1)
