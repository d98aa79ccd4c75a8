-- ===== src/ConfigFile/Lines.antt =====
-- config_file.c: what one line of a file does, from the text that the line's buffer holds.
use morse_cli.Base.{
  ℕ, ◌+◌, ◌-◌, ◌==◌, ◌<◌, Bool, true, false, not, ◌&&◌, Bytes, [], ◌∷◌, ◌++◌, length, get_or, take,
  drop, Option, some, pos, ◌≡◌, ◌≢◌, refl, ap, ◌∙◌, arith, length-append,
}
use morse_cli.Base.Strings.{
  c_str, strlen, is_space, IsText, c_str-IsText, write_at, snprintf_s, take_all, starts_with,
  c_str-write_at, starts_with-c_str, starts_with-append, take-IsText,
}
use morse_cli.ConfigFile.{
  Purpose, transport_text, interface_text, Pointer, null, block, Options, is_null, is_comment,
  remove_leading_ws, remove_trailing_ws, skip_from, max_line_length, max_cfg_length, passthrough,
  passthrough_from, copy_text, trans_str, iface_str, take_trans, take_iface, take_cfg, parse_option,
  parse_text, parse_line,
}
use morse_cli.ConfigFile.Space.{
  stripped, stripped-equals, c_str-remove_trailing_ws, c_str-remove_leading_ws,
}
use morse_cli.Base.Trim.{
  trimmed, trimmed-space, strchr, fgets, IsLine, IsLine-IsText, take_line-end, IsText-snoc,
}

-- A line may begin so: neither with space, nor with an equals sign, nor with a comment's sign.
abbrev pub begins : Bytes → Bool
begins [] = false
begins (c ∷ cs) = not (is_space c) && (not (c == b'=') && not (c == b'#'))

pub record IsWord (w : Bytes) : Type 0 where
  pub line : IsLine w
  pub first : begins w ≡ true
  pub last : trimmed w ≡ w

-- What fgets reads of a line that is not too long.
pub fgets_line :
    (line text rest : Bytes)
    → IsLine text
    → length text < max_line_length - 1
    → (c_str (fgets max_line_length line (text ++ (10 ∷ rest))).0 ≡ text ++ (10 ∷ []))
      × ((fgets max_line_length line (text ++ (10 ∷ rest))).1 ≡ rest)
unfolding fgets
fgets_line line text rest t h = (
  ap (λ r. c_str (write_at 0 (r.0 ++ (0 ∷ [])) line)) (take_line-end 254 text rest t h)
      ∙ c_str-write_at line (text ++ (10 ∷ [])) 0 (omega arith) (IsText-snoc text t),
  ap (λ r. r.1) (take_line-end 254 text rest t h),
)

-- A text that begins well is not shortened at its front.
remove_leading_ws-begins : (b : Bytes) → begins (c_str b) ≡ true → remove_leading_ws b ≡ 0
unfolding remove_leading_ws skip_from c_str
remove_leading_ws-begins [] h = cc
remove_leading_ws-begins (c ∷ b) h = ground arith

-- The value behind the equals sign, up to the end of the line.
stripped_value : (v : Bytes) → begins v ≡ true → stripped (b'=' ∷ (v ++ (10 ∷ []))) ≡ v ++ (10 ∷ [])
stripped_value [] h = cc
stripped_value (c ∷ v) h = stripped-equals c (v ++ (10 ∷ [])) (ground arith) (ground arith)

strchr_first : (c : ℕ) (b cs : Bytes) → c ≢ 0 → c_str b ≡ c ∷ cs → strchr c b ≡ some 0
unfolding strchr c_str
strchr_first c [] cs h e = cc
strchr_first c (d ∷ b) cs h e = ground arith

-- A pointer to a block that holds a text.
abbrev pub Says : Pointer → Bytes → Type 0
Says p t = (b : Bytes) × (p ≡ block b) × (c_str b ≡ t)

pub trimmed_line : (w : Bytes) → trimmed w ≡ w → trimmed (w ++ (10 ∷ [])) ≡ w
trimmed_line w h = trimmed-space w 10 (unfold is_space in refl) ∙ h

copy_text-Says :
    (value b w : Bytes)
    → c_str value ≡ w ++ (10 ∷ [])
    → trimmed w ≡ w
    → length w < max_line_length - 1
    → ((copy_text value (some b)).0 ≡ pos 0) × Says (copy_text value (some b)).1 w
unfolding copy_text snprintf_s
copy_text-Says value b w e h short = (
  refl,
  (
    remove_trailing_ws (snprintf_s 0 max_cfg_length value b),
    refl,
    c_str-remove_trailing_ws (snprintf_s 0 max_cfg_length value b)
        ∙ ap trimmed (
            c_str-write_at b (take 254 (c_str value)) 0 (omega arith)
              (take-IsText 254 (c_str value) (c_str-IsText value))
            ∙ take_all 254 (c_str value) (omega (arith, ap length e, length-append w (10 ∷ [])))
            ∙ e)
        ∙ trimmed_line w h,
  ),
)

not_comment : (b : Bytes) → begins (c_str b) ≡ true → is_comment (get_or b 0 0) ≡ false
unfolding c_str is_space
not_comment [] h = cc
not_comment (c ∷ b) h = ground arith

starts_with_text : (s b rest : Bytes) → IsText s → c_str b ≡ s ++ rest → starts_with s b ≡ true
starts_with_text s b rest t e =
    starts_with-c_str s b t ∙ ap (starts_with s) e ∙ starts_with-append s rest

other_keyword :
    (line rest : Bytes) → c_str line ≡ iface_str ++ rest → starts_with trans_str line ≡ false
unfolding starts_with
other_keyword line rest e =
    starts_with-c_str trans_str line (omega arith) ∙ ap (starts_with trans_str) e

begins-append : (t rest : Bytes) → begins t ≡ true → begins (t ++ rest) ≡ true
begins-append [] rest h = cc
begins-append (c ∷ t) rest h = h

module _ (malloc : Purpose → ℕ → Option Bytes) where
  -- A line that begins well is neither a comment nor shortened.
  parse_line-begins :
      (line : Bytes) (o : Options)
      → begins (c_str line) ≡ true
      → parse_line malloc line o ≡ parse_text malloc 0 line o
  unfolding parse_line
  parse_line-begins line o h = rw (remove_leading_ws-begins line h, not_comment line h) refl

  pub parse_line_trans :
      (line w : Bytes) (o : Options)
      → c_str line ≡ trans_str ++ (b'=' ∷ (w ++ (10 ∷ [])))
      → o.trans_opts ≡ null
      → parse_line malloc line o ≡ take_trans malloc (length trans_str) line o
  unfolding parse_text is_space
  parse_line_trans line w o e h =
      parse_line-begins line o (ap begins e)
      ∙ (rw (starts_with_text trans_str line (b'=' ∷ (w ++ (10 ∷ []))) (omega arith) e, h) refl)

  pub parse_line_iface :
      (line w : Bytes) (o : Options)
      → c_str line ≡ iface_str ++ (b'=' ∷ (w ++ (10 ∷ [])))
      → o.iface_opts ≡ null
      → parse_line malloc line o ≡ take_iface malloc (length iface_str) line o
  unfolding parse_text is_space
  parse_line_iface line w o e h =
      parse_line-begins line o (ap begins e)
      ∙ (ground (
        arith,
        starts_with_text iface_str line (b'=' ∷ (w ++ (10 ∷ []))) (omega arith) e,
        other_keyword line (b'=' ∷ (w ++ (10 ∷ []))) e,
      ))

  pub parse_line_option :
      (line b t v : Bytes) (o : Options)
      → c_str line ≡ t ++ (b'_' ∷ (v ++ (10 ∷ [])))
      → begins t ≡ true
      → IsLine t
      → o.trans_opts ≡ block b
      → c_str b ≡ t
      → is_null o.iface_opts ≡ false
      → parse_line malloc line o ≡ take_cfg malloc (length t + 1) line o
  unfolding parse_text parse_option
  parse_line_option line b t v o e f l h hb hi =
      parse_line-begins line o (ap begins e ∙ begins-append t _ f)
      ∙ (let found : starts_with (c_str b) line ≡ true =
            rw hb (starts_with_text t line (b'_' ∷ (v ++ (10 ∷ []))) (IsLine-IsText t l) e) in
          ground (arith, ap length hb))

module _ (malloc : ℕ → Option Bytes)
    (malloc_gives : (n : ℕ) → (b : Bytes) × (malloc n ≡ some b) × (length b ≡ n)) where
  passthrough-Says :
      (src w : Bytes) (dst : Pointer)
      → c_str src ≡ b'=' ∷ (w ++ (10 ∷ []))
      → IsWord w
      → length w < max_line_length - 2
      → ((passthrough malloc src dst).0 ≡ pos 0) × Says (passthrough malloc src dst).1 w
  unfolding passthrough passthrough_from
  passthrough-Says src w dst e v short =
      let value = drop (remove_leading_ws src) src in
      let held : c_str value ≡ w ++ (10 ∷ []) =
        (c_str-remove_leading_ws src (omega (arith, ap length e, length-append w (10 ∷ [])))
          ∙ ap stripped e
          ∙ stripped_value w v.first) in
      let (b, given, size) = malloc_gives (strlen value + 1) in
      let found = strchr_first b'=' src (w ++ (10 ∷ [])) (omega arith) e in
      rw (found, passthrough_from)
        (rw given (copy_text-Says value b w held v.last (omega (arith, short))))

module _ (malloc : Purpose → ℕ → Option Bytes)
    (malloc_gives : (w : Purpose) (n : ℕ)
      → (b : Bytes) × (malloc w n ≡ some b) × (length b ≡ n)) where
  -- A line `transport=w`, when no transport is known.
  pub take_trans-Says :
      (at : ℕ) (line w : Bytes) (o : Options)
      → c_str (drop at line) ≡ b'=' ∷ (w ++ (10 ∷ []))
      → IsWord w
      → length w < max_line_length - 2
      → ((take_trans malloc at line o).0 ≡ pos 0)
        × Says (take_trans malloc at line o).2.trans_opts w
        × ((take_trans malloc at line o).2.iface_opts ≡ o.iface_opts)
        × ((take_trans malloc at line o).2.cfg_opts ≡ o.cfg_opts)
  unfolding take_trans
  take_trans-Says at line w o e v short =
      let r =
        passthrough-Says (malloc transport_text) (malloc_gives transport_text) (drop at line) w
          o.trans_opts e v short in
      (r.0, r.1, refl, refl)

  pub take_iface-Says :
      (at : ℕ) (line w : Bytes) (o : Options)
      → c_str (drop at line) ≡ b'=' ∷ (w ++ (10 ∷ []))
      → IsWord w
      → length w < max_line_length - 2
      → ((take_iface malloc at line o).0 ≡ pos 0)
        × ((take_iface malloc at line o).2.trans_opts ≡ o.trans_opts)
        × Says (take_iface malloc at line o).2.iface_opts w
        × ((take_iface malloc at line o).2.cfg_opts ≡ o.cfg_opts)
  unfolding take_iface
  take_iface-Says at line w o e v short =
      let r =
        passthrough-Says (malloc interface_text) (malloc_gives interface_text) (drop at line) w
          o.iface_opts e v short in
      (r.0, refl, r.1, refl)
