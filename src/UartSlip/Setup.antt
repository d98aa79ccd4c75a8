-- ===== src/UartSlip/Setup.antt =====
-- transport/uart_slip.c: the transport's options, and its UART from uart_init to uart_deinit, which
-- are parameters.
use morse_cli.Base.{
  ℕ, zero, suc, ◌<◌, length-take, ◌+◌, ◌-◌, ◌==◌, ◌≡◌, ◌∙◌, ap, sym, refl, arith, Bool, true, false,
  if◌then◌else◌, Option, none, some, Bytes, [], ◌∷◌, ◌++◌, take, drop, replicate, length, ℤ, pos,
  negsuc,
}
use morse_cli.Base.Strings.{c_str, strlen, write_at, c_str-append, c_str-IsText, IsText}
use morse_cli.Transport.{etranssucc}

abbrev pub max_device_name_len : ℕ
max_device_name_len = 256

abbrev pub default_baudrate : ℕ
default_baudrate = 115200

-- -ETRANSNOMEM
abbrev pub minus_etransnomem : ℤ
minus_etransnomem = negsuc 11

pub record UartConfig : Type 0 where
  pub dev_name : Bytes
  pub baudrate : ℕ

-- struct morsectrl_uart_slip_transport; `C` is what uart_init returns a pointer to.
pub record UartSlipTransport (C : Type 0) : Type 0 where
  pub debug : Bool
  pub uart_config : UartConfig
  pub uart_ctx : Option C

take-IsText : (n : ℕ) (t : Bytes) → IsText t → IsText (take n t)
take-IsText zero t h = tt
take-IsText (suc n) [] h = tt
take-IsText (suc n) (c ∷ cs) (h, hs) = (h, take-IsText n cs hs)

drop-zeros : (n m : ℕ) → n < m → drop {A = ℕ} n (replicate m 0) ≡ 0 ∷ replicate (m - n - 1) 0
drop-zeros n zero h = absurd (omega arith)
drop-zeros zero (suc m) h = ap (λ k. 0 ∷ replicate k 0) {y = suc m - 0 - 1} (omega arith)
drop-zeros (suc n) (suc m) h =
    drop-zeros n m (omega arith)
    ∙ ap (λ k. 0 ∷ replicate k 0) {x = m - n - 1} {y = suc m - suc n - 1} (omega arith)

c_str-padded :
    (t : Bytes)
    → IsText t
    → (room : ℕ) → length t < room
    → c_str (write_at 0 t (replicate room 0)) ≡ t
unfolding write_at
c_str-padded t h room fits =
    ap (λ z. c_str (t ++ z)) (drop-zeros (0 + length t) room (omega (arith, fits)))
    ∙ c_str-append t (replicate (room - (0 + length t) - 1) 0) h

module _ {C : Type 0} where
  -- As calloc leaves it, with the flag for the messages.
  abbrev pub fresh : Bool → UartSlipTransport C
  fresh debug = record {
    debug = debug;
    uart_config = record { dev_name = replicate max_device_name_len 0; baudrate = 0 };
    uart_ctx = none;
  }

  -- strncpy into the member, whose last octet stays.
  unfoldable pub with_name : Bytes → UartSlipTransport C → UartSlipTransport C
  with_name cfg_opts t = record t {
    uart_config = record {
      dev_name =
          write_at 0 (take (max_device_name_len - 1) (c_str cfg_opts)) t.uart_config.dev_name;
      baudrate = default_baudrate;
    };
  }

  unfoldable pub parse_opts : Option Bytes → UartSlipTransport C → ℤ × Option (UartSlipTransport C)
  parse_opts none t = (minus_etransnomem, some t)
  parse_opts (some cfg_opts) t =
      if strlen cfg_opts == 0
      then (minus_etransnomem, some t)
      else (pos 0, some (with_name cfg_opts t))

  -- `allocated` says whether calloc gives the memory; without it the pointer stays as it was.
  unfoldable pub uart_slip_parse : Bool → Bool → Option Bytes → ℤ × Option (UartSlipTransport C)
  uart_slip_parse allocated debug cfg_opts =
      if allocated then parse_opts cfg_opts (fresh debug) else (minus_etransnomem, none)

  -- A text that is not empty is taken as the name of the device, cut to what the member has room
  -- for.
  pub uart_slip_parse-name :
      (debug : Bool) (cfg_opts : Bytes)
      → (strlen cfg_opts == 0) ≡ false
      → (t : UartSlipTransport C) × (uart_slip_parse true debug (some cfg_opts) ≡ (pos 0, some t))
        × (c_str t.uart_config.dev_name ≡ take (max_device_name_len - 1) (c_str cfg_opts))
  unfolding uart_slip_parse parse_opts with_name
  uart_slip_parse-name debug cfg_opts h = (
    with_name cfg_opts (fresh debug),
    rw h refl,
    c_str-padded (take 255 (c_str cfg_opts))
        (take-IsText 255 (c_str cfg_opts) (c_str-IsText cfg_opts)) 256
        (omega (arith, length-take 255 (c_str cfg_opts))),
  )

  -- The code is positive where the UART cannot be opened.
  unfoldable pub ctx_set : Option C → UartSlipTransport C → ℤ × UartSlipTransport C
  ctx_set none t = (pos 2, t)
  ctx_set (some ctx) t = (etranssucc, record t { uart_ctx = some ctx })

  module _ {S : Type 0} (uart_init : UartConfig → S → Option C × S)
      (uart_deinit : Option C → S → ℤ × S) where
    unfoldable pub uart_slip_init : UartSlipTransport C → S → ℤ × UartSlipTransport C × S
    uart_slip_init t s =
        let (ctx, s1) = uart_init t.uart_config s in let (ret, t1) = ctx_set ctx t in (ret, t1, s1)

    unfoldable pub uart_slip_deinit : UartSlipTransport C → S → ℤ × UartSlipTransport C × S
    uart_slip_deinit t s =
        let (ret, s1) = uart_deinit t.uart_ctx s in (ret, record t { uart_ctx = none }, s1)

    -- What uart_slip_init has opened is what uart_slip_deinit closes, and the transport is then as
    -- it was before.
    pub uart_slip_deinit-init :
        (t : UartSlipTransport C) (ctx : C) (s s1 : S)
        → t.uart_ctx ≡ none
        → uart_init t.uart_config s ≡ (some ctx, s1)
        → uart_slip_deinit (uart_slip_init t s).1 (uart_slip_init t s).2
          ≡ ((uart_deinit (some ctx) s1).0, t, (uart_deinit (some ctx) s1).1)
    unfolding uart_slip_init uart_slip_deinit ctx_set
    uart_slip_deinit-init t ctx s s1 closed opened = rw opened (
        ap
          (λ c. (
            (uart_deinit (some ctx) s1).0,
            record t { uart_ctx = c },
            (uart_deinit (some ctx) s1).1,
          ))
          (sym closed))
