-- ===== src/CommandLine/Protocol.antt =====
-- morsectrl.c: what main calls of the transport and of a handler, in which order. A state is the
-- list of the calls.
use morse_cli.Base.{
  ℕ, ◌≤◌, ltb, Bool, true, false, not, ◌&&◌, ◌||◌, append-nil, append_assoc, ap, ◌∙◌, if◌then◌else◌,
  Option, none, some, Bytes, List, [], ◌∷◌, ◌++◌, map, ℤ, pos, negsuc, is_zero, ◌≡◌, refl, inl, inr,
  Bool-cases, arith,
}
use morse_cli.ConfigFile.{Purpose, Options}
use morse_cli.ConfigFile.Keeps.{config_file_parse_total}
use morse_cli.Transport.Table.{strings_eq}
use morse_cli.CommandLine.{
  morse_ok, CommandHandler, TransportCalls, MainArgs, exit_code, options_of, wants_transport,
  call_handler, set_up, check_driver, parse_command, init_command, run_handlers, run_transport,
  usage_call, usage_handler, usage_interface, usage_general, usage, not_parsed, read_config,
  run_main, main,
}

pub data Call : Type 0 where
  parsed : Call
  initialised : Call
  released : Call
  -- The init function, the handler, and the handler with no arguments, of the command with a name.
  table_built : Bytes → Call
  handled : Bytes → Call
  asked : Bytes → Call

-- A handler by what its functions return.
pub record Outcome : Type 0 where
  pub name : Bytes
  pub init : Option ℤ
  pub parse : ℤ
  pub ret : ℤ
  pub is_intf_cmd : Bool
  pub direct_chip_supported_cmd : Bool

abbrev pub noting : ℤ → Call → List Call → ℤ × List Call
noting ret call calls = (ret, calls ++ call ∷ [])

abbrev pub init_of : Bytes → Option ℤ → Option (List Call → ℤ × List Call)
init_of name none = none
init_of name (some ret) = some (noting ret (table_built name))

abbrev pub handler_of : Outcome → CommandHandler (List Call)
handler_of c = record {
  name = c.name;
  init = init_of c.name c.init;
  parse = λ calls. c.parse;
  handler = noting c.ret (handled c.name);
  handler_without_args = noting (pos 0) (asked c.name);
  is_intf_cmd = c.is_intf_cmd;
  direct_chip_supported_cmd = c.direct_chip_supported_cmd;
}

-- The codes of the transport's functions, and what it supports.
abbrev pub transport_of : ℤ → ℤ → ℤ → Bool → Bool → Bool → TransportCalls (List Call)
transport_of parse_ret init_ret deinit_ret driver reset supported = record {
  parse = λ o. noting parse_ret parsed;
  init = noting init_ret initialised;
  deinit = noting deinit_ret released;
  has_driver = λ calls. driver;
  has_reset = λ calls. reset;
  driver_commands = supported;
}

-- The call for the usage of a command.
abbrev pub usage_of : Bytes → Option ℤ → Call
usage_of name none = asked name
usage_of name (some ret) = table_built name

-- The commands whose usage is printed, of one kind.
unfoldable pub usages : Bool → Bool → List Outcome → List Call
usages supported intf [] = []
usages supported intf (c ∷ cs) =
    let rest = usages supported intf cs in
    if (if intf then c.is_intf_cmd else not c.is_intf_cmd)
      && (c.direct_chip_supported_cmd || supported)
    then usage_of c.name c.init ∷ rest
    else rest

-- The first of the commands that has a name.
unfoldable pub first_named : Bytes → List Outcome → Option Outcome
first_named name [] = none
first_named name (c ∷ cs) =
    let rest = first_named name cs in if strings_eq name c.name then some c else rest

-- The calls before the handler of a command, when its options are right.
pub data Ready (c : Outcome) : List Call → Type 0 where
  without_table : c.init ≡ none → Ready c (parsed ∷ [])
  with_table :
      (ret : ℤ)
      → c.init ≡ some ret
      → is_zero ret ≡ true
      → is_zero c.parse ≡ true
      → Ready c (parsed ∷ table_built c.name ∷ [])

-- A handler is called once at most, the first that has the command's name, and last but for the release of
-- the transport: that of an interface command stands between a set-up with code 0 and the release.
-- Only for --help are all handlers asked for their usage, the interface commands first.
pub data Ordered (a : MainArgs) (cs : List Outcome) (init_ret : ℤ) (driver supported : Bool)
    (ret : ℤ) : List Call → Type 0 where
  not_called : Ordered a cs init_ret driver supported ret []
  only_parsed : is_zero a.ret ≡ true → Ordered a cs init_ret driver supported ret (parsed ∷ [])
  helped :
      is_zero a.ret ≡ false
      → a.help ≡ true
      → ret ≡ a.ret
      → Ordered a cs init_ret driver supported ret
          ((parsed ∷ usages supported true cs) ++ usages supported false cs)
  only_table :
      (c : Outcome)
      → first_named a.command cs ≡ some c
      → Ordered a cs init_ret driver supported ret (parsed ∷ table_built c.name ∷ [])
  refused :
      (c : Outcome) (p : List Call)
      → first_named a.command cs ≡ some c
      → Ready c p
      → (c.direct_chip_supported_cmd ≡ false) × (driver ≡ false)
      → Ordered a cs init_ret driver supported ret p
  not_set_up :
      (c : Outcome) (p : List Call)
      → first_named a.command cs ≡ some c
      → Ready c p
      → is_zero init_ret ≡ false
      → Ordered a cs init_ret driver supported ret (p ++ initialised ∷ [])
  plain :
      (c : Outcome) (p : List Call)
      → first_named a.command cs ≡ some c
      → Ready c p
      → c.is_intf_cmd ≡ false
      → ret ≡ c.ret
      → Ordered a cs init_ret driver supported ret (p ++ handled c.name ∷ [])
  resetting :
      (c : Outcome) (p : List Call)
      → first_named a.command cs ≡ some c
      → Ready c p
      → c.is_intf_cmd ≡ false
      → is_zero init_ret ≡ true
      → ret ≡ c.ret
      → Ordered a cs init_ret driver supported ret ((p ++ initialised ∷ []) ++ handled c.name ∷ [])
  interface :
      (c : Outcome) (p : List Call)
      → first_named a.command cs ≡ some c
      → Ready c p
      → c.is_intf_cmd ≡ true
      → is_zero init_ret ≡ true
      → ret ≡ c.ret
      → Ordered a cs init_ret driver supported ret
          (((p ++ initialised ∷ []) ++ handled c.name ∷ []) ++ released ∷ [])

unwanted :
    (t : TransportCalls (List Call)) (calls : List Call) (c : Outcome)
    → wants_transport t (handler_of c) calls ≡ false
    → c.is_intf_cmd ≡ false
unfolding wants_transport
unwanted t calls c w = ground arith

exit_code-le : (code : ℤ) → (n : ℕ) × (exit_code code ≡ pos n) × (n ≤ 254)
unfolding exit_code
exit_code-le (pos n) = elim (Bool-cases (ltb 254 n)) [
  | inl large ↦ (2, rw large refl, omega arith)
  | inr small ↦ (n, rw small refl, ground arith)
]
exit_code-le (negsuc n) = (2, refl, omega arith)

module _ (parse_ret init_ret deinit_ret : ℤ) (driver reset supported : Bool) where
  abbrev t : TransportCalls (List Call)
  t = transport_of parse_ret init_ret deinit_ret driver reset supported

  usage_call-usage_of :
      (init : Option ℤ) (c : Outcome) (calls : List Call)
      → usage_call t (init_of c.name init) (handler_of c) calls ≡ calls ++ usage_of c.name init ∷ []
  unfolding usage_call
  usage_call-usage_of none c calls = refl
  usage_call-usage_of (some ret) c calls = refl

  usage_handler-usage_of :
      (c : Outcome) (calls : List Call)
      → usage_handler t (handler_of c) calls ≡ (
          if c.direct_chip_supported_cmd || supported
          then calls ++ usage_of c.name c.init ∷ []
          else calls)
  unfolding usage_handler
  usage_handler-usage_of c calls =
      ap (λ (s : List Call). if c.direct_chip_supported_cmd || supported then s else calls)
        (usage_call-usage_of c.init c calls)

  -- One round of a loop that notes a call where both tests hold.
  round :
      (kind shown : Bool) (f : List Call → List Call) (x : Call) (calls rest : List Call)
      → ((done : List Call) → f done ≡ done ++ rest)
      → f (if kind then (if shown then calls ++ x ∷ [] else calls) else calls)
        ≡ calls ++ (if kind && shown then x ∷ rest else rest)
  round true true f x calls rest h = h (calls ++ x ∷ []) ∙ append_assoc calls (x ∷ []) rest
  round true false f x calls rest h = h calls
  round false shown f x calls rest h = h calls

  not_if : {A : Type 0} (b : Bool) (x y : A) → (if b then x else y) ≡ (if not b then y else x)
  not_if true x y = refl
  not_if false x y = refl

  usage_interface-usages :
      (cs : List Outcome) (calls : List Call)
      → usage_interface t (map handler_of cs) calls ≡ calls ++ usages supported true cs
  unfolding usage_interface usages
  usage_interface-usages [] calls = rw append-nil refl
  usage_interface-usages (c ∷ cs) calls =
      let f = usage_interface t (map handler_of cs) in
      let shown = c.direct_chip_supported_cmd || supported in
      ap (λ (s : List Call). f (if c.is_intf_cmd then s else calls))
        (usage_handler-usage_of c calls)
      ∙ round c.is_intf_cmd shown f (usage_of c.name c.init) calls (usages supported true cs)
          (usage_interface-usages cs)

  usage_general-usages :
      (cs : List Outcome) (calls : List Call)
      → usage_general t (map handler_of cs) calls ≡ calls ++ usages supported false cs
  unfolding usage_general usages
  usage_general-usages [] calls = rw append-nil refl
  usage_general-usages (c ∷ cs) calls =
      let f = usage_general t (map handler_of cs) in
      let shown = c.direct_chip_supported_cmd || supported in
      ap (λ (s : List Call). f (if c.is_intf_cmd then calls else s))
        (usage_handler-usage_of c calls)
      ∙ ap f (
          not_if c.is_intf_cmd calls
            (if shown then calls ++ usage_of c.name c.init ∷ [] else calls))
      ∙ round (not c.is_intf_cmd) shown f (usage_of c.name c.init) calls (usages supported false cs)
          (usage_general-usages cs)

  module _ (a : MainArgs) (all : List Outcome) where
    abbrev Orders : ℤ × List Call → Type 0
    Orders r = Ordered a all init_ret driver supported r.0 r.1

    if-Ordered :
        (b : Bool) (x y : ℤ × List Call)
        → (b ≡ true → Orders x)
        → (b ≡ false → Orders y)
        → Orders (if b then x else y)
    if-Ordered true x y hx hy = hx refl
    if-Ordered false x y hx hy = hy refl

    module _ (c : Outcome) (named : first_named a.command all ≡ some c) where
      module _ (p : List Call) (ready : Ready c p) where
        unset-Ordered : c.is_intf_cmd ≡ false → Orders (call_handler t (handler_of c) p)
        unfolding call_handler
        unset-Ordered i = rw i (plain c p named ready i refl)

        set-Ordered :
            is_zero init_ret ≡ true → Orders (call_handler t (handler_of c) (p ++ initialised ∷ []))
        unfolding call_handler
        set-Ordered z = elim (Bool-cases c.is_intf_cmd) [
          | inl i ↦ rw i (interface c p named ready i z refl)
          | inr i ↦ rw i (resetting c p named ready i z refl)
        ]

        set_up-Ordered : Orders (set_up t (handler_of c) p)
        unfolding set_up
        set_up-Ordered =
            if-Ordered (wants_transport t (handler_of c) p) _ _
              (λ w. if-Ordered (is_zero init_ret) _ _ set-Ordered (not_set_up c p named ready))
              (λ w. unset-Ordered (unwanted t p c w))

        check_driver-Ordered : Orders (check_driver t (handler_of c) p)
        unfolding check_driver
        check_driver-Ordered =
            if-Ordered (not c.direct_chip_supported_cmd && not driver) _ _
              (λ b. refused c p named ready (ground arith, ground arith)) (λ b. set_up-Ordered)

      parse_command-Ordered :
          (ret : ℤ)
          → c.init ≡ some ret
          → is_zero ret ≡ true
          → Orders (parse_command t (handler_of c) (parsed ∷ table_built c.name ∷ []))
      unfolding parse_command
      parse_command-Ordered ret is zero_ret =
          if-Ordered (is_zero c.parse) _ _
            (λ z.
              check_driver-Ordered (parsed ∷ table_built c.name ∷ [])
                (with_table ret is zero_ret z))
            (λ z. only_table c named)

      init_command-Ordered :
          (init : Option ℤ)
          → c.init ≡ init
          → Orders (init_command t (handler_of c) (init_of c.name init) (parsed ∷ []))
      unfolding init_command
      init_command-Ordered none is = check_driver-Ordered (parsed ∷ []) (without_table is)
      init_command-Ordered (some ret) is =
          if-Ordered (is_zero ret) _ _ (λ z. parse_command-Ordered ret is z)
            (λ z. only_table c named)

    module _ (went : is_zero a.ret ≡ true) where
      run_handlers-Ordered :
          (cs : List Outcome)
          → first_named a.command all ≡ first_named a.command cs
          → Orders (run_handlers t a.command (map handler_of cs) (parsed ∷ []))
      unfolding run_handlers first_named
      run_handlers-Ordered [] same = only_parsed went
      run_handlers-Ordered (c ∷ cs) same =
          if-Ordered (strings_eq a.command c.name) _ _
            (λ named. init_command-Ordered c (same ∙ rw named refl) c.init refl)
            (λ other. run_handlers-Ordered cs (same ∙ rw other refl))

      run_transport-Ordered :
          (read : ℤ × Options) → Orders (run_transport t a (map handler_of all) read [])
      unfolding run_transport
      run_transport-Ordered (ret, o) =
          if-Ordered (is_zero ret) _ _
            (λ z.
              if-Ordered (is_zero parse_ret) _ _ (λ p. run_handlers-Ordered all refl)
                (λ p. only_parsed went))
            (λ z. not_called)

    not_parsed-Ordered : is_zero a.ret ≡ false → Orders (not_parsed t a (map handler_of all) [])
    unfolding not_parsed usage
    not_parsed-Ordered failed =
        if-Ordered a.help _ _
          (λ h.
            rw
              (
                usage_interface-usages all (parsed ∷ []),
                usage_general-usages all (parsed ∷ usages supported true all),
              )
              (helped failed h refl))
          (λ h. if-Ordered a.version _ _ (λ v. not_called) (λ v. not_called))

  module _ (malloc : Purpose → ℕ → Option Bytes) (read_file : Bytes → Option Bytes) where
    read_config_total :
        (a : MainArgs) (path : Option Bytes)
        → (r : ℤ × Options) × (read_config t malloc read_file a path ≡ some r)
    unfolding read_config
    read_config_total a none = ((morse_ok, options_of a), refl)
    read_config_total a (some path) = config_file_parse_total malloc (read_file path) (options_of a)

    -- Whatever the options, the file, the handlers and the codes that the transport, the handlers
    -- and malloc give: main returns, with a code from 0 to 254, and what it has called is nothing;
    -- or the parsing of the transport alone; or, for --help behind errors of the option table, this
    -- parsing and then, for the usage, once each handler that the build supports, the interface
    -- commands first: its init function or, without one, the handler with no arguments; or, for the
    -- first handler that has the command's name, the parsing, its init function if there is one, a
    -- set-up of the transport or none, and the handler, whose code is then returned but for the
    -- range. The handler is called only after an init function and options with code 0, that of an
    -- interface command between a set-up with code 0 and the release of the transport, any other
    -- last, without a set-up or behind one with code 0.
    pub main-Ordered :
        (a : MainArgs) (cs : List Outcome)
        → (code : ℤ) × (calls : List Call) × (n : ℕ) × (main t malloc read_file a
              (map handler_of cs)
              []
            ≡ some (exit_code code, calls))
          × Ordered a cs init_ret driver supported code calls
          × (exit_code code ≡ pos n)
          × (n ≤ 254)
    unfolding main run_main
    main-Ordered a cs = elim (Bool-cases (is_zero a.ret)) [
      | inl z ↦
          let (r, e) = read_config_total a a.file_opts in
          let out = run_transport t a (map handler_of cs) r [] in
          let (n, small, most) = exit_code-le out.0 in
          (
            out.0,
            out.1,
            n,
            rw z (rw (e, run_main) refl),
            run_transport-Ordered a cs z r,
            small,
            most,
          )
      | inr z ↦
          let out = not_parsed t a (map handler_of cs) [] in
          let (n, small, most) = exit_code-le out.0 in
          (out.0, out.1, n, rw z refl, not_parsed-Ordered a cs z, small, most)
    ]
