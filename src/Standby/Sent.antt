-- ===== src/Standby/Sent.antt =====
-- standby.c: which commands are sent, in which order, and the code that comes back.
use morse_cli.Base.{
  ℕ, Bool, true, false, if◌then◌else◌, Option, none, some, Bytes, List, [], ◌∷◌, ◌++◌, take, drop,
  ℤ, pos, negsuc, is_zero, is_negative, ◌≡◌, refl, ◌⊎◌, inl, inr, Bool-cases,
}
use morse_cli.Base.Strings.{write_at}
use morse_cli.Transport.Table.{strings_eq}
use morse_cli.Utilities.Text.{codes}
use morse_cli.Standby.Config.{ConfigContext, config_default, no_filter, parse_standby_config_keyval}
use morse_cli.Standby.Session.{
  ChannelFields, session_text, SessionContext, session_path, standby_session_load, load_result,
  parse_standby_session_keyval,
}
use morse_cli.Standby.Request.{
  StandbyMode, exit, enter, set_config_v1_deprecated, set_status_payload, set_wake_filter,
  set_config_v2, standby_get_cmd, mode_number, mode_req_size, request, process_set_status_payload,
  with_request, when_allocated,
}
use morse_cli.Standby.Top.{
  channel_of, channel_octets, set_channel_req_size, no_args, store_options, store_target,
  session_store, store_answer, store_with, store_session_cmd, send_enter, enter_loaded,
  enter_session, enter_allocated, run_enter, config_parsed, run_config, run_payload, run_mode,
  run_allocated, run_named, standby, ifname_text,
}
use morse_cli.Standby.Keeps.{config_parse_total}
use morse_cli.Standby.Log.{
  Log, Follows, nothing, asked, Ends, send, gives_up, sends, then_request, send_config-Ends,
  send_payload-Ends,
}

module _ (answer : ℕ → Bytes → ℤ) (cmd_alloc : ℕ → Option Bytes) (resp_alloc : Bool) where
  module _ (asked_channel : ℕ → Bytes → ℤ × ChannelFields) (saved : Bytes → Bytes → ℤ)
      (read_file : Bytes → Option Bytes) (strtoul : Bytes → ℕ × ℕ) (inet_pton : Bytes → Option ℕ)
      (sscanf_octet : Bytes → Option ℕ) (sscanf_mac : Bytes → Bytes → ℕ × Bytes)
      (ifname : Option Bytes) (getopt : List Bytes → List (ℕ × Bytes)) where
    -- The question for the full channel is noted too; files are not.
    abbrev pub ask : ℕ → Bytes → Log → ℤ × (ChannelFields × Log)
    ask id cmd log =
        let (ret, channel) = asked_channel id cmd in (ret, (channel, log ++ (id, cmd) ∷ []))

    abbrev pub save : Bytes → Bytes → Log → ℤ × Log
    save path text log = (saved path text, log)

    abbrev run : List Bytes → Log → Option (ℤ × Log)
    run =
        standby cmd_alloc resp_alloc (send answer) ask read_file save strtoul inet_pton sscanf_octet
          sscanf_mac ifname getopt

    store_with-Ends :
        (name : Bytes) (target : Option (Bytes × Bytes)) (mem : Option Bytes) (response : Bool)
        → Ends answer (
            some (
              when_allocated mem response
                (store_with cmd_alloc resp_alloc
                  (send answer)
                  ask
                  read_file
                  save
                  strtoul
                  inet_pton
                  sscanf_octet
                  sscanf_mac
                  ifname
                  getopt
                  name
                  target)
                []))
    unfolding when_allocated store_with store_answer session_store
    store_with-Ends name target none response = (gives_up answer)
    store_with-Ends name target (some mem) false = (gives_up answer)
    store_with-Ends name none (some mem) true = (gives_up answer)
    store_with-Ends name (some (bssid, dir)) (some mem) true =
        elim (Bool-cases (is_negative (asked_channel 0x13 mem).0)) [
          | inl n ↦ rw n ((negsuc 0, (0x13, mem) ∷ []), refl, asked mem)
          | inr n ↦ rw n (
            (
              saved (session_path (take 255 dir) name)
                  (session_text bssid (asked_channel 0x13 mem).1),
              (0x13, mem) ∷ [],
            ),
            refl,
            asked mem,
          )
        ]

    store-Ends :
        (of_name : Option Bytes) (argv : List Bytes)
        → Ends answer (
            some (
              store_session_cmd cmd_alloc resp_alloc
                (send answer)
                ask
                read_file
                save
                strtoul
                inet_pton
                sscanf_octet
                sscanf_mac
                ifname
                getopt
                of_name
                argv
                []))
    unfolding store_session_cmd with_request
    store-Ends none argv = (gives_up answer)
    store-Ends (some name) argv =
        store_with-Ends name (store_target (store_options sscanf_mac (getopt argv) no_args))
          (cmd_alloc set_channel_req_size) resp_alloc

    enter_loaded-Ends :
        (mem channel_mem : Bytes) (r : ℤ × SessionContext)
        → Ends answer (
            enter_loaded cmd_alloc resp_alloc
              (send answer)
              ask
              read_file
              save
              strtoul
              inet_pton
              sscanf_octet
              sscanf_mac
              ifname
              getopt
              mem
              channel_mem
              (some r)
              [])
    unfolding enter_loaded send_enter
    enter_loaded-Ends mem channel_mem (ret, context) = elim (Bool-cases (is_negative ret)) [
      | inl n ↦ rw n (gives_up answer)
      | inr n ↦ rw n (
          then_request answer 0x1 (write_at 0 (channel_octets context.req) channel_mem)
            (request enter context.bssid mem))
    ]

    enter_session-Ends :
        (mem channel_mem name dir : Bytes)
        → Ends answer (
            enter_session cmd_alloc resp_alloc
              (send answer)
              ask
              read_file
              save
              strtoul
              inet_pton
              sscanf_octet
              sscanf_mac
              ifname
              getopt
              mem
              channel_mem
              name
              dir
              [])
    unfolding enter_session standby_session_load load_result
    enter_session-Ends mem channel_mem name dir =
        let context : SessionContext = record {
          bssid = take 6 (drop 4 mem);
          req = channel_of channel_mem;
        } in
        let (r, e) =
          config_parse_total (parse_standby_session_keyval sscanf_mac strtoul)
            (read_file (session_path dir name)) context in
        rw (e, load_result)
          (enter_loaded-Ends mem channel_mem (if is_zero r.0 then pos 0 else negsuc 0, r.1))

    enter_allocated-Ends :
        (mem name dir : Bytes) (channel_mem : Option Bytes) (response : Bool)
        → Ends answer (
            enter_allocated cmd_alloc resp_alloc
              (send answer)
              ask
              read_file
              save
              strtoul
              inet_pton
              sscanf_octet
              sscanf_mac
              ifname
              getopt
              mem
              name
              dir
              channel_mem
              response
              [])
    unfolding enter_allocated
    enter_allocated-Ends mem name dir none response = (gives_up answer)
    enter_allocated-Ends mem name dir (some channel_mem) false = (gives_up answer)
    enter_allocated-Ends mem name dir (some channel_mem) true =
        enter_session-Ends mem channel_mem name dir

    run_config-Ends :
        (mem : Bytes) (args : List Bytes)
        → Ends answer (
            run_config cmd_alloc resp_alloc
              (send answer)
              ask
              read_file
              save
              strtoul
              inet_pton
              sscanf_octet
              sscanf_mac
              ifname
              getopt
              mem
              args
              [])
    unfolding run_config config_parsed
    run_config-Ends mem [] = (gives_up answer)
    run_config-Ends mem (path ∷ []) =
        let context : ConfigContext = record { set_cfg = config_default; filter_cfg = no_filter } in
        let (r, e) =
          config_parse_total (parse_standby_config_keyval strtoul inet_pton) (read_file path)
            context in
        rw (e, config_parsed) (send_config-Ends answer cmd_alloc resp_alloc mem r)
    run_config-Ends mem (path ∷ more ∷ args) = (gives_up answer)

    run_mode-Ends :
        (mode : StandbyMode) (mem : Bytes) (args : List Bytes)
        → Ends answer (
            run_mode cmd_alloc resp_alloc
              (send answer)
              ask
              read_file
              save
              strtoul
              inet_pton
              sscanf_octet
              sscanf_mac
              ifname
              getopt
              mode
              mem
              args
              [])
    unfolding run_mode run_enter run_payload
    run_mode-Ends set_config_v2 mem args = run_config-Ends mem args
    run_mode-Ends set_status_payload mem [] = (gives_up answer)
    run_mode-Ends set_status_payload mem (str ∷ []) =
        send_payload-Ends answer cmd_alloc resp_alloc mem
          (process_set_status_payload sscanf_octet str)
    run_mode-Ends set_status_payload mem (str ∷ more ∷ args) = (gives_up answer)
    run_mode-Ends enter mem [] = sends answer (request enter [] mem)
    run_mode-Ends enter mem (dir ∷ []) =
        enter_allocated-Ends mem
          (ifname_text cmd_alloc resp_alloc (send answer) ask read_file save strtoul inet_pton
            sscanf_octet sscanf_mac ifname getopt)
          dir (cmd_alloc set_channel_req_size) resp_alloc
    run_mode-Ends enter mem (dir ∷ more ∷ args) = (gives_up answer)
    run_mode-Ends exit mem args = sends answer (request exit [] mem)
    run_mode-Ends set_config_v1_deprecated mem args =
        sends answer (request set_config_v1_deprecated [] mem)
    run_mode-Ends set_wake_filter mem args = sends answer (request set_wake_filter [] mem)

    -- What standby makes of its arguments: the usage without any, the code of the subcommand when
    -- there is no memory for its request, or what Follows says.
    pub data Outcome : List Bytes → ℤ × Log → Type 0 where
      no_arguments : Outcome [] (pos 0, [])
      unallocated :
          (name command : Bytes) (args : List Bytes) (mode : StandbyMode)
          → strings_eq (codes "store") command ≡ false
          → standby_get_cmd command ≡ some mode
          → (cmd_alloc mode_req_size ≡ none) ⊎ (resp_alloc ≡ false)
          → Outcome (name ∷ command ∷ args) (pos (mode_number mode), [])
      follows : (argv : List Bytes) (r : ℤ × Log) → Follows answer r.0 r.1 → Outcome argv r

    abbrev Comes : List Bytes → Option (ℤ × Log) → Type 0
    Comes argv x = (r : ℤ × Log) × (x ≡ some r) × Outcome argv r

    ends-Comes : (argv : List Bytes) (x : Option (ℤ × Log)) → Ends answer x → Comes argv x
    ends-Comes argv x (r, e, f) = (r, e, follows argv r f)

    run_allocated-Comes :
        (name command : Bytes) (args : List Bytes) (mode : StandbyMode) (mem : Option Bytes)
        (response : Bool)
        → strings_eq (codes "store") command ≡ false
        → standby_get_cmd command ≡ some mode
        → cmd_alloc mode_req_size ≡ mem
        → resp_alloc ≡ response
        → Comes (name ∷ command ∷ args) (
            run_allocated cmd_alloc resp_alloc
              (send answer)
              ask
              read_file
              save
              strtoul
              inet_pton
              sscanf_octet
              sscanf_mac
              ifname
              getopt
              mode
              mem
              response
              args
              [])
    unfolding run_allocated
    run_allocated-Comes name command args mode none response st e m r =
        ((pos (mode_number mode), []), refl, unallocated name command args mode st e (inl m))
    run_allocated-Comes name command args mode (some mem) false st e m r =
        ((pos (mode_number mode), []), refl, unallocated name command args mode st e (inr r))
    run_allocated-Comes name command args mode (some mem) true st e m r =
        ends-Comes (name ∷ command ∷ args) _ (run_mode-Ends mode mem args)

    run_named-Comes :
        (name command : Bytes) (args : List Bytes) (mode : Option StandbyMode)
        → strings_eq (codes "store") command ≡ false
        → standby_get_cmd command ≡ mode
        → Comes (name ∷ command ∷ args) (
            run_named cmd_alloc resp_alloc
              (send answer)
              ask
              read_file
              save
              strtoul
              inet_pton
              sscanf_octet
              sscanf_mac
              ifname
              getopt
              mode
              args
              [])
    unfolding run_named
    run_named-Comes name command args none st e =
        ends-Comes (name ∷ command ∷ args) _ (gives_up answer)
    run_named-Comes name command args (some mode) st e =
        run_allocated-Comes name command args mode (cmd_alloc mode_req_size) resp_alloc st e refl
          refl

    -- Whatever the arguments, the files, the answers of the chip and the outcome of the allocations,
    -- standby returns, and one of these holds: there are no arguments, nothing is sent, and the
    -- result is 0; there is a subcommand but no memory for its request or the response, nothing is
    -- sent, and the result is the number of the subcommand; or what it has sent is nothing, and the
    -- result is -1; the question of `store` alone; one command that is not answered by 0, and the
    -- result is -1; a request for the standby mode alone, or behind one other command that was
    -- answered by 0, and the result is the answer to that request.
    pub standby-Follows :
        (argv : List Bytes)
        → (ret : ℤ) × (log : Log) × (standby cmd_alloc resp_alloc
              (send answer)
              ask
              read_file
              save
              strtoul
              inet_pton
              sscanf_octet
              sscanf_mac
              ifname
              getopt
              argv
              []
            ≡ some (ret, log))
          × Outcome argv (ret, log)
    unfolding standby
    standby-Follows [] = (pos 0, [], refl, no_arguments)
    standby-Follows (name ∷ []) =
        (negsuc 0, [], refl, follows (name ∷ []) (negsuc 0, []) (nothing refl))
    standby-Follows (name ∷ command ∷ args) =
        elim (Bool-cases (strings_eq (codes "store") command)) [
          | inl st ↦
              let (r, e, f) = store-Ends ifname (command ∷ args) in
              (r.0, r.1, rw st e, follows (name ∷ command ∷ args) r f)
          | inr other ↦
              let (r, e, f) =
                run_named-Comes name command args (standby_get_cmd command) other refl in
              (r.0, r.1, rw other e, f)
        ]
