-- ===== src/Standby/Log.antt =====
-- standby.c: the commands that a run has sent, and the runs that send a request behind one command at
-- most. A state is the list of what was sent, with the id of each.
use morse_cli.Base.{
  ℕ, ◌==◌, Bool, true, false, if◌then◌else◌, Option, none, some, Bytes, List, [], ◌∷◌, ◌++◌, ℤ,
  negsuc, is_zero, ◌≡◌, refl, inl, inr, Bool-cases,
}
use morse_cli.Standby.Config.{ConfigContext, config_octets, filter_octets}
use morse_cli.Standby.Request.{
  set_status_payload, set_wake_filter, set_config_v2, mode_req_size, standby_mode_id, request,
  with_request, when_allocated, send_wake_filter_cmd, set_config_filter, send_config, send_payload,
}

abbrev pub Log : Type 0
Log = List (ℕ × Bytes)

-- Either nothing is sent, or the question of `store`, or one command that is not answered by zero,
-- or the request for the standby mode, last of all, behind a command that is answered by zero or
-- alone; its answer is then the result.
pub data Follows (answer : ℕ → Bytes → ℤ) (ret : ℤ) : Log → Type 0 where
  nothing : ret ≡ negsuc 0 → Follows answer ret []
  asked : (cmd : Bytes) → Follows answer ret ((0x13, cmd) ∷ [])
  failed :
      (id : ℕ) (cmd : Bytes)
      → is_zero (answer id cmd) ≡ false
      → ret ≡ negsuc 0
      → Follows answer ret ((id, cmd) ∷ [])
  alone : (cmd : Bytes) → ret ≡ answer 0x31 cmd → Follows answer ret ((0x31, cmd) ∷ [])
  both :
      (id : ℕ) (first cmd : Bytes)
      → is_zero (answer id first) ≡ true
      → ret ≡ answer 0x31 cmd
      → Follows answer ret ((id, first) ∷ (0x31, cmd) ∷ [])

-- A run that has ended, in such a way.
abbrev pub Ends : (ℕ → Bytes → ℤ) → Option (ℤ × Log) → Type 0
Ends answer x = (r : ℤ × Log) × (x ≡ some r) × Follows answer r.0 r.1

module _ (answer : ℕ → Bytes → ℤ) where
  -- morsectrl_send_command, when the command is noted.
  abbrev pub send : ℕ → Bytes → Log → ℤ × Log
  send id cmd log = (answer id cmd, log ++ (id, cmd) ∷ [])

  abbrev pub gives_up : Ends answer (some (negsuc 0, []))
  gives_up = ((negsuc 0, []), refl, nothing refl)

  pub sends : (cmd : Bytes) → Ends answer (some (send standby_mode_id cmd []))
  sends cmd = (send standby_mode_id cmd [], refl, alone cmd refl)

  -- A first command, and the request behind it if that was answered by zero.
  pub then_request :
      (id : ℕ) (first cmd : Bytes)
      → Ends answer (
          some (
            if is_zero (answer id first)
            then send standby_mode_id cmd ((id, first) ∷ [])
            else (negsuc 0, (id, first) ∷ [])))
  then_request id first cmd = elim (Bool-cases (is_zero (answer id first))) [
    | inl z ↦ rw z ((send standby_mode_id cmd ((id, first) ∷ []), refl, both id first cmd z refl))
    | inr z ↦ rw z (((negsuc 0, (id, first) ∷ []), refl, failed id first z refl))
  ]

module _ (answer : ℕ → Bytes → ℤ) (cmd_alloc : ℕ → Option Bytes) (resp_alloc : Bool) where
  -- The wake filter, if there is memory for it, and the request behind it.
  filter_then :
      (cmd_mem : Option Bytes) (response : Bool) (octets cmd : Bytes)
      → Ends answer (
          some (
            let (ret, log) =
              when_allocated cmd_mem response
                (λ mem log. (send answer) standby_mode_id (request set_wake_filter octets mem) log)
                [] in
            if is_zero ret then (send answer) standby_mode_id cmd log else (negsuc 0, log)))
  unfolding when_allocated
  filter_then none response octets cmd = (gives_up answer)
  filter_then (some mem) false octets cmd = (gives_up answer)
  filter_then (some mem) true octets cmd =
      then_request answer standby_mode_id (request set_wake_filter octets mem) cmd

  pub send_config-Ends :
      (mem : Bytes) (parsed : ℤ × ConfigContext)
      → Ends answer (some (send_config cmd_alloc resp_alloc (send answer) mem parsed []))
  unfolding send_config set_config_filter send_wake_filter_cmd with_request
  send_config-Ends mem parsed = elim (Bool-cases (is_zero parsed.0)) [
    | inr z ↦ rw z (gives_up answer)
    | inl z ↦ elim (Bool-cases (parsed.1.filter_cfg.len == 0)) [
      | inl none_set ↦
          rw (z, none_set)
            (sends answer (request set_config_v2 (config_octets parsed.1.set_cfg) mem))
      | inr some_set ↦
          rw (z, some_set)
            (filter_then (cmd_alloc mode_req_size) resp_alloc (filter_octets parsed.1.filter_cfg)
              (request set_config_v2 (config_octets parsed.1.set_cfg) mem))
    ]
  ]

  pub send_payload-Ends :
      (mem : Bytes) (stored : ℤ × Bytes)
      → Ends answer (some (send_payload cmd_alloc resp_alloc (send answer) mem stored []))
  unfolding send_payload
  send_payload-Ends mem (ret, stored) = elim (Bool-cases (is_zero ret)) [
    | inl z ↦ rw z (sends answer (request set_status_payload stored mem))
    | inr z ↦ rw z (gives_up answer)
  ]
