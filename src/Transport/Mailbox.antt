-- ===== src/Transport/Mailbox.antt =====
-- Commands, responses and the doorbell: crates/common/src/transport.rs. Log lines are left out.
pub mod Claims
pub mod Laws
use s3_mcp_relay.Base.{
  ℕ, zero, suc, ◌+◌, ◌-◌, ◌*◌, min, max, Bool, true, false, not, Option, none, some, List, [], ◌∷◌,
  ◌++◌, Text, text_eq, ltb_ℤ, ok, err, leb, if◌then◌else◌, sort,
}
use s3_mcp_relay.Failure.{Error, Outcome}
use s3_mcp_relay.Effect.{Eff, ◌>>=◌, ◌>>◌, lift, pure, fail, request, sample, ignore}
use s3_mcp_relay.Platform.{Host}
use s3_mcp_relay.Protocol.Types.{Command, Response, Doorbell}
use s3_mcp_relay.Protocol.Names.{validate_agent_id}
use s3_mcp_relay.Protocol.Checks.{validate_for}
use s3_mcp_relay.Crypto.{open_object}
use s3_mcp_relay.Transport.Keys.{cmd_prefix, cmd_key, resp_key, doorbell_key}
use s3_mcp_relay.Transport.Objects.{
  Transport, max_relay_object_bytes, delete_key, get_raw, put_encrypted, take_encrypted, list_keys,
}

-- `command.instance.as_deref().is_some_and(|target| target != instance)`
abbrev pub is_for_other : Text → Command → Bool
is_for_other mine c = elim c.instance_id [ none ↦ false | some target ↦ not (text_eq target mine) ]

abbrev pub created_before : Command → Command → Bool
created_before a b = ltb_ℤ a.created_at b.created_at

-- `RESPONSE_POLL_CEILING`, in nanoseconds.
abbrev pub response_poll_ceiling : ℕ
response_poll_ceiling = 2000000000

module _ {W : Type 0} (h : Host W) (t : Transport) where
  unfoldable pub ring_doorbell : Text → Eff W (Unit {0})
  ring_doorbell agent = do
    lift (validate_agent_id agent)
    at ← sample h.now_unix
    put_encrypted h h.codec.doorbells t (doorbell_key t.prefix agent)
        (record { agent_id = agent; at = at })

  -- A doorbell that fails does not fail the send.
  unfoldable pub send_command : Command → Eff W (Unit {0})
  send_command cmd = do
    lift (validate_agent_id cmd.agent_id)
    put_encrypted h h.codec.commands t (cmd_key t.prefix cmd.agent_id cmd.id) cmd
    ignore (ring_doorbell cmd.agent_id)

  abbrev e_tag : Option (Option Text) → Option Text
  e_tag none = none
  e_tag (some tag) = tag

  unfoldable pub doorbell_tag : Text → Eff W (Option Text)
  doorbell_tag agent = do
    lift (validate_agent_id agent)
    found ← request (Error.service 5) (h.head_object (doorbell_key t.prefix agent))
    pure (e_tag found)

  unfoldable pub delete_command : Command → Eff W (Unit {0})
  delete_command cmd = do
    lift (validate_agent_id cmd.agent_id)
    delete_key h (cmd_key t.prefix cmd.agent_id cmd.id)

  unfoldable pub send_response : Response → Eff W (Unit {0})
  send_response r = do
    lift (validate_agent_id r.agent_id)
    put_encrypted h h.codec.responses t (resp_key t.prefix r.agent_id r.id) r

  -- One round of the loop of `drain_commands`, for an object that was opened: the object is deleted
  -- before the command is taken.
  unfoldable pub claim : Text → Text → List Command → Command → Eff W (List Command)
  claim mine key commands command =
      if is_for_other mine command
      then pure commands
      else do delete_key h key; pure (commands ++ command ∷ [])

  -- An object that does not open is deleted, and its deletion may fail.
  unfoldable pub open_or_discard : Text → Text → List Command → List ℕ → Eff W (List Command)
  unfolding claim
  open_or_discard mine key commands bytes =
      elim (open_object h.codec h.codec.commands t.crypto key bytes) [
        | ok command ↦ claim mine key commands command
        | err e ↦ ignore (delete_key h key) >> pure commands
      ]

  unfoldable pub drain_found : Text → Text → List Command → Option (List ℕ) → Eff W (List Command)
  unfolding open_or_discard
  drain_found mine key commands none = pure commands
  drain_found mine key commands (some bytes) = open_or_discard mine key commands bytes

  unfoldable pub drain_key : Text → Text → List Command → Eff W (List Command)
  unfolding drain_found
  drain_key mine key commands = do
    bytes ← get_raw h key max_relay_object_bytes
    drain_found mine key commands bytes

  unfoldable pub drain_keys : Text → List Text → List Command → Eff W (List Command)
  unfolding drain_key
  drain_keys mine [] commands = pure commands
  drain_keys mine (key ∷ keys) commands = do
    commands' ← drain_key mine key commands
    drain_keys mine keys commands'

  unfoldable pub drain_commands : Text → Text → Eff W (List Command)
  unfolding drain_keys
  drain_commands agent mine = do
    lift (validate_agent_id agent)
    keys ← list_keys h (cmd_prefix t.prefix agent)
    commands ← drain_keys mine keys []
    pure (sort created_before commands)

  -- The answer of one poll: the checked response, or none yet.
  unfoldable pub check_response : Command → Option Response → Eff W (Option Response)
  check_response cmd none = pure none
  check_response cmd (some response) = do
    now ← sample h.now_unix
    lift (validate_for now response cmd)
    pure (some response)

  -- The loop of `await_response`; times are in nanoseconds.
  unfoldable pub poll_response : ℕ → Command → ℕ → ℕ → ℕ → Eff W (Option Response)
  unfolding check_response
  poll_response zero cmd deadline ceiling interval = fail Error.out_of_fuel
  poll_response (suc fuel) cmd deadline ceiling interval = do
    found ← take_encrypted h h.codec.responses t (resp_key t.prefix cmd.agent_id cmd.id)
    checked ← check_response cmd found
    elim checked [
      | some response ↦ pure (some response)
      | none ↦ do
        now ← sample h.now_instant
        if leb deadline now then pure none else do
          sample (λ w. (tt, h.sleep (min interval (deadline - now)) w))
          poll_response fuel cmd deadline ceiling (min (interval * 2) ceiling)
    ]

  unfoldable pub await_response : ℕ → Command → ℕ → ℕ → Eff W (Option Response)
  unfolding poll_response
  await_response fuel cmd timeout initial_interval = do
    start ← sample h.now_instant
    poll_response fuel cmd (start + timeout) (max initial_interval response_poll_ceiling)
        initial_interval
