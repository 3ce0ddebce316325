-- ===== src/Protocol/Checks.antt =====
-- Building and checking commands, responses and heartbeats: crates/common/src/protocol.rs. What the
-- code reads from the clock (`now_unix`) and draws at random (`Uuid::new_v4`) is an argument, and
-- `is_uuid` is `Uuid::parse_str(_).is_ok()`.
pub mod Laws
use s3_mcp_relay.Base.{
  ℕ, ◌+◌, min, Bool, true, false, not, ◌&&◌, ◌||◌, Option, none, some, Text, text_eq, ℤ, pos, ltb_ℤ,
  saturating_add, saturating_sub, ok, err, ltb, ◌==◌, if◌then◌else◌,
}
use s3_mcp_relay.Failure.{Error, Outcome, ◌>>◌}
use s3_mcp_relay.Protocol.Types.{
  Command, CommandKind, Response, ResponsePayload, Heartbeat, empty, push_blob, pull_blob,
}
use s3_mcp_relay.Protocol.Names.{validate_agent_id, validate_transfer_id}

-- `PROTOCOL_VERSION` of crates/common/src/lib.rs
abbrev pub protocol_version : ℕ
protocol_version = 2

-- `Command::new`; `created_at` is the clock and `id` the fresh UUID.
unfoldable pub new_command : Text → ℤ → Text → CommandKind → ℕ → ℕ → Command
unfolding saturating_add
new_command id created_at agent_id kind timeout_secs queue_ttl_secs = record {
  id = id;
  agent_id = agent_id;
  protocol = protocol_version;
  created_at = created_at;
  expires_at = saturating_add created_at (pos (min queue_ttl_secs 9223372036854775807));
  timeout_secs = timeout_secs;
  instance_id = none;
  kind = kind;
}

-- `Command::for_instance`
unfoldable pub for_instance : Command → Text → Command
for_instance c target = record c { instance_id = some target }

-- The `if let CommandKind::PushBlob { transfer, .. } | CommandKind::PullBlob { transfer, .. }`.
unfoldable pub validate_transfer_of : (Text → Bool) → CommandKind → Outcome (Unit {0})
unfolding validate_transfer_id
validate_transfer_of is_uuid (push_blob transfer _ _ _ _) = validate_transfer_id is_uuid transfer
validate_transfer_of is_uuid (pull_blob transfer _ _) = validate_transfer_id is_uuid transfer
validate_transfer_of is_uuid _ = ok tt

unfoldable pub validate_routing_for : (Text → Bool) → Command → Text → Outcome (Unit {0})
validate_routing_for is_uuid c expected_agent = do
  validate_agent_id c.agent_id
  if not (text_eq c.agent_id expected_agent)
      then err Error.different_agent
      else if not (is_uuid c.id)
      then err Error.command_id_not_uuid
      else validate_transfer_of is_uuid c.kind

-- The checks of `validate_for_agent` that follow those on the routing; `now` is the clock.
unfoldable pub validate_freshness : ℤ → Command → ℕ → Outcome (Unit {0})
validate_freshness now c max_timeout_secs =
    if not (c.protocol == protocol_version)
    then err Error.protocol_mismatch
    else if ltb_ℤ (saturating_add now (pos 60)) c.created_at
    then err Error.future_timestamp
    else if ltb_ℤ c.expires_at now
    then err Error.expired
    else if ltb_ℤ c.expires_at c.created_at
    then err Error.expiry_precedes_creation
    else if c.timeout_secs == 0 || ltb max_timeout_secs c.timeout_secs
    then err Error.timeout_outside_policy
    else ok tt

unfoldable pub validate_for_agent : (Text → Bool) → ℤ → Command → Text → ℕ → Outcome (Unit {0})
validate_for_agent is_uuid now c expected_agent max_timeout_secs = do
  validate_routing_for is_uuid c expected_agent
  validate_freshness now c max_timeout_secs

-- `Response::ok` and `Response::err`; `now` is the clock.
unfoldable pub response_ok : ℤ → Command → ResponsePayload → Response
response_ok now c payload = record {
  id = c.id;
  agent_id = c.agent_id;
  protocol = protocol_version;
  finished_at = now;
  succeeded = true;
  error = none;
  payload = payload;
}

unfoldable pub response_err : ℤ → Command → Error → Response
response_err now c error = record {
  id = c.id;
  agent_id = c.agent_id;
  protocol = protocol_version;
  finished_at = now;
  succeeded = false;
  error = some error;
  payload = ResponsePayload.empty;
}

-- `Response::validate_for`
unfoldable pub validate_for : ℤ → Response → Command → Outcome (Unit {0})
validate_for now r c =
    if not (text_eq r.id c.id) || not (text_eq r.agent_id c.agent_id)
    then err Error.response_correlation
    else if not (r.protocol == protocol_version)
    then err Error.response_protocol
    else if ltb_ℤ (saturating_add now (pos 60)) r.finished_at
    then err Error.response_future
    else ok tt

-- `Heartbeat::is_stale`
unfoldable pub is_stale : ℤ → Heartbeat → Bool
is_stale now h = ltb_ℤ h.ttl_secs (saturating_sub now h.at)
