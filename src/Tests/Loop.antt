-- ===== src/Tests/Loop.antt =====
-- The theorems on the command loop and the heartbeats.
use s3_mcp_relay.Base.{
  ℕ, ◌≤◌, ◌≡◌, ◌≢◌, ◌↔◌, true, false, not, Option, none, some, List, [], ◌∷◌, arith, refl, Text,
  codes, ok, saturating_sub, pos, replicate, text_eq,
}
use s3_mcp_relay.Failure.{Error}
use s3_mcp_relay.Platform.{Host, Serde}
use s3_mcp_relay.Protocol.Types.{Command, CommandKind, Response, Heartbeat, Metrics}
use s3_mcp_relay.Protocol.Names.{validate_agent_id, is_id_byte}
use s3_mcp_relay.Protocol.Checks.{response_err, is_stale}
use s3_mcp_relay.Crypto.{seal, aad, open_object}
use s3_mcp_relay.Transport.Objects.{
  Transport, put_encrypted, get_encrypted, open_found, get_raw, read_object, put_body,
}
use s3_mcp_relay.Transport.Mailbox.{send_response}
use s3_mcp_relay.Transport.Liveness.{read_heartbeat, write_heartbeat, keep_fresh}
use s3_mcp_relay.Transport.Keys.{agent_key}
use s3_mcp_relay.Agent.Presence.{PresenceState, fresh, suspended}
use s3_mcp_relay.Agent.Pace.{PollPolicy, from_env, bounded_env}
use s3_mcp_relay.Agent.Loop.{Process, run_loop, start_loop, handle_all, send_response_with_retry}
use s3_mcp_relay.Agent.Loop.Laws.{
  HasOk, tries, run_loop-interval, handle_all-suspended, send_response_with_retry_iff,
}
use s3_mcp_relay.Agent.Loop.Beat.{Identity, beat, beat_exactly_one}
use s3_mcp_relay.Tests.Memory.{World, memory, toy_codec, lookup, to_envelope, toy_open}
use s3_mcp_relay.Tests.Machine.{
  still_host, still_host-IsQuiet, toy_machine, toy_policy, toy_transport, kind_command,
}

abbrev describe : Error → Text
describe e = codes "error"

abbrev idle_process : PresenceState → Process
idle_process s = record { presence = s; events = []; jobs = [] }

abbrev yielded : PresenceState
yielded = record { conflict_with = some (codes "a"); yielded = true; stood_down = false }

abbrev requests : List Command
requests =
    kind_command (CommandKind.remove (3 ∷ 1 ∷ []) true) none
    ∷ kind_command CommandKind.stand_down none
    ∷ []

handle_all-suspended_example :
    ((handle_all still_host toy_machine toy_policy toy_transport 3
        (codes "jobs")
        (codes "jetson")
        (codes "me")
        describe
        requests
        (idle_process yielded)
        []).0
      ≡ idle_process yielded)
    × ((handle_all still_host toy_machine toy_policy toy_transport 3
          (codes "jobs")
          (codes "jetson")
          (codes "me")
          describe
          requests
          (idle_process yielded)
          []).1
        ≡ [])
unfolding suspended
handle_all-suspended_example =
    handle_all-suspended still_host toy_machine toy_policy toy_transport 3 (codes "jobs")
      (codes "jetson") (codes "me") describe (λ w. w ≡ []) (still_host-IsQuiet (λ w. w ≡ []))
      (λ n w i. i) requests (idle_process yielded) [] refl (refl, (refl, tt)) refl

abbrev defaults : PollPolicy
defaults = record { active = 200; idle = 5000; full_scan = 60000; use_doorbell = true }

abbrev no_number : Text → Option ℕ
no_number t = none

abbrev same_text : Text → Text
same_text t = t

default_settings : from_env no_number same_text none none none none ≡ ok defaults
unfolding from_env bounded_env
default_settings = refl

run_loop-interval_example :
    (100 ≤ 200)
    × (200
        ≤ (run_loop still_host toy_machine toy_policy toy_transport 3
            (codes "jobs")
            (codes "jetson")
            (codes "me")
            describe
            defaults
            (none ∷ none ∷ [])
            (start_loop defaults 7)
            (idle_process fresh)
            []).0.0.1.interval)
    × ((run_loop still_host toy_machine toy_policy toy_transport 3
          (codes "jobs")
          (codes "jetson")
          (codes "me")
          describe
          defaults
          (none ∷ none ∷ [])
          (start_loop defaults 7)
          (idle_process fresh)
          []).0.0.1.interval
        ≤ 5000)
    × (5000 ≤ 300000)
run_loop-interval_example =
    run_loop-interval still_host toy_machine toy_policy toy_transport 3 (codes "jobs")
      (codes "jetson") (codes "me") describe no_number same_text none none none none defaults
      (none ∷ none ∷ []) 7 (idle_process fresh) [] default_settings

abbrev declined : Response
unfolding response_err
declined = response_err (pos 50) (kind_command CommandKind.ping none) Error.suspended

send_response_with_retry_iff_example :
    ((send_response_with_retry still_host toy_transport declined []).0 ≡ ok tt)
    ↔ HasOk (
        tries still_host toy_transport declined
          (1 ∷ 2 ∷ 4 ∷ [])
          (send_response still_host toy_transport declined []))
send_response_with_retry_iff_example =
    send_response_with_retry_iff still_host toy_transport declined []

-- A heartbeat is the identity of its process.
abbrev heartbeat_of : Text → Heartbeat
heartbeat_of mine = record {
  agent_id = codes "jetson";
  hostname = codes "h";
  os = codes "o";
  agent_version = codes "v";
  binary_sha256 = none;
  instance_id = mine;
  conflict_with = none;
  suspended = false;
  at = pos 50;
  ttl_secs = pos 60;
  recent_errors = [];
  jobs_running = 0;
  jobs_finished = [];
  metrics = none;
}

abbrev heartbeat_serde : Serde Heartbeat
heartbeat_serde = record {
  to_vec = λ b. some b.instance_id;
  from_slice = λ t. some (heartbeat_of t);
}

abbrev bucket : Host World
bucket = record memory { codec = record toy_codec { heartbeats = heartbeat_serde } }

abbrev keyed : Transport
keyed = record {
  prefix = codes "p/";
  crypto = record { cipher = replicate 32 7; key_id = codes "k" };
}

-- The bucket once a process has written its heartbeat.
abbrev beaten : Text → World
unfolding write_heartbeat
beaten mine = (write_heartbeat bucket keyed (heartbeat_of mine) []).1

abbrev identity : Text → Identity
identity mine = record {
  agent = codes "jetson";
  mine = mine;
  started_at = pos 40;
  ttl_secs = pos 60;
  binary_sha256 = none;
  hostname = codes "h";
  os = codes "o";
  version = codes "v";
}

abbrev no_metrics : World → Metrics × World
no_metrics w = (
  record {
    load_1m = none;
    cpu_count = none;
    mem_total_mb = none;
    mem_available_mb = none;
    disk_total_mb = none;
    disk_free_mb = none;
    gpus = [];
  },
  w,
)

seen_b :
    (read_heartbeat bucket keyed (codes "jetson") (beaten (codes "b"))).0
    ≡ ok (some (heartbeat_of (codes "b")))
unfolding read_heartbeat beaten write_heartbeat validate_agent_id is_id_byte put_encrypted
    get_encrypted get_raw lookup text_eq read_object open_object to_envelope toy_open seal aad
    agent_key keep_fresh is_stale put_body open_found saturating_sub
seen_b = refl

seen_a :
    (read_heartbeat bucket keyed (codes "jetson") (beaten (codes "a"))).0
    ≡ ok (some (heartbeat_of (codes "a")))
unfolding read_heartbeat beaten write_heartbeat validate_agent_id is_id_byte put_encrypted
    get_encrypted get_raw lookup text_eq read_object open_object to_envelope toy_open seal aad
    agent_key keep_fresh is_stale put_body open_found saturating_sub
seen_a = refl

differ : codes "a" ≢ codes "b"
differ e = absurd (ground arith)

beat_exactly_one_example :
    suspended
      (beat bucket keyed no_metrics describe
        (identity (codes "a"))
        (idle_process fresh)
        (beaten (codes "b"))).0.presence
    ≡ not (
        suspended
          (beat bucket keyed no_metrics describe
            (identity (codes "b"))
            (idle_process fresh)
            (beaten (codes "a"))).0.presence)
beat_exactly_one_example =
    beat_exactly_one bucket keyed no_metrics describe (identity (codes "a")) (identity (codes "b"))
      (heartbeat_of (codes "a")) (heartbeat_of (codes "b")) (idle_process fresh)
      (idle_process fresh) (beaten (codes "b")) (beaten (codes "a")) seen_b seen_a refl refl differ
      refl refl refl refl
