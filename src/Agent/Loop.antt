-- ===== src/Agent/Loop.antt =====
-- The command loop of crates/agent/src/main.rs: `run_loop` and
-- `send_response_with_retry`. Durations and instants are in milliseconds; the text of an error is a
-- parameter.
pub mod Laws
pub mod Beat
use s3_mcp_relay.Base.{
  ℕ, zero, suc, ◌+◌, ◌*◌, min, Bool, true, false, not, ◌||◌, ◌&&◌, Option, none, some, List, [],
  ◌∷◌, ◌++◌, Text, codes, text_eq, ℤ, ok, err, ltb, leb, ◌==◌, if◌then◌else◌,
}
use s3_mcp_relay.Failure.{Error, Outcome}
use s3_mcp_relay.Effect.{Eff, ◌>>=◌, ◌>>◌, pure, fail, sample, attempt}
use s3_mcp_relay.Platform.{Host}
use s3_mcp_relay.Protocol.Types.{
  Command, CommandKind, Response, ResponsePayload, AgentEvent, EventKind,
}
use s3_mcp_relay.Protocol.Checks.{
  validate_routing_for, validate_for_agent, response_ok, response_err,
}
use s3_mcp_relay.Transport.Objects.{Transport}
use s3_mcp_relay.Transport.Mailbox.{doorbell_tag, drain_commands, send_response}
use s3_mcp_relay.Agent.Presence.{PresenceState, suspended, stand_down}
use s3_mcp_relay.Agent.Events.{record_event}
use s3_mcp_relay.Agent.Jobs.{Table}
use s3_mcp_relay.Agent.Pace.{PollPolicy, next_interval}
use s3_mcp_relay.Agent.Policy.{Policy}
use s3_mcp_relay.Agent.Executor.{Machine}
use s3_mcp_relay.Agent.Executor.Run.{execute}

-- Why the command loop stopped.
pub data Shutdown : Type 0 where
  signal : Shutdown
  updated : (version : Text) → Shutdown

-- What the process keeps and shares between its tasks.
pub record Process : Type 0 where
  pub presence : PresenceState
  pub events : List AgentEvent
  pub jobs : Table

-- What `run_loop` keeps between its rounds.
pub record LoopState : Type 0 where
  pub interval : ℕ
  pub seen_doorbell : Option Text
  pub next_full_scan : ℕ

-- `tag != seen_doorbell`
abbrev pub tag_changed : Option Text → Option Text → Bool
tag_changed none none = false
tag_changed (some a) (some b) = not (text_eq a b)
tag_changed _ _ = true

abbrev pub is_none : Option Text → Bool
is_none none = true
is_none (some _) = false

abbrev pub is_empty : List Command → Bool
is_empty [] = true
is_empty (_ ∷ _) = false

abbrev pub is_stand_down : CommandKind → Bool
is_stand_down CommandKind.stand_down = true
is_stand_down _ = false

module _ {W : Type 0} (h : Host W) (t : Transport) where
  -- `if delay > 0 { sleep }`
  abbrev pub wait : ℕ → W → W
  wait delay w = if delay == 0 then w else h.sleep (delay * 1000) w

  -- The loop of `send_response_with_retry` after a try, with the delays of the later ones.
  unfoldable pub retry : List ℕ → Response → Outcome (Unit {0}) × W → Outcome (Unit {0}) × W
  retry later response (ok _, w) = (ok tt, w)
  retry [] response (err e, w) = (err e, w)
  retry (delay ∷ later) response (err e, w) =
      retry later response (send_response h t response (wait delay w))

  unfoldable pub send_response_with_retry : Response → Eff W (Unit {0})
  unfolding retry
  send_response_with_retry response w =
      retry (1 ∷ 2 ∷ 4 ∷ []) response (send_response h t response (wait 0 w))

module _ {W : Type 0} (h : Host W) (m : Machine W) (policy : Policy) (t : Transport) (fuel : ℕ)
    (dir agent mine : Text) (describe : Error → Text) where
  -- `log.record(kind, …)`
  unfoldable pub note : EventKind → Text → Process → W → Process × W
  note kind message p w =
      let (now, w') = h.now_unix w in
      (record p { events = record_event now kind message p.events }, w')

  -- A command that is declined or confirmed by a response; a failure to send it is only logged.
  unfoldable pub reply_only : Response → Process → W → Process × W
  unfolding send_response_with_retry
  reply_only response p w = (p, (send_response_with_retry h t response w).1)

  -- A response that cannot be sent is reported.
  abbrev pub report_lost : Command → Process → Outcome (Unit {0}) × W → Process × W
  report_lost cmd p (ok _, w) = (p, w)
  report_lost cmd p (err e, w) =
      note EventKind.response
        (codes "lost response for command " ++ cmd.id ++ codes ": " ++ describe e) p w

  -- The response of `executor::execute`, or to a command that is not valid.
  unfoldable pub respond_to : Command → Process → W → (Response × Process) × W
  unfolding execute
  respond_to cmd p w =
      let (now, w') = h.now_unix w in
      elim (validate_for_agent h.codec.is_uuid now cmd agent policy.max_timeout_secs) [
        | err e ↦
            let (finished_at, w'') = h.now_unix w' in ((response_err finished_at cmd e, p), w'')
        | ok _ ↦
            let (r, w'') = execute h m policy t fuel dir cmd p.jobs w' in
            ((r.0, record p { jobs = r.1 }), w'')
      ]

  unfoldable pub handle_valid : Command → Process → W → Process × W
  unfolding respond_to send_response_with_retry
  handle_valid cmd p w =
      let (answered, w') = respond_to cmd p w in
      report_lost cmd answered.1 (send_response_with_retry h t answered.0 w')

  unfoldable pub handle_stand_down : Command → Process → W → Process × W
  unfolding note reply_only
  handle_stand_down cmd p w =
      let stood = record p { presence = stand_down p.presence } in
      let (noted, w') = note EventKind.collision (codes "stood down by operator request") stood w in
      let (now, w'') = h.now_unix w' in
      reply_only (response_ok now cmd ResponsePayload.empty) noted w''

  -- The body of the loop over the drained commands.
  unfoldable pub handle : Command → Process → W → Process × W
  unfolding reply_only handle_stand_down handle_valid note
  handle cmd p w =
      if suspended p.presence && is_none cmd.instance_id
      then (let (now, w') = h.now_unix w in reply_only (response_err now cmd Error.suspended) p w')
      else if is_stand_down cmd.kind
      then handle_stand_down cmd p w
      else elim (validate_routing_for h.codec.is_uuid cmd agent) [
        | err e ↦ note EventKind.command (codes "discarded command: " ++ describe e) p w
        | ok _ ↦ handle_valid cmd p w
      ]

  unfoldable pub handle_all : List Command → Process → W → Process × W
  unfolding handle
  handle_all [] p w = (p, w)
  handle_all (cmd ∷ commands) p w = let (p', w') = handle cmd p w in handle_all commands p' w'

  -- Whether to list, and the tag that is seen then.
  unfoldable pub look : PollPolicy → LoopState → Process → W → ((Bool × Option Text) × Process) × W
  unfolding note
  look poll l p w =
      let (now, w') = h.now_instant w in
      if not poll.use_doorbell || leb l.next_full_scan now
      then (((true, l.seen_doorbell), p), w')
      else (let (tag, w'') = doorbell_tag h t agent w' in
          elim tag [
            | ok seen ↦ (((tag_changed seen l.seen_doorbell, seen), p), w'')
            | err e ↦
                let (p', v) = note EventKind.doorbell (describe e) p w'' in
                (((true, l.seen_doorbell), p'), v)
          ])

  -- What is done with what was drained, and whether there was work.
  abbrev pub after_drain : Process → Outcome (List Command) × W → (Bool × Process) × W
  after_drain p (ok commands, w) =
      let (p', w') = handle_all commands p w in ((not (is_empty commands), p'), w')
  after_drain p (err e, w) =
      let (p', w') = note EventKind.poll (describe e) p w in ((false, p'), w')

  -- A round of `run_loop`, up to its `select!`.
  unfoldable pub tick : PollPolicy → LoopState → Process → W → (LoopState × Process) × W
  unfolding look handle_all next_interval
  tick poll l p w =
      let (looked, w') = look poll l p w in
      let (found, p') = looked in
      if found.0
      then (let (now, w'') = h.now_instant w' in
          let (drained, v) = after_drain p' (drain_commands h t agent mine w'') in
          (
            (
              record {
                interval = next_interval poll drained.0 l.interval;
                seen_doorbell = found.1;
                next_full_scan = now + poll.full_scan;
              },
              drained.1,
            ),
            v,
          ))
      else ((record l { interval = next_interval poll false l.interval }, p'), w')

  -- `run_loop` on what its `select!` gives in each round, `none` for the end of the sleep.
  unfoldable pub run_loop :
      PollPolicy
      → List (Option Shutdown)
      → LoopState
      → Process
      → W
      → ((Option Shutdown × LoopState) × Process) × W
  unfolding tick
  run_loop poll [] l p w = (((none, l), p), w)
  run_loop poll (wake ∷ wakes) l p w =
      let (ticked, w') = tick poll l p w in
      let (l', p') = ticked in
      let rest = run_loop poll wakes l' p' (h.sleep l'.interval w') in
      elim wake [ some end ↦ (((some end, l'), p'), w') | none ↦ rest ]

-- The state in which `run_loop` begins; `now` is the instant.
abbrev pub start_loop : PollPolicy → ℕ → LoopState
start_loop poll now = record { interval = poll.active; seen_doorbell = none; next_full_scan = now }
