-- ===== src/Agent/Loop/Beat.antt =====
-- `heartbeat_loop` of crates/agent/src/main.rs: a round of it. What it samples of the machine is an
-- argument.
use s3_mcp_relay.Base.{
  ◌≡◌, Bool, true, false, not, ◌&&◌, Option, none, some, ◌++◌, Text, codes, text_eq, text_eq_iff, ℤ,
  ltb_ℤ, ok, err, arith, refl, ◌∙◌, ◌≢◌, inl, inr, Bool-cases, if◌then◌else◌,
}
use s3_mcp_relay.Failure.{Error, Outcome}
use s3_mcp_relay.Platform.{Host}
use s3_mcp_relay.Protocol.Types.{Heartbeat, Metrics, EventKind}
use s3_mcp_relay.Transport.Objects.{Transport}
use s3_mcp_relay.Transport.Liveness.{read_heartbeat, write_heartbeat}
use s3_mcp_relay.Agent.Presence.{observed, suspended, snapshot}
use s3_mcp_relay.Agent.Presence.Laws.{observed_exactly_one}
use s3_mcp_relay.Agent.Events.{record_event}
use s3_mcp_relay.Agent.Jobs.{running_count, recently_finished}
use s3_mcp_relay.Agent.Loop.{Process}

-- What does not change while a process runs.
pub record Identity : Type 0 where
  pub agent : Text
  pub mine : Text  -- the field `instance`
  pub started_at : ℤ
  pub ttl_secs : ℤ
  pub binary_sha256 : Option Text
  pub hostname : Text
  pub os : Text
  pub version : Text

-- The heartbeat of another process, and not one from before this process started.
unfoldable pub is_rival : Identity → Heartbeat → Bool
is_rival id seen = not (text_eq seen.instance_id id.mine) && not (ltb_ℤ seen.at id.started_at)

abbrev pub verdict : Bool → Text
verdict true = codes "standing down"
verdict false = codes "continuing"

module _ {W : Type 0} (h : Host W) (t : Transport) (sample_metrics : W → Metrics × W)
    (describe : Error → Text) (id : Identity) where
  unfoldable pub note_event : EventKind → Text → Process → W → Process × W
  note_event kind message p w =
      let (now, w') = h.now_unix w in
      (record p { events = record_event now kind message p.events }, w')

  unfoldable pub sight_rival : Heartbeat → Process → W → Process × W
  unfolding note_event
  sight_rival seen p w =
      let (presence, news) = observed id.mine (some seen.instance_id) p.presence in
      let p' = record p { presence = presence } in
      if news
      then note_event EventKind.collision
          (codes "identity also held by instance "
            ++ seen.instance_id
            ++ codes " on "
            ++ seen.hostname
            ++ codes "; this process is "
            ++ verdict (suspended presence))
          p' w
      else (p', w)

  abbrev pub sight_none : Process → W → Process × W
  sight_none p w = (record p { presence = (observed id.mine none p.presence).0 }, w)

  -- What is read before the heartbeat is written.
  unfoldable pub sight : Process → Outcome (Option Heartbeat) × W → Process × W
  unfolding is_rival sight_rival
  sight p (ok none, w) = sight_none p w
  sight p (ok (some seen), w) = if is_rival id seen then sight_rival seen p w else sight_none p w
  sight p (err e, w) = (p, w)

  unfoldable pub own_heartbeat : Process → Metrics → ℤ → Heartbeat
  own_heartbeat p metrics now =
      let (conflict_with, yields) = snapshot p.presence in
      record {
        agent_id = id.agent;
        hostname = id.hostname;
        os = id.os;
        agent_version = id.version;
        binary_sha256 = id.binary_sha256;
        instance_id = id.mine;
        conflict_with = conflict_with;
        suspended = yields;
        at = now;
        ttl_secs = id.ttl_secs;
        recent_errors = p.events;
        jobs_running = running_count p.jobs;
        jobs_finished = recently_finished p.jobs;
        metrics = some metrics;
      }

  abbrev pub report_unwritten : Process → Outcome (Unit {0}) × W → Process × W
  report_unwritten p (ok _, w) = (p, w)
  report_unwritten p (err e, w) = note_event EventKind.heartbeat (describe e) p w

  -- A round of `heartbeat_loop`, up to its sleep.
  unfoldable pub beat : Process → W → Process × W
  unfolding sight own_heartbeat
  beat p w =
      let (p', w') = sight p (read_heartbeat h t id.agent w) in
      let (metrics, w'') = sample_metrics w' in
      let (now, v) = h.now_unix w'' in
      report_unwritten p' (write_heartbeat h t (own_heartbeat p' metrics now) v)

module _ {W : Type 0} (h : Host W) (t : Transport) (sample_metrics : W → Metrics × W)
    (describe : Error → Text) (id : Identity) where
  note_event-presence :
      (kind : EventKind) (message : Text) (p : Process) (w : W)
      → (note_event h t sample_metrics describe id kind message p w).0.presence ≡ p.presence
  unfolding note_event
  note_event-presence kind message p w = refl

  report-presence :
      (p : Process) (r : Outcome (Unit {0}) × W)
      → (report_unwritten h t sample_metrics describe id p r).0.presence ≡ p.presence
  unfolding note_event
  report-presence p (ok _, w) = refl
  report-presence p (err e, w) = refl

  sight_rival-presence :
      (seen : Heartbeat) (p : Process) (w : W)
      → (sight_rival h t sample_metrics describe id seen p w).0.presence
        ≡ (observed id.mine (some seen.instance_id) p.presence).0
  unfolding sight_rival note_event
  sight_rival-presence seen p w =
      elim (Bool-cases (observed id.mine (some seen.instance_id) p.presence).1) [
        | inl news ↦ rw news refl
        | inr known ↦ rw known refl
      ]

  -- A round in which the heartbeat of a rival is read.
  pub beat-presence :
      (seen : Heartbeat) (p : Process) (w : W)
      → (read_heartbeat h t id.agent w).0 ≡ ok (some seen)
      → is_rival id seen ≡ true
      → (beat h t sample_metrics describe id p w).0.presence
        ≡ (observed id.mine (some seen.instance_id) p.presence).0
  unfolding beat sight
  beat-presence seen p w e rival =
      let looked : (sight h t sample_metrics describe id p
            (read_heartbeat h t id.agent w)).0.presence
          ≡ (observed id.mine (some seen.instance_id) p.presence).0 =
        rw e (rw rival (sight_rival-presence seen p (read_heartbeat h t id.agent w).1)) in
      report-presence _ _ ∙ looked

-- Two processes under one identity, neither told to stand down, each read the heartbeat of the
-- other, written since they started: after their rounds exactly one of them is suspended.
pub beat_exactly_one :
    {W : Type 0} (h : Host W) (t : Transport) (sample_metrics : W → Metrics × W)
    (describe : Error → Text) (a b : Identity) (of_a of_b : Heartbeat) (p q : Process) (v w : W)
    → (read_heartbeat h t a.agent v).0 ≡ ok (some of_b)
    → (read_heartbeat h t b.agent w).0 ≡ ok (some of_a)
    → of_a.instance_id ≡ a.mine
    → of_b.instance_id ≡ b.mine
    → a.mine ≢ b.mine
    → ltb_ℤ of_b.at a.started_at ≡ false
    → ltb_ℤ of_a.at b.started_at ≡ false
    → p.presence.stood_down ≡ false
    → q.presence.stood_down ≡ false
    → suspended (beat h t sample_metrics describe a p v).0.presence
      ≡ not (suspended (beat h t sample_metrics describe b q w).0.presence)
unfolding is_rival
beat_exactly_one h t sample_metrics describe a b of_a of_b p q v w read_a read_b at_a at_b differ
      since_a since_b up_a up_b =
    let rival_a : is_rival a of_b ≡ true = ground (arith, text_eq_iff of_b.instance_id a.mine) in
    let rival_b : is_rival b of_a ≡ true = ground (arith, text_eq_iff of_a.instance_id b.mine) in
    let seen_a = beat-presence h t sample_metrics describe a of_b p v read_a rival_a in
    let seen_b = beat-presence h t sample_metrics describe b of_a q w read_b rival_b in
    rw (seen_a, seen_b, at_a, at_b)
      (observed_exactly_one a.mine b.mine p.presence q.presence differ up_a up_b)
