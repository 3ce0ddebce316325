-- ===== src/Agent/Loop/Laws.antt =====
-- The pace of the command loop, the retries of responses, and what a suspended process does.
use s3_mcp_relay.Base.{
  ℕ, ◌*◌, ◌≤◌, ◌≡◌, ◌↔◌, ◌⊎◌, inl, inr, true, false, Option, none, some, List, [], ◌∷◌, Text, All,
  ok, err, arith, refl, ap, ◌∙◌, ◌==◌, Bool-cases,
}
use s3_mcp_relay.Failure.{Error, Outcome}
use s3_mcp_relay.Effect.Keeps.{Keeps, keeps_rules}
use s3_mcp_relay.Platform.{Host}
use s3_mcp_relay.Protocol.Types.{Command, Response}
use s3_mcp_relay.Protocol.Checks.{response_err}
use s3_mcp_relay.Transport.Objects.{Transport}
use s3_mcp_relay.Transport.Mailbox.{send_response}
use s3_mcp_relay.Transport.Quiet.{IsQuiet, put_encrypted-Keeps}
use s3_mcp_relay.Agent.Presence.{suspended}
use s3_mcp_relay.Agent.Pace.{PollPolicy, IsPaced, next_interval-keeps, from_env, from_env_lem}
use s3_mcp_relay.Agent.Policy.{Policy}
use s3_mcp_relay.Agent.Executor.{Machine}
use s3_mcp_relay.Agent.Loop.{
  Process, LoopState, wait, retry, send_response_with_retry, reply_only, handle, handle_all,
  is_none, look, tick, Shutdown, run_loop, start_loop,
}

-- Whether the response was sent by one of the tries.
abbrev pub HasOk : List (Outcome (Unit {0})) → Type 0
HasOk [] = ⊥
HasOk (r ∷ rs) = (r ≡ ok tt) ⊎ HasOk rs

module _ {W : Type 0} (h : Host W) (t : Transport) (response : Response) where
  -- What the tries give if all of them are made: the first result, and the later ones after their
  -- delays.
  unfoldable pub tries : List ℕ → Outcome (Unit {0}) × W → List (Outcome (Unit {0}))
  tries [] (r, w) = r ∷ []
  tries (delay ∷ later) (r, w) = r ∷ tries later (send_response h t response (wait h t delay w))

  retry_iff :
      (later : List ℕ) (r : Outcome (Unit {0}) × W)
      → ((retry h t later response r).0 ≡ ok tt) ↔ HasOk (tries later r)
  unfolding retry tries
  retry_iff [] (ok u, w) = (λ e. inl refl, λ e. refl)
  retry_iff (d ∷ later) (ok u, w) = (λ e. inl refl, λ e. refl)
  retry_iff [] (err x, w) = (
    λ e. absurd (ground arith),
    λ e. elim e [ inl bad ↦ absurd (ground arith) | inr bad ↦ absurd bad ],
  )
  retry_iff (d ∷ later) (err x, w) =
      let (to, from) = retry_iff later (send_response h t response (wait h t d w)) in
      (λ e. inr (to e), λ e. elim e [ inl bad ↦ absurd (ground arith) | inr more ↦ from more ])

-- A response is sent exactly when one of four tries sends it: the first at once, the others after one, two
-- and four seconds.
pub send_response_with_retry_iff :
    {W : Type 0} (h : Host W) (t : Transport) (response : Response) (w : W)
    → ((send_response_with_retry h t response w).0 ≡ ok tt)
      ↔ HasOk (tries h t response (1 ∷ 2 ∷ 4 ∷ []) (send_response h t response w))
unfolding send_response_with_retry
send_response_with_retry_iff h t response w =
    retry_iff h t response (1 ∷ 2 ∷ 4 ∷ []) (send_response h t response w)

module _ {W : Type 0} (h : Host W) (m : Machine W) (policy : Policy) (t : Transport) (fuel : ℕ)
    (dir agent mine : Text) (describe : Error → Text) where
  abbrev pub IsWithin : PollPolicy → LoopState → Type 0
  IsWithin poll l = (poll.active ≤ l.interval) × (l.interval ≤ poll.idle)

  tick-IsWithin :
      (poll : PollPolicy) (l : LoopState) (p : Process) (w : W)
      → IsPaced poll
      → IsWithin poll l
      → IsWithin poll (tick h m policy t fuel dir agent mine describe poll l p w).0.0
  unfolding tick
  tick-IsWithin poll l p w paced within =
      elim (Bool-cases (look h m policy t fuel dir agent mine describe poll l p w).0.0.0) [
        | inl scan ↦ rw scan (next_interval-keeps poll _ l.interval paced within)
        | inr quiet ↦ rw quiet (next_interval-keeps poll false l.interval paced within)
      ]

  run_loop-IsWithin :
      (poll : PollPolicy) (wakes : List (Option Shutdown)) (l : LoopState) (p : Process) (w : W)
      → IsPaced poll
      → IsWithin poll l
      → IsWithin poll (run_loop h m policy t fuel dir agent mine describe poll wakes l p w).0.0.1
  unfolding run_loop
  run_loop-IsWithin poll [] l p w paced within = within
  run_loop-IsWithin poll (some end ∷ wakes) l p w paced within =
      tick-IsWithin poll l p w paced within
  run_loop-IsWithin poll (none ∷ wakes) l p w paced within =
      run_loop-IsWithin poll wakes _ _ _ paced (tick-IsWithin poll l p w paced within)

  module _ {I : W → Type 0} (q : IsQuiet h I)
      (sleeps : (n : ℕ) (w : W) → I w → I (h.sleep n w)) where
    send_response-Keeps : (response : Response) → Keeps I (send_response h t response)
    unfolding send_response
    send_response-Keeps response = search (keeps_rules, put_encrypted-Keeps q t)

    wait-keeps : (delay : ℕ) (w : W) → I w → I (wait h t delay w)
    wait-keeps delay w i = elim (Bool-cases (delay == 0)) [
      | inl at_once ↦ rw at_once i
      | inr later ↦ rw later (sleeps (delay * 1000) w i)
    ]

    retry-keeps :
        (later : List ℕ) (response : Response) (r : Outcome (Unit {0}) × W)
        → I r.1
        → I (retry h t later response r).1
    unfolding retry
    retry-keeps [] response (ok u, w) i = i
    retry-keeps (d ∷ later) response (ok u, w) i = i
    retry-keeps [] response (err e, w) i = i
    retry-keeps (d ∷ later) response (err e, w) i =
        retry-keeps later response _ ((send_response-Keeps response).at _ (wait-keeps d w i))

    reply_only-keeps :
        (response : Response) (p : Process) (w : W)
        → I w
        → I (reply_only h m policy t fuel dir agent mine describe response p w).1
    unfolding reply_only send_response_with_retry
    reply_only-keeps response p w i =
        retry-keeps (1 ∷ 2 ∷ 4 ∷ []) response _ ((send_response-Keeps response).at w i)

    handle-suspended :
        (cmd : Command) (p : Process) (w : W)
        → suspended p.presence ≡ true
        → is_none cmd.instance_id ≡ true
        → I w
        → ((handle h m policy t fuel dir agent mine describe cmd p w).0 ≡ p)
          × I (handle h m policy t fuel dir agent mine describe cmd p w).1
    unfolding handle reply_only
    handle-suspended cmd p w rests untargeted i = rw rests (
        rw untargeted (
          refl,
          reply_only-keeps (response_err (h.now_unix w).0 cmd Error.suspended) p _ (q.now_unix w i),
        ))

    pub handle_all-rests :
        (commands : List Command) (p : Process) (w : W)
        → suspended p.presence ≡ true
        → All (λ cmd. is_none cmd.instance_id ≡ true) commands
        → I w
        → ((handle_all h m policy t fuel dir agent mine describe commands p w).0 ≡ p)
          × I (handle_all h m policy t fuel dir agent mine describe commands p w).1
    unfolding handle_all
    handle_all-rests [] p w rests untargeted i = (refl, i)
    handle_all-rests (cmd ∷ commands) p w rests (here, more) i =
        let (same, kept) = handle-suspended cmd p w rests here i in
        let (same', kept') =
          handle_all-rests commands _ _ (ap (λ x. suspended x.presence) same ∙ rests) more kept in
        (same' ∙ same, kept')

-- With settings that `from_env` accepts, the loop polls at an interval between the active and the
-- idle one, whatever it finds and however long it runs.
pub run_loop-interval :
    {W : Type 0} (h : Host W) (m : Machine W) (policy : Policy) (t : Transport) (fuel : ℕ)
    (dir agent mine : Text) (describe : Error → Text) (parse : Text → Option ℕ)
    (lower : Text → Text) (poll_ms poll_max_ms full_scan_secs doorbell : Option Text)
    (poll : PollPolicy) (wakes : List (Option Shutdown)) (now : ℕ) (p : Process) (w : W)
    → from_env parse lower poll_ms poll_max_ms full_scan_secs doorbell ≡ ok poll
    → (100 ≤ poll.active)
      × (poll.active
          ≤ (run_loop h m policy t fuel dir agent mine describe poll wakes
              (start_loop poll now)
              p
              w).0.0.1.interval)
      × ((run_loop h m policy t fuel dir agent mine describe poll wakes
            (start_loop poll now)
            p
            w).0.0.1.interval
          ≤ poll.idle)
      × (poll.idle ≤ 300000)
run_loop-interval h m policy t fuel dir agent mine describe parse lower a b c d poll wakes now p w
      e =
    let paced = from_env_lem parse lower a b c d poll e in
    let (low, high) =
      run_loop-IsWithin h m policy t fuel dir agent mine describe poll wakes (start_loop poll now) p
        w paced (omega arith, paced.1) in
    (paced.0, low, high, paced.2)

-- A suspended process that drains commands for no instance in particular runs none of them: its
-- jobs, events and presence stay as they are, and so does whatever the bucket, the clock and
-- sleeping leave alone, such as the files.
pub handle_all-suspended :
    {W : Type 0} (h : Host W) (m : Machine W) (policy : Policy) (t : Transport) (fuel : ℕ)
    (dir agent mine : Text) (describe : Error → Text) (I : W → Type 0)
    → IsQuiet h I
    → ((n : ℕ) (w : W) → I w → I (h.sleep n w))
    → (commands : List Command) (p : Process) (w : W) → suspended p.presence ≡ true
    → All (λ cmd. is_none cmd.instance_id ≡ true) commands
    → I w
    → ((handle_all h m policy t fuel dir agent mine describe commands p w).0 ≡ p)
      × I (handle_all h m policy t fuel dir agent mine describe commands p w).1
handle_all-suspended h m policy t fuel dir agent mine describe I q sleeps commands p w rests
      untargeted i =
    handle_all-rests h m policy t fuel dir agent mine describe q sleeps commands p w rests
      untargeted i
