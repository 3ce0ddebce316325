-- ===== src/Protocol/Checks/Laws.antt =====
-- Which commands an agent accepts, and that each end accepts what the other makes.
use s3_mcp_relay.Base.{
  ℕ, ◌≤◌, ◌≡◌, ◌↔◌, Bool, true, Option, none, some, arith, refl, Text, text_eq_iff, ℤ, pos, ◌≤ℤ◌,
  saturating_add, le-saturating_add, IsI64, ok, min, subst, sym,
}
use s3_mcp_relay.Protocol.Types.{Command, CommandKind, Response}
use s3_mcp_relay.Protocol.Names.{validate_agent_id}
use s3_mcp_relay.Protocol.Checks.{
  protocol_version, new_command, validate_transfer_of, validate_routing_for, validate_freshness,
  validate_for_agent, validate_for,
}

-- The transfer id of a command that names one.
abbrev pub transfer_id : CommandKind → Option Text
transfer_id (CommandKind.push_blob transfer _ _ _ _) = some transfer
transfer_id (CommandKind.pull_blob transfer _ _) = some transfer
transfer_id _ = none

abbrev pub TransferIsUuid : (Text → Bool) → Option Text → Type 0
TransferIsUuid is_uuid none = Unit
TransferIsUuid is_uuid (some transfer) = is_uuid transfer ≡ true

-- The routing that makes a response key: this agent, and ids that are UUIDs.
pub record IsRoutedTo (is_uuid : Text → Bool) (agent : Text) (c : Command) : Type 0 where
  pub named : validate_agent_id agent ≡ ok tt
  pub addressed : c.agent_id ≡ agent
  pub identified : is_uuid c.id ≡ true
  pub transfer : TransferIsUuid is_uuid (transfer_id c.kind)

-- The command may start at `now` under a ceiling on its timeout.
pub record IsTimely (now : ℤ) (most : ℕ) (c : Command) : Type 0 where
  pub version : c.protocol ≡ protocol_version
  pub created : c.created_at ≤ℤ saturating_add now (pos 60)
  pub unexpired : now ≤ℤ c.expires_at
  pub ordered : c.created_at ≤ℤ c.expires_at
  pub lasting : 1 ≤ c.timeout_secs
  pub bounded : c.timeout_secs ≤ most

validate_transfer_of_iff :
    (is_uuid : Text → Bool) (k : CommandKind)
    → (validate_transfer_of is_uuid k ≡ ok tt) ↔ TransferIsUuid is_uuid (transfer_id k)
unfolding validate_transfer_of
validate_transfer_of_iff is_uuid (CommandKind.push_blob t d c b s) =
    (λ h. ground arith, λ h. ground arith)
validate_transfer_of_iff is_uuid (CommandKind.pull_blob t p m) =
    (λ h. ground arith, λ h. ground arith)
validate_transfer_of_iff is_uuid _ = (λ h. tt, λ h. refl)

pub validate_routing_for_iff :
    (is_uuid : Text → Bool) (c : Command) (agent : Text)
    → (validate_routing_for is_uuid c agent ≡ ok tt) ↔ IsRoutedTo is_uuid agent c
unfolding validate_routing_for
validate_routing_for_iff is_uuid c agent = (
  λ h.
      let same : c.agent_id ≡ agent = (text_eq_iff c.agent_id agent).0 (ground arith) in
      record {
        named = subst (λ a. validate_agent_id a ≡ ok tt) same (ground arith);
        addressed = same;
        identified = ground arith;
        transfer = (validate_transfer_of_iff is_uuid c.kind).0 (ground arith);
      },
  λ r.
      let named = subst (λ a. validate_agent_id a ≡ ok tt) (sym r.addressed) r.named in
      let same = (text_eq_iff c.agent_id agent).1 r.addressed in
      let moved = (validate_transfer_of_iff is_uuid c.kind).1 r.transfer in ground arith,
)

validate_freshness_iff :
    (now : ℤ) (c : Command) (most : ℕ)
    → (validate_freshness now c most ≡ ok tt) ↔ IsTimely now most c
unfolding validate_freshness
validate_freshness_iff now c most = (λ h. ground arith, λ h. ground arith)

-- `validate_for_agent` accepts a command exactly when the command is routed to the agent by
-- well-formed ids and is timely: of this protocol version, created at most 60 seconds ahead of the
-- agent's clock, not yet expired, not expiring before its creation, and with a timeout within the
-- agent's policy.
pub validate_for_agent_iff :
    (is_uuid : Text → Bool) (now : ℤ) (c : Command) (agent : Text) (most : ℕ)
    → (validate_for_agent is_uuid now c agent most ≡ ok tt)
      ↔ (IsRoutedTo is_uuid agent c × IsTimely now most c)
unfolding validate_for_agent
validate_for_agent_iff is_uuid now c agent most =
    let (to, from) = validate_routing_for_iff is_uuid c agent in
    let (fresh, refresh) = validate_freshness_iff now c most in
    (
      λ h. (to (ground arith), fresh (ground arith)),
      λ h. let a = from h.0 in let b = refresh h.1 in ground arith,
    )

-- A command that the controller makes is accepted by its agent from up to 60 seconds before the
-- controller's clock until the queueing time is over, when its ids are well formed and its timeout
-- is within the agent's policy.
pub new_command_accepted :
    (is_uuid : Text → Bool) (id agent : Text) (kind : CommandKind) (created now : ℤ)
    (timeout ttl most : ℕ)
    → IsI64 created
    → IsI64 now
    → is_uuid id ≡ true
    → validate_agent_id agent ≡ ok tt
    → TransferIsUuid is_uuid (transfer_id kind)
    → created ≤ℤ saturating_add now (pos 60)
    → now ≤ℤ saturating_add created (pos (min ttl 9223372036854775807))
    → 1 ≤ timeout
    → timeout ≤ most
    → validate_for_agent is_uuid now (new_command id created agent kind timeout ttl) agent most
      ≡ ok tt
unfolding new_command
new_command_accepted is_uuid id agent kind created now timeout ttl most a b u v t p q l m =
    (validate_for_agent_iff is_uuid now (new_command id created agent kind timeout ttl) agent
        most).1
      (
        record { named = v; addressed = refl; identified = u; transfer = t },
        record {
          version = refl;
          created = p;
          unexpired = q;
          ordered = le-saturating_add created (min ttl 9223372036854775807) a;
          lasting = l;
          bounded = m;
        },
      )

-- The controller accepts a response exactly when it carries the command's id and agent and this
-- protocol version, and was finished at most 60 seconds ahead of the controller's clock.
pub validate_for_iff :
    (now : ℤ) (r : Response) (c : Command)
    → (validate_for now r c ≡ ok tt) ↔ (
        (r.id ≡ c.id)
        × (r.agent_id ≡ c.agent_id)
        × (r.protocol ≡ protocol_version)
        × (r.finished_at ≤ℤ saturating_add now (pos 60)))
unfolding validate_for
validate_for_iff now r c = ground (arith, text_eq_iff r.id c.id, text_eq_iff r.agent_id c.agent_id)
