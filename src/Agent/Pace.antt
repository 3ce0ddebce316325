-- ===== src/Agent/Pace.antt =====
-- `PollPolicy` and `bounded_env` of crates/agent/src/main.rs: how often the agent looks for work.
-- Durations are in milliseconds.
use s3_mcp_relay.Base.{
  inl, inr, ℕ, ◌*◌, ◌≤◌, ◌≡◌, min, Bool, true, false, not, ◌||◌, ◌&&◌, Option, none, some, Text,
  codes, text_eq, ok, err, arith, leb, ltb, if◌then◌else◌, Bool-cases, Option-cases,
}
use s3_mcp_relay.Failure.{Error, Outcome, Outcome-cases, ◌>>=◌}

pub record PollPolicy : Type 0 where
  pub active : ℕ
  pub idle : ℕ
  pub full_scan : ℕ
  pub use_doorbell : Bool

-- `bounded_env`, on the value of the variable; `parse` is `str::parse` to a `u64`.
unfoldable pub bounded_env : (Text → Option ℕ) → Option Text → ℕ → ℕ → ℕ → Outcome ℕ
bounded_env parse none default low high =
    if leb low default && leb default high then ok default else err Error.malformed_setting
bounded_env parse (some text) default low high = elim (parse text) [
  | none ↦ err Error.malformed_setting
  | some value ↦ if leb low value && leb value high then ok value else err Error.malformed_setting
]

-- `matches!(value.to_ascii_lowercase().as_str(), "0" | "false" | "no")`
abbrev pub is_off : (Text → Text) → Text → Bool
is_off lower value =
    text_eq (lower value) (codes "0")
    || text_eq (lower value) (codes "false")
    || text_eq (lower value) (codes "no")

abbrev pub rings : (Text → Text) → Option Text → Bool
rings lower none = true
rings lower (some value) = not (is_off lower value)

-- `PollPolicy::from_env`, on the values of AGENT_POLL_MS, AGENT_POLL_MAX_MS, AGENT_FULL_SCAN_SECS
-- and AGENT_DOORBELL.
unfoldable pub from_env :
    (Text → Option ℕ)
    → (Text → Text)
    → Option Text
    → Option Text
    → Option Text
    → Option Text
    → Outcome PollPolicy
unfolding bounded_env
from_env parse lower poll_ms poll_max_ms full_scan_secs doorbell = do
  active ← bounded_env parse poll_ms 200 100 60000
  idle ← bounded_env parse poll_max_ms 5000 100 300000
  if ltb idle active then err Error.malformed_setting else do
    full_scan ← bounded_env parse full_scan_secs 60 5 3600
    ok (record {
      active = active;
      idle = idle;
      full_scan = full_scan * 1000;
      use_doorbell = rings lower doorbell;
    })

-- The next interval.
unfoldable pub next_interval : PollPolicy → Bool → ℕ → ℕ
next_interval poll worked interval = if worked then poll.active else min (interval * 2) poll.idle

bounded_env_lem :
    (parse : Text → Option ℕ) (value : Option Text) (default low high n : ℕ)
    → bounded_env parse value default low high ≡ ok n
    → (low ≤ n) × (n ≤ high)
unfolding bounded_env
bounded_env_lem parse none default low high n e =
    elim (Bool-cases (leb low default && leb default high)) [
      | inl inside ↦ ground arith
      | inr outside ↦ absurd (ground arith)
    ]
bounded_env_lem parse (some text) default low high n e = elim (Option-cases (parse text)) [
  | inl bad ↦ absurd (ground arith)
  | inr (v, read) ↦ elim (Bool-cases (leb low v && leb v high)) [
    | inl inside ↦ ground arith
    | inr outside ↦ absurd (ground arith)
  ]
]

-- The settings that are accepted.
abbrev pub IsPaced : PollPolicy → Type 0
IsPaced poll = (100 ≤ poll.active) × (poll.active ≤ poll.idle) × (poll.idle ≤ 300000)

pub from_env_lem :
    (parse : Text → Option ℕ) (lower : Text → Text) (a b c d : Option Text) (poll : PollPolicy)
    → from_env parse lower a b c d ≡ ok poll
    → IsPaced poll
unfolding from_env
from_env_lem parse lower a b c d poll e = elim (Outcome-cases (bounded_env parse a 200 100 60000)) [
  | inr bad ↦ absurd (ground arith)
  | inl (active, read_a) ↦ elim (Outcome-cases (bounded_env parse b 5000 100 300000)) [
    | inr bad ↦ absurd (ground arith)
    | inl (idle, read_b) ↦ elim (Outcome-cases (bounded_env parse c 60 5 3600)) [
      | inr bad ↦ absurd (ground arith)
      | inl (scan, read_c) ↦
          let x = bounded_env_lem parse a 200 100 60000 active read_a in
          let y = bounded_env_lem parse b 5000 100 300000 idle read_b in ground arith
    ]
  ]
]

pub next_interval-keeps :
    (poll : PollPolicy) (worked : Bool) (n : ℕ)
    → IsPaced poll
    → (poll.active ≤ n) × (n ≤ poll.idle)
    → (poll.active ≤ next_interval poll worked n) × (next_interval poll worked n ≤ poll.idle)
unfolding next_interval
next_interval-keeps poll true n paced h = ground arith
next_interval-keeps poll false n paced h = ground arith
