-- ===== src/Tests/Agents.antt =====
-- The theorems on the checks and on an agent's own state, at concrete inputs.
use s3_mcp_relay.Base.{
  ℕ, ◌<◌, ◌≤◌, ◌≡◌, ◌≢◌, ◌↔◌, ◌⊎◌, ◌||◌, true, false, none, some, List, [], ◌∷◌, ◌++◌, arith, refl,
  map, last, Text, codes, ok, All, length, take, replicate, ℤ, pos, ◌≤ℤ◌, saturating_add, ◌==◌,
  Bool, min,
}
use s3_mcp_relay.Protocol.Types.{Command, CommandKind, ResponsePayload, EventKind}
use s3_mcp_relay.Protocol.Names.{validate_agent_id, validate_share_name, is_id_byte}
use s3_mcp_relay.Protocol.Names.Laws.{
  IsIdByte, IsNameByte, validate_agent_id_iff, validate_share_name_iff,
}
use s3_mcp_relay.Protocol.Checks.{
  protocol_version, new_command, validate_for_agent, validate_for, response_ok,
}
use s3_mcp_relay.Protocol.Checks.Laws.{
  IsRoutedTo, IsTimely, validate_for_agent_iff, new_command_accepted, validate_for_iff,
}
use s3_mcp_relay.Agent.Presence.{fresh, suspended, observed}
use s3_mcp_relay.Agent.Presence.Laws.{
  Sighting, steps, last_peer, must_yield, was_told, suspended-steps, observed_news,
}
use s3_mcp_relay.Agent.Events.{truncate, is_char_boundary, ellipsis}
use s3_mcp_relay.Agent.Events.Laws.{record_all, to_event, record_all-last, truncate_lem}

abbrev is_one_byte : Text → Bool
is_one_byte t = length t == 1

abbrev pull : CommandKind
pull = CommandKind.pull_blob (codes "7") (codes "/tmp/log") 4096

abbrev command : Command
unfolding new_command
command = new_command (codes "1") (pos 1000) (codes "jetson") pull 30 600

validate_for_agent_iff_example :
    (validate_for_agent is_one_byte (pos 1500) command (codes "jetson") 3600 ≡ ok tt)
    ↔ (IsRoutedTo is_one_byte (codes "jetson") command × IsTimely (pos 1500) 3600 command)
validate_for_agent_iff_example =
    validate_for_agent_iff is_one_byte (pos 1500) command (codes "jetson") 3600

named : validate_agent_id (codes "jetson") ≡ ok tt
unfolding validate_agent_id is_id_byte
named = refl

fresh_enough : pos 1000 ≤ℤ saturating_add (pos 1600) (pos 60)
unfolding saturating_add
fresh_enough = omega arith

soon_enough : pos 1600 ≤ℤ saturating_add (pos 1000) (pos (min 600 9223372036854775807))
unfolding saturating_add
soon_enough = omega arith

new_command_accepted_example :
    validate_for_agent is_one_byte
      (pos 1600)
      (new_command (codes "1") (pos 1000) (codes "jetson") pull 30 600)
      (codes "jetson")
      3600
    ≡ ok tt
new_command_accepted_example =
    new_command_accepted is_one_byte (codes "1") (codes "jetson") pull (pos 1000) (pos 1600) 30 600
      3600 (omega arith, omega arith) (omega arith, omega arith) refl named refl fresh_enough
      soon_enough (omega arith) (omega arith)

validate_for_iff_example :
    (validate_for (pos 1700) (response_ok (pos 1650) command ResponsePayload.empty) command ≡ ok tt)
    ↔ (((response_ok (pos 1650) command ResponsePayload.empty).id ≡ command.id)
        × ((response_ok (pos 1650) command ResponsePayload.empty).agent_id ≡ command.agent_id)
        × ((response_ok (pos 1650) command ResponsePayload.empty).protocol ≡ protocol_version)
        × ((response_ok (pos 1650) command ResponsePayload.empty).finished_at
            ≤ℤ saturating_add (pos 1700) (pos 60)))
validate_for_iff_example =
    validate_for_iff (pos 1700) (response_ok (pos 1650) command ResponsePayload.empty) command

validate_agent_id_iff_example : (validate_agent_id (codes "jetson-01") ≡ ok tt) ↔ (
    (1 ≤ length (codes "jetson-01"))
    × (length (codes "jetson-01") ≤ 64)
    × All IsIdByte (codes "jetson-01"))
validate_agent_id_iff_example = validate_agent_id_iff (codes "jetson-01")

validate_share_name_iff_example : (validate_share_name (codes "a..b") ≡ ok tt) ↔ (
    (1 ≤ length (codes "a..b"))
    × (length (codes "a..b") ≤ 128)
    × All IsNameByte (codes "a..b")
    × ((r : Text) → codes "a..b" ≢ b'.' ∷ r)
    × ((u v : Text) → codes "a..b" ≢ u ++ (b'.' ∷ b'.' ∷ v)))
validate_share_name_iff_example = validate_share_name_iff (codes "a..b")

abbrev life : List Sighting
life = Sighting.peer (some (codes "a")) ∷ Sighting.peer none ∷ Sighting.told ∷ []

suspended-steps_example :
    suspended (steps (codes "b") life fresh)
    ≡ (must_yield (codes "b") (last_peer none life) || was_told life)
suspended-steps_example = suspended-steps (codes "b") life

observed_news_example :
    ((observed (codes "b") (some (codes "a")) (steps (codes "b") life fresh)).1 ≡ true)
    ↔ ((other : Text) × (some (codes "a") ≡ some other) × (last_peer none life ≢ some other))
observed_news_example = observed_news (codes "b") life (some (codes "a"))

-- Twenty-five events.
abbrev events : List (ℤ × EventKind × Text)
events = replicate 25 (pos 1, EventKind.poll, codes "timed out")

record_all-last_example : record_all events [] ≡ last 20 (map to_event events)
record_all-last_example = record_all-last events

abbrev long : Text
long = replicate 500 97

truncate_lem_example :
    (length long ≤ 400) × (truncate long ≡ long)
    ⊎ (400 < length long)
      × ((k : ℕ) × (truncate long ≡ take k long ++ ellipsis)
          × (k ≤ 400)
          × (is_char_boundary long k ≡ true)
          × ((j : ℕ) → k < j → j ≤ 400 → is_char_boundary long j ≡ false))
truncate_lem_example = truncate_lem long
