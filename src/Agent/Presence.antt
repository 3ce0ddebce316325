-- ===== src/Agent/Presence.antt =====
-- `Presence` of crates/agent/src/main.rs: what a process knows about others that claim its
-- identity. The state is the one behind the mutex; no holder of the lock panics, so the branches
-- for a poisoned lock are left out.
pub mod Laws
use s3_mcp_relay.Base.{Bool, true, false, not, ◌||◌, Option, none, some, Text, text_eq, text_lt}

pub record PresenceState : Type 0 where
  pub conflict_with : Option Text
  pub yielded : Bool
  pub stood_down : Bool

-- `Presence::default()`
abbrev pub fresh : PresenceState
fresh = record { conflict_with = none; yielded = false; stood_down = false }

unfoldable pub suspended : PresenceState → Bool
suspended s = s.yielded || s.stood_down

unfoldable pub snapshot : PresenceState → Option Text × Bool
snapshot s = (s.conflict_with, s.yielded || s.stood_down)

unfoldable pub stand_down : PresenceState → PresenceState
stand_down s = record s { stood_down = true }

-- `state.conflict_with.as_deref() != Some(other)`
abbrev pub is_other : Option Text → Text → Bool
is_other none other = true
is_other (some seen) other = not (text_eq seen other)

-- The new state, and whether the sighting is news.
unfoldable pub observed : Text → Option Text → PresenceState → PresenceState × Bool
observed mine (some other) s = (
  record s { conflict_with = some other; yielded = text_lt other mine },
  is_other s.conflict_with other,
)
observed mine none s = (record s { conflict_with = none; yielded = false }, false)
