-- ===== src/Agent/Events.antt =====
-- `EventLog` of crates/agent/src/events.rs: a small ring of recent problems. The queue behind the
-- mutex is a list with its front at the head; no holder of the lock panics, so the branches for a
-- poisoned lock are left out. The clock is an argument.
pub mod Laws
use s3_mcp_relay.Base.{
  ℕ, zero, suc, Bool, true, false, ◌||◌, List, [], ◌∷◌, ◌++◌, Text, length, take, drop, ℤ, leb, ltb,
  ◌==◌, if◌then◌else◌,
}
use s3_mcp_relay.Protocol.Types.{AgentEvent, EventKind}

abbrev pub capacity : ℕ
capacity = 20

abbrev pub max_message_bytes : ℕ
max_message_bytes = 400

-- A byte that does not continue a character.
abbrev pub is_lead : ℕ → Bool
is_lead b = ltb b 128 || leb 192 b

abbrev pub leads : List ℕ → Bool
leads [] = false
leads (b ∷ _) = is_lead b

-- `str::is_char_boundary`
unfoldable pub is_char_boundary : Text → ℕ → Bool
is_char_boundary message i = i == 0 || i == length message || leads (drop i message)

-- The loop `while end > 0 && !message.is_char_boundary(end) { end -= 1; }`.
unfoldable pub boundary_at_most : Text → ℕ → ℕ
boundary_at_most message zero = zero
boundary_at_most message (suc end) =
    let lower = boundary_at_most message end in
    if is_char_boundary message (suc end) then suc end else lower

-- The three bytes of `…`.
abbrev pub ellipsis : Text
ellipsis = 0xe2 ∷ 0x80 ∷ 0xa6 ∷ []

unfoldable pub truncate : Text → Text
truncate message =
    if leb (length message) max_message_bytes
    then message
    else take (boundary_at_most message max_message_bytes) message ++ ellipsis

abbrev pub pop_front : List AgentEvent → List AgentEvent
pop_front [] = []
pop_front (_ ∷ events) = events

unfoldable pub record_event : ℤ → EventKind → Text → List AgentEvent → List AgentEvent
unfolding truncate
record_event now kind message events =
    let event : AgentEvent = record { at = now; kind = kind; message = truncate message } in
    let kept = if length events == capacity then pop_front events else events in kept ++ event ∷ []
