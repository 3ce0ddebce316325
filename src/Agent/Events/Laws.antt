-- ===== src/Agent/Events/Laws.antt =====
-- The ring keeps the newest events, and a long message is cut between two characters.
use s3_mcp_relay.Base.{
  ℕ, zero, suc, ◌-◌, ◌<◌, ◌≤◌, ◌≡◌, ◌⊎◌, inl, inr, true, false, List, [], ◌∷◌, ◌++◌, map, last,
  last-append, append_assoc, append-nil, arith, refl, Text, length, take, ℤ, leb, ◌==◌,
  length-append, length-take, length-drop, Bool-cases,
}
use s3_mcp_relay.Protocol.Types.{AgentEvent, EventKind}
use s3_mcp_relay.Agent.Events.{
  capacity, max_message_bytes, is_char_boundary, boundary_at_most, ellipsis, truncate, record_event,
}

-- The cut is the last character boundary up to the bound.
boundary_at_most_lem :
    (m : Text) (n : ℕ)
    → (boundary_at_most m n ≤ n)
      × (is_char_boundary m (boundary_at_most m n) ≡ true)
      × ((j : ℕ) → boundary_at_most m n < j → j ≤ n → is_char_boundary m j ≡ false)
unfolding boundary_at_most
boundary_at_most_lem m zero =
    (omega arith, unfold is_char_boundary in refl, λ j p q. absurd (omega arith))
boundary_at_most_lem m (suc n) = elim (Bool-cases (is_char_boundary m (suc n))) [
  | inl here ↦ rw here (omega arith, here, λ j p q. absurd (omega arith))
  | inr other ↦
      let (low, on, above) = boundary_at_most_lem m n in
      rw other (omega arith, on, λ j p q. grind (arith, above j))
]

-- A message of at most 400 bytes is kept. A longer one keeps its bytes up to the last character
-- boundary in its first 400 bytes, and an ellipsis is added.
pub truncate_lem :
    (m : Text)
    → (length m ≤ 400) × (truncate m ≡ m)
      ⊎ (400 < length m)
        × ((k : ℕ) × (truncate m ≡ take k m ++ ellipsis)
            × (k ≤ 400)
            × (is_char_boundary m k ≡ true)
            × ((j : ℕ) → k < j → j ≤ 400 → is_char_boundary m j ≡ false))
unfolding truncate
truncate_lem m = elim (Bool-cases (leb (length m) max_message_bytes)) [
  | inl short ↦ inl (ground arith, rw short refl)
  | inr long ↦
      let (low, on, above) = boundary_at_most_lem m max_message_bytes in
      inr (ground arith, (boundary_at_most m max_message_bytes, rw long refl, low, on, above))
]

-- A recorded message has at most 403 bytes.
pub length-truncate : (m : Text) → length (truncate m) ≤ 403
length-truncate m = elim (truncate_lem m) [
  | inl (short, same) ↦ rw same (omega arith)
  | inr (long, (k, same, low, on, above)) ↦
      rw same (omega (arith, length-append (take k m) ellipsis, length-take k m))
]

-- Events in the order in which they were recorded, oldest first, from an empty ring.
unfoldable pub record_all : List (ℤ × EventKind × Text) → List AgentEvent → List AgentEvent
unfolding record_event
record_all [] events = events
record_all ((now, kind, message) ∷ more) events =
    record_all more (record_event now kind message events)

abbrev pub to_event : ℤ × EventKind × Text → AgentEvent
to_event (now, kind, message) = record { at = now; kind = kind; message = truncate message }

record_event-last :
    (now : ℤ) (kind : EventKind) (m : Text) (events : List AgentEvent)
    → length events ≤ 20
    → record_event now kind m events ≡ last 20 (events ++ to_event (now, kind, m) ∷ [])
unfolding record_event
record_event-last now kind m [] h = refl
record_event-last now kind m (x ∷ r) h = elim (Bool-cases (length (x ∷ r) == capacity)) [
  | inl full ↦
      let one : length (x ∷ r ++ to_event (now, kind, m) ∷ []) - 20 ≡ suc zero =
        ground (arith, length-append r (to_event (now, kind, m) ∷ [])) in
      rw (full, one)
  | inr room ↦
      let none : length (x ∷ r ++ to_event (now, kind, m) ∷ []) - 20 ≡ zero =
        ground (arith, length-append r (to_event (now, kind, m) ∷ [])) in
      rw (room, none)
]

record_all_from :
    (es : List (ℤ × EventKind × Text)) (events : List AgentEvent)
    → length events ≤ 20
    → record_all es events ≡ last 20 (events ++ map to_event es)
unfolding record_all
record_all_from [] events h = rw (append-nil events) (ground arith)
record_all_from ((now, kind, m) ∷ more) events h =
    let next = events ++ to_event (now, kind, m) ∷ [] in
    let short : length (last 20 next) ≤ 20 = omega (arith, length-drop (length next - 20) next) in
    rw (record_event-last now kind m events h) (
      rw (record_all_from more (last 20 next) short)
        (rw (last-append 20 next (map to_event more)) (rw append_assoc)))

-- After any sequence of calls of `record_event` on an empty ring, the ring is the newest twenty
-- events of the sequence, oldest first, each with its message cut by `truncate`.
pub record_all-last :
    (es : List (ℤ × EventKind × Text)) → record_all es [] ≡ last 20 (map to_event es)
record_all-last es = record_all_from es [] (omega arith)
