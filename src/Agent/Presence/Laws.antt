-- ===== src/Agent/Presence/Laws.antt =====
-- Who works when two processes share an identity.
use s3_mcp_relay.Base.{
  ◌≡◌, ◌≢◌, ◌↔◌, inl, inr, Bool, true, false, not, ◌||◌, Option, none, some, List, [], ◌∷◌, arith,
  refl, ap, subst, Bool-cases, Text, text_eq, text_lt, text_eq_iff, text_lt-trichotomy,
  text_lt-asymm,
}
use s3_mcp_relay.Agent.Presence.{PresenceState, fresh, suspended, stand_down, is_other, observed}

-- Of two processes that see each other under one identity, neither of them told to stand down,
-- exactly one keeps working: each is suspended exactly when the other is not.
pub observed_exactly_one :
    (a b : Text) (s t : PresenceState)
    → a ≢ b
    → s.stood_down ≡ false
    → t.stood_down ≡ false
    → suspended (observed a (some b) s).0 ≡ not (suspended (observed b (some a) t).0)
unfolding suspended observed
observed_exactly_one a b s t ne ds dt =
    ground (arith, text_lt-trichotomy a b, text_lt-asymm a b, text_lt-asymm b a)

-- What can happen to a process: a heartbeat is read back, or the operator tells it to stand down.
pub data Sighting : Type 0 where
  peer : Option Text → Sighting
  told : Sighting

unfoldable pub step : Text → Sighting → PresenceState → PresenceState
unfolding observed stand_down
step mine (peer other) s = (observed mine other s).0
step mine told s = stand_down s

unfoldable pub steps : Text → List Sighting → PresenceState → PresenceState
unfolding step
steps mine [] s = s
steps mine (e ∷ es) s = steps mine es (step mine e s)

abbrev pub was_told : List Sighting → Bool
was_told [] = false
was_told (told ∷ es) = true
was_told (peer _ ∷ es) = was_told es

abbrev pub last_peer : Option Text → List Sighting → Option Text
last_peer seen [] = seen
last_peer seen (told ∷ es) = last_peer seen es
last_peer seen (peer other ∷ es) = last_peer other es

-- `mine > other`, where there is another.
abbrev pub must_yield : Text → Option Text → Bool
must_yield mine none = false
must_yield mine (some other) = text_lt other mine

steps_from :
    (mine : Text) (es : List Sighting) (s : PresenceState)
    → s.yielded ≡ must_yield mine s.conflict_with
    → let t = steps mine es s in
      (t.conflict_with ≡ last_peer s.conflict_with es)
      × (t.yielded ≡ must_yield mine t.conflict_with)
      × (t.stood_down ≡ (s.stood_down || was_told es))
unfolding steps
steps_from mine [] s h = (refl, h, ground arith)
steps_from mine (told ∷ es) s h =
    ground (arith, steps_from mine es (record s { stood_down = true }) h)
steps_from mine (peer none ∷ es) s h =
    steps_from mine es (record s { conflict_with = none; yielded = false }) refl
steps_from mine (peer (some other) ∷ es) s h =
    steps_from mine es (record s { conflict_with = some other; yielded = text_lt other mine }) refl

-- After any sequence of sightings and orders a process is suspended exactly when it was told to
-- stand down at some point, or the peer that it saw last is there and has the lower instance id.
-- So an order is never undone, and a collision that has gone leaves no trace.
pub suspended-steps :
    (mine : Text) (es : List Sighting)
    → suspended (steps mine es fresh) ≡ (must_yield mine (last_peer none es) || was_told es)
unfolding suspended
suspended-steps mine es = ground (arith, steps_from mine es fresh refl)

is_other_iff :
    (seen : Option Text) (other : Text) → (is_other seen other ≡ true) ↔ (seen ≢ some other)
is_other_iff none other = (λ h e. cc, λ h. refl)
is_other_iff (some a) other = (
  λ h e. ground (arith, text_eq_iff a other),
  λ h. elim (Bool-cases (text_eq a other)) [
    | inl same ↦ absurd (h (ap some ((text_eq_iff a other).0 same)))
    | inr ne ↦ rw ne
  ],
)

-- Whatever a process has seen since it started, a sighting is news exactly when it names a peer and
-- this peer is not the one that the last sighting before it named.
pub observed_news :
    (mine : Text) (es : List Sighting) (seen : Option Text)
    → ((observed mine seen (steps mine es fresh)).1 ≡ true)
      ↔ ((other : Text) × (seen ≡ some other) × (last_peer none es ≢ some other))
unfolding observed
observed_news mine es none =
    (λ h. absurd (ground arith), λ (other, named, new). absurd (ground arith))
observed_news mine es (some other) =
    let news = is_other_iff (last_peer none es) other in
    rw ((steps_from mine es fresh refl).0) (
      λ h. (other, refl, news.0 h),
      λ (other', named, new).
          let same : other' ≡ other = ground arith in
          news.1 (subst (λ x. last_peer none es ≢ some x) same new),
    )
