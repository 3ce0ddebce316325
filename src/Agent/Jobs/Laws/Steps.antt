-- ===== src/Agent/Jobs/Laws/Steps.antt =====
-- The job table through any sequence of starts, endings and cancellations.
use s3_mcp_relay.Base.{
  ◌≡◌, ◌≢◌, ◌⊎◌, inl, inr, true, false, Option, none, some, List, [], ◌∷◌, arith, refl, ◌∙◌, Text,
  text_eq, text_eq_iff, ℤ, Bool-cases, Option-cases, ok, err, eq-false_of_ne,
}
use s3_mcp_relay.Failure.{Error, Outcome-cases}
use s3_mcp_relay.Agent.Jobs.{
  Entry, Table, Shell, Ending, get, alter, is_finished, finished, close, finish, cancel_job, disarm,
  start, launch, has_job, new_entry,
}
use s3_mcp_relay.Agent.Jobs.Laws.{IsDistinct, prune-keeps_running}
use s3_mcp_relay.Agent.Jobs.Laws.WellFormed.{
  IsWellFormed, get-alter, alter-IsDistinct, finish-IsWellFormed, cancel_job-IsWellFormed,
  insert-IsWellFormed,
}

-- One event: a job is asked for, its supervisor ends, or it is cancelled. `shell` answers for the
-- file system and the processes.
pub data Step {W : Type 0} (shell : Shell W) (dir : Text) : Table → Table → Type 0 where
  asked :
      {t : Table} (job program : Text) (args : List Text) (cwd : Option Text)
      (env : List (Text × Text)) (label : Option Text) (w : W)
      → Step shell dir t (start shell dir job program args cwd env label t w).0.1
  ended :
      {t : Table} (job : Text) (ending : Ending) (now : ℤ)
      → Step shell dir t (finish job ending now t)
  cancelled : {t : Table} (job : Text) → Step shell dir t (cancel_job job t).1

pub data Reachable {W : Type 0} (shell : Shell W) (dir : Text) : Table → Type 0 where
  created : Reachable shell dir []
  next : {t u : Table} → Reachable shell dir t → Step shell dir t u → Reachable shell dir u

module _ {W : Type 0} (shell : Shell W) (dir : Text) where
  start-IsWellFormed :
      (job program : Text) (args : List Text) (cwd : Option Text) (env : List (Text × Text))
      (label : Option Text) (t : Table) (w : W)
      → IsWellFormed t
      → IsWellFormed (start shell dir job program args cwd env label t w).0.1
  unfolding start
  start-IsWellFormed job program args cwd env label t w ok_before =
      elim (Bool-cases (has_job job t)) [
        | inl taken ↦ rw taken ok_before
        | inr free ↦ elim (Outcome-cases (launch shell dir job program args cwd env w).0) [
          | inr (bad, failed) ↦ rw free (rw failed ok_before)
          | inl ((pid, now), launched) ↦ rw free (
              rw launched (
                insert-IsWellFormed job (new_entry shell dir job program label now) t
                  (record {
                    named = refl;
                    open_ended = λ _. refl;
                    ended = λ over. absurd (ground arith);
                    disarmed = λ over. absurd (ground arith);
                  })
                  refl ok_before))
        ]
      ]

  Step-IsWellFormed : (t u : Table) → Step shell dir t u → IsWellFormed t → IsWellFormed u
  Step-IsWellFormed t _ (Step.asked job program args cwd env label w) h =
      start-IsWellFormed job program args cwd env label t w h
  Step-IsWellFormed t _ (Step.ended job ending now) h = finish-IsWellFormed job ending now t h
  Step-IsWellFormed t _ (Step.cancelled job) h = cancel_job-IsWellFormed job t h

  -- After any sequence of starts, endings and cancellations the job table is well formed: a job has
  -- one entry, under its own id; a running job has no end; a finished one has an end and no way to
  -- cancel it; and at most fifty finished jobs are kept.
  pub Reachable-IsWellFormed : (t : Table) → Reachable shell dir t → IsWellFormed t
  unfolding finished
  Reachable-IsWellFormed _ Reachable.created = record {
    distinct = tt;
    consistent = tt;
    bounded = omega arith;
  }
  Reachable-IsWellFormed u (Reachable.next {t} r step) =
      Step-IsWellFormed t u step (Reachable-IsWellFormed t r)

-- The end of one job, whatever it is, leaves every other running job as it was.
pub finish-keeps_running :
    (job k : Text) (ending : Ending) (now : ℤ) (t : Table) (e : Entry)
    → IsDistinct t
    → job ≢ k
    → get k t ≡ some e
    → is_finished e ≡ false
    → get k (finish job ending now t) ≡ some e
unfolding finish
finish-keeps_running job k ending now t e d ne found live =
    let f = close ending now in
    let other : text_eq job k ≡ false = eq-false_of_ne _ (λ m. ne ((text_eq_iff job k).0 m)) in
    prune-keeps_running (alter f job t) k e (alter-IsDistinct f job t d)
      (get-alter f job k t other ∙ found) live

get-alter_same :
    (f : Entry → Entry) (j : Text) (t : Table) (e : Entry)
    → get j t ≡ some e
    → get j (alter f j t) ≡ some (f e)
unfolding get alter
get-alter_same f j [] e h = absurd (ground arith)
get-alter_same f j ((i, d) ∷ t) e h = ground (arith, get-alter_same f j t e)

-- What a cancellation answers: an unknown job, one that is over and one that is being cancelled
-- are refused and the table stays as it is; a running job is cancelled once, and a second attempt
-- before it has ended is refused.
pub cancel_job_lem :
    (job : Text) (t : Table)
    → (get job t ≡ none) × (cancel_job job t ≡ (err Error.no_such_job, t))
      ⊎ ((e : Entry) × (get job t ≡ some e)
          × ((is_finished e ≡ true) × (cancel_job job t ≡ (err Error.job_already_finished, t))
              ⊎ (is_finished e ≡ false)
                × (e.cancel ≡ false)
                × (cancel_job job t ≡ (err Error.job_being_cancelled, t))
              ⊎ (is_finished e ≡ false)
                × (e.cancel ≡ true)
                × ((cancel_job job t).0 ≡ ok tt)
                × ((cancel_job job (cancel_job job t).1).0 ≡ err Error.job_being_cancelled)))
unfolding cancel_job
cancel_job_lem job t = elim (Option-cases (get job t)) [
  | inl absent ↦ inl (absent, ground arith)
  | inr (e, found) ↦ inr (
    e,
    found,
    elim (Bool-cases (is_finished e)) [
      | inl over ↦ inl (over, ground arith)
      | inr live ↦ inr (elim (Bool-cases e.cancel) [
        | inr spent ↦ inl (live, spent, ground arith)
        | inl armed ↦
            let again = get-alter_same disarm job t e found in
            inr (live, armed, ground arith, ground arith)
      ])
    ],
  )
]
