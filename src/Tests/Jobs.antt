-- ===== src/Tests/Jobs.antt =====
-- The theorems on the job table at a table with fifty-one finished jobs and a running one.
use s3_mcp_relay.Base.{
  ℕ, zero, suc, ◌≤◌, ◌≡◌, ◌⊎◌, inl, inr, Bool, true, false, Option, none, some, [], ◌∷◌, arith,
  refl, Text, codes, text_eq, text_eq_iff, ℤ, pos, ◌≤ℤ◌, sort, insert_sorted, ok, err, Bool-cases,
}
use s3_mcp_relay.Failure.{Error}
use s3_mcp_relay.Protocol.Types.{JobState}
use s3_mcp_relay.Agent.Jobs.{
  Entry, Table, Shell, Ending, get, remove, remove_all, is_finished, finish_time, finished, prune,
  finish, cancel_job, start,
}
use s3_mcp_relay.Agent.Jobs.Laws.{IsDistinct}
use s3_mcp_relay.Agent.Jobs.Laws.Newest.{prune-keeps_newest}
use s3_mcp_relay.Agent.Jobs.Laws.WellFormed.{IsWellFormed}
use s3_mcp_relay.Agent.Jobs.Laws.Steps.{
  Step, Reachable, Reachable-IsWellFormed, finish-keeps_running, cancel_job_lem,
}

abbrev entry : JobState → Text → Option ℤ → Bool → Entry
entry state job at cancel = record {
  status = record {
    job = job;
    label = none;
    program = codes "/bin/train";
    state = state;
    started_at = pos 0;
    finished_at = at;
    exit_code = none;
    error = none;
    stdout_path = [];
    stderr_path = [];
  };
  cancel = cancel;
}

-- Jobs 0 to n - 1, each finished at the time that is its number.
unfoldable over : ℕ → Table
over zero = []
over (suc n) = (n ∷ [], entry JobState.succeeded (n ∷ []) (some (pos n)) false) ∷ over n

abbrev live : Entry
live = entry JobState.running (99 ∷ []) none true

abbrev jobs : Table
jobs = (99 ∷ [], live) ∷ over 51

over-absent : (k n : ℕ) → n ≤ k → get (k ∷ []) (over n) ≡ none
unfolding get over
over-absent k zero h = refl
over-absent k (suc n) h =
    let ne : text_eq (n ∷ []) (k ∷ []) ≡ false = elim (Bool-cases (text_eq (n ∷ []) (k ∷ []))) [
      | inl same ↦ absurd (let e = (text_eq_iff (n ∷ []) (k ∷ [])).0 same in ground arith)
      | inr other ↦ other
    ] in
    let rest = over-absent k n (omega arith) in rw ne rest

over-IsDistinct : (n : ℕ) → IsDistinct (over n)
unfolding over
over-IsDistinct zero = tt
over-IsDistinct (suc n) = (over-absent n n (omega arith), over-IsDistinct n)

jobs-IsDistinct : IsDistinct jobs
jobs-IsDistinct = (over-absent 99 51 (omega arith), over-IsDistinct 51)

live_there : get (99 ∷ []) jobs ≡ some live
unfolding get text_eq
live_there = refl

first_gone : get (0 ∷ []) (prune jobs) ≡ none
unfolding get text_eq prune finished remove_all remove sort insert_sorted over
first_gone = refl

next_kept :
    get (1 ∷ []) (prune jobs) ≡ some (entry JobState.succeeded (1 ∷ []) (some (pos 1)) false)
unfolding get text_eq prune finished remove_all remove sort insert_sorted over
next_kept = refl

first_there : get (0 ∷ []) jobs ≡ some (entry JobState.succeeded (0 ∷ []) (some (pos 0)) false)
unfolding get text_eq over
first_there = refl

prune-keeps_newest_example :
    finish_time (entry JobState.succeeded (0 ∷ []) (some (pos 0)) false)
    ≤ℤ finish_time (entry JobState.succeeded (1 ∷ []) (some (pos 1)) false)
prune-keeps_newest_example =
    prune-keeps_newest jobs (0 ∷ []) (1 ∷ [])
      (entry JobState.succeeded (0 ∷ []) (some (pos 0)) false)
      (entry JobState.succeeded (1 ∷ []) (some (pos 1)) false) jobs-IsDistinct first_there
      first_gone next_kept refl

finish-keeps_running_example :
    get (99 ∷ []) (finish (0 ∷ []) Ending.was_cancelled (pos 7) jobs) ≡ some live
finish-keeps_running_example =
    finish-keeps_running (0 ∷ []) (99 ∷ []) Ending.was_cancelled (pos 7) jobs live jobs-IsDistinct
      (λ e. ground arith) live_there refl

abbrev shell : Shell (Unit {0})
shell = record {
  create = λ path w. (some tt, w);
  spawn = λ program args cwd env w. (some (some 17), w);
  now_unix = λ w. (pos 5, w);
}

abbrev one_job : Table
one_job = (start shell (codes "/jobs") (codes "j") (codes "/bin/train") [] none [] none [] tt).0.1

abbrev after_cancel : Table
after_cancel = (cancel_job (codes "j") one_job).1

reached : Reachable shell (codes "/jobs") after_cancel
reached =
    Reachable.next
      (Reachable.next Reachable.created
        (Step.asked (codes "j") (codes "/bin/train") [] none [] none tt))
      (Step.cancelled (codes "j"))

Reachable-IsWellFormed_example : IsWellFormed after_cancel
Reachable-IsWellFormed_example = Reachable-IsWellFormed shell (codes "/jobs") after_cancel reached

cancel_job_lem_example :
    (get (99 ∷ []) jobs ≡ none) × (cancel_job (99 ∷ []) jobs ≡ (err Error.no_such_job, jobs))
    ⊎ ((e : Entry) × (get (99 ∷ []) jobs ≡ some e)
        × ((is_finished e ≡ true)
              × (cancel_job (99 ∷ []) jobs ≡ (err Error.job_already_finished, jobs))
            ⊎ (is_finished e ≡ false)
              × (e.cancel ≡ false)
              × (cancel_job (99 ∷ []) jobs ≡ (err Error.job_being_cancelled, jobs))
            ⊎ (is_finished e ≡ false)
              × (e.cancel ≡ true)
              × ((cancel_job (99 ∷ []) jobs).0 ≡ ok tt)
              × ((cancel_job (99 ∷ []) (cancel_job (99 ∷ []) jobs).1).0
                  ≡ err Error.job_being_cancelled)))
cancel_job_lem_example = cancel_job_lem (99 ∷ []) jobs
