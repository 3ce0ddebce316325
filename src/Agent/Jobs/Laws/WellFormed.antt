-- ===== src/Agent/Jobs/Laws/WellFormed.antt =====
-- Well-formed job tables, and that the operations on a table keep them so.
use s3_mcp_relay.Base.{
  ◌≤◌, ◌≡◌, ◌⊎◌, inl, inr, true, false, none, some, List, [], ◌∷◌, arith, refl, ap, sym, ◌∙◌, subst,
  Text, text_eq, text_eq_iff, text_eq_refl, length, take, ℤ, leb, sort, Bool-cases, Option-cases,
}
use s3_mcp_relay.Protocol.Types.{is_terminal}
use s3_mcp_relay.Agent.Jobs.{
  Entry, Table, Ending, get, remove, remove_all, insert, alter, is_finished, finished,
  finished_retained, ended_before, prune, outcome_of, close, finish, cancel_job, disarm,
}
use s3_mcp_relay.Agent.Jobs.Laws.{IsDistinct, get-remove, prune-bounded}

-- An entry stands under its job's id. A running job has no end; a finished one has an end and can
-- no longer be cancelled.
pub record IsConsistent (k : Text) (e : Entry) : Type 0 where
  pub named : e.status.job ≡ k
  pub open_ended : is_finished e ≡ false → e.status.finished_at ≡ none
  pub ended : is_finished e ≡ true → (at : ℤ) × (e.status.finished_at ≡ some at)
  pub disarmed : is_finished e ≡ true → e.cancel ≡ false

abbrev pub AllConsistent : Table → Type 0
AllConsistent [] = Unit
AllConsistent ((k, e) ∷ t) = IsConsistent k e × AllConsistent t

pub record IsWellFormed (t : Table) : Type 0 where
  pub distinct : IsDistinct t
  pub consistent : AllConsistent t
  pub bounded : length (finished t) ≤ 50

remove-IsDistinct : (j : Text) (t : Table) → IsDistinct t → IsDistinct (remove j t)
unfolding remove
remove-IsDistinct j [] d = tt
remove-IsDistinct j ((k, e) ∷ t) d = elim (Bool-cases (text_eq k j)) [
  | inl same ↦ rw same (remove-IsDistinct j t d.1)
  | inr other ↦ rw other ((let g = get-remove k j t in ground arith, remove-IsDistinct j t d.1))
]

remove-AllConsistent : (j : Text) (t : Table) → AllConsistent t → AllConsistent (remove j t)
unfolding remove
remove-AllConsistent j [] c = tt
remove-AllConsistent j ((k, e) ∷ t) c = elim (Bool-cases (text_eq k j)) [
  | inl same ↦ rw same (remove-AllConsistent j t c.1)
  | inr other ↦ rw other (c.0, remove-AllConsistent j t c.1)
]

remove-finished : (j : Text) (t : Table) → length (finished (remove j t)) ≤ length (finished t)
unfolding remove finished
remove-finished j [] = omega arith
remove-finished j ((k, e) ∷ t) = ground (arith, remove-finished j t)

remove_all-keeps :
    (P : Table → Type 0)
    → ((j : Text) (t : Table) → P t → P (remove j t))
    → (ids : List (Text × ℤ)) (t : Table) → P t
    → P (remove_all ids t)
unfolding remove_all
remove_all-keeps P each [] t h = h
remove_all-keeps P each ((id, at) ∷ ids) t h =
    remove_all-keeps P each ids (remove id t) (each id t h)

prune-keeps :
    (P : Table → Type 0)
    → ((j : Text) (t : Table) → P t → P (remove j t))
    → (t : Table) → P t
    → P (prune t)
unfolding prune
prune-keeps P each t h = elim (Bool-cases (leb (length (finished t)) finished_retained)) [
  | inl few ↦ rw few h
  | inr many ↦ rw many (remove_all-keeps P each (take _ (sort ended_before (finished t))) t h)
]

pub get-alter :
    (f : Entry → Entry) (j k : Text) (t : Table)
    → text_eq j k ≡ false
    → get k (alter f j t) ≡ get k t
unfolding get alter
get-alter f j k [] ne = refl
get-alter f j k ((i, e) ∷ t) ne = elim (Bool-cases (text_eq i j)) [
  | inl same ↦
      let keys : text_eq i k ≡ text_eq j k = ap (λ x. text_eq x k) ((text_eq_iff i j).0 same) in
      ground arith
  | inr other ↦ ground (arith, get-alter f j k t ne)
]

alter-absent :
    (f : Entry → Entry) (j k : Text) (t : Table) → get k t ≡ none → get k (alter f j t) ≡ none
unfolding get alter
alter-absent f j k [] h = refl
alter-absent f j k ((i, e) ∷ t) h = ground (arith, alter-absent f j k t)

pub alter-IsDistinct :
    (f : Entry → Entry) (j : Text) (t : Table) → IsDistinct t → IsDistinct (alter f j t)
unfolding alter
alter-IsDistinct f j [] d = tt
alter-IsDistinct f j ((k, e) ∷ t) d = elim (Bool-cases (text_eq k j)) [
  | inl same ↦ rw same d
  | inr other ↦ rw other (alter-absent f j k t d.0, alter-IsDistinct f j t d.1)
]

alter-AllConsistent :
    (f : Entry → Entry) (j : Text) (t : Table)
    → ((k : Text) (e : Entry) → IsConsistent k e → IsConsistent k (f e))
    → AllConsistent t
    → AllConsistent (alter f j t)
unfolding alter
alter-AllConsistent f j [] each c = tt
alter-AllConsistent f j ((k, e) ∷ t) each c = elim (Bool-cases (text_eq k j)) [
  | inl same ↦ rw same (each k e c.0, c.1)
  | inr other ↦ rw other (c.0, alter-AllConsistent f j t each c.1)
]

outcome_of-finished : (ending : Ending) → is_terminal (outcome_of ending).0 ≡ true
unfolding outcome_of
outcome_of-finished (Ending.exited code true) = refl
outcome_of-finished (Ending.exited code false) = refl
outcome_of-finished (Ending.wait_failed error) = refl
outcome_of-finished (Ending.supervisor_failed error) = refl
outcome_of-finished (Ending.out_of_time secs) = refl
outcome_of-finished Ending.was_cancelled = refl

close-IsConsistent :
    (ending : Ending) (now : ℤ) (k : Text) (e : Entry)
    → IsConsistent k e
    → (is_finished (close ending now e) ≡ true) × IsConsistent k (close ending now e)
unfolding close outcome_of
close-IsConsistent ending now k e c =
    let over : is_finished (close ending now e) ≡ true = outcome_of-finished ending in
    (
      over,
      record {
        named = c.named;
        open_ended = λ live. absurd (ground arith);
        ended = λ _. (now, refl);
        disarmed = λ _. refl;
      },
    )

disarm-IsConsistent : (k : Text) (e : Entry) → IsConsistent k e → IsConsistent k (disarm e)
disarm-IsConsistent k e c = record {
  named = c.named;
  open_ended = c.open_ended;
  ended = c.ended;
  disarmed = λ _. refl;
}

disarm-finished : (j : Text) (t : Table) → finished (alter disarm j t) ≡ finished t
unfolding finished alter
disarm-finished j [] = refl
disarm-finished j ((k, e) ∷ t) = ground (arith, disarm-finished j t)

pub finish-IsWellFormed :
    (job : Text) (ending : Ending) (now : ℤ) (t : Table)
    → IsWellFormed t
    → IsWellFormed (finish job ending now t)
unfolding finish
finish-IsWellFormed job ending now t w =
    let f = close ending now in
    let closed = alter f job t in
    record {
      distinct =
          prune-keeps IsDistinct remove-IsDistinct closed (alter-IsDistinct f job t w.distinct);
      consistent = prune-keeps AllConsistent remove-AllConsistent closed (
          alter-AllConsistent f job t (λ k e c. (close-IsConsistent ending now k e c).1)
            w.consistent);
      bounded = prune-bounded closed;
    }

cancel_job-table :
    (job : Text) (t : Table)
    → ((cancel_job job t).1 ≡ t) ⊎ ((cancel_job job t).1 ≡ alter disarm job t)
unfolding cancel_job
cancel_job-table job t = elim (Option-cases (get job t)) [
  | inl absent ↦ inl (ground arith)
  | inr (e, found) ↦ elim (Bool-cases (is_finished e)) [
    | inl over ↦ inl (ground arith)
    | inr live ↦ elim (Bool-cases e.cancel) [
      | inl armed ↦ inr (ground arith)
      | inr spent ↦ inl (ground arith)
    ]
  ]
]

pub cancel_job-IsWellFormed :
    (job : Text) (t : Table) → IsWellFormed t → IsWellFormed (cancel_job job t).1
cancel_job-IsWellFormed job t w =
    let disarmed : IsWellFormed (alter disarm job t) = record {
      distinct = alter-IsDistinct disarm job t w.distinct;
      consistent = alter-AllConsistent disarm job t disarm-IsConsistent w.consistent;
      bounded = rw (disarm-finished job t) w.bounded;
    } in
    elim (cancel_job-table job t) [
      | inl same ↦ subst IsWellFormed (sym same) w
      | inr same ↦ subst IsWellFormed (sym same) disarmed
    ]

pub insert-IsWellFormed :
    (job : Text) (e : Entry) (t : Table)
    → IsConsistent job e
    → is_finished e ≡ false
    → IsWellFormed t
    → IsWellFormed (insert job e t)
unfolding insert finished
insert-IsWellFormed job e t c live w = record {
  distinct =
      (get-remove job job t ∙ rw (text_eq_refl job) refl, remove-IsDistinct job t w.distinct);
  consistent = (c, remove-AllConsistent job t w.consistent);
  bounded = rw live (omega (arith, remove-finished job t, w.bounded));
}
