-- ===== src/Agent/Policy/Laws.antt =====
-- What the policy's checks let through.
pub mod Tracked
pub mod Prepared
pub mod Fuel
use s3_mcp_relay.Base.{
  ℕ, zero, suc, ◌+◌, ◌<◌, ◌≤◌, ◌≡◌, ◌≢◌, ◌↔◌, ◌⊎◌, inl, inr, Bool, true, false, not, ◌||◌, ◌&&◌,
  Option, none, some, List, [], ◌∷◌, ◌++◌, arith, refl, sym, ap, ◌∙◌, subst, Text, text_eq,
  text_eq_iff, text_eq_refl, length, ok, err, All, Bool-cases, Option-cases, ◌==◌,
}
use s3_mcp_relay.Failure.{Error, Outcome, Outcome-cases}
use s3_mcp_relay.Effect.{
  Eff, Ensures, Good, Good-continue, Good-pure, continue, pure, fail, request, sample, lift, ◌>>=◌,
}
use s3_mcp_relay.Agent.Policy.{
  Paths, Files, Policy, is_in, non_empty, in_roots, check_canonical, check_existing_path,
  check_new_path, check_write_path, nearest_existing, prepare_new_path, prepare_write_path,
  check_program,
}

abbrev pub IsMember : Text → List Text → Type 0
IsMember x [] = ⊥
IsMember x (y ∷ ys) = (y ≡ x) ⊎ IsMember x ys

is_in_iff : (x : Text) (ys : List Text) → (is_in x ys ≡ true) ↔ IsMember x ys
is_in_iff x [] = (λ h. absurd (ground arith), λ h. absurd h)
is_in_iff x (y ∷ ys) = ground (arith, text_eq_iff y x, is_in_iff x ys)

-- A path that the policy allows: any, or one inside an allowed root.
abbrev pub IsAllowed : Paths → Policy → Text → Type 0
IsAllowed paths policy p =
    (policy.allow_any_path ≡ true)
    ⊎ ((root : Text) × IsMember root policy.allowed_roots × (paths.is_within p root ≡ true))

in_roots_iff :
    (paths : Paths) (policy : Policy) (p : Text) (roots : List Text)
    → (in_roots paths policy p roots ≡ true)
      ↔ ((root : Text) × IsMember root roots × (paths.is_within p root ≡ true))
in_roots_iff paths policy p [] = (λ h. absurd (ground arith), λ h. absurd h.1)
in_roots_iff paths policy p (r ∷ roots) = (
  λ h. elim (Bool-cases (paths.is_within p r)) [
    | inl here ↦ (r, inl refl, here)
    | inr other ↦
        let (root, member, within) = (in_roots_iff paths policy p roots).0 (ground arith) in
        (root, inr member, within)
  ],
  λ (root, member, within). elim member [
    | inl same ↦
        let w : paths.is_within p r ≡ true =
          subst (λ x. paths.is_within p x ≡ true) (sym same) within in
        ground arith
    | inr more ↦ let t = (in_roots_iff paths policy p roots).1 (root, more, within) in ground arith
  ],
)

-- A path passes the check exactly when the policy allows any path or it lies inside an allowed root.
pub check_canonical_iff :
    (paths : Paths) (policy : Policy) (p : Text)
    → (check_canonical paths policy p ≡ ok tt) ↔ IsAllowed paths policy p
unfolding check_canonical
check_canonical_iff paths policy p =
    let (to, from) = in_roots_iff paths policy p policy.allowed_roots in
    (
      λ h. elim (Bool-cases policy.allow_any_path) [
        | inl any_path ↦ inl any_path
        | inr confined ↦ inr (to (ground arith))
      ],
      λ h. elim h [
        | inl any_path ↦ ground arith
        | inr inside ↦ let t = from inside in ground arith
      ],
    )

-- A program that the policy allows: any, or one on the list.
abbrev pub IsRunnable : Policy → Text → Type 0
IsRunnable policy p = (policy.allow_any_program ≡ true) ⊎ IsMember p policy.allowed_programs

-- What the check of a program has established.
pub check_program_lem :
    {W : Type 0} (paths : Paths) (policy : Policy) (files : Files W) (program canonical : Text)
    (w : W)
    → (check_program paths policy files program w).0 ≡ ok canonical
    → (program ≢ [])
      × (paths.is_absolute program ≡ true)
      × ((files.canonicalize program w).0 ≡ some canonical)
      × IsRunnable policy canonical
unfolding check_program
check_program_lem paths policy files program canonical w e =
    elim (Option-cases (files.canonicalize program w).0) [
      | inl bad ↦ absurd (ground arith)
      | inr (c, found) ↦
          let same : c ≡ canonical = ground arith in
          (
            λ n. let z : length program ≡ 0 = ap (length {A = ℕ}) n in ground arith,
            ground arith,
            found ∙ ap some same,
            elim (Bool-cases policy.allow_any_program) [
              | inl any_program ↦ inl any_program
              | inr listed ↦ inr ((is_in_iff canonical policy.allowed_programs).0 (ground arith))
            ],
          )
    ]

-- `a` is `p` or one of the directories above it, and nothing is there at `p` nor at any directory
-- below `a` that leads to it.
pub data IsClear (paths : Paths) (Absent : Text → Type 0) (p : Text) : Text → Type 0 where
  itself : IsClear paths Absent p p
  higher :
      {a b : Text}
      → IsClear paths Absent p a
      → Absent a
      → paths.parent a ≡ some b
      → IsClear paths Absent p b

pub IsClear-map :
    {paths : Paths} {A B : Text → Type 0} (p a : Text)
    → ((x : Text) → A x → B x)
    → IsClear paths A p a
    → IsClear paths B p a
IsClear-map p a f itself = IsClear.itself
IsClear-map p a f (higher {a = c} clear gone up) =
    IsClear.higher (IsClear-map p c f clear) (f c gone) up

pub non_empty_lem : (e : Error) (o : Option Text) (p : Text) → non_empty e o ≡ ok p → o ≡ some p
non_empty_lem e none p h = absurd (ground arith)
non_empty_lem e (some q) p h = ground arith

-- `std::path`: whole components are compared, and a file name is joined below its directory.
pub record IsPaths (paths : Paths) : Type 0 where
  pub within_self : (p : Text) → paths.is_within p p ≡ true
  pub within_trans :
      (p q r : Text)
      → paths.is_within p q ≡ true
      → paths.is_within q r ≡ true
      → paths.is_within p r ≡ true
  pub parent_join :
      (d n v : Text) → paths.file_name v ≡ some n → paths.parent (paths.join d n) ≡ some d
  pub within_join :
      (d n v : Text) → paths.file_name v ≡ some n → paths.is_within (paths.join d n) d ≡ true
  pub parent_shorter : (p q : Text) → paths.parent p ≡ some q → length q < length p
