-- ===== src/Agent/Policy/Laws/Fuel.antt =====
-- The search for an ancestor that exists ends: a parent is shorter than its path.
use s3_mcp_relay.Base.{
  ℕ, zero, suc, ◌<◌, ◌≡◌, ◌≢◌, Option, none, some, Text, length, err, arith, inl, inr, Bool-cases,
  ◌==◌,
}
use s3_mcp_relay.Failure.{Error}
use s3_mcp_relay.Effect.{IsFueled, IsFueled-continue, lift}
use s3_mcp_relay.Agent.Policy.{Paths, Files, Policy, non_empty, nearest_existing}
use s3_mcp_relay.Agent.Policy.Laws.{IsPaths, non_empty_lem}

module _ {W : Type 0} (paths : Paths) (policy : Policy) (files : Files W) (l : IsPaths paths) where
  non_empty-IsFueled :
      (o : Option Text) → non_empty Error.no_existing_ancestor o ≢ err Error.out_of_fuel
  non_empty-IsFueled none e = absurd (ground arith)
  non_empty-IsFueled (some p) e = elim (Bool-cases (length p == 0)) [
    | inl empty ↦ absurd (ground arith)
    | inr filled ↦ absurd (ground arith)
  ]

  nearest-IsFueled :
      (fuel : ℕ) (p : Text) (w : W)
      → length p < fuel
      → IsFueled (nearest_existing paths policy files fuel p w)
  unfolding nearest_existing
  nearest-IsFueled zero p w h = absurd (omega arith)
  nearest-IsFueled (suc fuel) p w h = elim (Bool-cases (files.exists p w).0) [
    | inl there ↦ rw there (λ e. absurd (ground arith))
    | inr missing ↦ rw missing (
        IsFueled-continue (λ q v. paths.parent p ≡ some q) _
          (lift (non_empty Error.no_existing_ancestor (paths.parent p)) (files.exists p w).1)
          (non_empty-IsFueled (paths.parent p)) (λ q e. non_empty_lem _ _ q e)
          (λ q v up. nearest-IsFueled fuel q v (let s = l.parent_shorter p q up in omega arith)))
  ]

-- The search for the nearest ancestor that exists, with the rounds that `prepare_write_path` gives
-- it, ends with an ancestor or the error that there is none, whatever exists.
pub nearest_existing-fuel :
    {W : Type 0} (paths : Paths) (policy : Policy) (files : Files W) (p : Text) (w : W)
    → IsPaths paths
    → (nearest_existing paths policy files (suc (length p)) p w).0 ≢ err Error.out_of_fuel
nearest_existing-fuel paths policy files p w l =
    nearest-IsFueled paths policy files l (suc (length p)) p w (omega arith)
