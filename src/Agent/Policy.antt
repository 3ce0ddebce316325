-- ===== src/Agent/Policy.antt =====
-- `Policy` of crates/agent/src/executor.rs: which paths and programs an agent allows. `std::path`
-- and the file system are parameters; a `PathBuf` is its text.
pub mod Laws
use s3_mcp_relay.Base.{
  ℕ, zero, suc, Bool, true, false, not, ◌||◌, ◌&&◌, Option, none, some, List, [], ◌∷◌, ◌++◌, Text,
  text_eq, length, any, ok, err, ◌==◌, if◌then◌else◌,
}
use s3_mcp_relay.Failure.{Error, Outcome}
use s3_mcp_relay.Effect.{Eff, ◌>>=◌, ◌>>◌, lift, pure, fail, request, sample}

-- `std::path` on texts; `is_within p r` is `p.starts_with(r)`, which compares whole components.
pub record Paths : Type 0 where
  pub is_absolute : Text → Bool
  pub parent : Text → Option Text
  pub file_name : Text → Option Text
  pub join : Text → Text → Text
  pub with_file_name : Text → Text → Text
  pub is_within : Text → Text → Bool

-- The calls on the file system by path. `none` is a failure.
pub record Files (W : Type 0) : Type 0 where
  pub exists : Text → W → Bool × W
  pub is_dir : Text → W → Bool × W
  pub canonicalize : Text → W → Option Text × W
  pub size : Text → W → Option ℕ × W
  pub create_dir_all : Text → W → Option (Unit {0}) × W
  pub create_dir : Text → W → Option (Unit {0}) × W
  pub remove_dir_all : Text → W → Option (Unit {0}) × W
  pub remove_dir : Text → W → Option (Unit {0}) × W
  pub remove_file : Text → W → Option (Unit {0}) × W
  pub rename : Text → Text → W → Option (Unit {0}) × W
  -- What the reads of a file give, one after the other, up to its end; `none` is a failed read.
  pub open_reader : Text → W → Option (List (Option (List ℕ))) × W
  -- Opens for appending or truncates; then writes; then flushes.
  pub open_writer : Text → Bool → W → Option (Unit {0}) × W
  pub write_all : List ℕ → W → Option (Unit {0}) × W
  pub flush : W → Option (Unit {0}) × W
  -- The entries of a directory: a name, and whether it is a directory and its size if they are known.
  pub read_dir : Text → W → Option (List (Option (Text × Option (Bool × ℕ)))) × W

pub record Policy : Type 0 where
  pub allowed_roots : List Text
  pub allowed_programs : List Text
  pub child_env : List (Text × Text)
  pub max_job_secs : ℕ
  pub max_timeout_secs : ℕ
  pub max_file_bytes : ℕ
  pub max_output_bytes : ℕ
  pub max_blob_bytes : ℕ
  pub allow_any_path : Bool
  pub allow_any_program : Bool

abbrev pub is_in : Text → List Text → Bool
is_in x [] = false
is_in x (y ∷ ys) = text_eq y x || is_in x ys

-- `.filter(|path| !path.as_os_str().is_empty()).ok_or_else(…)`
abbrev pub non_empty : Error → Option Text → Outcome Text
non_empty e none = err e
non_empty e (some p) = if length p == 0 then err e else ok p

module _ (paths : Paths) (policy : Policy) where
  abbrev pub in_roots : Text → List Text → Bool
  in_roots path [] = false
  in_roots path (root ∷ roots) = paths.is_within path root || in_roots path roots

  unfoldable pub check_canonical : Text → Outcome (Unit {0})
  check_canonical path =
      if policy.allow_any_path || in_roots path policy.allowed_roots
      then ok tt
      else err Error.path_outside_roots

  -- The path of a file that is not there yet, from its canonical directory and its name.
  abbrev pub name_below : {W : Type 0} → Text → Option Text → Eff W Text
  name_below directory none = fail Error.no_file_name
  name_below directory (some name) = pure (paths.join directory name)

  module _ {W : Type 0} (files : Files W) where
    unfoldable pub check_existing_path : Text → Eff W Text
    unfolding check_canonical
    check_existing_path value = do
      path ← request (Error.service 30) (files.canonicalize value)
      lift (check_canonical path)
      pure path

    -- `check_write_path` where nothing is at the path yet.
    unfoldable pub check_new_path : Text → Eff W Text
    unfolding check_canonical
    check_new_path value = do
      parent ← lift (non_empty Error.no_existing_parent (paths.parent value))
      canonical_parent ← request (Error.service 31) (files.canonicalize parent)
      lift (check_canonical canonical_parent)
      name_below canonical_parent (paths.file_name value)

    unfoldable pub check_write_path : Text → Eff W Text
    unfolding check_existing_path check_new_path
    check_write_path value = do
      present ← sample (files.exists value)
      if present then check_existing_path value else check_new_path value

    -- The loop over the ancestors; a parent is shorter than its path.
    unfoldable pub nearest_existing : ℕ → Text → Eff W Text
    nearest_existing zero existing = fail Error.out_of_fuel
    nearest_existing (suc fuel) existing = do
      present ← sample (files.exists existing)
      if present
          then pure existing
          else lift (non_empty Error.no_existing_ancestor (paths.parent existing))
            >>= nearest_existing fuel

    -- `prepare_write_path` where nothing is at the path yet.
    unfoldable pub prepare_new_path : Text → Eff W Text
    unfolding check_canonical nearest_existing
    prepare_new_path value = do
      parent ← lift (non_empty Error.no_existing_parent (paths.parent value))
      existing ← nearest_existing (suc (length parent)) parent
      anchor ← request (Error.service 32) (files.canonicalize existing)
      lift (check_canonical anchor)
      request (Error.service 33) (files.create_dir_all parent)
      canonical_parent ← request (Error.service 34) (files.canonicalize parent)
      lift (check_canonical canonical_parent)
      name_below canonical_parent (paths.file_name value)

    unfoldable pub prepare_write_path : Text → Eff W Text
    unfolding check_existing_path prepare_new_path
    prepare_write_path value = do
      present ← sample (files.exists value)
      if present then check_existing_path value else prepare_new_path value

    unfoldable pub check_program : Text → Eff W Text
    check_program program =
        if length program == 0
        then fail Error.program_empty
        else if not (paths.is_absolute program)
        then fail Error.program_not_absolute
        else request (Error.service 35) (files.canonicalize program) >>= λ canonical.
            if not policy.allow_any_program && not (is_in canonical policy.allowed_programs)
            then fail Error.program_not_allowed
            else pure canonical

-- `permit_root`, on the policy that it changes.
unfoldable pub permit_root : {W : Type 0} → Files W → Policy → Text → Eff W Policy
permit_root files policy root = do
  canonical ← request (Error.service 36) (files.canonicalize root)
  pure (
      if is_in canonical policy.allowed_roots
      then policy
      else record policy { allowed_roots = policy.allowed_roots ++ canonical ∷ [] })
