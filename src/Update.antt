-- ===== src/Update.antt =====
-- The self-update of crates/common/src/update.rs: `check_and_apply`, `install` and `download`. The
-- running binary, its test run and the file system are parameters.
pub mod Files
pub mod Kept
pub mod Installed
pub mod Laws
use s3_mcp_relay.Base.{
  ℕ, ◌+◌, Bool, true, false, not, Option, none, some, List, [], ◌∷◌, ◌++◌, Text, codes, text_eq, ℤ,
  pos, ltb_ℤ, leb_ℤ, ok, err, ltb, if◌then◌else◌,
}
use s3_mcp_relay.Failure.{Error, Outcome}
use s3_mcp_relay.Effect.{
  Eff, ◌>>=◌, ◌>>◌, lift, pure, fail, request, sample, attempt, ignore, option_or,
}
use s3_mcp_relay.Platform.{Serde, Host}
use s3_mcp_relay.Protocol.Types.{UpdateManifest}
use s3_mcp_relay.Crypto.{Crypto, from_base64}
use s3_mcp_relay.Transport.Objects.{Transport}
use s3_mcp_relay.Transport.Bulk.{read_update_manifest, get_release_chunk}
use s3_mcp_relay.Blob.{Disk, Manifest, assemble_into}

pub record UpdateState : Type 0 where
  pub last_published_at : ℤ
  pub version : Text
  pub sha256 : Text
  pub applied_at : ℤ

-- The reason of a skipped update is which of the two tests skipped it.
pub data Decision : Type 0 where
  nothing up_to_date : Decision
  applied : (version sha256 : Text) → Decision
  deferred : (jobs_running : ℕ) → Decision
  wrong_target not_newer : Decision

-- `Outcome::is_settled`
unfoldable pub is_settled : Decision → Bool
is_settled (Decision.deferred _) = false
is_settled _ = true

-- The machine on which an update is installed: std::fs and std::path, the state file at `state_path`
-- and its JSON, and `smoke_test`, which runs a binary with `--version`. `sibling` names a file beside
-- another one, `with_extension` another extension, and `parent` a directory, if there is one.
pub record Installer (W : Type 0) : Type 0 where
  pub disk : Disk W
  pub digest : List ℕ → List ℕ
  pub target : Text
  pub sibling : Text → Text → Text
  pub current_exe : W → Option Text × W
  pub file_sha256 : Text → W → Option Text × W
  pub set_executable : Text → W → Option (Unit {0}) × W
  pub smoke_test : Text → W → Option (Unit {0}) × W
  pub rename : Text → Text → W → Option (Unit {0}) × W
  pub remove_file : Text → W → Option (Unit {0}) × W
  pub state_path : Text
  pub states : Serde UpdateState
  pub with_extension : Text → Text → Text
  pub parent : Text → Option Text
  pub create_dir_all : Text → W → Option (Unit {0}) × W
  pub read : Text → W → Option (List ℕ) × W
  pub write : Text → List ℕ → W → Option (Unit {0}) × W

-- `UpdateState::default()`
abbrev pub default_state : UpdateState
default_state = record { last_published_at = pos 0; version = []; sha256 = []; applied_at = pos 0 }

-- What `load` makes of the bytes of the state file, if it could be read.
unfoldable pub state_of : Serde UpdateState → Option (List ℕ) → UpdateState
state_of states none = default_state
state_of states (some bytes) = elim (states.from_slice bytes) [
  | none ↦ default_state
  | some state ↦ state
]

abbrev pub release_contents : UpdateManifest → Manifest
release_contents m = record { chunks = m.chunks; total_bytes = m.total_bytes; sha256 = m.sha256 }

abbrev pub updated_state : UpdateManifest → ℤ → UpdateState
updated_state m at = record {
  last_published_at = m.published_at;
  version = m.version;
  sha256 = m.sha256;
  applied_at = at;
}

module _ {W : Type 0} (h : Host W) (t : Transport) (i : Installer W) where
  -- `UpdateState::load`
  unfoldable pub load : W → UpdateState × W
  unfolding state_of
  load w = let (bytes, w') = i.read i.state_path w in (state_of i.states bytes, w')

  abbrev pub make_parent : Option Text → Eff W (Unit {0})
  make_parent none = pure tt
  make_parent (some []) = pure tt
  make_parent (some (c ∷ dir)) = request (Error.service 100) (i.create_dir_all (c ∷ dir))

  -- `UpdateState::save`
  unfoldable pub save : UpdateState → Eff W (Unit {0})
  save state = do
    make_parent (i.parent i.state_path)
    text ← lift (option_or (Error.service 101) (i.states.to_vec state))
    let temp = i.with_extension i.state_path (codes "tmp")
    request (Error.service 102) (i.write temp text)
    request (Error.service 103) (i.rename temp i.state_path)

  unfoldable pub get_release_with : UpdateManifest → Crypto → ℕ → Eff W (Option (List ℕ))
  get_release_with m crypto index = get_release_chunk h t m.release index crypto

  unfoldable pub download : UpdateManifest → Crypto → Text → Eff W (Unit {0})
  unfolding assemble_into get_release_with
  download m crypto dest =
      assemble_into i.disk i.digest (get_release_with m crypto) (release_contents m) dest >>= λ _.
      pure tt

  -- The staged binary takes the place of the current one, which is put back if that fails.
  abbrev pub put_back : Text → Text → Outcome (Unit {0}) → Eff W (Unit {0})
  put_back backup current (ok _) = pure tt
  put_back backup current (err e) =
      ignore (request (Error.service 96) (i.rename backup current)) >> fail e

  unfoldable pub install : UpdateManifest → Crypto → Text → Text → Eff W (Unit {0})
  unfolding download
  install m crypto current staged = do
    download m crypto staged
    request (Error.service 92) (i.set_executable staged)
    request (Error.service 93) (i.smoke_test staged)
    let backup = i.sibling current (codes ".bak")
    ignore (request (Error.service 94) (i.remove_file backup))
    request (Error.service 95) (i.rename current backup)
    moved ← attempt (request (Error.service 97) (i.rename staged current))
    put_back backup current moved

  -- What follows the installation.
  unfoldable pub conclude : UpdateManifest → Text → Outcome (Unit {0}) → Eff W Decision
  unfolding save
  conclude m staged (err e) = ignore (request (Error.service 98) (i.remove_file staged)) >> fail e
  conclude m staged (ok _) = do
    now ← sample h.now_unix
    ignore (save (updated_state m now))
    pure (Decision.applied m.version m.sha256)

  unfoldable pub apply_update : UpdateManifest → Text → Eff W Decision
  unfolding install conclude
  apply_update m current = do
    crypto ← lift (from_base64 h.codec m.release_key_b64 (codes "release"))
    let staged = i.sibling current (codes ".relay-update")
    result ← attempt (install m crypto current staged)
    conclude m staged result

  -- The release is installed already; that its manifest has been seen is remembered.
  unfoldable pub account : UpdateManifest → UpdateState → Eff W Decision
  unfolding save
  account m state =
      if ltb_ℤ state.last_published_at m.published_at
      then ignore (save (updated_state m state.applied_at)) >> pure Decision.up_to_date
      else pure Decision.up_to_date

  unfoldable pub decide : UpdateManifest → ℕ → Text → Text → UpdateState → Eff W Decision
  unfolding account apply_update
  decide m jobs_running current installed state =
      if text_eq installed m.sha256
      then account m state
      else if leb_ℤ m.published_at state.last_published_at
      then pure Decision.not_newer
      else if ltb 0 jobs_running
      then pure (Decision.deferred jobs_running)
      else apply_update m current

  unfoldable pub consider : ℕ → Option UpdateManifest → Eff W Decision
  unfolding decide load
  consider jobs_running none = pure Decision.nothing
  consider jobs_running (some m) =
      if not (text_eq m.target i.target) then pure Decision.wrong_target else do
        current ← request (Error.service 90) i.current_exe
        installed ← request (Error.service 91) (i.file_sha256 current)
        state ← sample load
        decide m jobs_running current installed state

  unfoldable pub check_and_apply : Text → ℕ → Eff W Decision
  unfolding consider
  check_and_apply agent jobs_running = do
    found ← read_update_manifest h t agent
    consider jobs_running found
