-- ===== src/Tests/Updates.antt =====
-- The theorem on updates: a machine whose state is its files, and a manifest in the bucket.
use s3_mcp_relay.Base.{
  ℕ, zero, suc, ◌≡◌, ◌≢◌, inl, inr, false, Option, none, some, List, [], ◌∷◌, ◌++◌, Text, codes,
  text_eq, text_eq_iff, text_eq_refl, ℤ, pos, negsuc, ◌≤ℤ◌, ◌<ℤ◌, ok, err, arith, refl, length,
  take, drop, take-append_exact, drop-append_exact, replicate, Option-cases,
}
use s3_mcp_relay.Failure.{Outcome}
use s3_mcp_relay.Platform.{Host, Serde}
use s3_mcp_relay.Protocol.Types.{UpdateManifest}
use s3_mcp_relay.Protocol.Names.{validate_agent_id, validate_transfer_id, is_id_byte}
use s3_mcp_relay.Crypto.{seal, open_object, from_base64}
use s3_mcp_relay.Transport.Keys.{update_manifest_key}
use s3_mcp_relay.Transport.Objects.{Transport, get_encrypted, get_raw, read_object, open_found}
use s3_mcp_relay.Transport.Bulk.{read_update_manifest}
use s3_mcp_relay.Transport.Quiet.{IsQuiet}
use s3_mcp_relay.Blob.{Disk, hex}
use s3_mcp_relay.Update.{UpdateState, Decision, Installer, state_of, check_and_apply}
use s3_mcp_relay.Update.Files.{IsInstaller, bytes_at}
use s3_mcp_relay.Update.Laws.{check_and_apply_lem}
use s3_mcp_relay.Tests.Memory.{
  World, lookup, discard, lookup-discard_other, memory, toy_codec, to_object, to_envelope, toy_open,
}

abbrev release : UpdateManifest
release = record {
  agent_id = codes "jetson";
  version = codes "2";
  target = codes "linux";
  release = codes "r";
  chunks = 0;
  total_bytes = 0;
  sha256 = [];
  release_key_b64 = replicate 32 7;
  published_at = pos 45;
}

abbrev manifest_serde : Serde UpdateManifest
manifest_serde = record { to_vec = λ m. some m.version; from_slice = λ t. some release }

abbrev keyed : Transport
keyed = record {
  prefix = codes "p/";
  crypto = record { cipher = replicate 32 7; key_id = codes "k" };
}

abbrev body_of : Outcome (List ℕ) → List ℕ
body_of (ok b) = b
body_of (err e) = []

unfoldable sealed_release : List ℕ
unfolding seal update_manifest_key
sealed_release =
    body_of
      (seal memory manifest_serde keyed.crypto (update_manifest_key keyed.prefix (codes "jetson"))
        release []).0

-- The state of the machine is what its files hold; every key of the bucket holds the manifest.
abbrev updates : Host World
updates = record {
  codec = record toy_codec { update_manifests = manifest_serde };
  now_unix = λ w. (pos 50, w);
  now_instant = λ w. (0, w);
  sleep = λ n w. w;
  fill_nonce = λ w. (replicate 24 9, w);
  new_uuid = λ w. (codes "u", w);
  get_object = λ k w. (some (to_object (some sealed_release)), w);
  put_object = λ k b w. (some tt, w);
  delete_object = λ k w. (some tt, w);
  head_object = λ k w. (some none, w);
  list_objects = λ prefix token w. (none, w);
}

updates-IsQuiet : (P : (Text → Option (List ℕ)) → Type 0) → IsQuiet updates (λ w. P (lookup w))
updates-IsQuiet P = record {
  now_unix = λ w i. i;
  fill_nonce = λ w i. i;
  get_object = λ k w i. i;
  put_object = λ k b w i. i;
  delete_object = λ k w i. i;
  list_objects = λ p token w i. i;
}

abbrev exe_path : Text
exe_path = codes "agent"

abbrev new_path : Text
new_path = codes ".relay-update"

abbrev old_path : Text
old_path = codes ".bak"

abbrev state_file : Text
state_file = codes "state"

abbrev state_temp : Text
state_temp = codes "tmp"

unfoldable append_to : Text → List ℕ → World → World
unfolding lookup
append_to p b w = elim (lookup w p) [ none ↦ (p, b) ∷ w | some c ↦ (p, c ++ b) ∷ w ]

abbrev file_disk : Disk World
file_disk = record {
  open_file = λ p w. (some tt, w);
  read = λ n w. (some [], w);
  create = λ p w. (some tt, (p, []) ∷ w);
  write_all = λ b w. (some tt, append_to new_path b w);
  flush = λ w. (some tt, w);
  rename = λ p q w. (some tt, w);
  remove_file = λ p w. (some tt, w);
  next_upload = λ w. (0, w);
}

-- A rename fails if nothing is there to move.
unfoldable move_file : Text → Text → World → Option (Unit {0}) × World
unfolding lookup discard
move_file p q w = elim (lookup w p) [ none ↦ (none, w) | some b ↦ (some tt, (q, b) ∷ discard p w) ]

-- A state is its two times, each a sign and a number, and its texts, the length of the first in
-- front.
abbrev sign : ℤ → ℕ
sign (pos n) = 0
sign (negsuc n) = 1

abbrev size : ℤ → ℕ
size (pos n) = n
size (negsuc n) = n

abbrev to_ℤ : ℕ → ℕ → ℤ
to_ℤ zero n = pos n
to_ℤ (suc k) n = negsuc n

to_ℤ_lem : (z : ℤ) → to_ℤ (sign z) (size z) ≡ z
to_ℤ_lem (pos n) = refl
to_ℤ_lem (negsuc n) = refl

abbrev print_state : UpdateState → Text
print_state s =
    sign s.last_published_at
    ∷ size s.last_published_at
    ∷ sign s.applied_at
    ∷ size s.applied_at
    ∷ length s.version
    ∷ (s.version ++ s.sha256)

abbrev read_state : Text → Option UpdateState
read_state (a ∷ b ∷ c ∷ d ∷ n ∷ rest) = some (record {
  last_published_at = to_ℤ a b;
  version = take n rest;
  sha256 = drop n rest;
  applied_at = to_ℤ c d;
})
read_state _ = none

state_inverse : (s : UpdateState) (t : Text) → some (print_state s) ≡ some t → read_state t ≡ some s
state_inverse s t e =
    let same : t ≡ print_state s = ground arith in
    let v = s.version in
    rw same (
      rw
        (take-append_exact (length v) v s.sha256 refl, drop-append_exact (length v) v s.sha256 refl)
        (rw (to_ℤ_lem s.last_published_at, to_ℤ_lem s.applied_at) refl))

abbrev state_serde : Serde UpdateState
state_serde = record { to_vec = λ s. some (print_state s); from_slice = read_state }

abbrev installer : Installer World
installer = record {
  disk = file_disk;
  digest = λ b. b;
  target = codes "linux";
  sibling = λ p suffix. suffix;
  current_exe = λ w. (some exe_path, w);
  file_sha256 = λ p w. (some (codes "old"), w);
  set_executable = λ p w. (some tt, w);
  smoke_test = λ p w. (some tt, w);
  rename = move_file;
  remove_file = λ p w. (some tt, discard p w);
  state_path = state_file;
  states = state_serde;
  with_extension = λ p e. e;
  parent = λ p. none;
  create_dir_all = λ p w. (some tt, w);
  read = λ p w. (lookup w p, w);
  write = λ p b w. (some tt, (p, b) ∷ w);
}

apart : (a b : Text) → text_eq a b ≡ false → a ≢ b
apart a b differs e = let t = (text_eq_iff a b).1 e in ground arith

move_file_done :
    (p q : Text) (w : World)
    → (move_file p q w).0 ≡ some tt
    → (b : List ℕ) × (lookup w p ≡ some b) × (lookup (move_file p q w).1 q ≡ some b)
unfolding move_file lookup
move_file_done p q w e = elim (Option-cases (lookup w p)) [
  | inl absent ↦ absurd (ground arith)
  | inr (b, there) ↦ (b, there, ground (arith, text_eq_refl q))
]

move_file_failed :
    (p q : Text) (w : World) (x : Text)
    → (move_file p q w).0 ≡ none
    → lookup (move_file p q w).1 x ≡ lookup w x
unfolding move_file
move_file_failed p q w x e = ground arith

move_file_elsewhere :
    (p q : Text) (w : World) (x : Text) → p ≢ x → q ≢ x → lookup (move_file p q w).1 x ≡ lookup w x
unfolding move_file lookup
move_file_elsewhere p q w x np nq = ground (arith, text_eq_iff q x, lookup-discard_other p x w np)

append_to_lem :
    (p : Text) (b : List ℕ) (w : World)
    → lookup (append_to p b w) p ≡ some (bytes_at (lookup w p) ++ b)
unfolding append_to lookup
append_to_lem p b w = elim (Option-cases (lookup w p)) [
  | inl absent ↦ ground (arith, text_eq_refl p)
  | inr (c, there) ↦ ground (arith, text_eq_refl p)
]

append_to_elsewhere :
    (p : Text) (b : List ℕ) (w : World) (x : Text) → p ≢ x → lookup (append_to p b w) x ≡ lookup w x
unfolding append_to lookup
append_to_elsewhere p b w x ne = ground (arith, text_eq_iff p x)

put_elsewhere :
    (p : Text) (b : List ℕ) (w : World) (x : Text) → p ≢ x → lookup ((p, b) ∷ w) x ≡ lookup w x
unfolding lookup
put_elsewhere p b w x ne = ground (arith, text_eq_iff p x)

put_here : (p : Text) (b : List ℕ) (w : World) → lookup ((p, b) ∷ w) p ≡ some b
unfolding lookup
put_here p b w = rw (text_eq_refl p) refl

installer-IsInstaller : IsInstaller installer lookup exe_path
unfolding text_eq
installer-IsInstaller = record {
  current_exe = λ p w e. ground arith;
  current_exe_keeps = λ w x. refl;
  file_sha256_keeps = λ p w x. refl;
  set_executable_keeps = λ p w x. refl;
  smoke_test_keeps = λ p w x. refl;
  create_dir_all_keeps = λ p w x. refl;
  rename_done = move_file_done;
  rename_failed = λ p q w x e. move_file_failed p q w x e;
  rename_elsewhere = move_file_elsewhere;
  remove_elsewhere = λ p w x ne. lookup-discard_other p x w ne;
  read = λ w. refl;
  read_keeps = λ p w x. refl;
  write_done = λ p b w e. put_here p b w;
  write_elsewhere = put_elsewhere;
  create_done = λ w e. put_here new_path [] w;
  create_elsewhere = λ w x ne. put_elsewhere new_path [] w x ne;
  append_done = λ b w e. append_to_lem new_path b w;
  append_elsewhere = λ b w x ne. append_to_elsewhere new_path b w x ne;
  flush_keeps = λ w x. refl;
  json = state_inverse;
  staged_state = apart new_path state_file refl;
  backup_state = apart old_path state_file refl;
  exe_state = apart exe_path state_file refl;
  temp_state = apart state_temp state_file refl;
  temp_exe = apart state_temp exe_path refl;
  exe_staged = apart exe_path new_path refl;
  backup_staged = apart old_path new_path refl;
}

-- The state file says that the last manifest was published at 40.
abbrev known : UpdateState
known = record {
  last_published_at = pos 40;
  version = codes "1";
  sha256 = codes "old";
  applied_at = pos 41;
}

abbrev files : World
files = (exe_path, 7 ∷ []) ∷ (state_file, print_state known) ∷ []

abbrev no_jobs : ℕ
no_jobs = 0

abbrev updated : World
updated = (check_and_apply updates keyed installer (codes "jetson") no_jobs files).1

check_and_apply_lem_example :
    ((v sh : Text)
      → (check_and_apply updates keyed installer (codes "jetson") no_jobs files).0
        ≡ ok (Decision.applied v sh)
      → (m : UpdateManifest) × ((read_update_manifest updates keyed (codes "jetson") files).0
          ≡ ok (some m))
        × (m.target ≡ installer.target)
        × (no_jobs ≡ 0)
        × ((state_of state_serde (lookup files state_file)).last_published_at <ℤ m.published_at)
        × (m.version ≡ v)
        × (m.sha256 ≡ sh)
        × ((b : List ℕ) × (lookup updated exe_path ≡ some b) × (hex b ≡ m.sha256)))
    × ((state_of state_serde (lookup files state_file)).last_published_at
        ≤ℤ (state_of state_serde (lookup updated state_file)).last_published_at)
check_and_apply_lem_example =
    check_and_apply_lem updates keyed installer lookup exe_path (codes "jetson") no_jobs files
      installer-IsInstaller updates-IsQuiet

-- The release is installed: it is empty, and so is the file of the binary then.
applied :
    (check_and_apply updates keyed installer (codes "jetson") no_jobs files).0
    ≡ ok (Decision.applied (codes "2") [])
unfolding check_and_apply read_update_manifest validate_agent_id is_id_byte get_encrypted get_raw
    read_object sealed_release open_found open_object to_envelope text_eq toy_open
    validate_transfer_id lookup from_base64 hex move_file
applied = refl
