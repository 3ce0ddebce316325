-- ===== src/Tests/Machine.antt =====
-- A machine whose state is the list of the places that were touched. A path is the list of its
-- components, the innermost first; each is one code.
use s3_mcp_relay.Base.{
  suc, ◌<◌, ◌≡◌, inl, inr, Bool, true, false, ◌||◌, Option, none, some, List, [], ◌∷◌, ◌++◌, arith,
  refl, sym, subst, Text, codes, text_eq, text_eq_iff, text_eq_refl, length, pos, Bool-cases,
}
use s3_mcp_relay.Platform.{Host}
use s3_mcp_relay.Transport.Objects.{Transport}
use s3_mcp_relay.Transport.Quiet.{IsQuiet}
use s3_mcp_relay.Protocol.Types.{Command, CommandKind}
use s3_mcp_relay.Blob.{Disk}
use s3_mcp_relay.Agent.Jobs.{Shell}
use s3_mcp_relay.Agent.Policy.{Paths, Files, Policy}
use s3_mcp_relay.Agent.Policy.Laws.{IsPaths}
use s3_mcp_relay.Agent.Executor.{Machine, Waited}
use s3_mcp_relay.Tests.Memory.{toy_codec}

abbrev pub outer : Text → Option Text
outer [] = none
outer (c ∷ p) = some p

abbrev pub innermost : Text → Option Text
innermost [] = none
innermost (c ∷ p) = some (c ∷ [])

unfoldable pub below : Text → Text → Bool
below [] r = text_eq [] r
below (c ∷ p) r = text_eq (c ∷ p) r || below p r

abbrev pub toy_paths : Paths
toy_paths = record {
  is_absolute = λ p. true;
  parent = outer;
  file_name = innermost;
  join = λ d n. n ++ d;
  with_file_name = λ p n. n ++ p;
  is_within = below;
}

pub below_self : (p : Text) → below p p ≡ true
unfolding below
below_self [] = text_eq_refl []
below_self (c ∷ p) = ground (arith, text_eq_refl (c ∷ p))

pub below_trans : (p q r : Text) → below p q ≡ true → below q r ≡ true → below p r ≡ true
unfolding below
below_trans [] q r h k =
    let e : [] ≡ q = (text_eq_iff [] q).0 h in subst (λ x. below x r ≡ true) (sym e) k
below_trans (c ∷ p) q r h k = elim (Bool-cases (text_eq (c ∷ p) q)) [
  | inl same ↦
      let e : c ∷ p ≡ q = (text_eq_iff (c ∷ p) q).0 same in subst (λ x. below x r ≡ true) (sym e) k
  | inr other ↦ let t = below_trans p q r (ground arith) k in ground arith
]

-- The name of a path is one component.
outer-join : (d n v : Text) → innermost v ≡ some n → outer (n ++ d) ≡ some d
outer-join d n [] e = absurd (ground arith)
outer-join d n (c ∷ v) e =
    let s : c ∷ [] ≡ n = ground arith in subst (λ x. outer (x ++ d) ≡ some d) s refl

below-join : (d n v : Text) → innermost v ≡ some n → below (n ++ d) d ≡ true
unfolding below
below-join d n [] e = absurd (ground arith)
below-join d n (c ∷ v) e =
    let s : c ∷ [] ≡ n = ground arith in
    subst (λ x. below (x ++ d) d ≡ true) s (ground (arith, below_self d))

outer_shorter : (p q : Text) → outer p ≡ some q → length q < length p
outer_shorter [] q e = absurd (ground arith)
outer_shorter (c ∷ p) q e =
    let s : p ≡ q = ground arith in subst (λ x. length x < suc (length p)) s (omega arith)

pub toy_paths-IsPaths : IsPaths toy_paths
toy_paths-IsPaths = record {
  within_self = below_self;
  within_trans = below_trans;
  parent_join = outer-join;
  within_join = below-join;
  parent_shorter = outer_shorter;
}

-- The places that were touched.
abbrev pub Places : Type 0
Places = List Text

-- Something is at every path, which is canonical.
abbrev pub places : Files Places
places = record {
  exists = λ p w. (true, w);
  is_dir = λ p w. (false, w);
  canonicalize = λ p w. (some p, w);
  size = λ p w. (some 4, w);
  create_dir_all = λ p w. (some tt, w);
  create_dir = λ p w. (none, w);
  remove_dir_all = λ p w. (some tt, p ∷ w);
  remove_dir = λ p w. (some tt, p ∷ w);
  remove_file = λ p w. (some tt, p ∷ w);
  rename = λ p q w. (some tt, p ∷ (q ∷ w));
  open_reader = λ p w. (some (some (5 ∷ 6 ∷ []) ∷ []), w);
  open_writer = λ p append w. (some tt, p ∷ w);
  write_all = λ b w. (some tt, w);
  flush = λ w. (some tt, w);
  read_dir = λ p w. (some [], w);
}

abbrev pub still_host : Host Places
still_host = record {
  codec = toy_codec;
  now_unix = λ w. (pos 50, w);
  now_instant = λ w. (7, w);
  sleep = λ n w. w;
  fill_nonce = λ w. ([], w);
  new_uuid = λ w. (codes "u", w);
  get_object = λ k w. (some none, w);
  put_object = λ k b w. (none, w);
  delete_object = λ k w. (some tt, w);
  head_object = λ k w. (some none, w);
  list_objects = λ prefix token w. (none, w);
}

pub still_host-IsQuiet : (I : Places → Type 0) → IsQuiet still_host I
still_host-IsQuiet I = record {
  now_unix = λ w i. i;
  fill_nonce = λ w i. i;
  get_object = λ k w i. i;
  put_object = λ k b w i. i;
  delete_object = λ k w i. i;
  list_objects = λ p token w i. i;
}

abbrev pub toy_disk : Disk Places
toy_disk = record {
  open_file = λ p w. (some tt, w);
  read = λ n w. (some [], w);
  create = λ p w. (some tt, p ∷ w);
  write_all = λ b w. (some tt, w);
  flush = λ w. (some tt, w);
  rename = λ p q w. (some tt, p ∷ (q ∷ w));
  remove_file = λ p w. (some tt, p ∷ w);
  next_upload = λ w. (0, w);
}

abbrev pub toy_shell : Shell Places
toy_shell = record {
  create = λ p w. (some tt, p ∷ w);
  spawn = λ p args cwd env w. (some (some 9), w);
  now_unix = λ w. (pos 50, w);
}

abbrev pub toy_machine : Machine Places
toy_machine = record {
  files = places;
  disk = toy_disk;
  shell = toy_shell;
  run_program = λ p args cwd env stdin secs w.
      (some (record { waited = Waited.timed_out; stdout = []; stderr = [] }), w);
  read_tail = λ p w. (some none, w);
  digest = λ b. b;
  lossy = λ b. b;
  hostname = codes "h";
  os = codes "o";
  version = codes "v";
  upload_concurrency = 1;
  paths = toy_paths;
}

-- Everything below the component 1.
abbrev pub toy_policy : Policy
toy_policy = record {
  allowed_roots = (1 ∷ []) ∷ [];
  allowed_programs = (2 ∷ []) ∷ [];
  child_env = [];
  max_job_secs = 10;
  max_timeout_secs = 10;
  max_file_bytes = 10;
  max_output_bytes = 10;
  max_blob_bytes = 10;
  allow_any_path = false;
  allow_any_program = false;
}

abbrev pub kind_command : CommandKind → Option Text → Command
kind_command kind target = record {
  id = codes "c";
  agent_id = codes "jetson";
  protocol = 2;
  created_at = pos 40;
  expires_at = pos 60;
  timeout_secs = 5;
  instance_id = target;
  kind = kind;
}

abbrev pub toy_transport : Transport
toy_transport = record { prefix = codes "p/"; crypto = record { cipher = []; key_id = codes "k" } }
