-- ===== src/Tests/Logs.antt =====
-- The theorems on logs: a directory of paths that are names, and a store of one log.
use s3_mcp_relay.Base.{
  ℕ, ◌+◌, ◌≤◌, ◌≡◌, ◌≢◌, true, false, Option, none, some, List, [], ◌∷◌, ◌++◌, arith, refl, sym, ap,
  Text, codes, length, take, drop, pos, ok, ◌==◌, if◌then◌else◌, take-all, length-append,
  starts_with, is_alphanumeric, text_eq, length-take,
}
use s3_mcp_relay.Protocol.Types.{LogChunk}
use s3_mcp_relay.Protocol.Names.{is_name_byte}
use s3_mcp_relay.Transport.Liveness.{validate_source}
use s3_mcp_relay.Agent.Policy.{Paths}
use s3_mcp_relay.Logs.Shipper.{marker_suffix, marker_path, ends_with, safe_name, safe_source}
use s3_mcp_relay.Logs.Shipper.Laws.{IsNamed, safe_source-marker}
use s3_mcp_relay.Logs.Store.{LogDisk, row_offset, ingest}
use s3_mcp_relay.Logs.Store.Disk.{IsLogDisk, IsPrefix}
use s3_mcp_relay.Logs.Store.Laws.{ingest-IsPrefix}

-- A path with anything in it is a name.
abbrev pub whole_name : Text → Option Text
whole_name [] = none
whole_name (c ∷ p) = some (c ∷ p)

abbrev flat_paths : Paths
flat_paths = record {
  is_absolute = λ p. true;
  parent = λ p. none;
  file_name = whole_name;
  join = λ d n. n;
  with_file_name = λ p n. n;
  is_within = λ p r. true;
}

whole_name-filled : (p n : Text) → whole_name p ≡ some n → n ≢ []
whole_name-filled [] n e = absurd (ground arith)
whole_name-filled (c ∷ p) n e = λ empty.
    let z : length n ≡ 0 = ap (λ r. length r) empty in
    let y : c ∷ p ≡ n = ground arith in
    let x : length (c ∷ p) ≡ length n = ap (λ r. length r) y in omega arith

whole_name-append :
    (p n : Text)
    → whole_name p ≡ some n
    → whole_name (p ++ marker_suffix) ≡ some (n ++ marker_suffix)
whole_name-append [] n e = absurd (ground arith)
whole_name-append (c ∷ p) n e =
    let y : c ∷ p ≡ n = ground arith in ap (λ r. some (r ++ marker_suffix)) y

flat_paths-IsNamed : IsNamed flat_paths
flat_paths-IsNamed = record {
  file_name_filled = whole_name-filled;
  file_name_append = whole_name-append;
}

abbrev job_log : Text
job_log = codes "abc.out"

abbrev out_extension : Text → Option Text
out_extension p = some (codes "out")

taken : safe_source flat_paths out_extension job_log ≡ some job_log
unfolding safe_source safe_name ends_with text_eq is_name_byte starts_with is_alphanumeric
taken = refl

safe_source-marker_example :
    (flat_paths.file_name job_log ≡ some job_log)
    × (ends_with job_log marker_suffix ≡ false)
    × (validate_source job_log ≡ ok tt)
    × (safe_source flat_paths out_extension (marker_path job_log) ≡ none)
safe_source-marker_example =
    safe_source-marker flat_paths out_extension job_log job_log flat_paths-IsNamed taken

-- The state is the file and the offset of the row.
abbrev one_log : LogDisk (List ℕ × ℕ)
one_log = record {
  create_dir_all = λ a w. (some tt, w);
  connect = λ w. (some tt, w);
  next_offset = λ a s w. (some (some (pos w.1)), w);
  write_at = λ a s n b w. (some tt, (take n w.0 ++ b, w.1));
  set_next = λ a s r at w. (some tt, (w.0, row_offset (some r)));
}

exact_length :
    (n : ℕ) (b f : List ℕ) → n ≤ length f → take (n + length b) (take n f ++ b) ≡ take n f ++ b
exact_length n b f h =
    take-all (n + length b) (take n f ++ b)
      (omega (arith, length-append (take n f) b, length-take n f))

one_log-IsLogDisk : (a s : Text) → IsLogDisk one_log a s (λ w. w.0) (λ w. w.1)
one_log-IsLogDisk a s = record {
  create_file = λ a w. refl;
  create_next = λ a w. refl;
  connect_file = λ w. refl;
  connect_next = λ w. refl;
  row_file = λ w. refl;
  row_next = λ w. refl;
  row = λ w r e. let x : some (pos w.1) ≡ r = ground arith in ap row_offset (sym x);
  write_next = λ n b w. refl;
  write_done = λ n b w e h. exact_length n b w.0 h;
  write_failed = λ n b w e h. absurd (ground arith);
  set_file = λ r at w. refl;
  set_done = λ r at w e. refl;
  set_failed = λ r at w e. absurd (ground arith);
}

-- Three bytes of a log have been stored; the next two come.
abbrev piece : LogChunk
piece = record {
  agent_id = codes "jetson";
  source = job_log;
  offset = 3;
  data_b64 = 4 ∷ 5 ∷ [];
  at = pos 50;
}

abbrev whole : List ℕ
whole = 1 ∷ 2 ∷ 3 ∷ 4 ∷ 5 ∷ 6 ∷ []

abbrev stored : List ℕ × ℕ
stored = (1 ∷ 2 ∷ 3 ∷ [], 3)

ingest-IsPrefix_example :
    IsPrefix whole (ingest one_log some piece stored).1.0 (ingest one_log some piece stored).1.1
    × ((ingest one_log some piece stored).0 ≡ ok tt
        → (3 ≤ 3)
          × ((ingest one_log some piece stored).1.1
              ≡ (if piece.offset == 3 then 3 + length (take 2 (drop 3 whole)) else 3)))
ingest-IsPrefix_example =
    ingest-IsPrefix one_log some piece (λ w. w.0) (λ w. w.1) whole 2 stored
      (one_log-IsLogDisk (codes "jetson") job_log) (omega arith) refl (refl, omega arith)
