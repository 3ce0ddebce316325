-- ===== src/Logs/Shipper/Laws.antt =====
-- Which files are shipped.
use s3_mcp_relay.Base.{
  ◌≤◌, ◌≡◌, ◌≢◌, inl, inr, true, false, ◌||◌, ◌&&◌, Option, none, some, [], ◌∷◌, ◌++◌, Text, codes,
  text_eq, text_eq_refl, length, all, starts_with, ok, arith, refl, leb, Bool-cases, Option-cases,
}
use s3_mcp_relay.Protocol.Names.{is_name_byte}
use s3_mcp_relay.Transport.Liveness.{validate_source}
use s3_mcp_relay.Agent.Policy.{Paths}
use s3_mcp_relay.Logs.Shipper.{
  marker_suffix, marker_path, ends_with, is_job_log, safe_name, safe_source, max_source_bytes,
}

-- `Path::file_name`: it is not empty, and what is appended to a path is appended to it.
pub record IsNamed (paths : Paths) : Type 0 where
  pub file_name_filled : (p n : Text) → paths.file_name p ≡ some n → n ≢ []
  pub file_name_append :
      (p n : Text)
      → paths.file_name p ≡ some n
      → paths.file_name (p ++ marker_suffix) ≡ some (n ++ marker_suffix)

ends_with-append : (s p : Text) → ends_with (s ++ p) p ≡ true
unfolding ends_with text_eq
ends_with-append [] [] = refl
ends_with-append [] (c ∷ p) = ground (arith, text_eq_refl (c ∷ p))
ends_with-append (c ∷ s) p = ground (arith, ends_with-append s p)

marker-refused :
    (paths : Paths) (extension : Text → Option Text) (path name : Text)
    → IsNamed paths
    → safe_source paths extension path ≡ some name
    → safe_source paths extension (marker_path path) ≡ none
unfolding safe_source marker_path safe_name
marker-refused paths extension path name named e = elim (Option-cases (paths.file_name path)) [
  | inl bad ↦ absurd (ground arith)
  | inr (n, found) ↦
      let marked = named.file_name_append path n found in
      let refused = ends_with-append n marker_suffix in ground arith
]

accepted :
    (n : Text) → n ≢ [] → length n ≤ 96 → all is_name_byte n ≡ true → validate_source n ≡ ok tt
unfolding validate_source
accepted [] filled short bytes = absurd (filled refl)
accepted (c ∷ n) filled short bytes = ground arith

shipped_lem :
    (paths : Paths) (extension : Text → Option Text) (path name : Text)
    → IsNamed paths
    → safe_source paths extension path ≡ some name
    → (paths.file_name path ≡ some name)
      × (ends_with name marker_suffix ≡ false)
      × (validate_source name ≡ ok tt)
unfolding safe_source safe_name validate_source
shipped_lem paths extension path name named e = elim (Option-cases (paths.file_name path)) [
  | inl bad ↦ absurd (ground arith)
  | inr (n, found) ↦ elim (Bool-cases (ends_with n marker_suffix)) [
    | inl marker ↦ absurd (ground arith)
    | inr log ↦
        elim (Bool-cases (
          (is_job_log (extension path) || starts_with n (codes "agent.log."))
          && leb (length n) max_source_bytes
          && all is_name_byte n)) [
            | inr other ↦ absurd (ground arith)
            | inl taken ↦
                let same : n ≡ name = ground arith in
                let filled = named.file_name_filled path n found in
                rw (← same) (found, log, accepted n filled (ground arith) (ground arith))
          ]
  ]
]

-- A file that is shipped is sent under its name, which ends in no marker's suffix and which the
-- transport accepts as a source; its marker is not shipped, so that shipping cannot feed on what it
-- writes.
pub safe_source-marker :
    (paths : Paths) (extension : Text → Option Text) (path name : Text)
    → IsNamed paths
    → safe_source paths extension path ≡ some name
    → (paths.file_name path ≡ some name)
      × (ends_with name marker_suffix ≡ false)
      × (validate_source name ≡ ok tt)
      × (safe_source paths extension (marker_path path) ≡ none)
safe_source-marker paths extension path name named e =
    let (file, log, source) = shipped_lem paths extension path name named e in
    (file, log, source, marker-refused paths extension path name named e)
