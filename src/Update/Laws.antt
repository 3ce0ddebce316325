-- ===== src/Update/Laws.antt =====
-- No update goes back in time, and none is installed that should not be.
use s3_mcp_relay.Base.{
  ℕ, ◌≡◌, inl, inr, Option, none, some, List, Text, text_eq, text_eq_iff, ◌≤ℤ◌, ◌<ℤ◌, codes, ltb_ℤ,
  leb_ℤ, ok, err, arith, refl, ap, ◌∙◌, subst, ltb, Bool-cases, Option-cases,
}
use s3_mcp_relay.Failure.{Outcome, Outcome-cases}
use s3_mcp_relay.Effect.{Ensures, Ensures-continue, lift, attempt}
use s3_mcp_relay.Platform.{Host}
use s3_mcp_relay.Protocol.Types.{UpdateManifest}
use s3_mcp_relay.Crypto.{from_base64}
use s3_mcp_relay.Transport.Objects.{Transport}
use s3_mcp_relay.Transport.Bulk.{read_update_manifest}
use s3_mcp_relay.Transport.Quiet.{IsQuiet, read_update_manifest-Keeps}
use s3_mcp_relay.Blob.{hex}
use s3_mcp_relay.Update.{
  UpdateState, Decision, Installer, state_of, load, install, conclude, apply_update, account,
  decide, consider, check_and_apply,
}
use s3_mcp_relay.Update.Files.{Places, IsInstaller, stored}
use s3_mcp_relay.Update.Kept.{check_and_apply-Holds}
use s3_mcp_relay.Update.Installed.{IsInstalled, apply_update-IsInstalled}

module _ {W : Type 0} (h : Host W) (t : Transport) (i : Installer W) where
  -- The release that was installed is that of the manifest.
  abbrev Is : UpdateManifest → Decision → W → Type 0
  Is m d w = (v sh : Text) → d ≡ Decision.applied v sh → (m.version ≡ v) × (m.sha256 ≡ sh)

  conclude-Is :
      (m : UpdateManifest) (staged : Text) (r : Outcome (Unit {0})) (w : W)
      → Ensures (Is m) (conclude h t i m staged r w)
  unfolding conclude
  conclude-Is m staged (ok u) w = λ d e v sh is. (ground arith, ground arith)
  conclude-Is m staged (err x) w = λ d e. absurd (ground arith)

  apply_update-Is :
      (m : UpdateManifest) (current : Text) (w : W)
      → Ensures (Is m) (apply_update h t i m current w)
  unfolding apply_update
  apply_update-Is m current w =
      let staged : Text = i.sibling current (codes ".relay-update") in
      Ensures-continue (λ c v. Unit {0}) (Is m) _
        (lift (from_base64 h.codec m.release_key_b64 (codes "release")) w) (λ c e. tt)
        (λ c v u.
          Ensures-continue (λ r x. Unit {0}) (Is m) (conclude h t i m staged)
            (attempt (install h t i m c current staged) v) (λ r e. tt)
            (λ r x u. conclude-Is m staged r x))

  module _ {at : W → Places} {exe : Text} (l : IsInstaller i at exe)
      (q : (P : Places → Type 0) → IsQuiet h (λ v. P (at v))) where
    decide-applied :
        (m : UpdateManifest) (jobs : ℕ) (installed : Text) (s : UpdateState) (w : W) (v sh : Text)
        → (decide h t i m jobs exe installed s w).0 ≡ ok (Decision.applied v sh)
        → (jobs ≡ 0)
          × (s.last_published_at <ℤ m.published_at)
          × (m.version ≡ v)
          × (m.sha256 ≡ sh)
          × IsInstalled h t i l q m (decide h t i m jobs exe installed s w).1
    unfolding decide account
    decide-applied m jobs installed s w v sh e =
        let is = apply_update-Is m exe w in
        let lands = apply_update-IsInstalled h t i l q m w in
        elim (Bool-cases (text_eq installed m.sha256)) [
          | inl present ↦ elim (Bool-cases (ltb_ℤ s.last_published_at m.published_at)) [
            | inl newer ↦ absurd (ground arith)
            | inr older ↦ absurd (ground arith)
          ]
          | inr absent ↦ elim (Bool-cases (leb_ℤ m.published_at s.last_published_at)) [
            | inl older ↦ absurd (ground arith)
            | inr newer ↦ elim (Bool-cases (ltb 0 jobs)) [
              | inl busy ↦ absurd (ground arith)
              | inr free ↦
                  let done : (apply_update h t i m exe w).0 ≡ ok (Decision.applied v sh) =
                    ground arith in
                  let world : (apply_update h t i m exe w).1
                      ≡ (decide h t i m jobs exe installed s w).1 =
                    ground arith in
                  let (version, hash) = is (Decision.applied v sh) done v sh refl in
                  (
                    ground arith,
                    ground arith,
                    version,
                    hash,
                    subst (λ x. IsInstalled h t i l q m x) world
                        (lands (Decision.applied v sh) done),
                  )
            ]
          ]
        ]

    consider-applied :
        (S : UpdateState) (jobs : ℕ) (found : Option UpdateManifest) (v sh : Text) (w : W)
        → stored h t i l w ≡ S
        → (consider h t i jobs found w).0 ≡ ok (Decision.applied v sh)
        → (m : UpdateManifest) × (found ≡ some m)
          × (m.target ≡ i.target)
          × (jobs ≡ 0)
          × (S.last_published_at <ℤ m.published_at)
          × (m.version ≡ v)
          × (m.sha256 ≡ sh)
          × IsInstalled h t i l q m (consider h t i jobs found w).1
    unfolding consider load
    consider-applied S jobs none v sh w same_state e = absurd (ground arith)
    consider-applied S jobs (some m) v sh w same_state e =
        elim (Bool-cases (text_eq m.target i.target)) [
          | inr other ↦ absurd (ground arith)
          | inl fits ↦ elim (Option-cases (i.current_exe w).0) [
            | inl bad ↦ absurd (ground arith)
            | inr (current, found_exe) ↦
                let is_exe = l.current_exe current w found_exe in
                let found_here : (i.current_exe w).0 ≡ some exe = found_exe ∙ ap some is_exe in
                let y : W = (i.current_exe w).1 in
                elim (Option-cases (i.file_sha256 exe y).0) [
                  | inl bad ↦ absurd (ground arith)
                  | inr (installed, hashed) ↦
                      let x : W = (i.file_sha256 exe y).1 in
                      let kept : at x i.state_path ≡ at w i.state_path =
                        l.file_sha256_keeps exe y i.state_path
                        ∙ l.current_exe_keeps w i.state_path in
                      let st : UpdateState = state_of i.states (i.read i.state_path x).0 in
                      let state : st ≡ S = ap (state_of i.states) (l.read x ∙ kept) ∙ same_state in
                      let z : W = (i.read i.state_path x).1 in
                      let run : (decide h t i m jobs exe installed st z).0
                          ≡ ok (Decision.applied v sh) =
                        ground arith in
                      let world : (decide h t i m jobs exe installed st z).1
                          ≡ (consider h t i jobs (some m) w).1 =
                        ground arith in
                      let (idle, newer, version, hash, lands) =
                        decide-applied m jobs installed st z v sh run in
                      (
                        m,
                        refl,
                        (text_eq_iff m.target i.target).0 fits,
                        idle,
                        subst (λ st. st.last_published_at <ℤ m.published_at) state newer,
                        version,
                        hash,
                        subst (λ x. IsInstalled h t i l q m x) world lands,
                      )
                ]
          ]
        ]

-- An update that is installed is the one of the agent's manifest: built for this host, while no job
-- runs, and published after the time that the state file gives; and the file at the path of the
-- running binary then has the hash of the manifest. Whatever `check_and_apply` comes to, the time
-- that the state file gives never goes back, so that an older manifest put back into the bucket is
-- not installed. The time is zero where there is no state file or it cannot be parsed; the laws of
-- `IsInstaller` say that a state file that is there can be read, that the test run changes no file, and
-- that the path of the state file and those of the binary and of the temporary files are different;
-- the bucket and the clock touch no file.
pub check_and_apply_lem :
    {W : Type 0} (h : Host W) (t : Transport) (i : Installer W) (at : W → Places) (exe : Text)
    (agent : Text) (jobs : ℕ) (w : W)
    → IsInstaller i at exe
    → ((P : Places → Type 0) → IsQuiet h (λ v. P (at v)))
    → let end : W = (check_and_apply h t i agent jobs w).1 in
      let before : UpdateState = state_of i.states (at w i.state_path) in
      ((v sh : Text)
        → (check_and_apply h t i agent jobs w).0 ≡ ok (Decision.applied v sh)
        → (m : UpdateManifest) × ((read_update_manifest h t agent w).0 ≡ ok (some m))
          × (m.target ≡ i.target)
          × (jobs ≡ 0)
          × (before.last_published_at <ℤ m.published_at)
          × (m.version ≡ v)
          × (m.sha256 ≡ sh)
          × ((b : List ℕ) × (at end exe ≡ some b) × (hex (i.digest b) ≡ m.sha256)))
      × (before.last_published_at ≤ℤ (state_of i.states (at end i.state_path)).last_published_at)
unfolding check_and_apply
check_and_apply_lem {W = W} h t i at exe agent jobs w l q =
    let S : UpdateState = stored h t i l w in
    (
      λ v sh e. elim (Outcome-cases (read_update_manifest h t agent w).0) [
        | inr bad ↦ absurd (ground arith)
        | inl (found, read) ↦
            let y : W = (read_update_manifest h t agent w).1 in
            let kept : stored h t i l y ≡ S =
              (read_update_manifest-Keeps (q (λ f. state_of i.states (f i.state_path) ≡ S)) t
                  agent).at
                w refl in
            let run : (consider h t i jobs found y).0 ≡ ok (Decision.applied v sh) = ground arith in
            let world : (consider h t i jobs found y).1 ≡ (check_and_apply h t i agent jobs w).1 =
              ground arith in
            let (m, is_some, fits, idle, newer, version, hash, lands) =
              consider-applied h t i l q S jobs found v sh y kept run in
            (
              m,
              read ∙ ap ok is_some,
              fits,
              idle,
              newer,
              version,
              hash,
              subst (λ x. IsInstalled h t i l q m x) world lands,
            )
      ],
      (check_and_apply-Holds h t i l (λ st. S.last_published_at ≤ℤ st.last_published_at)
            (q (λ f. S.last_published_at ≤ℤ (state_of i.states (f i.state_path)).last_published_at))
            agent jobs (λ s m at old newer. omega arith)).at
          w (omega arith),
    )
