-- ===== src/Update/Kept.antt =====
-- What the state file holds while an update is checked and installed.
use s3_mcp_relay.Base.{
  ℕ, ◌≡◌, ◌≢◌, inl, inr, not, Option, none, some, Text, text_eq, ℤ, ◌<ℤ◌, ltb_ℤ, leb_ℤ, ok, err,
  arith, sym, ◌∙◌, subst, ltb, Bool-cases, Option-cases,
}
use s3_mcp_relay.Failure.{Error, Outcome}
use s3_mcp_relay.Effect.{Eff, sample, request, ◌>>=◌}
use s3_mcp_relay.Effect.Keeps.{
  Keeps, Keeps-attempt, Keeps-bind, Keeps-given, Keeps-if, Keeps-ignore, Keeps-lift, Keeps-pure,
  Keeps-request, keeps_rules,
}
use s3_mcp_relay.Platform.{Host}
use s3_mcp_relay.Protocol.Types.{UpdateManifest}
use s3_mcp_relay.Crypto.{Crypto}
use s3_mcp_relay.Transport.Objects.{Transport}
use s3_mcp_relay.Transport.Quiet.{IsQuiet, read_update_manifest-Keeps, get_release_chunk-Keeps}
use s3_mcp_relay.Blob.Quiet.{IsQuietStream, assemble_into-Keeps}
use s3_mcp_relay.Update.Files.{
  Places, IsInstaller, staged_path, backup_path, stored, loaded, save_lem,
}
use s3_mcp_relay.Update.{
  UpdateState, Decision, Installer, state_of, load, save, updated_state, get_release_with, download,
  put_back, install, conclude, apply_update, account, decide, consider, check_and_apply,
}

module _ {W : Type 0} (h : Host W) (t : Transport) (i : Installer W) {at : W → Places} {exe : Text}
    (l : IsInstaller i at exe) where
  -- An invariant of the stored state.
  module _ (P : UpdateState → Type 0) (q : IsQuiet h (λ w. P (stored h t i l w))) where
    abbrev Holds : {A : Type 0} → Eff W A → Type 0
    Holds m = Keeps (λ w. P (stored h t i l w)) m

    same :
        {A : Type 0} (call : W → A × W)
        → ((w : W) → at (call w).1 i.state_path ≡ at w i.state_path)
        → (w : W) → P (stored h t i l w)
        → P (stored h t i l (call w).1)
    same call k w p = subst (λ b. P (state_of i.states b)) (sym (k w)) p

    save-Holds : (s : UpdateState) → P s → Holds (save h t i s)
    save-Holds s ps = record {
      at = λ w p. elim (save_lem h t i l s w) [
        | inl new ↦ subst P (sym new) ps
        | inr old ↦ subst P (sym old) p
      ];
    }

    get_release_with-Holds :
        (m : UpdateManifest) (c : Crypto) (index : ℕ) → Holds (get_release_with h t i m c index)
    unfolding get_release_with
    get_release_with-Holds m c index = get_release_chunk-Keeps q t m.release index c

    staging : IsQuietStream i.disk (staged_path i exe) (λ w. P (stored h t i l w))
    staging = record {
      create =
          same (i.disk.create (staged_path i exe))
            (λ w. l.create_elsewhere w i.state_path l.staged_state);
      write_all =
          λ b. same (i.disk.write_all b) (λ w. l.append_elsewhere b w i.state_path l.staged_state);
      flush = same i.disk.flush (λ w. l.flush_keeps w i.state_path);
    }

    download-Holds :
        (m : UpdateManifest) (c : Crypto) → Holds (download h t i m c (staged_path i exe))
    unfolding download
    download-Holds m c =
        Keeps-bind _ _ (assemble_into-Keeps staging i.digest _ (get_release_with-Holds m c) _)
          (λ _. Keeps-pure tt)

    -- The state file is not among the files that an installation renames.
    moved :
        (p q : Text) (e : Error)
        → p ≢ i.state_path
        → q ≢ i.state_path
        → Holds (request e (i.rename p q))
    moved p q e np nq =
        Keeps-request e (i.rename p q)
          (same (i.rename p q) (λ w. l.rename_elsewhere p q w i.state_path np nq))

    put_back-Holds : (r : Outcome (Unit {0})) → Holds (put_back h t i (backup_path i exe) exe r)
    put_back-Holds (ok u) = search keeps_rules
    put_back-Holds (err e) = search (keeps_rules, moved, l.backup_state, l.exe_state)

    set_executable-Holds : (e : Error) (p : Text) → Holds (request e (i.set_executable p))
    set_executable-Holds e p =
        Keeps-request e _ (same (i.set_executable p) (λ w. l.set_executable_keeps p w i.state_path))

    smoke_test-Holds : (e : Error) (p : Text) → Holds (request e (i.smoke_test p))
    smoke_test-Holds e p =
        Keeps-request e _ (same (i.smoke_test p) (λ w. l.smoke_test_keeps p w i.state_path))

    remove-Holds : (e : Error) (p : Text) → p ≢ i.state_path → Holds (request e (i.remove_file p))
    remove-Holds e p ne =
        Keeps-request e _ (same (i.remove_file p) (λ w. l.remove_elsewhere p w i.state_path ne))

    install-Holds :
        (m : UpdateManifest) (c : Crypto) → Holds (install h t i m c exe (staged_path i exe))
    unfolding install
    install-Holds m c = Keeps-bind _ _ (download-Holds m c) (λ _.
        Keeps-bind _ _ (set_executable-Holds (Error.service 92) _) (λ _.
          Keeps-bind _ _ (smoke_test-Holds (Error.service 93) _) (λ _.
            Keeps-bind _ _ (Keeps-ignore _ (remove-Holds (Error.service 94) _ l.backup_state)) (λ _.
              Keeps-bind _ _
                (moved exe (backup_path i exe) (Error.service 95) l.exe_state l.backup_state)
                (λ _.
                  Keeps-bind _ _
                    (Keeps-attempt _
                      (moved (staged_path i exe) exe (Error.service 97) l.staged_state l.exe_state))
                    put_back-Holds)))))

    conclude-Holds :
        (m : UpdateManifest) (r : Outcome (Unit {0}))
        → ((at : ℤ) → P (updated_state m at))
        → Holds (conclude h t i m (staged_path i exe) r)
    unfolding conclude
    conclude-Holds m (ok u) new = search (keeps_rules, q.now_unix, save-Holds, new) depth 12
    conclude-Holds m (err e) new = search (keeps_rules, remove-Holds, l.staged_state) depth 12

    apply_update-Holds :
        (m : UpdateManifest)
        → ((at : ℤ) → P (updated_state m at))
        → Holds (apply_update h t i m exe)
    unfolding apply_update
    apply_update-Holds m new =
        Keeps-bind _ _ (Keeps-lift _)
          (λ c. Keeps-bind _ _ (Keeps-attempt _ (install-Holds m c)) (λ r. conclude-Holds m r new))

    account-Holds :
        (m : UpdateManifest) (s : UpdateState)
        → (s.last_published_at <ℤ m.published_at → (at : ℤ) → P (updated_state m at))
        → Holds (account h t i m s)
    unfolding account
    account-Holds m s new = elim (Bool-cases (ltb_ℤ s.last_published_at m.published_at)) [
      | inl newer ↦
          let fits : (at : ℤ) → P (updated_state m at) = new (ground arith) in
          rw newer (search (keeps_rules, save-Holds, fits) depth 12)
      | inr older ↦ rw older (search keeps_rules)
    ]

    decide-Holds :
        (m : UpdateManifest) (jobs : ℕ) (installed : Text) (s : UpdateState)
        → (s.last_published_at <ℤ m.published_at → (at : ℤ) → P (updated_state m at))
        → Holds (decide h t i m jobs exe installed s)
    unfolding decide
    decide-Holds m jobs installed s new =
        elim (Bool-cases (leb_ℤ m.published_at s.last_published_at)) [
          | inl older ↦ rw older (
              Keeps-if (text_eq installed m.sha256) _ _ (account-Holds m s new)
                (Keeps-pure Decision.not_newer))
          | inr newer ↦
              let fits : (at : ℤ) → P (updated_state m at) = new (ground arith) in
              rw newer (
                Keeps-if (text_eq installed m.sha256) _ _ (account-Holds m s new) (
                  Keeps-if (ltb 0 jobs) _ _ (Keeps-pure (Decision.deferred jobs))
                    (apply_update-Holds m fits)))
        ]

    abbrev consider_at : UpdateManifest → ℕ → Text → Eff W Decision
    consider_at m jobs current = request (Error.service 91) (i.file_sha256 current) >>= λ installed.
        sample (load h t i) >>= λ state. decide h t i m jobs current installed state

    considered :
        (m : UpdateManifest) (jobs : ℕ)
        → ((s : UpdateState) (m : UpdateManifest) (at : ℤ)
            → P s
            → s.last_published_at <ℤ m.published_at
            → P (updated_state m at))
        → Holds (consider_at m jobs exe)
    unfolding load
    considered m jobs step =
        Keeps-bind _ _
          (Keeps-request (Error.service 91) (i.file_sha256 exe)
            (same (i.file_sha256 exe) (λ w. l.file_sha256_keeps exe w i.state_path)))
          (λ installed.
            Keeps-given P _ _
              (λ w p. (
                same (i.read i.state_path) (λ w. l.read_keeps i.state_path w i.state_path) w p,
                λ s e. subst P (loaded h t i l w s e) p,
              ))
              (λ s ps. decide-Holds m jobs installed s (λ newer at. step s m at ps newer)))

    consider-Holds :
        (jobs : ℕ) (found : Option UpdateManifest)
        → ((s : UpdateState) (m : UpdateManifest) (at : ℤ)
            → P s
            → s.last_published_at <ℤ m.published_at
            → P (updated_state m at))
        → Holds (consider h t i jobs found)
    unfolding consider
    consider-Holds jobs none step = search keeps_rules
    consider-Holds jobs (some m) step =
        Keeps-if (not (text_eq m.target i.target)) _ _ (Keeps-pure Decision.wrong_target) (
          Keeps-given (λ c. c ≡ exe) _ _
            (λ w p. (
              (Keeps-request (Error.service 90) i.current_exe
                    (same i.current_exe (λ w. l.current_exe_keeps w i.state_path))).at
                  w p,
              λ c e. elim (Option-cases (i.current_exe w).0) [
                | inl bad ↦ absurd (ground arith)
                | inr (d, found) ↦
                    let named = l.current_exe d w found in
                    let equal : d ≡ c = ground arith in sym equal ∙ named
              ],
            ))
            (λ current is_exe.
              subst (λ c. Holds (consider_at m jobs c)) (sym is_exe) (considered m jobs step)))

    pub check_and_apply-Holds :
        (agent : Text) (jobs : ℕ)
        → ((s : UpdateState) (m : UpdateManifest) (at : ℤ)
            → P s
            → s.last_published_at <ℤ m.published_at
            → P (updated_state m at))
        → Holds (check_and_apply h t i agent jobs)
    unfolding check_and_apply
    check_and_apply-Holds agent jobs step =
        Keeps-bind _ _ (read_update_manifest-Keeps q t agent)
          (λ found. consider-Holds jobs found step)
