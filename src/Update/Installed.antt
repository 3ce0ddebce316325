-- ===== src/Update/Installed.antt =====
-- What an installation leaves at the path of the running binary.
use s3_mcp_relay.Base.{
  ℕ, ◌≡◌, some, List, Option, Text, codes, ok, err, arith, refl, ap, sym, ◌∙◌, subst,
}
use s3_mcp_relay.Failure.{Error, Outcome}
use s3_mcp_relay.Effect.{Ensures, Ensures-continue, request, attempt, lift, ignore}
use s3_mcp_relay.Effect.Keeps.{reply-world}
use s3_mcp_relay.Platform.{Host}
use s3_mcp_relay.Protocol.Types.{UpdateManifest}
use s3_mcp_relay.Crypto.{Crypto, from_base64}
use s3_mcp_relay.Transport.Objects.{Transport}
use s3_mcp_relay.Transport.Quiet.{IsQuiet, get_release_chunk-Keeps}
use s3_mcp_relay.Blob.{hex}
use s3_mcp_relay.Blob.Assembly.{IsWriting, assemble_into-Verified}
use s3_mcp_relay.Update.{
  Installer, release_contents, updated_state, get_release_with, download, put_back, install,
  conclude, apply_update,
}
use s3_mcp_relay.Update.Files.{
  Places, IsInstaller, staged_path, backup_path, bytes_at, save-elsewhere,
}

module _ {W : Type 0} (h : Host W) (t : Transport) (i : Installer W) {at : W → Places} {exe : Text}
    (l : IsInstaller i at exe) (q : (P : Places → Type 0) → IsQuiet h (λ v. P (at v)))
    (m : UpdateManifest) where
  abbrev staged : Text
  staged = staged_path i exe

  -- The staged file has the hash of the manifest.
  abbrev IsStaged : W → Type 0
  IsStaged v = hex (i.digest (bytes_at (at v staged))) ≡ m.sha256

  -- The bytes at the path of the running binary have the hash of the manifest.
  abbrev pub IsInstalled : W → Type 0
  IsInstalled v = (b : List ℕ) × (at v exe ≡ some b) × (hex (i.digest b) ≡ m.sha256)

  get_release_with-staged :
      (c : Crypto) (index : ℕ) (w : W)
      → bytes_at (at (get_release_with h t i m c index w).1 staged) ≡ bytes_at (at w staged)
  unfolding get_release_with
  get_release_with-staged c index w =
      ap bytes_at
        ((get_release_chunk-Keeps (q (λ f. f staged ≡ at w staged)) t m.release index c).at w refl)

  writing :
      (c : Crypto)
      → IsWriting i.disk (get_release_with h t i m c) staged (λ w. bytes_at (at w staged))
  writing c = record {
    get_written = get_release_with-staged c;
    create_done = λ w done. ap bytes_at (l.create_done w done);
    write_done = λ b w done. ap bytes_at (l.append_done b w done);
    flush_written = λ w. ap bytes_at (l.flush_keeps w staged);
  }

  download-IsStaged :
      (c : Crypto) (w : W) → Ensures (λ u v. IsStaged v) (download h t i m c staged w)
  unfolding download
  download-IsStaged c w =
      Ensures-continue (λ n v. IsStaged v) (λ u v. IsStaged v) _ _
        (λ n done. (assemble_into-Verified (writing c) i.digest (release_contents m) w n done).1)
        (λ n v staged u done. staged)

  -- A step that leaves the staged file alone.
  step :
      {A : Type 0} (e : Error) (call : W → Option A × W) (w : W)
      → at (call w).1 staged ≡ at w staged
      → IsStaged w
      → Ensures (λ a v. IsStaged v) (request e call w)
  step e call w kept is a done =
      subst (λ b. hex (i.digest (bytes_at b)) ≡ m.sha256)
        (sym (ap (λ v. at v staged) (reply-world e (call w)) ∙ kept)) is

  put_back-IsInstalled :
      (r : Outcome (Unit {0})) (w : W)
      → (r ≡ ok tt → IsInstalled w)
      → Ensures (λ u v. IsInstalled v) (put_back h t i (backup_path i exe) exe r w)
  put_back-IsInstalled (ok u) w is d done = is refl
  put_back-IsInstalled (err e) w is d done = absurd (ground arith)

  move-IsInstalled :
      (e : Error) (w : W)
      → IsStaged w
      → Ensures (λ r v. r ≡ ok tt → IsInstalled v) (attempt (request e (i.rename staged exe)) w)
  move-IsInstalled e w is r done is_ok =
      let ran : (request e (i.rename staged exe) w).0 ≡ ok tt = ground arith in
      let moved : (i.rename staged exe w).0 ≡ some tt = ground arith in
      let (b, was, now) = l.rename_done staged exe w moved in
      (
        b,
        ap (λ v. at v exe) (reply-world e (i.rename staged exe w)) ∙ now,
        subst (λ x. hex (i.digest (bytes_at x)) ≡ m.sha256) was is,
      )

  install-IsInstalled :
      (c : Crypto) (w : W) → Ensures (λ u v. IsInstalled v) (install h t i m c exe staged w)
  unfolding install
  install-IsInstalled c w =
      let Q : Unit {0} → W → Type 0 = λ u v. IsStaged v in
      let R : Unit {0} → W → Type 0 = λ u v. IsInstalled v in
      Ensures-continue Q R _ _ (download-IsStaged c w) (λ u w a.
        Ensures-continue Q R _ _
          (step (Error.service 92) (i.set_executable staged) w
            (l.set_executable_keeps staged w staged) a)
          (λ u w a.
            Ensures-continue Q R _ _
              (step (Error.service 93) (i.smoke_test staged) w (l.smoke_test_keeps staged w staged)
                a)
              (λ u w a.
                Ensures-continue Q R _
                  (ignore (request (Error.service 94) (i.remove_file (backup_path i exe))) w)
                  (λ d done.
                    subst (λ b. hex (i.digest (bytes_at b)) ≡ m.sha256)
                      (sym (
                        ap (λ v. at v staged)
                          (reply-world (Error.service 94) (i.remove_file (backup_path i exe) w))
                        ∙ l.remove_elsewhere (backup_path i exe) w staged l.backup_staged))
                      a)
                  (λ u w a.
                    Ensures-continue Q R _ _
                      (step (Error.service 95) (i.rename exe (backup_path i exe)) w
                        (l.rename_elsewhere exe (backup_path i exe) w staged l.exe_staged
                          l.backup_staged)
                        a)
                      (λ u w a.
                        Ensures-continue (λ r v. r ≡ ok tt → IsInstalled v) R _ _
                          (move-IsInstalled (Error.service 97) w a)
                          (λ r w is. put_back-IsInstalled r w is))))))

  conclude-IsInstalled :
      (r : Outcome (Unit {0})) (w : W)
      → (r ≡ ok tt → IsInstalled w)
      → Ensures (λ d v. IsInstalled v) (conclude h t i m staged r w)
  unfolding conclude
  conclude-IsInstalled (ok u) w is d done =
      let (b, there, hash) = is refl in
      let (now, v) = h.now_unix w in
      let clock : at (h.now_unix w).1 exe ≡ at w exe =
        (q (λ f. f exe ≡ at w exe)).now_unix w refl in
      (
        b,
        save-elsewhere h t i l (updated_state m (h.now_unix w).0) (h.now_unix w).1 exe l.temp_exe
              (λ e. l.exe_state (sym e))
            ∙ clock
            ∙ there,
        hash,
      )
  conclude-IsInstalled (err e) w is d done = absurd (ground arith)

  pub apply_update-IsInstalled :
      (w : W) → Ensures (λ d v. IsInstalled v) (apply_update h t i m exe w)
  unfolding apply_update
  apply_update-IsInstalled w =
      Ensures-continue (λ c v. Unit {0}) (λ d v. IsInstalled v) _
        (lift (from_base64 h.codec m.release_key_b64 (codes "release")) w) (λ c e. tt)
        (λ c v u.
          Ensures-continue (λ r x. r ≡ ok tt → IsInstalled x) (λ d v. IsInstalled v)
            (conclude h t i m staged) (attempt (install h t i m c exe staged) v)
            (λ r done is_ok.
              install-IsInstalled c v tt
                (let e : (install h t i m c exe staged v).0 ≡ r = ground arith in e ∙ is_ok))
            (λ r x is. conclude-IsInstalled r x is))
