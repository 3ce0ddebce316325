-- ===== src/Update/Files.antt =====
-- What the calls on the machine do to the files, and the state file with them.
use s3_mcp_relay.Base.{
  ℕ, ◌≡◌, ◌≢◌, ◌⊎◌, inl, inr, Option, none, some, List, [], ◌∷◌, ◌++◌, Text, codes, ok, arith, refl,
  ap, sym, ◌∙◌, Option-cases,
}
use s3_mcp_relay.Failure.{Error, Outcome-cases}
use s3_mcp_relay.Effect.{continue-keeps, sample, request, lift, option_or}
use s3_mcp_relay.Effect.Keeps.{reply-world}
use s3_mcp_relay.Platform.{Host}
use s3_mcp_relay.Platform.Laws.{IsInverse}
use s3_mcp_relay.Transport.Objects.{Transport}
use s3_mcp_relay.Update.{UpdateState, Installer, state_of, load, make_parent, save}

-- `at w p` is what the file at `p` holds, if there is one. The running binary is at `exe`, and an
-- update is staged and the old binary put aside beside it.
abbrev pub Places : Type 0
Places = Text → Option (List ℕ)

abbrev pub staged_path : {W : Type 0} → Installer W → Text → Text
staged_path i exe = i.sibling exe (codes ".relay-update")

abbrev pub backup_path : {W : Type 0} → Installer W → Text → Text
backup_path i exe = i.sibling exe (codes ".bak")

abbrev pub temp_path : {W : Type 0} → Installer W → Text
temp_path i = i.with_extension i.state_path (codes "tmp")

abbrev pub bytes_at : Option (List ℕ) → List ℕ
bytes_at none = []
bytes_at (some b) = b

-- How a file system behaves: a call changes the files that it names and no other, the test run of a
-- binary changes none, a rename moves a
-- file that is there, and one that fails leaves all as it was. The file that is open for writing is
-- the staged one. Whatever is at the state file can be read, its JSON is read back, and the paths of
-- the state file and its temporary file are not those of the binary and of the files beside it.
pub record IsInstaller {W : Type 0} (i : Installer W) (at : W → Places) (exe : Text) : Type 0 where
  pub current_exe : (p : Text) (w : W) → (i.current_exe w).0 ≡ some p → p ≡ exe
  pub current_exe_keeps : (w : W) (x : Text) → at (i.current_exe w).1 x ≡ at w x
  pub file_sha256_keeps : (p : Text) (w : W) (x : Text) → at (i.file_sha256 p w).1 x ≡ at w x
  pub set_executable_keeps : (p : Text) (w : W) (x : Text) → at (i.set_executable p w).1 x ≡ at w x
  pub smoke_test_keeps : (p : Text) (w : W) (x : Text) → at (i.smoke_test p w).1 x ≡ at w x
  pub create_dir_all_keeps : (p : Text) (w : W) (x : Text) → at (i.create_dir_all p w).1 x ≡ at w x
  pub rename_done :
      (p q : Text) (w : W)
      → (i.rename p q w).0 ≡ some tt
      → (b : List ℕ) × (at w p ≡ some b) × (at (i.rename p q w).1 q ≡ some b)
  pub rename_failed :
      (p q : Text) (w : W) (x : Text) → (i.rename p q w).0 ≡ none → at (i.rename p q w).1 x ≡ at w x
  pub rename_elsewhere :
      (p q : Text) (w : W) (x : Text) → p ≢ x → q ≢ x → at (i.rename p q w).1 x ≡ at w x
  pub remove_elsewhere : (p : Text) (w : W) (x : Text) → p ≢ x → at (i.remove_file p w).1 x ≡ at w x
  pub read : (w : W) → (i.read i.state_path w).0 ≡ at w i.state_path
  pub read_keeps : (p : Text) (w : W) (x : Text) → at (i.read p w).1 x ≡ at w x
  pub write_done :
      (p : Text) (b : List ℕ) (w : W)
      → (i.write p b w).0 ≡ some tt
      → at (i.write p b w).1 p ≡ some b
  pub write_elsewhere :
      (p : Text) (b : List ℕ) (w : W) (x : Text) → p ≢ x → at (i.write p b w).1 x ≡ at w x
  pub create_done :
      (w : W)
      → (i.disk.create (staged_path i exe) w).0 ≡ some tt
      → at (i.disk.create (staged_path i exe) w).1 (staged_path i exe) ≡ some []
  pub create_elsewhere :
      (w : W) (x : Text)
      → staged_path i exe ≢ x
      → at (i.disk.create (staged_path i exe) w).1 x ≡ at w x
  pub append_done :
      (b : List ℕ) (w : W)
      → (i.disk.write_all b w).0 ≡ some tt
      → at (i.disk.write_all b w).1 (staged_path i exe)
        ≡ some (bytes_at (at w (staged_path i exe)) ++ b)
  pub append_elsewhere :
      (b : List ℕ) (w : W) (x : Text)
      → staged_path i exe ≢ x
      → at (i.disk.write_all b w).1 x ≡ at w x
  pub flush_keeps : (w : W) (x : Text) → at (i.disk.flush w).1 x ≡ at w x
  pub json : IsInverse i.states
  pub staged_state : staged_path i exe ≢ i.state_path
  pub backup_state : backup_path i exe ≢ i.state_path
  pub exe_state : exe ≢ i.state_path
  pub temp_state : temp_path i ≢ i.state_path
  pub temp_exe : temp_path i ≢ exe
  pub exe_staged : exe ≢ staged_path i exe
  pub backup_staged : backup_path i exe ≢ staged_path i exe

module _ {W : Type 0} (h : Host W) (t : Transport) (i : Installer W) {at : W → Places} {exe : Text}
    (l : IsInstaller i at exe) where
  -- The state that `load` gives.
  abbrev pub stored : W → UpdateState
  stored w = state_of i.states (at w i.state_path)

  abbrev state_at : Places → UpdateState
  state_at files = state_of i.states (files i.state_path)

  pub loaded : (w : W) (s : UpdateState) → (sample (load h t i) w).0 ≡ ok s → stored w ≡ s
  unfolding load
  loaded w s e =
      ap (state_of i.states) (sym (l.read w))
      ∙ (let x : state_of i.states (i.read i.state_path w).0 ≡ s = ground arith in x)

  make_parent-keeps : (o : Option Text) (w : W) (x : Text) → at (make_parent h t i o w).1 x ≡ at w x
  make_parent-keeps none w x = refl
  make_parent-keeps (some []) w x = refl
  make_parent-keeps (some (c ∷ dir)) w x =
      ap (λ v. at v x) (reply-world (Error.service 100) (i.create_dir_all (c ∷ dir) w))
      ∙ l.create_dir_all_keeps (c ∷ dir) w x

  -- Saving replaces what is stored, or leaves it.
  pub save_lem :
      (s : UpdateState) (w : W)
      → (stored (save h t i s w).1 ≡ s) ⊎ (stored (save h t i s w).1 ≡ stored w)
  unfolding save state_of
  save_lem s w =
      let v = (make_parent h t i (i.parent i.state_path) w).1 in
      let same =
        ap (state_of i.states) (make_parent-keeps (i.parent i.state_path) w i.state_path) in
      elim (Outcome-cases (make_parent h t i (i.parent i.state_path) w).0) [
        | inr (bad, failed) ↦ inr (ground arith)
        | inl (u, made) ↦ elim (Option-cases (i.states.to_vec s)) [
          | inl bad ↦ inr (ground arith)
          | inr (text, printed) ↦
              let x = (i.write (temp_path i) text v).1 in
              let apart =
                ap (state_of i.states)
                  (l.write_elsewhere (temp_path i) text v i.state_path l.temp_state)
                ∙ same in
              elim (Option-cases (i.write (temp_path i) text v).0) [
                | inl bad ↦ inr (ground arith)
                | inr (u, written) ↦ elim (Option-cases (i.rename (temp_path i) i.state_path x).0) [
                  | inl bad ↦
                      let old =
                        ap (state_of i.states)
                          (l.rename_failed (temp_path i) i.state_path x i.state_path bad)
                        ∙ apart in
                      inr (ground (arith, old))
                  | inr (u, moved) ↦
                      let (b, was, now) = l.rename_done (temp_path i) i.state_path x moved in
                      let is_text : b ≡ text =
                        ground (arith, was, l.write_done (temp_path i) text v written) in
                      inl (ground (arith, now, is_text, l.json s text printed))
                ]
              ]
        ]
      ]

  -- Saving leaves the other files alone.
  pub save-elsewhere :
      (s : UpdateState) (w : W) (x : Text)
      → temp_path i ≢ x
      → i.state_path ≢ x
      → at (save h t i s w).1 x ≡ at w x
  unfolding save
  save-elsewhere s w x ne nf =
      continue-keeps (λ v. at v x ≡ at w x) _ (make_parent h t i (i.parent i.state_path) w)
        (make_parent-keeps (i.parent i.state_path) w x)
        (λ u v at_v.
          continue-keeps (λ v. at v x ≡ at w x) _
            (lift (option_or (Error.service 101) (i.states.to_vec s)) v) at_v
            (λ text v at_v.
              continue-keeps (λ v. at v x ≡ at w x) _
                (request (Error.service 102) (i.write (temp_path i) text) v)
                (ap (λ y. at y x) (reply-world (Error.service 102) (i.write (temp_path i) text v))
                  ∙ l.write_elsewhere (temp_path i) text v x ne
                  ∙ at_v)
                (λ u y at_y.
                  ap (λ y. at y x)
                    (reply-world (Error.service 103) (i.rename (temp_path i) i.state_path y))
                  ∙ l.rename_elsewhere (temp_path i) i.state_path y x ne nf
                  ∙ at_y)))
