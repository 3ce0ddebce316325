-- ===== src/Blob/Assembly.antt =====
-- What an assembly writes, and what is at its destination then.
use s3_mcp_relay.Base.{
  ℕ, zero, suc, ◌+◌, ◌≡◌, ◌⊎◌, inl, inr, min, Option, none, some, List, [], ◌++◌, arith, refl, ap,
  sym, ◌∙◌, Text, text_eq_iff, length, length-append, ok, err, ltb, Bool-cases, Option-cases,
}
use s3_mcp_relay.Failure.{Error, Outcome-cases}
use s3_mcp_relay.Effect.{
  Eff, Ensures, Ensures-continue, Ensures-pure, continue-keeps, request, lift,
}
use s3_mcp_relay.Effect.Keeps.{reply-world}
use s3_mcp_relay.Blob.{
  Disk, Manifest, add_bytes, hex, some_chunk, assemble_chunks, check_assembled, assemble_into,
  assemble_file,
}

-- The temporary file of an assembly: `written w` is what it holds.
pub record IsWriting {W : Type 0} (disk : Disk W) (get : ℕ → Eff W (Option (List ℕ))) (temp : Text)
    (written : W → List ℕ) : Type 0 where
  pub get_written : (i : ℕ) (w : W) → written (get i w).1 ≡ written w
  pub create_done : (w : W) → (disk.create temp w).0 ≡ some tt → written (disk.create temp w).1 ≡ []
  pub write_done :
      (b : List ℕ) (w : W)
      → (disk.write_all b w).0 ≡ some tt
      → written (disk.write_all b w).1 ≡ written w ++ b
  pub flush_written : (w : W) → written (disk.flush w).1 ≡ written w

-- The file system on the side of an assembly: `target w` is what is at the destination. Only a rename that succeeds changes the destination.
pub record IsAssembly {W : Type 0} (disk : Disk W) (get : ℕ → Eff W (Option (List ℕ)))
    (temp dest : Text) (written : W → List ℕ) (target : W → Option (List ℕ)) : Type 0 where
  pub writing : IsWriting disk get temp written
  pub get_target : (i : ℕ) (w : W) → target (get i w).1 ≡ target w
  pub create_target : (w : W) → target (disk.create temp w).1 ≡ target w
  pub write_target : (b : List ℕ) (w : W) → target (disk.write_all b w).1 ≡ target w
  pub flush_target : (w : W) → target (disk.flush w).1 ≡ target w
  pub rename_done :
      (w : W)
      → (disk.rename temp dest w).0 ≡ some tt
      → target (disk.rename temp dest w).1 ≡ some (written w)
  pub rename_failed :
      (w : W) → (disk.rename temp dest w).0 ≡ none → target (disk.rename temp dest w).1 ≡ target w
  pub remove_target : (w : W) → target (disk.remove_file temp w).1 ≡ target w

module _ {W : Type 0} {disk : Disk W} {get : ℕ → Eff W (Option (List ℕ))} {temp : Text}
    {written : W → List ℕ} (s : IsWriting disk get temp written) (digest : List ℕ → List ℕ)
    (m : Manifest) where
  -- The bytes that were hashed and counted are the bytes that were written.
  abbrev IsCounted : ℕ × List ℕ → W → Type 0
  IsCounted r v = (written v ≡ r.1) × (r.0 ≡ min (length r.1) 18446744073709551615)

  assemble_chunks-IsCounted :
      (left i n : ℕ) (hashed : List ℕ) (w : W)
      → written w ≡ hashed
      → n ≡ min (length hashed) 18446744073709551615
      → Ensures IsCounted (assemble_chunks disk digest get m left i (n, hashed) w)
  unfolding assemble_chunks
  assemble_chunks-IsCounted zero i n hashed w e c = Ensures-pure IsCounted (n, hashed) w (e, c)
  assemble_chunks-IsCounted (suc left) i n hashed w e c =
      Ensures-continue (λ a v. written v ≡ hashed) IsCounted _ (get i w)
        (λ a done. s.get_written i w ∙ e)
        (λ found v at_v.
          Ensures-continue (λ a v. written v ≡ hashed) IsCounted _
            (lift (some_chunk disk digest get m found) v) (λ a done. at_v)
            (λ bytes u at_u. elim (Bool-cases (ltb m.total_bytes (add_bytes n (length bytes)))) [
              | inl over ↦ rw over (λ r x. absurd (ground arith))
              | inr within ↦ rw within (
                  Ensures-continue (λ t v. written v ≡ hashed ++ bytes) IsCounted _
                    (request (Error.service 22) (disk.write_all bytes) u)
                    (λ t done. ground (arith, s.write_done bytes u, at_u))
                    (λ t x at_x.
                      assemble_chunks-IsCounted left (i + 1) (add_bytes n (length bytes))
                        (hashed ++ bytes) x at_x (omega (arith, c, length-append hashed bytes))))
            ]))

  -- The temporary file holds what the manifest promises.
  abbrev pub Verified : ℕ → W → Type 0
  Verified n v =
      (n ≡ m.total_bytes)
      × (hex (digest (written v)) ≡ m.sha256)
      × (m.total_bytes ≡ min (length (written v)) 18446744073709551615)

  check_assembled_lem :
      (r : ℕ × List ℕ) (n : ℕ)
      → check_assembled disk digest get m r ≡ ok n
      → (n ≡ m.total_bytes) × (r.0 ≡ m.total_bytes) × (hex (digest r.1) ≡ m.sha256)
  unfolding check_assembled
  check_assembled_lem (n, hashed) k e = ground (arith, text_eq_iff (hex (digest hashed)) m.sha256)

  pub assemble_into-Verified : (w : W) → Ensures Verified (assemble_into disk digest get m temp w)
  unfolding assemble_into
  assemble_into-Verified w =
      Ensures-continue (λ t v. written v ≡ []) Verified _
        (request (Error.service 23) (disk.create temp) w)
        (λ t done. ground (arith, s.create_done w))
        (λ t v empty.
          Ensures-continue IsCounted Verified _
            (assemble_chunks disk digest get m m.chunks 0 (0, []) v)
            (assemble_chunks-IsCounted m.chunks 0 0 [] v empty (omega arith))
            (λ r u counted.
              Ensures-continue (λ t v. IsCounted r v) Verified _
                (request (Error.service 24) disk.flush u)
                (λ t done. (
                  ap written (reply-world (Error.service 24) (disk.flush u))
                      ∙ s.flush_written u
                      ∙ counted.0,
                  counted.1,
                ))
                (λ t x (at_x, size) n checked.
                  let (a, b, c) = check_assembled_lem r n checked in
                  (
                    a,
                    ap (λ y. hex (digest y)) at_x ∙ c,
                    sym b ∙ size ∙ ap (λ y. min (length y) 18446744073709551615) (sym at_x),
                  ))))

module _ {W : Type 0} {disk : Disk W} {get : ℕ → Eff W (Option (List ℕ))} {temp dest : Text}
    {written : W → List ℕ} {target : W → Option (List ℕ)}
    (s : IsAssembly disk get temp dest written target) (digest : List ℕ → List ℕ)
    (m : Manifest) where
  request_world :
      {A : Type 0} (e : Error) (call : W → Option A × W) (w : W) → (request e call w).1 ≡ (call w).1
  request_world e call w = ground arith

  assemble_chunks-target :
      (left i : ℕ) (r : ℕ × List ℕ) (w : W)
      → target (assemble_chunks disk digest get m left i r w).1 ≡ target w
  unfolding assemble_chunks
  assemble_chunks-target zero i (n, hashed) w = refl
  assemble_chunks-target (suc left) i (n, hashed) w =
      let I : W → Type 0 = λ v. target v ≡ target w in
      continue-keeps I _ (get i w) (s.get_target i w) (λ found v at_v.
        continue-keeps I _ (lift (some_chunk disk digest get m found) v) at_v (λ bytes u at_u.
          elim (Bool-cases (ltb m.total_bytes (add_bytes n (length bytes)))) [
            | inl over ↦ rw over at_u
            | inr within ↦ rw within (
                continue-keeps I _ (request (Error.service 22) (disk.write_all bytes) u)
                  (ap target (request_world (Error.service 22) (disk.write_all bytes) u)
                    ∙ s.write_target bytes u
                    ∙ at_u)
                  (λ t x at_x.
                    assemble_chunks-target left (i + 1)
                      (add_bytes n (length bytes), hashed ++ bytes) x
                    ∙ at_x))
          ]))

  assemble_into-target : (w : W) → target (assemble_into disk digest get m temp w).1 ≡ target w
  unfolding assemble_into
  assemble_into-target w =
      let I : W → Type 0 = λ v. target v ≡ target w in
      continue-keeps I _ (request (Error.service 23) (disk.create temp) w)
        (ap target (request_world (Error.service 23) (disk.create temp) w) ∙ s.create_target w)
        (λ t v at_v.
          continue-keeps I _ (assemble_chunks disk digest get m m.chunks 0 (0, []) v)
            (assemble_chunks-target m.chunks 0 (0, []) v ∙ at_v)
            (λ r u at_u.
              continue-keeps I _ (request (Error.service 24) disk.flush u)
                (ap target (request_world (Error.service 24) disk.flush u)
                  ∙ s.flush_target u
                  ∙ at_u)
                (λ t x at_x. at_x)))

  -- The destination gets a file only if its bytes have the hash of the manifest and as many bytes as
  -- it says (counted up to the largest u64); otherwise it is as it was. This holds whatever the bucket answers and wherever the assembly
  -- fails.
  pub assemble_file_lem :
      (w : W)
      → let r = assemble_file disk digest get m temp dest w in
        ((bytes : List ℕ) × (r.0 ≡ ok m.total_bytes)
          × (target r.1 ≡ some bytes)
          × (hex (digest bytes) ≡ m.sha256)
          × (m.total_bytes ≡ min (length bytes) 18446744073709551615))
        ⊎ ((e : Error) × (r.0 ≡ err e) × (target r.1 ≡ target w))
  unfolding assemble_file
  assemble_file_lem w =
      let v = (assemble_into disk digest get m temp w).1 in
      let kept = assemble_into-target w in
      elim (Outcome-cases (assemble_into disk digest get m temp w).0) [
        | inr (e, failed) ↦ inr (e, ground arith, ground (arith, s.remove_target v, kept))
        | inl (n, built) ↦
            let (size, hash, measured) = assemble_into-Verified s.writing digest m w n built in
            elim (Option-cases (disk.rename temp dest v).0) [
              | inl refused ↦
                  inr (
                    Error.service 25,
                    ground arith,
                    ground (arith, s.rename_failed v refused, kept),
                  )
              | inr (t, moved) ↦
                  inl
                    (written v, ground arith, ground (arith, s.rename_done v moved), hash, measured)
            ]
      ]
