-- ===== src/Blob/Fuel.antt =====
-- An upload ends within the fuel of the model.
use s3_mcp_relay.Base.{
  ℕ, zero, suc, ◌+◌, ◌-◌, ◌<◌, ◌≤◌, ◌≡◌, ◌≢◌, inl, inr, ◌&&◌, List, [], ◌∷◌, ◌++◌, arith, refl, ap,
  sym, subst, Text, length, length-append, err, ltb, leb, ◌==◌, Bool-cases,
}
use s3_mcp_relay.Failure.{Error}
use s3_mcp_relay.Effect.{Eff, IsFueled, IsFueled-continue, pure, request}
use s3_mcp_relay.Blob.{
  Disk, Upload, pick, fill, join_next, join_while, join_all, upload_loop, upload_chunks, add_bytes,
  hex, upload_concurrency,
}
use s3_mcp_relay.Blob.Joins.{IsStaging, IsCovered, Joined, join_while-Joined}
use s3_mcp_relay.Blob.Chunks.{upload_concurrency_positive}
use s3_mcp_relay.Blob.Fill.{Filled, fill-Filled}
use s3_mcp_relay.Blob.Upload.{spawn-IsCovered, open_file-world}

module _ {W : Type 0} {disk : Disk W} {put : ℕ → List ℕ → Eff W (Unit {0})}
    {Stored : W → ℕ → List ℕ → Type 0} {unread : W → List ℕ} (s : IsStaging disk put Stored unread)
    (digest : List ℕ → List ℕ) (ends : (i : ℕ) (d : List ℕ) (w : W) → IsFueled (put i d w)) where
  fill-IsFueled : (fuel want : ℕ) (w : W) → IsFueled (fill disk digest fuel want w)
  unfolding fill
  fill-IsFueled zero want w = ground arith
  fill-IsFueled (suc fuel) want w = elim (Bool-cases (want == 0)) [
    | inl nothing ↦ rw nothing (ground arith)
    | inr more ↦ rw more (
        IsFueled-continue (λ got v. Unit) _ (request (Error.service 20) (disk.read want) w)
          (ground arith) (λ got e. tt)
          (λ got v t. elim (Bool-cases (length got == 0)) [
            | inl over ↦ rw over (ground arith)
            | inr left ↦ rw left (
                IsFueled-continue (λ m u. Unit) (λ m. pure (got ++ m))
                  (fill disk digest fuel (want - length got) v)
                  (fill-IsFueled fuel (want - length got) v) (λ m e. tt) (λ m u t. ground arith))
          ]))
  ]

  join_next-IsFueled :
      (inflight : List Upload) (w : W) → IsFueled (join_next disk digest put inflight w)
  unfolding join_next
  join_next-IsFueled [] w = ground arith
  join_next-IsFueled (task ∷ more) w =
      let v = (disk.next_upload w).1 in
      let chosen = (pick (disk.next_upload w).0 task more).0 in
      IsFueled-continue (λ u v. Unit) (λ u. pure (pick (disk.next_upload w).0 task more).1)
        (put chosen.0 chosen.1 v) (ends chosen.0 chosen.1 v) (λ u e. tt) (λ u v t. ground arith)

  join_while-IsFueled :
      (fuel most : ℕ) (inflight : List Upload) (w : W)
      → IsFueled (join_while disk digest put fuel most inflight w)
  unfolding join_while
  join_while-IsFueled zero most inflight w = ground arith
  join_while-IsFueled (suc fuel) most inflight w = elim (Bool-cases (leb most (length inflight))) [
    | inr room ↦ rw room (ground arith)
    | inl full ↦ rw full (
        IsFueled-continue (λ rest v. Unit) (join_while disk digest put fuel most)
          (join_next disk digest put inflight w) (join_next-IsFueled inflight w) (λ rest e. tt)
          (λ rest v t. join_while-IsFueled fuel most rest v))
  ]

  join_all-IsFueled :
      (inflight : List Upload) (r : ℕ × ℕ × List ℕ) (w : W)
      → IsFueled (join_all disk digest put inflight r w)
  unfolding join_all
  join_all-IsFueled inflight (chunks, total, hashed) w =
      IsFueled-continue (λ left v. Unit) (λ left. pure (chunks, total, hex (digest hashed)))
        (join_while disk digest put (length inflight) 1 inflight w)
        (join_while-IsFueled (length inflight) 1 inflight w) (λ left e. tt)
        (λ left v t. ground arith)

  upload_loop-IsFueled :
      (fuel chunk_size most : ℕ) (ds : List (List ℕ)) (inflight : List Upload) (chunks total : ℕ)
      (hashed : List ℕ) (w : W)
      → 1 ≤ most
      → 1 ≤ chunk_size
      → IsCovered s digest ds inflight w
      → length ds ≡ chunks
      → length (unread w) < fuel
      → IsFueled
          (upload_loop disk digest put fuel chunk_size most inflight (chunks, total, hashed) w)
  unfolding upload_loop
  upload_loop-IsFueled zero chunk_size most ds inflight chunks total hashed w a b c n f =
      absurd (omega arith)
  upload_loop-IsFueled (suc fuel) chunk_size most ds inflight chunks total hashed w a b c n f =
      IsFueled-continue (Filled s digest ds inflight w chunk_size) _
        (fill disk digest chunk_size chunk_size w) (fill-IsFueled chunk_size chunk_size w)
        (fill-Filled s digest ds inflight chunk_size chunk_size w (omega arith) c)
        (λ d v (front, small, at_end, c'). elim (Bool-cases (length d == 0 && ltb 0 chunks)) [
          | inl over ↦ rw over (join_all-IsFueled inflight (chunks, total, hashed) v)
          | inr more ↦ elim (Bool-cases (leb 4294967295 chunks)) [
            | inl full ↦ rw more (rw full (ground arith))
            | inr room ↦
                let ds' = ds ++ d ∷ [] in
                let spawned = inflight ++ (chunks, d) ∷ [] in
                let covered : IsCovered s digest ds' spawned v =
                  subst (λ k. IsCovered s digest ds' (inflight ++ (k, d) ∷ []) v) n
                    (spawn-IsCovered s digest ds inflight d v c') in
                rw more (
                  rw room (
                    IsFueled-continue (Joined s digest ds' v (most - 1)) _
                      (join_while disk digest put (length spawned) most spawned v)
                      (join_while-IsFueled (length spawned) most spawned v)
                      (join_while-Joined s digest ds' (length spawned) most spawned v a
                        (omega arith) covered)
                      (λ left u (c'', same, few). elim (Bool-cases (ltb (length d) chunk_size)) [
                        | inl short ↦ rw short (join_all-IsFueled left _ u)
                        | inr long ↦ rw long (
                            upload_loop-IsFueled fuel chunk_size most ds' left (chunks + 1)
                              (add_bytes total (length d)) (hashed ++ d) u a b c''
                              (omega (arith, n, length-append ds (d ∷ [])))
                              (ground (
                                arith,
                                ap (length {A = ℕ}) same,
                                ap (length {A = ℕ}) front,
                                length-append d (unread v),
                              )))
                      ])))
          ]
        ])

  -- An upload in chunks of at least one byte ends with a result or an error of the program when the
  -- model's fuel is greater than the number of bytes of the source. The file and the bucket keep the
  -- laws of `IsStaging`: a read consumes the bytes that it returns, no other call does, and a chunk
  -- that was put is in the bucket.
  pub upload_chunks-fuel :
      (fuel : ℕ) (source : Text) (chunk_size concurrency : ℕ) (w : W)
      → 1 ≤ chunk_size
      → length (unread (disk.open_file source w).1) < fuel
      → (upload_chunks disk digest put fuel source chunk_size concurrency w).0
        ≢ err Error.out_of_fuel
  unfolding upload_chunks
  upload_chunks-fuel fuel source chunk_size concurrency w b f =
      IsFueled-continue (λ u v. v ≡ (disk.open_file source w).1) _
        (request (Error.service 21) (disk.open_file source) w) (ground arith)
        (open_file-world s digest source w)
        (λ u v same.
          upload_loop-IsFueled fuel chunk_size (upload_concurrency concurrency chunk_size) [] [] 0 0
            [] v (upload_concurrency_positive concurrency chunk_size) b
            (tt, λ i d e. absurd (ground arith)) refl
            (subst (λ x. length (unread x) < fuel) (sym same) f))
