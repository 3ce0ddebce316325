-- ===== src/Blob/Upload.antt =====
-- What an upload has put in the bucket when it succeeds.
use s3_mcp_relay.Base.{
  ℕ, zero, suc, ◌+◌, ◌-◌, ◌≤◌, ◌≡◌, inl, inr, min, ◌&&◌, some, List, [], ◌∷◌, ◌++◌, arith, refl, ap,
  sym, ◌∙◌, subst, Text, length, length-append, append_assoc, append-nil, ok, All, ltb, leb, ◌==◌,
  Bool-cases,
}
use s3_mcp_relay.Failure.{Error}
use s3_mcp_relay.Effect.{Eff, Ensures, Ensures-continue, Ensures-pure, pure, request}
use s3_mcp_relay.Blob.{
  Disk, Upload, fill, join_while, join_all, upload_loop, upload_chunks, add_bytes, hex,
  upload_concurrency,
}
use s3_mcp_relay.Blob.Joins.{nth, concat, IsStaging, IsCovered, Joined, join_while-Joined}
use s3_mcp_relay.Blob.Chunks.{
  IsIn-none, IsIn-append, All-snoc, All-weaken, nth-front, nth-last, nth-snoc, concat-snoc,
  upload_concurrency_positive,
}
use s3_mcp_relay.Blob.Fill.{Filled, fill-Filled, empty_lem}

module _ {W : Type 0} {disk : Disk W} {put : ℕ → List ℕ → Eff W (Unit {0})}
    {Stored : W → ℕ → List ℕ → Type 0} {unread : W → List ℕ} (s : IsStaging disk put Stored unread)
    (digest : List ℕ → List ℕ) where
  -- The postcondition of an upload: the chunks are the source cut in order, each of at most
  -- `chunk_size` bytes, every one is stored, and the count, the size and the hash are theirs.
  pub record IsUploaded (chunk_size : ℕ) (content : List ℕ) (r : ℕ × ℕ × Text) (v : W)
      : Type 0 where
    pub pieces : List (List ℕ)
    pub whole : concat pieces ≡ content
    pub counted : length pieces ≡ r.0
    pub bounded : All (λ d. length d ≤ chunk_size) pieces
    pub stored : (i : ℕ) (d : List ℕ) → nth i pieces ≡ some d → Stored v i d
    pub measured : r.1 ≡ min (length content) 18446744073709551615
    pub hashed : r.2 ≡ hex (digest content)

  join_all-IsUploaded :
      (chunk_size : ℕ) (ds : List (List ℕ)) (inflight : List Upload) (chunks total : ℕ)
      (hashed : List ℕ) (w : W)
      → IsCovered s digest ds inflight w
      → length ds ≡ chunks
      → All (λ d. length d ≤ chunk_size) ds
      → total ≡ min (length (concat ds)) 18446744073709551615
      → hashed ≡ concat ds
      → Ensures
          (IsUploaded chunk_size (concat ds))
          (join_all disk digest put inflight (chunks, total, hashed) w)
  unfolding join_all
  join_all-IsUploaded chunk_size ds inflight chunks total hashed w c n b m e =
      Ensures-continue (Joined s digest ds w 0) (IsUploaded chunk_size (concat ds))
        (λ left. pure (chunks, total, hex (digest hashed)))
        (join_while disk digest put (length inflight) 1 inflight w)
        (join_while-Joined s digest ds (length inflight) 1 inflight w (omega arith) (omega arith) c)
        (λ left v (c', same, short).
          Ensures-pure (IsUploaded chunk_size (concat ds)) (chunks, total, hex (digest hashed)) v
            (record {
              pieces = ds;
              whole = refl;
              counted = n;
              bounded = b;
              stored = λ i d at_i. elim (c'.1 i d at_i) [
                | inl flying ↦ absurd (IsIn-none (i, d) left short flying)
                | inr there ↦ there
              ];
              measured = m;
              hashed = ap (λ x. hex (digest x)) e;
            }))

  -- A chunk that is read and spawned is covered with those before it.
  pub spawn-IsCovered :
      (ds : List (List ℕ)) (inflight : List Upload) (d : List ℕ) (w : W)
      → IsCovered s digest ds inflight w
      → IsCovered s digest (ds ++ d ∷ []) (inflight ++ (length ds, d) ∷ []) w
  spawn-IsCovered ds inflight d w (own, cover) = (
    All-snoc (λ x. nth x.0 (ds ++ d ∷ []) ≡ some x.1) inflight (length ds, d)
        (All-weaken (λ x. nth x.0 ds ≡ some x.1) (λ x. nth x.0 (ds ++ d ∷ []) ≡ some x.1) inflight
          (λ x h. nth-front x.0 ds d x.1 h) own)
        (nth-last ds d),
    λ i e at_i. elim (nth-snoc i ds d e at_i) [
      | inl front ↦ elim (cover i e front) [
        | inl flying ↦ inl (IsIn-append (i, e) inflight (length ds, d) (inr flying))
        | inr stored ↦ inr stored
      ]
      | inr (at_end, same) ↦
          inl (IsIn-append (i, e) inflight (length ds, d) (inl (λ k. (at_end k, sym same k))))
    ],
  )

  upload_loop-IsUploaded :
      (fuel chunk_size most : ℕ) (ds : List (List ℕ)) (inflight : List Upload) (chunks total : ℕ)
      (hashed : List ℕ) (w : W) (content : List ℕ)
      → 1 ≤ most
      → 1 ≤ chunk_size
      → IsCovered s digest ds inflight w
      → length ds ≡ chunks
      → All (λ d. length d ≤ chunk_size) ds
      → total ≡ min (length (concat ds)) 18446744073709551615
      → hashed ≡ concat ds
      → content ≡ concat ds ++ unread w
      → Ensures
          (IsUploaded chunk_size content)
          (upload_loop disk digest put fuel chunk_size most inflight (chunks, total, hashed) w)
  unfolding upload_loop
  upload_loop-IsUploaded zero chunk_size most ds inflight chunks total hashed w content a b c n l m
        e g =
      λ r x. absurd (ground arith)
  upload_loop-IsUploaded (suc fuel) chunk_size most ds inflight chunks total hashed w content a b c
        n l m e g =
      Ensures-continue (Filled s digest ds inflight w chunk_size) (IsUploaded chunk_size content) _
        (fill disk digest chunk_size chunk_size w)
        (fill-Filled s digest ds inflight chunk_size chunk_size w (omega arith) c)
        (λ d v (front, small, at_end, c'). elim (Bool-cases (length d == 0 && ltb 0 chunks)) [
          | inl over ↦
              let none_left = at_end (ground arith) in
              let d_none : d ≡ [] = empty_lem s digest d (ground arith) in
              let whole : content ≡ concat ds =
                g
                ∙ ap (λ x. concat ds ++ x) (front ∙ ap (λ x. x ++ unread v) d_none ∙ none_left)
                ∙ append-nil (concat ds) in
              rw over (
                subst
                  (λ x.
                    Ensures (IsUploaded chunk_size x)
                      (join_all disk digest put inflight (chunks, total, hashed) v))
                  (sym whole)
                  (join_all-IsUploaded chunk_size ds inflight chunks total hashed v c' n l m e))
          | inr more ↦ elim (Bool-cases (leb 4294967295 chunks)) [
            | inl full ↦ rw more (rw full (λ r x. absurd (ground arith)))
            | inr room ↦
                let ds' = ds ++ d ∷ [] in
                let spawned = inflight ++ (chunks, d) ∷ [] in
                let covered : IsCovered s digest ds' spawned v =
                  subst (λ k. IsCovered s digest ds' (inflight ++ (k, d) ∷ []) v) n
                    (spawn-IsCovered ds inflight d v c') in
                let n' : length ds' ≡ chunks + 1 = omega (arith, n, length-append ds (d ∷ [])) in
                let l' = All-snoc (λ d. length d ≤ chunk_size) ds d l small in
                let m' : add_bytes total (length d)
                    ≡ min (length (concat ds')) 18446744073709551615 =
                  omega (
                    arith,
                    m,
                    ap (length {A = ℕ}) (concat-snoc ds d),
                    length-append (concat ds) d,
                  ) in
                let e' : hashed ++ d ≡ concat ds' = ap (λ x. x ++ d) e ∙ sym (concat-snoc ds d) in
                let g' : content ≡ concat ds' ++ unread v =
                  g
                  ∙ ap (λ x. concat ds ++ x) front
                  ∙ sym (append_assoc (concat ds) d (unread v))
                  ∙ ap (λ x. x ++ unread v) (sym (concat-snoc ds d)) in
                rw more (
                  rw room (
                    Ensures-continue (Joined s digest ds' v (most - 1))
                      (IsUploaded chunk_size content) _
                      (join_while disk digest put (length spawned) most spawned v)
                      (join_while-Joined s digest ds' (length spawned) most spawned v a
                        (omega arith) covered)
                      (λ left u (c'', same, few).
                        let g'' : content ≡ concat ds' ++ unread u =
                          g' ∙ ap (λ x. concat ds' ++ x) (sym same) in
                        elim (Bool-cases (ltb (length d) chunk_size)) [
                          | inl short ↦
                              let whole : content ≡ concat ds' =
                                g''
                                ∙ ap (λ x. concat ds' ++ x) (same ∙ at_end (ground arith))
                                ∙ append-nil (concat ds') in
                              rw short (
                                subst
                                  (λ x. Ensures (IsUploaded chunk_size x) (
                                    join_all disk digest put left
                                      (chunks + 1, add_bytes total (length d), hashed ++ d) u))
                                  (sym whole)
                                  (join_all-IsUploaded chunk_size ds' left (chunks + 1)
                                    (add_bytes total (length d)) (hashed ++ d) u c'' n' l' m' e'))
                          | inr long ↦ rw long (
                              upload_loop-IsUploaded fuel chunk_size most ds' left (chunks + 1)
                                (add_bytes total (length d)) (hashed ++ d) u content a b c'' n' l'
                                m' e' g'')
                        ])))
          ]
        ])

  pub open_file-world :
      (source : Text) (w : W)
      → Ensures
          (λ u v. v ≡ (disk.open_file source w).1)
          (request (Error.service 21) (disk.open_file source) w)
  open_file-world source w u e = ground arith

  upload_chunks-Ensures :
      (fuel : ℕ) (source : Text) (chunk_size concurrency : ℕ) (w : W)
      → 1 ≤ chunk_size
      → Ensures
          (IsUploaded chunk_size (unread (disk.open_file source w).1))
          (upload_chunks disk digest put fuel source chunk_size concurrency w)
  unfolding upload_chunks
  upload_chunks-Ensures fuel source chunk_size concurrency w b =
      Ensures-continue (λ u v. v ≡ (disk.open_file source w).1)
        (IsUploaded chunk_size (unread (disk.open_file source w).1)) _
        (request (Error.service 21) (disk.open_file source) w) (open_file-world source w)
        (λ u v same.
          upload_loop-IsUploaded fuel chunk_size (upload_concurrency concurrency chunk_size) [] [] 0
            0 [] v (unread (disk.open_file source w).1)
            (upload_concurrency_positive concurrency chunk_size) b
            (tt, λ i d e. absurd (ground arith)) refl tt refl refl (sym (ap unread same)))

  -- An upload in chunks of at least one byte that succeeds has stored the source: its bytes are cut in order into chunks of at most
  -- `chunk_size`, each of which is in the bucket at its index, and the count, the number of bytes (up
  -- to the largest u64) and the hash that it gives are those of the source. This holds whatever the
  -- reads return and whichever uploads end first.
  pub upload_chunks-IsUploaded :
      (fuel : ℕ) (source : Text) (chunk_size concurrency : ℕ) (w : W) (r : ℕ × ℕ × Text)
      → 1 ≤ chunk_size
      → (upload_chunks disk digest put fuel source chunk_size concurrency w).0 ≡ ok r
      → IsUploaded chunk_size
          (unread (disk.open_file source w).1)
          r
          (upload_chunks disk digest put fuel source chunk_size concurrency w).1
  upload_chunks-IsUploaded fuel source chunk_size concurrency w r b e =
      upload_chunks-Ensures fuel source chunk_size concurrency w b r e
