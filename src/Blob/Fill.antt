-- ===== src/Blob/Fill.antt =====
-- What `fill` reads, however short the reads are.
use s3_mcp_relay.Base.{
  ℕ, zero, suc, ◌-◌, ◌<◌, ◌≤◌, ◌≡◌, inl, inr, some, List, [], ◌∷◌, ◌++◌, arith, refl, ap, sym, ◌∙◌,
  subst, length, length-append, append_assoc, ◌==◌, Bool-cases, Option-cases,
}
use s3_mcp_relay.Failure.{Error}
use s3_mcp_relay.Effect.{Eff, Ensures, Ensures-continue, Ensures-pure, pure, request}
use s3_mcp_relay.Blob.{Disk, Upload, fill}
use s3_mcp_relay.Blob.Joins.{IsStaging, IsCovered}

module _ {W : Type 0} {disk : Disk W} {put : ℕ → List ℕ → Eff W (Unit {0})}
    {Stored : W → ℕ → List ℕ → Type 0} {unread : W → List ℕ} (s : IsStaging disk put Stored unread)
    (digest : List ℕ → List ℕ) where
  -- What a filled buffer holds: the front of what was unread, all of it if the buffer is not full.
  abbrev pub Filled : List (List ℕ) → List Upload → W → ℕ → List ℕ → W → Type 0
  Filled ds inflight w want got v =
      (unread w ≡ got ++ unread v)
      × (length got ≤ want)
      × (length got < want → unread v ≡ [])
      × IsCovered s digest ds inflight v

  read-IsCovered :
      (ds : List (List ℕ)) (inflight : List Upload) (n : ℕ) (w : W)
      → IsCovered s digest ds inflight w
      → IsCovered s digest ds inflight (disk.read n w).1
  read-IsCovered ds inflight n w (own, cover) = (
    own,
    λ j e at_j. elim (cover j e at_j) [
      | inl flying ↦ inl flying
      | inr stored ↦ inr (s.read_keeps n w j e stored)
    ],
  )

  abbrev Taken : List (List ℕ) → List Upload → W → ℕ → List ℕ → W → Type 0
  Taken ds inflight w n got v =
      (unread w ≡ got ++ unread v)
      × (length got ≤ n)
      × (length got ≡ 0 → 1 ≤ n → unread w ≡ [])
      × IsCovered s digest ds inflight v

  read-Taken :
      (ds : List (List ℕ)) (inflight : List Upload) (n : ℕ) (w : W)
      → IsCovered s digest ds inflight w
      → Ensures (Taken ds inflight w n) (request (Error.service 20) (disk.read n) w)
  read-Taken ds inflight n w c got e = elim (Option-cases (disk.read n w).0) [
    | inl failed ↦ absurd (ground arith)
    | inr (g, done) ↦
        let equal : g ≡ got = ground arith in
        let done' : (disk.read n w).0 ≡ some got = done ∙ ap some equal in
        let (a, b, z) = s.read_takes n w got done' in
        let world : (request (Error.service 20) (disk.read n) w).1 ≡ (disk.read n w).1 =
          ground arith in
        subst (Taken ds inflight w n got) (sym world) (a, b, z, read-IsCovered ds inflight n w c)
  ]

  pub empty_lem : (xs : List ℕ) → length xs ≡ 0 → xs ≡ []
  empty_lem [] e = refl
  empty_lem (x ∷ xs) e = absurd (omega arith)

  pub fill-Filled :
      (ds : List (List ℕ)) (inflight : List Upload) (fuel want : ℕ) (w : W)
      → want ≤ fuel
      → IsCovered s digest ds inflight w
      → Ensures (Filled ds inflight w want) (fill disk digest fuel want w)
  unfolding fill
  fill-Filled ds inflight zero want w enough c =
      Ensures-pure (Filled ds inflight w want) [] w
        (refl, omega arith, λ l. absurd (omega arith), c)
  fill-Filled ds inflight (suc fuel) want w enough c = elim (Bool-cases (want == 0)) [
    | inl nothing ↦ rw nothing (
        Ensures-pure (Filled ds inflight w want) [] w
          (refl, omega arith, λ l. absurd (ground arith), c))
    | inr some_left ↦ rw some_left (
        Ensures-continue (Taken ds inflight w want) (Filled ds inflight w want) _
          (request (Error.service 20) (disk.read want) w) (read-Taken ds inflight want w c)
          (λ got v (front, small, at_end, c'). elim (Bool-cases (length got == 0)) [
            | inl over ↦
                let got_none = empty_lem got (ground arith) in
                let done = at_end (ground arith) (ground arith) in
                rw over (
                  Ensures-pure (Filled ds inflight w want) [] v (
                    front ∙ ap (λ x. x ++ unread v) got_none,
                    omega arith,
                    λ l. (let e = sym (front ∙ ap (λ x. x ++ unread v) got_none) in e ∙ done),
                    c',
                  ))
            | inr more ↦ rw more (
                Ensures-continue (Filled ds inflight v (want - length got))
                  (Filled ds inflight w want) (λ m. pure (got ++ m))
                  (fill disk digest fuel (want - length got) v)
                  (fill-Filled ds inflight fuel (want - length got) v (ground arith) c')
                  (λ m u (front', small', at_end', c'').
                    Ensures-pure (Filled ds inflight w want) (got ++ m) u (
                      front ∙ ap (λ x. got ++ x) front' ∙ sym (append_assoc got m (unread u)),
                      omega (arith, length-append got m),
                      λ l. at_end' (omega (arith, length-append got m)),
                      c'',
                    )))
          ]))
  ]
