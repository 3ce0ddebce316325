-- ===== src/Blob/Joins.antt =====
-- The uploads in flight: each chunk is in flight or stored, whichever upload ends first.
use s3_mcp_relay.Base.{
  ℕ, zero, suc, ◌-◌, ◌≤◌, ◌≡◌, ◌≢◌, ◌⊎◌, inl, inr, Option, none, some, List, [], ◌∷◌, ◌++◌, arith,
  refl, ap, sym, ◌∙◌, subst, length, ok, All, leb, ◌==◌, Bool-cases,
}
use s3_mcp_relay.Effect.{Eff, Ensures, Ensures-continue, Ensures-pure, pure}
use s3_mcp_relay.Blob.{Disk, Upload, pick, join_next, join_while}

-- The chunk at an index.
abbrev pub nth : ℕ → List (List ℕ) → Option (List ℕ)
nth n [] = none
nth zero (d ∷ ds) = some d
nth (suc n) (d ∷ ds) = nth n ds

abbrev pub concat : List (List ℕ) → List ℕ
concat [] = []
concat (d ∷ ds) = d ++ concat ds

abbrev pub IsIn : Upload → List Upload → Type 0
IsIn x [] = ⊥
IsIn x (y ∷ ys) = (x ≡ y) ⊎ IsIn x ys

-- The chosen task and the others are the tasks.
pick_lem :
    (n : ℕ) (t : Upload) (ts : List Upload) (x : Upload)
    → IsIn x (t ∷ ts)
    → (x ≡ (pick n t ts).0) ⊎ IsIn x (pick n t ts).1
unfolding pick
pick_lem n t [] x h = ground arith
pick_lem zero t (o ∷ ts) x h = h
pick_lem (suc n) t (o ∷ ts) x (inl e) = inr (inl e)
pick_lem (suc n) t (o ∷ ts) x (inr h) = elim (pick_lem n o ts x h) [
  | inl e ↦ inl e
  | inr r ↦ inr (inr r)
]

pick-All :
    (P : Upload → Type 0) (n : ℕ) (t : Upload) (ts : List Upload)
    → All P (t ∷ ts)
    → P (pick n t ts).0 × All P (pick n t ts).1
unfolding pick
pick-All P n t [] h = h
pick-All P zero t (o ∷ ts) h = h
pick-All P (suc n) t (o ∷ ts) h = let (p, q) = pick-All P n o ts h.1 in (p, (h.0, q))

length-pick : (n : ℕ) (t : Upload) (ts : List Upload) → length (pick n t ts).1 ≡ length ts
unfolding pick
length-pick n t [] = refl
length-pick zero t (o ∷ ts) = refl
length-pick (suc n) t (o ∷ ts) = ap suc (length-pick n o ts)

-- What a transfer relies on. `Stored w i d` says that chunk `i` is in the bucket with the bytes `d`,
-- and `unread w` is what is left to read of the source: a read takes bytes from its front and gives
-- none only at the end; an upload that succeeds stores its chunk and leaves the other chunks and the
-- source alone.
pub record IsStaging {W : Type 0} (disk : Disk W) (put : ℕ → List ℕ → Eff W (Unit {0}))
    (Stored : W → ℕ → List ℕ → Type 0) (unread : W → List ℕ) : Type 0 where
  pub read_takes :
      (n : ℕ) (w : W) (got : List ℕ)
      → (disk.read n w).0 ≡ some got
      → (unread w ≡ got ++ unread (disk.read n w).1)
        × (length got ≤ n)
        × (length got ≡ 0 → 1 ≤ n → unread w ≡ [])
  pub read_keeps :
      (n : ℕ) (w : W) (i : ℕ) (d : List ℕ) → Stored w i d → Stored (disk.read n w).1 i d
  pub choice_keeps : (w : W) (i : ℕ) (d : List ℕ) → Stored w i d → Stored (disk.next_upload w).1 i d
  pub choice_reads : (w : W) → unread (disk.next_upload w).1 ≡ unread w
  pub put_done : (i : ℕ) (d : List ℕ) (w : W) → (put i d w).0 ≡ ok tt → Stored (put i d w).1 i d
  pub put_keeps :
      (i j : ℕ) (d e : List ℕ) (w : W)
      → (put i d w).0 ≡ ok tt
      → i ≢ j
      → Stored w j e
      → Stored (put i d w).1 j e
  pub put_reads : (i : ℕ) (d : List ℕ) (w : W) → unread (put i d w).1 ≡ unread w

pub nat_cases : (i j : ℕ) → (i ≡ j) ⊎ (i ≢ j)
nat_cases i j = elim (Bool-cases (i == j)) [
  | inl same ↦ inl (ground arith)
  | inr other ↦ inr (ground arith)
]

module _ {W : Type 0} {disk : Disk W} {put : ℕ → List ℕ → Eff W (Unit {0})}
    {Stored : W → ℕ → List ℕ → Type 0} {unread : W → List ℕ} (s : IsStaging disk put Stored unread)
    (digest : List ℕ → List ℕ) where
  -- The uploads in flight are chunks of `ds`, and every chunk of `ds` is in flight or stored.
  abbrev pub IsCovered : List (List ℕ) → List Upload → W → Type 0
  IsCovered ds inflight w =
      All (λ x. nth x.0 ds ≡ some x.1) inflight
      × ((i : ℕ) (d : List ℕ) → nth i ds ≡ some d → IsIn (i, d) inflight ⊎ Stored w i d)

  -- After an upload has ended well, its chunk is stored, and the rest is as before.
  put-IsCovered :
      (ds : List (List ℕ)) (task : Upload) (inflight left : List Upload) (w : W)
      → IsCovered ds inflight w
      → nth task.0 ds ≡ some task.1
      → All (λ x. nth x.0 ds ≡ some x.1) left
      → ((x : Upload) → IsIn x inflight → (x ≡ task) ⊎ IsIn x left)
      → (put task.0 task.1 w).0 ≡ ok tt
      → IsCovered ds left (put task.0 task.1 w).1
  put-IsCovered ds (i, d) inflight left w (own, cover) mine others split done = (
    others,
    λ j e at_j. elim (nat_cases i j) [
      | inl same ↦
          let equal : d ≡ e = ground arith in
          inr (
            subst (λ k. Stored (put i d w).1 k e) same
              (subst (Stored (put i d w).1 i) equal (s.put_done i d w done)))
      | inr other ↦ elim (cover j e at_j) [
        | inr stored ↦ inr (s.put_keeps i j d e w done other stored)
        | inl flying ↦ elim (split (j, e) flying) [
          | inr still ↦ inl still
          | inl is_it ↦ absurd (other (sym (ap (λ x. x.0) is_it)))
        ]
      ]
    ],
  )

  choice-IsCovered :
      (ds : List (List ℕ)) (inflight : List Upload) (w : W)
      → IsCovered ds inflight w
      → IsCovered ds inflight (disk.next_upload w).1
  choice-IsCovered ds inflight w (own, cover) = (
    own,
    λ j e at_j. elim (cover j e at_j) [
      | inl flying ↦ inl flying
      | inr stored ↦ inr (s.choice_keeps w j e stored)
    ],
  )

  -- The postcondition of the joins: the chunks stay covered, the source is left alone, and at most
  -- one upload has ended.
  abbrev pub Joined : List (List ℕ) → W → ℕ → List Upload → W → Type 0
  Joined ds w most rest v = IsCovered ds rest v × (unread v ≡ unread w) × (length rest ≤ most)

  join_next-Joined :
      (ds : List (List ℕ)) (inflight : List Upload) (w : W)
      → IsCovered ds inflight w
      → Ensures (Joined ds w (length inflight - 1)) (join_next disk digest put inflight w)
  unfolding join_next
  join_next-Joined ds [] w c = Ensures-pure (Joined ds w 0) [] w (c, refl, omega arith)
  join_next-Joined ds (task ∷ more) w c =
      let n = (disk.next_upload w).0 in
      let v = (disk.next_upload w).1 in
      let chosen = (pick n task more).0 in
      let left = (pick n task more).1 in
      let (mine, others) = pick-All (λ x. nth x.0 ds ≡ some x.1) n task more c.0 in
      Ensures-continue (λ u v'. Joined ds w (length (task ∷ more) - 1) left v')
        (Joined ds w (length (task ∷ more) - 1)) (λ u. pure left) (put chosen.0 chosen.1 v)
        (λ u done. (
          put-IsCovered ds chosen (task ∷ more) left v (choice-IsCovered ds (task ∷ more) w c) mine
              others (pick_lem n task more) done,
          s.put_reads chosen.0 chosen.1 v ∙ s.choice_reads w,
          omega (arith, length-pick n task more),
        ))
        (λ u v' j. Ensures-pure (Joined ds w (length (task ∷ more) - 1)) left v' j)

  -- Joining while there are `most` in flight leaves fewer.
  pub join_while-Joined :
      (ds : List (List ℕ)) (fuel most : ℕ) (inflight : List Upload) (w : W)
      → 1 ≤ most
      → length inflight ≤ fuel
      → IsCovered ds inflight w
      → Ensures (Joined ds w (most - 1)) (join_while disk digest put fuel most inflight w)
  unfolding join_while
  join_while-Joined ds zero most inflight w pos_most few c =
      Ensures-pure (Joined ds w (most - 1)) inflight w (c, refl, omega arith)
  join_while-Joined ds (suc fuel) most inflight w pos_most few c =
      elim (Bool-cases (leb most (length inflight))) [
        | inr room ↦
            rw room (Ensures-pure (Joined ds w (most - 1)) inflight w (c, refl, ground arith))
        | inl full ↦ rw full (
            Ensures-continue (Joined ds w (length inflight - 1)) (Joined ds w (most - 1))
              (join_while disk digest put fuel most) (join_next disk digest put inflight w)
              (join_next-Joined ds inflight w c)
              (λ rest v (c', same, short) a e.
                let (c'', same', short') =
                  join_while-Joined ds fuel most rest v pos_most (ground arith) c' a e in
                (c'', same' ∙ same, short')))
      ]
