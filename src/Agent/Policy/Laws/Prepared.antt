-- ===== src/Agent/Policy/Laws/Prepared.antt =====
-- The paths that the policy prepares for writing are allowed ones.
use s3_mcp_relay.Base.{
  if◌then◌else◌, ℕ, zero, suc, ◌≡◌, inl, inr, Bool, true, false, Option, some, arith, refl, sym, ap,
  ◌∙◌, subst, Text, length, ok, Option-cases,
}
use s3_mcp_relay.Failure.{Error}
use s3_mcp_relay.Effect.{
  Eff, Good, Good-continue, Good-pure, Good-if, Good-fail, pure, request, lift, ◌>>=◌,
}
use s3_mcp_relay.Effect.Keeps.{reply-world}
use s3_mcp_relay.Agent.Policy.{
  Paths, Files, Policy, non_empty, check_canonical, check_existing_path, check_new_path,
  check_write_path, name_below, nearest_existing, prepare_new_path, prepare_write_path,
}
use s3_mcp_relay.Agent.Policy.Laws.{
  IsAllowed, IsClear, IsClear-map, IsPaths, non_empty_lem, check_canonical_iff,
}
use s3_mcp_relay.Agent.Policy.Laws.Tracked.{IsTracked}

module _ {W : Type 0} {paths : Paths} {files : Files W} {I : W → Type 0}
    {Resolves : W → Text → Text → Type 0} {Absent : W → Text → Type 0} {Plain : Text → Type 0}
    {Safe : Text → Type 0} (l : IsPaths paths)
    (s : IsTracked paths files I Resolves Absent Plain Safe) (policy : Policy)
    (safe : (p : Text) → IsAllowed paths policy p → Safe p) where
  abbrev pub Confined : W → Type 0
  Confined w = I w

  -- A call that keeps the invariant.
  quiet :
      {A : Type 0} (e : Error) (call : W → Option A × W)
      → ((w : W) → I w → I (call w).1)
      → (w : W) → Confined w
      → Good Confined (λ a v. ((call w).0 ≡ some a) × (v ≡ (call w).1)) (request e call w)
  quiet e call k w i = elim (Option-cases (call w).0) [
    | inl failed ↦
        let world : (request e call w).1 ≡ (call w).1 = ground arith in
        (subst (λ v. Confined v) (sym world) (k w i), λ a x. absurd (ground arith))
    | inr (a, done) ↦
        let world : (request e call w).1 ≡ (call w).1 = ground arith in
        (
          subst (λ v. Confined v) (sym world) (k w i),
          λ b x. (let same : a ≡ b = ground arith in done ∙ ap some same, world),
        )
  ]

  -- A prepared path: an allowed one that exists, or a name in an allowed directory that exists.
  pub data IsPrepared (w : W) : Text → Type 0 where
    present : {p : Text} → IsAllowed paths policy p → Resolves w p p → IsPrepared w p
    absent :
        {p d : Text}
        → IsAllowed paths policy d
        → Resolves w d d
        → paths.parent p ≡ some d
        → paths.is_within p d ≡ true
        → IsPrepared w p

  pub below-IsAllowed :
      (p d : Text)
      → paths.is_within p d ≡ true
      → IsAllowed paths policy d
      → IsAllowed paths policy p
  below-IsAllowed p d w (inl any_path) = inl any_path
  below-IsAllowed p d w (inr (root, member, within)) =
      inr (root, member, l.within_trans p d root w within)

  pub IsPrepared-IsAllowed : (w : W) (p : Text) → IsPrepared w p → IsAllowed paths policy p
  IsPrepared-IsAllowed w p (present a r) = a
  IsPrepared-IsAllowed w p (absent {d = d} a r parent within) = below-IsAllowed p d within a

  -- `canonicalize` and then `check_canonical`.
  canonical-Good :
      (e : Error) (value : Text) (w : W)
      → Confined w
      → Good Confined
          (λ c v. IsAllowed paths policy c × Resolves v value c)
          ((request e (files.canonicalize value) >>= λ path.
              lift (check_canonical paths policy path) >>= λ _. pure path)
            w)
  canonical-Good e value w i =
      Good-continue Confined
        (λ a v. ((files.canonicalize value w).0 ≡ some a) × (v ≡ (files.canonicalize value w).1))
        (λ c v. IsAllowed paths policy c × Resolves v value c) _
        (request e (files.canonicalize value) w)
        (quiet e (files.canonicalize value) (s.canonicalize_keeps value) w i)
        (λ c v i' (found, world).
          Good-continue Confined (λ u x. (x ≡ v) × (check_canonical paths policy c ≡ ok u))
            (λ c v. IsAllowed paths policy c × Resolves v value c) _
            (lift (check_canonical paths policy c) v) (i', λ u checked. (refl, checked))
            (λ u x i'' (same, checked).
              Good-pure Confined (λ c v. IsAllowed paths policy c × Resolves v value c) c x i''
                (
                  (check_canonical_iff paths policy c).0 checked,
                  subst (λ y. Resolves y value c) (sym (same ∙ world)) (s.resolves value c w found),
                )))

  pub check_existing_path-Good :
      (value : Text) (w : W)
      → Confined w
      → Good Confined
          (λ c v. IsAllowed paths policy c × Resolves v value c)
          (check_existing_path paths policy files value w)
  unfolding check_existing_path
  check_existing_path-Good value w i = canonical-Good (Error.service 30) value w i

  -- The way from `p` up to `a` is clear.
  abbrev Clear : Text → Text → W → Type 0
  Clear p a w = IsClear paths (Absent w) p a

  exists-Clear : (q p a : Text) (w : W) → Clear p a w → Clear p a (files.exists q w).1
  exists-Clear q p a w clear = IsClear-map p a (λ x g. s.absent_exists q x w g) clear

  nearest_existing-Good :
      (p : Text) (fuel : ℕ) (existing : Text) (w : W)
      → Clear p existing w
      → Confined w
      → Good Confined (Clear p) (nearest_existing paths policy files fuel existing w)
  unfolding nearest_existing
  nearest_existing-Good p zero existing w clear i =
      Good-fail Confined (Clear p) Error.out_of_fuel w i
  nearest_existing-Good p (suc fuel) existing w clear i =
      let i' : Confined (files.exists existing w).1 = s.exists_keeps existing w i in
      let clear' = exists-Clear existing p existing w clear in
      Good-if Confined (Clear p) (files.exists existing w).0 _ _ _
        (λ there. Good-pure Confined (Clear p) existing _ i' clear')
        (λ missing.
          Good-continue Confined
            (λ q x. (paths.parent existing ≡ some q) × (x ≡ (files.exists existing w).1)) (Clear p)
            _
            (lift (non_empty Error.no_existing_ancestor (paths.parent existing))
              (files.exists existing w).1)
            (i', λ q e. (non_empty_lem _ _ q e, refl))
            (λ q x i'' (up, world).
              nearest_existing-Good p fuel q x
                (subst (Clear p q) (sym world)
                  (IsClear.higher clear' (s.absent existing w missing) up))
                i''))

  abbrev Prepared : Text → W → Type 0
  Prepared c v = IsPrepared v c

  -- The end of the preparation of a path with nothing at it.
  name_below-Good :
      (value parent d : Text) (w : W)
      → Confined w
      → IsAllowed paths policy d
      → Resolves w parent d
      → Good Confined Prepared (name_below paths policy d (paths.file_name value) w)
  name_below-Good value parent d w i allowed there = elim (Option-cases (paths.file_name value)) [
    | inl nameless ↦
        subst (λ n. Good Confined Prepared (name_below paths policy d n w)) (sym nameless)
          (Good-fail Confined Prepared Error.no_file_name w i)
    | inr (name, named) ↦
        subst (λ n. Good Confined Prepared (name_below paths policy d n w)) (sym named)
          (Good-pure Confined Prepared (paths.join d name) w i (
            IsPrepared.absent allowed (s.resolves_canonical parent d w there)
              (l.parent_join d name value named) (l.within_join d name value named)))
  ]

  -- `canonicalize` of a directory, and what follows the check of its result.
  canonicalize-Good :
      {A : Type 0} (e : Error) (p value : Text) (Q : A → W → Type 0) (f : Text → Eff W A) (w : W)
      → Confined w
      → ((d : Text) (v : W)
          → Confined v
          → IsAllowed paths policy d
          → Resolves v p d
          → v ≡ (files.canonicalize p w).1
          → Good Confined Q (f d v))
      → Good Confined Q (
          (request e (files.canonicalize p) >>= λ d.
          lift (check_canonical paths policy d) >>= λ _. f d)
            w)
  canonicalize-Good e p value Q f w i k =
      Good-continue Confined
        (λ a v. ((files.canonicalize p w).0 ≡ some a) × (v ≡ (files.canonicalize p w).1)) Q _
        (request e (files.canonicalize p) w)
        (quiet e (files.canonicalize p) (s.canonicalize_keeps p) w i)
        (λ d v i' (found, world).
          Good-continue Confined (λ u x. (x ≡ v) × (check_canonical paths policy d ≡ ok u)) Q _
            (lift (check_canonical paths policy d) v) (i', λ u checked. (refl, checked))
            (λ u x i'' (same, checked).
              k d x i'' ((check_canonical_iff paths policy d).0 checked)
                (subst (λ y. Resolves y p d) (sym (same ∙ world)) (s.resolves p d w found))
                (same ∙ world)))

  in_directory-Good :
      (e : Error) (parent value : Text) (w : W)
      → Confined w
      → Good Confined Prepared (
          (request e (files.canonicalize parent) >>= λ d.
          lift (check_canonical paths policy d) >>= λ _.
          name_below paths policy d (paths.file_name value))
            w)
  in_directory-Good e parent value w i =
      canonicalize-Good e parent value Prepared _ w i
        (λ d v i' allowed there world. name_below-Good value parent d v i' allowed there)

  -- A path that exists already.
  present-Good :
      (value : Text) (w : W)
      → Confined w
      → Good Confined Prepared (check_existing_path paths policy files value w)
  present-Good value w i =
      let (kept, checked) = check_existing_path-Good value w i in
      (
        kept,
        λ c e.
            let (allowed, there) = checked c e in
            IsPrepared.present allowed (s.resolves_canonical value c _ there),
      )

  parent-Good :
      (e : Error) (value : Text) (w : W)
      → Confined w
      → Good Confined
          (λ p x. (paths.parent value ≡ some p) × (x ≡ w))
          (lift (non_empty e (paths.parent value)) w)
  parent-Good e value w i = (i, λ p h. (non_empty_lem e _ p h, refl))

  check_new_path-Good :
      (value : Text) (w : W)
      → Confined w
      → Good Confined Prepared (check_new_path paths policy files value w)
  unfolding check_new_path
  check_new_path-Good value w i =
      Good-continue Confined (λ p x. (paths.parent value ≡ some p) × (x ≡ w)) Prepared _ _
        (parent-Good Error.no_existing_parent value w i)
        (λ parent x i' (up, world). in_directory-Good (Error.service 31) parent value x i')

  pub check_write_path-Good :
      (value : Text) (w : W)
      → Confined w
      → Good Confined Prepared (check_write_path paths policy files value w)
  unfolding check_write_path
  check_write_path-Good value w i =
      let i' : Confined (files.exists value w).1 = s.exists_keeps value w i in
      Good-if Confined Prepared (files.exists value w).0 _ _ _ (λ there. present-Good value _ i')
        (λ missing. check_new_path-Good value _ i')

  -- The directories that lead to the file are made inside the anchor.
  make_parents-Good :
      (parent existing value : Text) (w : W)
      → Plain parent
      → Clear parent existing w
      → Confined w
      → Good Confined Prepared (
          (request (Error.service 32) (files.canonicalize existing) >>= λ anchor.
          lift (check_canonical paths policy anchor) >>= λ _.
          request (Error.service 33) (files.create_dir_all parent) >>= λ _.
          request (Error.service 34) (files.canonicalize parent) >>= λ d.
          lift (check_canonical paths policy d) >>= λ _.
          name_below paths policy d (paths.file_name value))
            w)
  make_parents-Good parent existing value w plain clear i =
      canonicalize-Good (Error.service 32) existing value Prepared _ w i
        (λ anchor v i' allowed there world.
          let clear' : IsClear paths (Absent v) parent existing =
            IsClear-map parent existing
              (λ x g. subst (λ y. Absent y x) (sym world) (s.absent_canonicalize existing x w g))
              clear in
          let made : (request (Error.service 33) (files.create_dir_all parent) v).1
              ≡ (files.create_dir_all parent v).1 =
            reply-world (Error.service 33) (files.create_dir_all parent v) in
          Good-continue Confined (λ a y. y ≡ (files.create_dir_all parent v).1) Prepared _
            (request (Error.service 33) (files.create_dir_all parent) v)
            (
              subst (λ y. Confined y) (sym made)
                  (s.create_dir_all_below parent existing anchor v plain clear' there
                    (λ p inside. safe p (below-IsAllowed p anchor inside allowed)) i'),
              λ a e. made,
            )
            (λ a y i3 same. in_directory-Good (Error.service 34) parent value y i3))

  prepare_new_path-Good :
      (value : Text) (w : W)
      → Plain value
      → Confined w
      → Good Confined Prepared (prepare_new_path paths policy files value w)
  unfolding prepare_new_path
  prepare_new_path-Good value w plain i =
      Good-continue Confined (λ p x. (paths.parent value ≡ some p) × (x ≡ w)) Prepared _ _
        (parent-Good Error.no_existing_parent value w i)
        (λ parent x i' (up, world).
          Good-continue Confined (Clear parent) Prepared _ _
            (nearest_existing-Good parent (suc (length parent)) parent x IsClear.itself i')
            (λ existing y i'' clear.
              make_parents-Good parent existing value y (s.plain_parent value parent plain up) clear
                i''))

  pub prepare_write_path-Good :
      (value : Text)
      → Plain value
      → (w : W) → Confined w
      → Good Confined Prepared (prepare_write_path paths policy files value w)
  unfolding prepare_write_path
  prepare_write_path-Good value plain w i =
      let i' : Confined (files.exists value w).1 = s.exists_keeps value w i in
      Good-if Confined Prepared (files.exists value w).0 _ _ _ (λ there. present-Good value _ i')
        (λ missing. prepare_new_path-Good value _ plain i')

  -- A directory that is made at a prepared path.
  pub make_prepared-keeps :
      (parents : Bool) (p : Text) (w : W)
      → IsPrepared w p
      → Confined w
      → Confined ((if parents then files.create_dir_all p else files.create_dir p) w).1
  make_prepared-keeps true p w (present allowed there) i = s.create_dir_all_none p w there i
  make_prepared-keeps true p w (absent {d = d} allowed there up inside) i =
      s.create_dir_all_one p d w up there (safe p (below-IsAllowed p d inside allowed)) i
  make_prepared-keeps false p w prepared i =
      s.create_dir_keeps p w (safe p (IsPrepared-IsAllowed w p prepared)) i
