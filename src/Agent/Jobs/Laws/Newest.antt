-- ===== src/Agent/Jobs/Laws/Newest.antt =====
-- Pruning the job table drops the jobs that finished first.
use s3_mcp_relay.Base.{
  ◌-◌, ◌≡◌, ◌⊎◌, inl, inr, Bool, true, false, none, some, List, [], ◌∷◌, ◌++◌, arith, refl, sym,
  subst, Text, text_eq, text_eq_iff, text_eq_refl, length, take, drop, take-append-drop, ℤ, ◌≤ℤ◌,
  leb, if◌then◌else◌, sort, insert_sorted, sort-All, sort-IsSorted, IsSorted, All, Bool-cases,
}
use s3_mcp_relay.Agent.Jobs.{
  Entry, Table, get, is_finished, finish_time, finished, finished_retained, ended_before, prune,
}
use s3_mcp_relay.Agent.Jobs.Laws.{
  IsDistinct, IsDone, mem, finished-IsDone, get-remove_all, All-take,
}

module _ {A : Type 0} (lt : A → A → Bool) (P : A → Type 0) where
  insert_sorted-All_back : (x : A) (xs : List A) → All P (insert_sorted lt x xs) → P x × All P xs
  unfolding insert_sorted
  insert_sorted-All_back x [] h = h
  insert_sorted-All_back x (y ∷ ys) h = elim (Bool-cases (lt y x)) [
    | inl less ↦
        let step : insert_sorted lt x (y ∷ ys) ≡ y ∷ insert_sorted lt x ys = rw less refl in
        let h' : All P (y ∷ insert_sorted lt x ys) = subst (All P) step h in
        let (px, pys) = insert_sorted-All_back x ys h'.1 in (px, (h'.0, pys))
    | inr more ↦
        let step : insert_sorted lt x (y ∷ ys) ≡ x ∷ y ∷ ys = rw more refl in subst (All P) step h
  ]

  sort-All_back : (xs : List A) → All P (sort lt xs) → All P xs
  unfolding sort
  sort-All_back [] h = tt
  sort-All_back (x ∷ xs) h =
      let (px, pxs) = insert_sorted-All_back x (sort lt xs) h in (px, sort-All_back xs pxs)

All-append : {A : Type 0} (P : A → Type 0) (xs ys : List A) → All P xs → All P ys → All P (xs ++ ys)
All-append P [] ys h k = k
All-append P (x ∷ xs) ys h k = (h.0, All-append P xs ys h.1 k)

All-right : {A : Type 0} (P : A → Type 0) (xs ys : List A) → All P (xs ++ ys) → All P ys
All-right P [] ys h = h
All-right P (x ∷ xs) ys h = All-right P xs ys h.1

-- In a sorted list nothing in the back comes before anything in the front.
IsSorted-parts :
    {A : Type 0} (lt : A → A → Bool) (xs ys : List A)
    → IsSorted lt (xs ++ ys)
    → All (λ x. All (λ y. lt y x ≡ false) ys) xs
IsSorted-parts lt [] ys s = tt
IsSorted-parts lt (x ∷ xs) ys s =
    (All-right (λ y. lt y x ≡ false) xs ys s.0, IsSorted-parts lt xs ys s.1)

mem-All :
    (P : Text × ℤ → Type 0) (k : Text) (ids : List (Text × ℤ))
    → All P ids
    → mem k ids ≡ true
    → (at : ℤ) × P (k, at)
mem-All P k [] h m = absurd (ground arith)
mem-All P k ((id, at) ∷ ids) h m = elim (Bool-cases (text_eq id k)) [
  | inl same ↦ (at, subst (λ x. P (x, at)) ((text_eq_iff id k).0 same) h.0)
  | inr other ↦ mem-All P k ids h.1 (ground arith)
]

All-both :
    {A : Type 0} (P Q : A → Type 0) (xs : List A) → All P xs → All Q xs → All (λ x. P x × Q x) xs
All-both P Q [] h k = tt
All-both P Q (x ∷ xs) h k = ((h.0, k.0), All-both P Q xs h.1 k.1)

All-map :
    {A : Type 0} (P Q : A → Type 0) (xs : List A) → ((x : A) → P x → Q x) → All P xs → All Q xs
All-map P Q [] f h = tt
All-map P Q (x ∷ xs) f h = (f x h.0, All-map P Q xs f h.1)

All-mem :
    (ids xs : List (Text × ℤ))
    → ((x : Text) → mem x xs ≡ true → mem x ids ≡ true)
    → All (λ x. mem x.0 ids ≡ true) xs
All-mem ids [] within = tt
All-mem ids ((id, at) ∷ xs) within =
    (within id (ground (arith, text_eq_refl id)), All-mem ids xs (λ x m. within x (ground arith)))

-- What holds of all finished jobs holds of one.
finished-All :
    (P : Text × ℤ → Type 0) (t : Table) (k : Text) (e : Entry)
    → All P (finished t)
    → get k t ≡ some e
    → is_finished e ≡ true
    → P (k, finish_time e)
unfolding finished get
finished-All P [] k e h found done = absurd (ground arith)
finished-All P ((i, d) ∷ t) k e h found done = elim (Bool-cases (text_eq i k)) [
  | inl same ↦
      let equal : d ≡ e = ground arith in
      let done' : is_finished d ≡ true = subst (λ x. is_finished x ≡ true) (sym equal) done in
      let cons : finished ((i, d) ∷ t) ≡ (i, finish_time d) ∷ finished t = rw done' refl in
      let h' : All P ((i, finish_time d) ∷ finished t) = subst (All P) cons h in
      subst (λ x. P (x, finish_time e)) ((text_eq_iff i k).0 same)
        (subst (λ x. P (i, finish_time x)) equal h'.0)
  | inr other ↦
      let rest : All P (finished t) = elim (Bool-cases (is_finished d)) [
        | inl over ↦
            let cons : finished ((i, d) ∷ t) ≡ (i, finish_time d) ∷ finished t = rw over refl in
            let h' : All P ((i, finish_time d) ∷ finished t) = subst (All P) cons h in h'.1
        | inr live ↦
            let same : finished ((i, d) ∷ t) ≡ finished t = rw live refl in subst (All P) same h
      ] in
      finished-All P t k e rest (ground arith) done
]

-- A finished job that pruning drops had finished no later than any finished job that it keeps.
pub prune-keeps_newest :
    (t : Table) (k j : Text) (old kept : Entry)
    → IsDistinct t
    → get k t ≡ some old
    → get k (prune t) ≡ none
    → get j (prune t) ≡ some kept
    → is_finished kept ≡ true
    → finish_time old ≤ℤ finish_time kept
unfolding prune
prune-keeps_newest t k j old kept d there gone stays done =
    let all = finished t in
    let n = length all - finished_retained in
    let s = sort ended_before all in
    let ids = take n s in
    elim (Bool-cases (leb (length all) finished_retained)) [
      | inl few ↦ let same : get k (prune t) ≡ get k t = rw few refl in absurd (ground arith)
      | inr many ↦
          let at_k : get k (prune t) ≡ (if mem k ids then none else get k t) =
            rw many (get-remove_all k ids t) in
          let at_j : get j (prune t) ≡ (if mem j ids then none else get j t) =
            rw many (get-remove_all j ids t) in
          let dropped : mem k ids ≡ true = ground arith in
          let left : mem j ids ≡ false = ground arith in
          let found : get j t ≡ some kept = ground arith in
          let sorted : IsSorted ended_before (ids ++ drop n s) =
            subst (IsSorted ended_before) (sym (take-append-drop n s)) (
              sort-IsSorted ended_before (λ a b l. ground arith) (λ a b c l m. ground arith) all) in
          let P : Text × ℤ → Type 0 = λ x. All (λ y. ended_before y x ≡ false) (drop n s) in
          let both =
            All-both (IsDone t) P ids
              (All-take (IsDone t) n s (sort-All ended_before (IsDone t) all (finished-IsDone t d)))
              (IsSorted-parts ended_before ids (drop n s) sorted) in
          let (at, ((e', found', done', time), later)) =
            mem-All (λ x. IsDone t x × P x) k ids both dropped in
          let R : Text × ℤ → Type 0 =
            λ y. (mem y.0 ids ≡ true) ⊎ (ended_before y (k, at) ≡ false) in
          let front : All R ids =
            All-map (λ x. mem x.0 ids ≡ true) R ids (λ x m. inl m) (All-mem ids ids (λ x m. m)) in
          let back : All R (drop n s) =
            All-map (λ y. ended_before y (k, at) ≡ false) R (drop n s) (λ y l. inr l) later in
          let whole : All R all =
            sort-All_back ended_before R all
              (subst (All R) (take-append-drop n s) (All-append R ids (drop n s) front back)) in
          let equal : e' ≡ old = ground arith in
          let same : finish_time old ≡ at = subst (λ e. finish_time e ≡ at) equal time in
          elim (finished-All R t j kept whole found done) [
            | inl m ↦ absurd (ground arith)
            | inr l ↦ ground arith
          ]
    ]
