-- ===== src/Agent/Jobs/Laws.antt =====
-- What pruning the job table keeps.
pub mod Newest
pub mod WellFormed
pub mod Steps
use s3_mcp_relay.Base.{
  ℕ, zero, suc, ◌+◌, ◌-◌, ◌<◌, ◌≤◌, ◌≡◌, ◌≢◌, ◌⊎◌, inl, inr, Bool, true, false, not, ◌||◌, Option,
  none, some, List, [], ◌∷◌, ◌++◌, arith, refl, ap, sym, ◌∙◌, subst, Text, text_eq, text_eq_iff,
  text_eq_refl, length, take, drop, take-append-drop, length-drop, length-append, ℤ, ◌≤ℤ◌, leb,
  if◌then◌else◌, sort, insert_sorted, sort-All, sort-IsSorted, IsSorted, All, Bool-cases,
  Option-cases,
}
use s3_mcp_relay.Agent.Jobs.{
  Entry, Table, get, remove, remove_all, is_finished, finish_time, finished, finished_retained,
  ended_before, prune,
}

-- A key stands once.
abbrev pub IsDistinct : Table → Type 0
IsDistinct [] = Unit
IsDistinct ((k, e) ∷ table) = (get k table ≡ none) × IsDistinct table

abbrev pub mem : Text → List (Text × ℤ) → Bool
mem k [] = false
mem k ((id, at) ∷ ids) = text_eq id k || mem k ids

text_eq_sym : (a b : Text) → text_eq a b ≡ text_eq b a
text_eq_sym a b = elim (Bool-cases (text_eq a b)) [
  | inl same ↦ same ∙ sym ((text_eq_iff b a).1 (sym ((text_eq_iff a b).0 same)))
  | inr other ↦ elim (Bool-cases (text_eq b a)) [
    | inl same ↦
        absurd (let t = (text_eq_iff a b).1 (sym ((text_eq_iff b a).0 same)) in ground arith)
    | inr also ↦ other ∙ sym also
  ]
]

get-remove : (k j : Text) (t : Table) → get k (remove j t) ≡ (if text_eq j k then none else get k t)
unfolding get remove
get-remove k j [] = ground arith
get-remove k j ((i, e) ∷ t) = elim (Bool-cases (text_eq i j)) [
  | inl same ↦
      let ij = (text_eq_iff i j).0 same in
      let keys : text_eq i k ≡ text_eq j k = ap (λ x. text_eq x k) ij in
      ground (arith, get-remove k j t)
  | inr other ↦ elim (Bool-cases (text_eq i k)) [
    | inl here ↦
        let ik = (text_eq_iff i k).0 here in
        let keys : text_eq i j ≡ text_eq k j = ap (λ x. text_eq x j) ik in
        let back : text_eq j k ≡ false = elim (Bool-cases (text_eq j k)) [
          | inl e ↦
              let jk = (text_eq_iff j k).0 e in
              absurd (let t = (text_eq_iff k j).1 (sym jk) in ground arith)
          | inr e ↦ e
        ] in
        ground arith
    | inr there ↦ ground (arith, get-remove k j t)
  ]
]

pub get-remove_all :
    (k : Text) (ids : List (Text × ℤ)) (t : Table)
    → get k (remove_all ids t) ≡ (if mem k ids then none else get k t)
unfolding remove_all
get-remove_all k [] t = refl
get-remove_all k ((id, at) ∷ ids) t =
    ground (arith, get-remove_all k ids (remove id t), get-remove k id t)

-- An id of a finished job, with the time at which it finished.
abbrev pub IsDone : Table → Text × ℤ → Type 0
IsDone t (id, at) =
    (e : Entry) × (get id t ≡ some e) × (is_finished e ≡ true) × (finish_time e ≡ at)

IsDone-cons :
    (k : Text) (e : Entry) (t : Table) (xs : List (Text × ℤ))
    → get k t ≡ none
    → All (IsDone t) xs
    → All (IsDone ((k, e) ∷ t)) xs
unfolding get
IsDone-cons k e t [] fresh h = tt
IsDone-cons k e t ((id, at) ∷ xs) fresh ((e', found, done, time), h) = (
  elim (Bool-cases (text_eq k id)) [
    | inl same ↦
        let found' : get k t ≡ some e' =
          subst (λ x. get x t ≡ some e') (sym ((text_eq_iff k id).0 same)) found in
        absurd (ground arith)
    | inr other ↦ (e', ground arith, done, time)
  ],
  IsDone-cons k e t xs fresh h,
)

pub finished-IsDone : (t : Table) → IsDistinct t → All (IsDone t) (finished t)
unfolding finished get
finished-IsDone [] d = tt
finished-IsDone ((k, e) ∷ t) d =
    let rest = IsDone-cons k e t (finished t) d.0 (finished-IsDone t d.1) in
    elim (Bool-cases (is_finished e)) [
      | inl done ↦ rw done ((e, rw (text_eq_refl k) refl, done, refl), rest)
      | inr live ↦ rw live rest
    ]

mem-IsDone :
    (t : Table) (k : Text) (ids : List (Text × ℤ))
    → All (IsDone t) ids
    → mem k ids ≡ true
    → (at : ℤ) × IsDone t (k, at)
mem-IsDone t k [] h m = absurd (ground arith)
mem-IsDone t k ((id, at) ∷ ids) h m = elim (Bool-cases (text_eq id k)) [
  | inl same ↦ (at, subst (λ x. IsDone t (x, at)) ((text_eq_iff id k).0 same) h.0)
  | inr other ↦ mem-IsDone t k ids h.1 (ground arith)
]

pub All-take : {A : Type 0} (P : A → Type 0) (n : ℕ) (xs : List A) → All P xs → All P (take n xs)
All-take P zero xs h = tt
All-take P (suc n) [] h = tt
All-take P (suc n) (x ∷ xs) h = (h.0, All-take P n xs h.1)

-- A running job stays in the table.
pub prune-keeps_running :
    (t : Table) (k : Text) (e : Entry)
    → IsDistinct t
    → get k t ≡ some e
    → is_finished e ≡ false
    → get k (prune t) ≡ some e
unfolding prune
prune-keeps_running t k e d found live =
    let n = length (finished t) - finished_retained in
    let ids = take n (sort ended_before (finished t)) in
    let done : All (IsDone t) ids =
      All-take (IsDone t) n (sort ended_before (finished t))
        (sort-All ended_before (IsDone t) (finished t) (finished-IsDone t d)) in
    elim (Bool-cases (leb (length (finished t)) finished_retained)) [
      | inl few ↦ rw few found
      | inr many ↦ rw many (
          get-remove_all k ids t ∙ elim (Bool-cases (mem k ids)) [
            | inl gone ↦
                let (at, (e', found', done', time)) = mem-IsDone t k ids done gone in
                let same : e' ≡ e = ground arith in
                absurd (
                  let l : is_finished e' ≡ false =
                    subst (λ x. is_finished x ≡ false) (sym same) live in
                  ground arith)
            | inr kept ↦ rw kept found
          ])
    ]

abbrev count : {A : Type 0} → (A → Bool) → List A → ℕ
count p [] = zero
count p (x ∷ xs) = if p x then suc (count p xs) else count p xs

module _ {A : Type 0} (p : A → Bool) where
  count-append : (xs ys : List A) → count p (xs ++ ys) ≡ count p xs + count p ys
  count-append [] ys = omega arith
  count-append (x ∷ xs) ys = ground (arith, count-append xs ys)

  count-length : (xs : List A) → count p xs ≤ length xs
  count-length [] = omega arith
  count-length (x ∷ xs) = ground (arith, count-length xs)

  count-insert_sorted :
      (lt : A → A → Bool) (x : A) (xs : List A) → count p (insert_sorted lt x xs) ≡ count p (x ∷ xs)
  unfolding insert_sorted
  count-insert_sorted lt x [] = refl
  count-insert_sorted lt x (y ∷ ys) = ground (arith, count-insert_sorted lt x ys)

  count-sort : (lt : A → A → Bool) (xs : List A) → count p (sort lt xs) ≡ count p xs
  unfolding sort
  count-sort lt [] = refl
  count-sort lt (x ∷ xs) = ground (arith, count-insert_sorted lt x (sort lt xs), count-sort lt xs)

  count-none : (xs : List A) → All (λ x. p x ≡ false) xs → count p xs ≡ 0
  count-none [] h = refl
  count-none (x ∷ xs) h = ground (arith, h.0, count-none xs h.1)

length-insert_sorted :
    {A : Type 0} (lt : A → A → Bool) (x : A) (xs : List A)
    → length (insert_sorted lt x xs) ≡ suc (length xs)
unfolding insert_sorted
length-insert_sorted lt x [] = refl
length-insert_sorted lt x (y ∷ ys) = ground (arith, length-insert_sorted lt x ys)

length-sort : {A : Type 0} (lt : A → A → Bool) (xs : List A) → length (sort lt xs) ≡ length xs
unfolding sort
length-sort lt [] = refl
length-sort lt (x ∷ xs) = length-insert_sorted lt x (sort lt xs) ∙ ap suc (length-sort lt xs)

remove_all-cons :
    (ids : List (Text × ℤ)) (k : Text) (e : Entry) (t : Table)
    → remove_all ids ((k, e) ∷ t)
      ≡ (if mem k ids then remove_all ids t else (k, e) ∷ remove_all ids t)
unfolding remove_all remove
remove_all-cons [] k e t = refl
remove_all-cons ((id, at) ∷ ids) k e t =
    ground (arith, text_eq_sym k id, remove_all-cons ids k e (remove id t))

abbrev survives : List (Text × ℤ) → Text × ℤ → Bool
survives ids x = not (mem x.0 ids)

remove_all-nil : (ids : List (Text × ℤ)) → remove_all ids [] ≡ []
unfolding remove_all remove
remove_all-nil [] = refl
remove_all-nil (x ∷ ids) = remove_all-nil ids

finished-remove_all :
    (ids : List (Text × ℤ)) (t : Table)
    → length (finished (remove_all ids t)) ≡ count (survives ids) (finished t)
unfolding finished
finished-remove_all ids [] = rw (remove_all-nil ids) refl
finished-remove_all ids ((k, e) ∷ t) =
    ground (arith, remove_all-cons ids k e t, finished-remove_all ids t)

none_survives :
    (ids xs : List (Text × ℤ))
    → ((x : Text) → mem x xs ≡ true → mem x ids ≡ true)
    → All (λ x. survives ids x ≡ false) xs
none_survives ids [] within = tt
none_survives ids ((id, at) ∷ xs) within = (
  ground (arith, within id, text_eq_refl id),
  none_survives ids xs (λ x m. ground (arith, within x)),
)

-- At most fifty finished jobs are kept.
pub prune-bounded : (t : Table) → length (finished (prune t)) ≤ 50
unfolding prune
prune-bounded t =
    let done = finished t in
    let s = sort ended_before done in
    let n = length done - finished_retained in
    let ids = take n s in
    elim (Bool-cases (leb (length done) finished_retained)) [
      | inl few ↦ rw few (ground arith)
      | inr many ↦
          let p = survives ids in
          rw many (
            omega (
              arith,
              finished-remove_all ids t,
              count-sort p ended_before done,
              length-sort ended_before done,
              ap (count p) (take-append-drop n s),
              count-append p ids (drop n s),
              count-none p ids (none_survives ids ids (λ x m. m)),
              count-length p (drop n s),
              length-drop n s,
            ))
    ]
