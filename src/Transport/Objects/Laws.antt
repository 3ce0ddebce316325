-- ===== src/Transport/Objects/Laws.antt =====
-- What the operations on single objects do to the bucket.
use s3_mcp_relay.Base.{
  ℕ, zero, suc, ◌+◌, ◌<◌, ◌≤◌, ◌≡◌, ◌≢◌, ◌⊎◌, inl, inr, Bool, true, false, Option, none, some, List,
  [], ◌∷◌, ◌++◌, arith, refl, ap, sym, ◌∙◌, subst, text_eq, text_eq_iff, Text, length, take, ok,
  err, All, starts_with, leb, Option-cases, Bool-cases, length-take, length-append, take-all,
}
use s3_mcp_relay.Failure.{Error, Outcome-cases}
use s3_mcp_relay.Platform.{Host, Object, ListPage, Listed}
use s3_mcp_relay.Platform.Laws.{IsStore, IsUnder}
use s3_mcp_relay.Transport.Objects.{
  max_listed_objects, read_object, delete_key, get_raw, push_keys, list_pages, list_keys,
  is_truncated,
}

read_object-some :
    (m : ℕ) (o : Object) (b : List ℕ)
    → read_object m o ≡ ok (some b)
    → (o.read (m + 1) ≡ some b) × (length b ≤ m)
unfolding read_object
read_object-some m o b e = (ground arith, ground arith)

whole : (m : ℕ) (r b : List ℕ) → r ≡ take (m + 1) b → length r ≤ m → b ≡ r
whole m r b e h =
    let short : length b ≤ m + 1 = omega (arith, ap (length {A = ℕ}) e, length-take (m + 1) b) in
    sym (take-all (m + 1) b short) ∙ sym e

module _ {W : Type 0} {h : Host W} {peek : W → Text → Option (List ℕ)} (s : IsStore h peek) where
  pub get_raw-keeps : (k j : Text) (m : ℕ) (w : W) → peek (get_raw h k m w).1 j ≡ peek w j
  unfolding get_raw
  get_raw-keeps k j m w = ground (arith, s.get_keeps k j w)

  pub delete_key-elsewhere : (k j : Text) (w : W) → k ≢ j → peek (delete_key h k w).1 j ≡ peek w j
  unfolding delete_key
  delete_key-elsewhere k j w ne = ground (arith, s.delete_elsewhere k j w ne)

  pub delete_key-done :
      (k : Text) (w : W) → (delete_key h k w).0 ≡ ok tt → peek (delete_key h k w).1 k ≡ none
  unfolding delete_key
  delete_key-done k w e = ground (arith, s.delete_done k w)

  -- A deletion, whatever its result, takes the object away or leaves it.
  pub delete_key-shrinks :
      (k j : Text) (w : W)
      → (peek (delete_key h k w).1 j ≡ peek w j) ⊎ (peek (delete_key h k w).1 j ≡ none)
  unfolding delete_key
  delete_key-shrinks k j w = elim (Bool-cases (text_eq k j)) [
    | inl same ↦
        let e = (text_eq_iff k j).0 same in
        subst (λ i. (peek (delete_key h k w).1 i ≡ peek w i) ⊎ (peek (delete_key h k w).1 i ≡ none))
          e (ground (arith, s.delete_may k w))
    | inr other ↦ inl (delete_key-elsewhere k j w (λ e. let t = (text_eq_iff k j).1 e in cc))
  ]

  -- What a GET that succeeds has read is the whole object.
  pub get_raw-some :
      (k : Text) (m : ℕ) (w : W) (b : List ℕ)
      → (get_raw h k m w).0 ≡ ok (some b)
      → peek w k ≡ some b
  unfolding get_raw
  get_raw-some k m w b e = elim (Option-cases (h.get_object k w).0) [
    | inl bad ↦ absurd (ground arith)
    | inr (none, found) ↦ absurd (ground arith)
    | inr (some o, found) ↦
        let (b', there, reads) = s.get_present k w o found in
        let (got, small) = read_object-some m o b (ground arith) in
        there ∙ ap some (whole m b b' (reads (m + 1) b got) small)
  ]

  -- A key that is not there is not read.
  pub get_raw-none : (k : Text) (m : ℕ) (w : W) → (get_raw h k m w).0 ≡ ok none → peek w k ≡ none
  unfolding get_raw read_object
  get_raw-none k m w e = elim (Option-cases (h.get_object k w).0) [
    | inl bad ↦ absurd (ground arith)
    | inr (none, found) ↦ s.get_absent k w found
    | inr (some o, found) ↦ absurd (ground arith)
  ]

-- Some entry of the page has a key.
abbrev pub has_key : List Listed → Bool
has_key [] = false
has_key (object ∷ more) = elim object.key [ none ↦ has_key more | some _ ↦ true ]

-- A page adds keys one for one, and refuses to pass the limit.
push_keys_lem :
    (contents : List Listed) (keys : List Text)
    → length keys ≤ max_listed_objects
    → (push_keys contents keys ≡ err Error.too_many_objects)
      ⊎ ((more : List Text) × (push_keys contents keys ≡ ok more)
          × (length keys ≤ length more)
          × (length more ≤ max_listed_objects)
          × (has_key contents ≡ true → length keys < length more))
unfolding push_keys
push_keys_lem [] keys b = inr (keys, refl, omega arith, b, λ t. absurd (ground arith))
push_keys_lem (object ∷ rest) keys b = elim (Option-cases object.key) [
  | inl absent ↦ rw (absent) (push_keys_lem rest keys b)
  | inr (key, present) ↦ elim (Bool-cases (leb max_listed_objects (length keys))) [
    | inl full ↦ rw (present, full) (inl refl)
    | inr room ↦
        rw (present, room)
          (elim (push_keys_lem rest (keys ++ key ∷ [])
            (ground (arith, length-append keys (key ∷ [])))) [
              | inl bad ↦ inl bad
              | inr (more, done, grown, within, fast) ↦ inr (
                more,
                done,
                omega (arith, length-append keys (key ∷ [])),
                within,
                λ t. omega (arith, length-append keys (key ∷ [])),
              )
            ])
  ]
]

-- Every page that announces another one shows a key: S3 truncates a listing when as many keys are
-- on the page as a page may have.
abbrev pub IsPaged : {W : Type 0} → Host W → Type 0
IsPaged {W} h =
    (p : Text) (token : Option Text) (w : W) (page : ListPage)
    → (h.list_objects p token w).0 ≡ some page
    → is_truncated page.is_truncated ≡ true
    → has_key page.contents ≡ true

list_pages-fuel :
    {W : Type 0} (h : Host W)
    → IsPaged h
    → (fuel : ℕ) (p : Text) (token : Option Text) (keys : List Text) (w : W)
    → length keys ≤ max_listed_objects
    → max_listed_objects < fuel + length keys
    → (list_pages h fuel p token keys w).0 ≢ err Error.out_of_fuel
unfolding list_pages
list_pages-fuel h paged zero p token keys w b f = absurd (omega arith)
list_pages-fuel h paged (suc fuel) p token keys w b f =
    elim (Option-cases (h.list_objects p token w).0) [
      | inl bad ↦ ground arith
      | inr (page, found) ↦ elim (push_keys_lem page.contents keys b) [
        | inl full ↦ ground arith
        | inr (more, done, grown, within, fast) ↦
            elim (Bool-cases (is_truncated page.is_truncated)) [
              | inl again ↦
                  let ih =
                    list_pages-fuel h paged fuel p page.next_token more (h.list_objects p token w).1
                      within (omega (arith, fast (paged p token w page found again))) in
                  ground arith
              | inr last_page ↦ ground arith
            ]
      ]
    ]

-- A listing does not run out of the model's fuel of 10,001 pages, provided that every page that
-- announces another one shows a key: the code refuses to go on past 10,000 keys.
pub list_keys-fuel :
    {W : Type 0} (h : Host W) (prefix : Text) (w : W)
    → IsPaged h
    → (list_keys h prefix w).0 ≢ err Error.out_of_fuel
unfolding list_keys
list_keys-fuel h prefix w paged =
    list_pages-fuel h paged (suc max_listed_objects) prefix none [] w (omega arith) (omega arith)

abbrev pub Under : Text → Text → Type 0
Under prefix key = starts_with key prefix ≡ true

All-push :
    (P : Text → Type 0) (keys : List Text) (key : Text)
    → All P keys
    → P key
    → All P (keys ++ key ∷ [])
All-push P [] key h p = (p, tt)
All-push P (k ∷ keys) key h p = (h.0, All-push P keys key h.1 p)

push_keys-Under :
    (prefix : Text) (contents : List Listed) (keys more : List Text)
    → IsUnder prefix contents
    → All (Under prefix) keys
    → push_keys contents keys ≡ ok more
    → All (Under prefix) more
unfolding push_keys IsUnder
push_keys-Under prefix [] keys more page h e = subst (All (Under prefix)) (ground arith) h
push_keys-Under prefix (object ∷ rest) keys more page h e = elim (Option-cases object.key) [
  | inl absent ↦ push_keys-Under prefix rest keys more page.1 h (ground arith)
  | inr (key, present) ↦ elim (Bool-cases (leb max_listed_objects (length keys))) [
    | inl full ↦ absurd (ground arith)
    | inr room ↦
        push_keys-Under prefix rest (keys ++ key ∷ []) more page.1
          (All-push (Under prefix) keys key h (page.0 key present)) (ground arith)
  ]
]

-- A listing leaves the bucket as it is.
module _ {W : Type 0} {h : Host W} {peek : W → Text → Option (List ℕ)} (s : IsStore h peek) where
  list_pages-keeps :
      (fuel : ℕ) (p : Text) (token : Option Text) (keys : List Text) (w : W) (j : Text)
      → peek (list_pages h fuel p token keys w).1 j ≡ peek w j
  unfolding list_pages
  list_pages-keeps zero p token keys w j = refl
  list_pages-keeps (suc fuel) p token keys w j = elim (Option-cases (h.list_objects p token w).0) [
    | inl bad ↦ ground (arith, s.list_keeps p token w j)
    | inr (page, found) ↦ elim (Outcome-cases (push_keys page.contents keys)) [
      | inl (more, done) ↦ ground (
        arith,
        s.list_keeps p token w j,
        list_pages-keeps fuel p page.next_token more (h.list_objects p token w).1 j,
      )
      | inr (e, full) ↦ ground (arith, s.list_keeps p token w j)
    ]
  ]

  pub list_keys-keeps : (p j : Text) (w : W) → peek (list_keys h p w).1 j ≡ peek w j
  unfolding list_keys
  list_keys-keeps p j w = list_pages-keeps (suc max_listed_objects) p none [] w j

  list_pages-Under :
      (fuel : ℕ) (p : Text) (token : Option Text) (keys more : List Text) (w : W)
      → All (Under p) keys
      → (list_pages h fuel p token keys w).0 ≡ ok more
      → All (Under p) more
  unfolding list_pages
  list_pages-Under zero p token keys more w under e = absurd (ground arith)
  list_pages-Under (suc fuel) p token keys more w under e =
      let v = (h.list_objects p token w).1 in
      elim (Option-cases (h.list_objects p token w).0) [
        | inl bad ↦ absurd (ground arith)
        | inr (page, found) ↦ elim (Outcome-cases (push_keys page.contents keys)) [
          | inr (bad, full) ↦ absurd (ground arith)
          | inl (keys', done) ↦
              let under' =
                push_keys-Under p page.contents keys keys' (s.list_under p token w page found) under
                  done in
              elim (Bool-cases (is_truncated page.is_truncated)) [
                | inl again ↦
                    list_pages-Under fuel p page.next_token keys' more v under' (ground arith)
                | inr last_page ↦ subst (All (Under p)) (ground arith) under'
              ]
        ]
      ]

  -- Every key that a listing gives starts with the prefix that was asked for.
  pub list_keys-Under :
      (p : Text) (keys : List Text) (w : W) → (list_keys h p w).0 ≡ ok keys → All (Under p) keys
  unfolding list_keys
  list_keys-Under p keys w e = list_pages-Under (suc max_listed_objects) p none [] keys w tt e
