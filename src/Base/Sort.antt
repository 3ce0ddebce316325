-- ===== src/Base/Sort.antt =====
-- The standard library's stable `sort_by_key`, with the comparison of the keys as an argument: `lt x
-- y` says that the key of `x` comes before that of `y`.
use mathlib.Core.Path.{◌≡◌}
use mathlib.Core.Logic.{inl, inr}
use mathlib.Core.Bool.{Bool, true, false}
use mathlib.Core.List.{List, [], ◌∷◌}
use s3_mcp_relay.Base.Tests.{if◌then◌else◌, Bool-cases}
use s3_mcp_relay.Base.Lists.{All}

module _ {A : Type 0} (lt : A → A → Bool) where
  -- `x` goes in front of all that do not come before it.
  unfoldable pub insert_sorted : A → List A → List A
  insert_sorted x [] = x ∷ []
  insert_sorted x (y ∷ ys) = if lt y x then y ∷ insert_sorted x ys else x ∷ y ∷ ys

  unfoldable pub sort : List A → List A
  unfolding insert_sorted
  sort [] = []
  sort (x ∷ xs) = insert_sorted x (sort xs)

module _ {A : Type 0} (lt : A → A → Bool) (P : A → Type 0) where
  insert_sorted-All : (x : A) (xs : List A) → P x → All P xs → All P (insert_sorted lt x xs)
  unfolding insert_sorted
  insert_sorted-All x [] p h = (p, tt)
  insert_sorted-All x (y ∷ ys) p h = elim (Bool-cases (lt y x)) [
    | inl less ↦ rw less (h.0, insert_sorted-All x ys p h.1)
    | inr more ↦ rw more (p, h)
  ]

  pub sort-All : (xs : List A) → All P xs → All P (sort lt xs)
  unfolding sort
  sort-All [] h = tt
  sort-All (x ∷ xs) h = insert_sorted-All x (sort lt xs) h.0 (sort-All xs h.1)

-- No member comes before one that stands in front of it.
abbrev pub IsSorted : {A : Type 0} → (A → A → Bool) → List A → Type 0
IsSorted lt [] = Unit
IsSorted lt (x ∷ xs) = All (λ y. lt y x ≡ false) xs × IsSorted lt xs

module _ {A : Type 0} (lt : A → A → Bool) (asymm : (x y : A) → lt x y ≡ true → lt y x ≡ false)
    (trans : (x y z : A) → lt y x ≡ false → lt z y ≡ false → lt z x ≡ false) where
  All-trans :
      (x y : A) (ys : List A)
      → lt y x ≡ false
      → All (λ z. lt z y ≡ false) ys
      → All (λ z. lt z x ≡ false) ys
  All-trans x y [] e h = tt
  All-trans x y (z ∷ ys) e h = (trans x y z e h.0, All-trans x y ys e h.1)

  insert_sorted-IsSorted :
      (x : A) (ys : List A) → IsSorted lt ys → IsSorted lt (insert_sorted lt x ys)
  unfolding insert_sorted
  insert_sorted-IsSorted x [] s = (tt, tt)
  insert_sorted-IsSorted x (y ∷ ys) s = elim (Bool-cases (lt y x)) [
    | inl less ↦ rw less (
      insert_sorted-All lt (λ z. lt z y ≡ false) x ys (asymm y x less) s.0,
      insert_sorted-IsSorted x ys s.1,
    )
    | inr more ↦ rw more ((more, All-trans x y ys more s.0), s)
  ]

  pub sort-IsSorted : (xs : List A) → IsSorted lt (sort lt xs)
  unfolding sort
  sort-IsSorted [] = tt
  sort-IsSorted (x ∷ xs) = insert_sorted-IsSorted x (sort lt xs) (sort-IsSorted xs)
