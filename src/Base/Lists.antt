-- ===== src/Base/Lists.antt =====
-- Lists measured by native numbers, and predicates on all their members.
use Prim.Native.Nat.{ℕ, zero, suc, ◌+◌, ◌-◌, ◌≤◌, min}
use mathlib.Core.Path.{◌≡◌, refl, ap}
use mathlib.Core.List.{List, [], ◌∷◌, ◌++◌}
use mathlib.Core.Bool.{Bool, true, false, ◌&&◌, ◌||◌}
use native.Mathlib.Nat.{suc-add, zero-add, add-zero}
use native.Mathlib.Omega.{arith}

module _ {ℓ} {A : Type ℓ} where
  abbrev pub length : List A → ℕ
  length [] = 0
  length (x ∷ xs) = suc (length xs)

  abbrev pub take : ℕ → List A → List A
  take zero xs = []
  take (suc n) [] = []
  take (suc n) (x ∷ xs) = x ∷ take n xs

  abbrev pub drop : ℕ → List A → List A
  drop zero xs = xs
  drop (suc n) [] = []
  drop (suc n) (x ∷ xs) = drop n xs

  abbrev pub replicate : ℕ → A → List A
  replicate zero a = []
  replicate (suc n) a = a ∷ replicate n a

  abbrev pub all : (A → Bool) → List A → Bool
  all p [] = true
  all p (x ∷ xs) = p x && all p xs

  abbrev pub any : (A → Bool) → List A → Bool
  any p [] = false
  any p (x ∷ xs) = p x || any p xs

  pub length-append : (xs ys : List A) → length (xs ++ ys) ≡ length xs + length ys
  length-append [] ys = omega arith
  length-append (x ∷ xs) ys = omega (arith, length-append xs ys)

  pub take-append-drop : (n : ℕ) (xs : List A) → take n xs ++ drop n xs ≡ xs
  take-append-drop zero xs = refl
  take-append-drop (suc n) [] = refl
  take-append-drop (suc n) (x ∷ xs) = ap (λ l. x ∷ l) (take-append-drop n xs)

  pub length-take : (n : ℕ) (xs : List A) → length (take n xs) ≡ min n (length xs)
  length-take zero xs = omega arith
  length-take (suc n) [] = omega arith
  length-take (suc n) (x ∷ xs) = omega (arith, length-take n xs)

  pub length-drop : (n : ℕ) (xs : List A) → length (drop n xs) ≡ length xs - n
  length-drop zero xs = omega arith
  length-drop (suc n) [] = omega arith
  length-drop (suc n) (x ∷ xs) = omega (arith, length-drop n xs)

module _ {ℓ} {A : Type ℓ} where
  pub take-all : (n : ℕ) (xs : List A) → length xs ≤ n → take n xs ≡ xs
  take-all zero [] h = refl
  take-all zero (x ∷ xs) h = elim h [ ]
  take-all (suc n) [] h = refl
  take-all (suc n) (x ∷ xs) h = ap (λ l. x ∷ l) (take-all n xs (omega arith))

module _ {ℓ κ} {A : Type ℓ} (P : A → Type κ) where
  abbrev pub All : List A → Type κ
  All [] = Unit
  All (x ∷ xs) = P x × All xs

module _ {ℓ} {A : Type ℓ} where
  pub drop-drop : (m n : ℕ) (xs : List A) → drop m (drop n xs) ≡ drop (n + m) xs
  drop-drop m zero xs = rw zero-add
  drop-drop zero (suc n) [] = rw add-zero
  drop-drop (suc m) (suc n) [] = rw suc-add
  drop-drop m (suc n) (x ∷ xs) = rw suc-add (drop-drop m n xs)

  pub drop-append_le :
      (n : ℕ) (xs ys : List A) → n ≤ length xs → drop n (xs ++ ys) ≡ drop n xs ++ ys
  drop-append_le zero xs ys h = refl
  drop-append_le (suc n) [] ys h = elim h [ ]
  drop-append_le (suc n) (x ∷ xs) ys h = drop-append_le n xs ys (omega arith)

  -- The last `n` members of a list.
  abbrev pub last : ℕ → List A → List A
  last n xs = drop (length xs - n) xs

  -- What is kept of a kept part and more is what is kept of all.
  pub last-append : (n : ℕ) (xs ys : List A) → last n (last n xs ++ ys) ≡ last n (xs ++ ys)
  last-append n xs ys =
      let d = length xs - n in
      let e : length xs + length ys - n ≡ d + (length xs + length ys - d - n) = omega arith in
      rw (← drop-append_le d xs ys (omega arith))
        (rw (drop-drop, length-drop, length-append) (rw (← e)))

  pub take-append_exact : (n : ℕ) (xs ys : List A) → length xs ≡ n → take n (xs ++ ys) ≡ xs
  take-append_exact zero [] ys h = refl
  take-append_exact zero (x ∷ xs) ys h = absurd (omega arith)
  take-append_exact (suc n) [] ys h = absurd (omega arith)
  take-append_exact (suc n) (x ∷ xs) ys h =
      ap (λ l. x ∷ l) (take-append_exact n xs ys (omega arith))

  pub drop-append_exact : (n : ℕ) (xs ys : List A) → length xs ≡ n → drop n (xs ++ ys) ≡ ys
  drop-append_exact zero [] ys h = refl
  drop-append_exact zero (x ∷ xs) ys h = absurd (omega arith)
  drop-append_exact (suc n) [] ys h = absurd (omega arith)
  drop-append_exact (suc n) (x ∷ xs) ys h = drop-append_exact n xs ys (omega arith)
