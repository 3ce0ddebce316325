-- ===== src/Blob/Chunks.antt =====
-- Lists of chunks and of uploads.
use s3_mcp_relay.Base.{
  ℕ, zero, suc, ◌≤◌, ◌≡◌, ◌⊎◌, inl, inr, some, List, [], ◌∷◌, ◌++◌, arith, refl, ap, sym, ◌∙◌,
  length, append_assoc, append-nil, All,
}
use s3_mcp_relay.Blob.{Upload, upload_concurrency}
use s3_mcp_relay.Blob.Joins.{nth, concat, IsIn}

pub IsIn-none : (x : Upload) (xs : List Upload) → length xs ≤ 0 → IsIn x xs → ⊥
IsIn-none x [] h i = i
IsIn-none x (y ∷ ys) h i = absurd (omega arith)

pub IsIn-append :
    (x : Upload) (xs : List Upload) (y : Upload) → ((x ≡ y) ⊎ IsIn x xs) → IsIn x (xs ++ y ∷ [])
IsIn-append x [] y (inl e) = inl e
IsIn-append x [] y (inr i) = absurd i
IsIn-append x (z ∷ xs) y (inl e) = inr (IsIn-append x xs y (inl e))
IsIn-append x (z ∷ xs) y (inr (inl e)) = inl e
IsIn-append x (z ∷ xs) y (inr (inr i)) = inr (IsIn-append x xs y (inr i))

pub All-snoc :
    {A : Type 0} (P : A → Type 0) (xs : List A) (x : A) → All P xs → P x → All P (xs ++ x ∷ [])
All-snoc P [] x h p = (p, tt)
All-snoc P (y ∷ ys) x h p = (h.0, All-snoc P ys x h.1 p)

pub All-weaken :
    {A : Type 0} (P Q : A → Type 0) (xs : List A) → ((x : A) → P x → Q x) → All P xs → All Q xs
All-weaken P Q [] f h = tt
All-weaken P Q (x ∷ xs) f h = (f x h.0, All-weaken P Q xs f h.1)

pub nth-front :
    (i : ℕ) (ds : List (List ℕ)) (d e : List ℕ) → nth i ds ≡ some e → nth i (ds ++ d ∷ []) ≡ some e
nth-front i [] d e h = absurd (ground arith)
nth-front zero (c ∷ ds) d e h = h
nth-front (suc i) (c ∷ ds) d e h = nth-front i ds d e h

pub nth-last : (ds : List (List ℕ)) (d : List ℕ) → nth (length ds) (ds ++ d ∷ []) ≡ some d
nth-last [] d = refl
nth-last (c ∷ ds) d = nth-last ds d

pub nth-snoc :
    (i : ℕ) (ds : List (List ℕ)) (d e : List ℕ)
    → nth i (ds ++ d ∷ []) ≡ some e
    → (nth i ds ≡ some e) ⊎ (i ≡ length ds) × (d ≡ e)
nth-snoc zero [] d e h = inr (refl, ground arith)
nth-snoc (suc i) [] d e h = absurd (ground arith)
nth-snoc zero (c ∷ ds) d e h = inl h
nth-snoc (suc i) (c ∷ ds) d e h = elim (nth-snoc i ds d e h) [
  | inl front ↦ inl front
  | inr (at_end, same) ↦ inr (ap suc at_end, same)
]

pub upload_concurrency_positive :
    (requested chunk_size : ℕ) → 1 ≤ upload_concurrency requested chunk_size
unfolding upload_concurrency
upload_concurrency_positive requested chunk_size = omega arith

pub concat-snoc : (ds : List (List ℕ)) (d : List ℕ) → concat (ds ++ d ∷ []) ≡ concat ds ++ d
concat-snoc [] d = append-nil d
concat-snoc (c ∷ ds) d = ap (λ x. c ++ x) (concat-snoc ds d) ∙ sym (append_assoc c (concat ds) d)
