-- ===== src/Base/Bytes.antt =====
-- A Rust `String` as the list of its UTF-8 bytes. A literal is written by `codes`, which gives the
-- bytes of an ASCII text.
use Prim.Native.Nat.{ℕ}
use Prim.Native.Char.{code}
use Prim.Native.String.{String}
use mathlib.Core.Path.{◌≡◌, refl, ap}
use mathlib.Core.Logic.{◌↔◌, ◌⊎◌, inl, inr}
use mathlib.Core.Bool.{Bool, true, false, ◌&&◌, ◌||◌}
use mathlib.Core.List.{List, [], ◌∷◌, ◌++◌, tail}
use native.Mathlib.Omega.{arith}
use s3_mcp_relay.Base.Tests.{◌==◌, leb, ltb, ==_iff, &&-eq-true_iff, Bool-cases}

abbrev pub Text : Type 0
Text = List ℕ

abbrev pub codes : String → Text
codes String.[] = []
codes (String.◌∷◌ c s) = code c ∷ codes s

unfoldable pub text_eq : Text → Text → Bool
text_eq [] [] = true
text_eq [] (b ∷ t) = false
text_eq (a ∷ s) [] = false
text_eq (a ∷ s) (b ∷ t) = a == b && text_eq s t

pub text_eq_iff : (s t : Text) → (text_eq s t ≡ true) ↔ (s ≡ t)
unfolding text_eq
text_eq_iff [] [] = ground arith
text_eq_iff [] (b ∷ t) = ground arith
text_eq_iff (a ∷ s) [] = ground arith
text_eq_iff (a ∷ s) (b ∷ t) = ground (arith, text_eq_iff s t)

pub text_eq_refl : (s : Text) → text_eq s s ≡ true
text_eq_refl s = (text_eq_iff s s).1 refl

-- `a < b` on strings: byte by byte, and a proper prefix comes first.
unfoldable pub text_lt : Text → Text → Bool
text_lt [] [] = false
text_lt [] (b ∷ t) = true
text_lt (a ∷ s) [] = false
text_lt (a ∷ s) (b ∷ t) = ltb a b || a == b && text_lt s t

pub text_lt-trichotomy : (s t : Text) → (s ≡ t) ⊎ (text_lt s t ≡ true) ⊎ (text_lt t s ≡ true)
unfolding text_lt
text_lt-trichotomy [] [] = inl refl
text_lt-trichotomy [] (b ∷ t) = ground arith
text_lt-trichotomy (a ∷ s) [] = ground arith
text_lt-trichotomy (a ∷ s) (b ∷ t) = ground (arith, text_lt-trichotomy s t)

pub text_lt-asymm : (s t : Text) → text_lt s t ≡ true → text_lt t s ≡ false
unfolding text_lt
text_lt-asymm [] [] h = refl
text_lt-asymm [] (b ∷ t) h = refl
text_lt-asymm (a ∷ s) [] h = ground arith
text_lt-asymm (a ∷ s) (b ∷ t) h = ground (arith, text_lt-asymm s t)

unfoldable pub starts_with : Text → Text → Bool
starts_with s [] = true
starts_with [] (p ∷ ps) = false
starts_with (c ∷ s) (p ∷ ps) = c == p && starts_with s ps

-- `s.contains(p)`
unfoldable pub contains : Text → Text → Bool
unfolding starts_with
contains [] p = starts_with [] p
contains (c ∷ s) p = starts_with (c ∷ s) p || contains s p

unfoldable pub is_alphanumeric : ℕ → Bool
is_alphanumeric b = leb b'0' b && leb b b'9' || leb b'A' b && leb b b'Z' || leb b'a' b && leb b b'z'

-- A text begins with another exactly when it is that text followed by a rest.
pub starts_with_iff : (s p : Text) → (starts_with s p ≡ true) ↔ ((r : Text) × (s ≡ p ++ r))
unfolding starts_with
starts_with_iff s [] = (λ h. (s, refl), λ h. refl)
starts_with_iff [] (p ∷ ps) = (λ h. absurd (ground arith), λ (r, e). ground arith)
starts_with_iff (c ∷ s) (p ∷ ps) = (
  λ h.
      let (here, later) = (&&-eq-true_iff (c == p) (starts_with s ps)).0 h in
      let (r, e) = (starts_with_iff s ps).0 later in (r, cc ((==_iff c p).0 here)),
  λ (r, e). ground (arith, (starts_with_iff s ps).1 (r, ap tail e)),
)

-- A text holds another exactly when it stands between two rests.
pub contains_sound : (s p : Text) → contains s p ≡ true → (u v : Text) × (s ≡ u ++ (p ++ v))
unfolding contains
contains_sound [] p h = let (r, e) = (starts_with_iff [] p).0 h in ([], r, e)
contains_sound (c ∷ s) p h = elim (Bool-cases (starts_with (c ∷ s) p)) [
  | inl here ↦ let (r, e) = (starts_with_iff (c ∷ s) p).0 here in ([], r, e)
  | inr other ↦ let (u, v, e) = contains_sound s p (ground arith) in (c ∷ u, v, ap (λ l. c ∷ l) e)
]

pub contains_complete : (u p v : Text) → contains (u ++ (p ++ v)) p ≡ true
unfolding contains
contains_complete [] [] [] = refl
contains_complete [] [] (c ∷ v) = refl
contains_complete [] (c ∷ p) v = rw ((starts_with_iff (c ∷ (p ++ v)) (c ∷ p)).1 (v, refl))
contains_complete (c ∷ u) p v = ground (arith, contains_complete u p v)
