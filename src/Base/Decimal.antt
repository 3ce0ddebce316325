-- ===== src/Base/Decimal.antt =====
-- Decimal numbers as `format!` writes them, with and without zero padding.
use Prim.Native.Nat.{ℕ, zero, suc, ◌+◌, ◌-◌, ◌*◌, ◌/◌, ◌%◌, ◌^◌, ◌≤◌, ◌<◌}
use mathlib.Core.Path.{◌≡◌, refl, ap, sym, ◌∙◌}
use mathlib.Core.Logic.{◌⊎◌, inl, inr}
use mathlib.Core.Bool.{true}
use mathlib.Core.List.{[], ◌∷◌, ◌++◌}
use native.Mathlib.Nat.{pow-suc, mul-le-mul_right}
use native.Mathlib.Omega.{arith}
use s3_mcp_relay.Base.Tests.{ltb, if◌then◌else◌, Bool-cases, lt→ltb}
use s3_mcp_relay.Base.Lists.{length, replicate, length-append, All}
use s3_mcp_relay.Base.Bytes.{Text, text_lt}

-- The digits of `n`, the last one first produced; `n` is fuel enough.
digits : ℕ → ℕ → Text
digits zero n = (b'0' + n % 10) ∷ []
digits (suc f) n =
    let more = digits f (n / 10) ++ (b'0' + n % 10) ∷ [] in
    if ltb n 10 then (b'0' + n) ∷ [] else more

-- `{n}`
unfoldable pub decimal : ℕ → Text
unfolding digits
decimal n = digits n n

-- `{n:0w}`
unfoldable pub padded : ℕ → ℕ → Text
unfolding decimal
padded w n = let d = decimal n in replicate (w - length d) b'0' ++ d

-- The number that a text of digits stands for, after the digits read so far.
value_from : ℕ → Text → ℕ
value_from acc [] = acc
value_from acc (c ∷ s) = value_from (acc * 10 + (c - b'0')) s

value_from-append :
    (acc : ℕ) (s t : Text) → value_from acc (s ++ t) ≡ value_from (value_from acc s) t
unfolding value_from
value_from-append acc [] t = refl
value_from-append acc (c ∷ s) t = value_from-append (acc * 10 + (c - b'0')) s t

value_from-digits : (f n : ℕ) → n ≤ f → value_from 0 (digits f n) ≡ n
unfolding value_from digits
value_from-digits zero n h = omega arith
value_from-digits (suc f) n h = elim (Bool-cases (ltb n 10)) [
  | inl small ↦ rw small (omega arith)
  | inr large ↦
      rw (large, value_from-append) (rw (value_from-digits f (n / 10) (ground arith)) (omega arith))
]

value_from-zeros : (k : ℕ) (t : Text) → value_from 0 (replicate k b'0' ++ t) ≡ value_from 0 t
unfolding value_from
value_from-zeros zero t = refl
value_from-zeros (suc k) t = value_from-zeros k t

value_from-padded : (w n : ℕ) → value_from 0 (padded w n) ≡ n
unfolding padded
value_from-padded w n = rw value_from-zeros (value_from-digits n n (omega arith))

-- Padded numbers are told apart, whatever the width.
pub padded-injective : (w m n : ℕ) → padded w m ≡ padded w n → m ≡ n
padded-injective w m n e = sym (value_from-padded w m) ∙ ap (value_from 0) e ∙ value_from-padded w n

abbrev pub IsDigit : ℕ → Type 0
IsDigit c = (b'0' ≤ c) × (c ≤ b'9')

All-append : (s t : Text) → All IsDigit s → All IsDigit t → All IsDigit (s ++ t)
All-append [] t h k = k
All-append (c ∷ s) t h k = (h.0, All-append s t h.1 k)

digits-IsDigit : (f n : ℕ) → All IsDigit (digits f n)
unfolding digits
digits-IsDigit zero n = omega arith
digits-IsDigit (suc f) n = elim (Bool-cases (ltb n 10)) [
  | inl small ↦ rw small (ground arith)
  | inr large ↦
      rw large (All-append (digits f (n / 10)) _ (digits-IsDigit f (n / 10)) (omega arith))
]

zeros-IsDigit : (k : ℕ) → All IsDigit (replicate k b'0')
zeros-IsDigit zero = tt
zeros-IsDigit (suc k) = (omega arith, zeros-IsDigit k)

pub padded-IsDigit : (w n : ℕ) → All IsDigit (padded w n)
unfolding padded
padded-IsDigit w n = All-append (replicate _ b'0') _ (zeros-IsDigit _) (digits-IsDigit n n)

length-digits : (f n k : ℕ) → n < 10 ^ suc k → n ≤ f → length (digits f n) ≤ suc k
unfolding digits
length-digits zero n k h le = omega arith
length-digits (suc f) n zero h le = rw (lt→ltb n 10 h) (omega arith)
length-digits (suc f) n (suc k) h le = elim (Bool-cases (ltb n 10)) [
  | inl small ↦ rw small (omega arith)
  | inr large ↦
      let shorter : n / 10 < 10 ^ suc k = omega (arith, pow-suc 10 (suc k)) in
      let ih = length-digits f (n / 10) k shorter (ground arith) in
      rw (large, length-append) (omega arith)
]

length-replicate : (k : ℕ) → length {A = ℕ} (replicate k b'0') ≡ k
length-replicate zero = refl
length-replicate (suc k) = ap suc (length-replicate k)

-- A number that fits the width takes up exactly the width.
pub length-padded : (k n : ℕ) → n < 10 ^ suc k → length (padded (suc k) n) ≡ suc k
unfolding padded
length-padded k n h =
    rw (length-append, length-replicate)
      (let d = length-digits n n k h (omega arith) in omega arith)

-- What a digit string of `k + 1` bytes stands for: its first digit counts `10 ^ k` times.
regroup :
    (acc k p v x y : ℕ)
    → x ≡ (acc * 10 + k) * p + v
    → y ≡ (0 * 10 + k) * p + v
    → x ≡ acc * (p * 10) + y
regroup acc k p v x y e f = omega arith

value_from_lem : (acc : ℕ) (s : Text) → value_from acc s ≡ acc * 10 ^ length s + value_from 0 s
unfolding value_from
value_from_lem acc [] = omega arith
value_from_lem acc (c ∷ s) = rw pow-suc (
    regroup acc (c - b'0') (10 ^ length s) (value_from 0 s) _ _
      (value_from_lem (acc * 10 + (c - b'0')) s) (value_from_lem (0 * 10 + (c - b'0')) s))

below : (k p v y : ℕ) → y ≡ (0 * 10 + k) * p + v → v < p → k ≤ 9 → y < p * 10
below k p v y e h d = omega (arith, mul-le-mul_right p d)

value_from-lt : (s : Text) → All IsDigit s → value_from 0 s < 10 ^ length s
unfolding value_from
value_from-lt [] h = omega arith
value_from-lt (c ∷ s) h = rw pow-suc (
    below (c - b'0') (10 ^ length s) (value_from 0 s) _ (value_from_lem (0 * 10 + (c - b'0')) s)
      (value_from-lt s h.1) (omega arith))

first_decides :
    (j k p u v x y : ℕ)
    → x ≡ (0 * 10 + j) * p + u
    → y ≡ (0 * 10 + k) * p + v
    → u < p
    → j < k
    → x < y
first_decides j k p u v x y e f h lt = omega (arith, mul-le-mul_right p lt)

first_or_rest :
    (j k p u v x y : ℕ)
    → x ≡ (0 * 10 + j) * p + u
    → y ≡ (0 * 10 + k) * p + v
    → v < p
    → x < y
    → (j < k) ⊎ (j ≡ k) × (u < v)
first_or_rest j k p u v x y e f hv lt = elim (Bool-cases (ltb j k)) [
  | inl less ↦ inl (ground arith)
  | inr more ↦
      let no : ¬ (k < j) = λ q. omega (arith, first_decides k j p v u y x f e hv q) in
      let same : j ≡ k = ground arith in inr (same, omega (arith, ap (λ (t : ℕ). t * p) same))
]

-- Between digit strings of one length the order of texts is the order of the numbers.
text_lt-value :
    (s t : Text)
    → All IsDigit s
    → All IsDigit t
    → length s ≡ length t
    → value_from 0 s < value_from 0 t
    → text_lt s t ≡ true
unfolding text_lt value_from
text_lt-value [] [] h k e lt = absurd (omega arith)
text_lt-value [] (d ∷ t) h k e lt = absurd (omega arith)
text_lt-value (c ∷ s) [] h k e lt = absurd (omega arith)
text_lt-value (c ∷ s) (d ∷ t) h k e lt =
    let same : length s ≡ length t = omega arith in
    let rest = value_from_lem (0 * 10 + (d - b'0')) t in
    elim (first_or_rest (c - b'0') (d - b'0') (10 ^ length s) (value_from 0 s) (value_from 0 t) _ _
      (value_from_lem (0 * 10 + (c - b'0')) s) (rw same rest) (rw same (value_from-lt t k.1)) lt) [
        | inl first ↦ ground arith
        | inr (equal, later) ↦ ground (arith, text_lt-value s t h.1 k.1 same later)
      ]

-- Numbers that fit the width are listed in their order.
pub text_lt-padded :
    (k m n : ℕ) → m < n → n < 10 ^ suc k → text_lt (padded (suc k) m) (padded (suc k) n) ≡ true
text_lt-padded k m n h b =
    text_lt-value (padded (suc k) m) (padded (suc k) n) (padded-IsDigit (suc k) m)
      (padded-IsDigit (suc k) n) (length-padded k m (omega arith) ∙ sym (length-padded k n b))
      (rw (value_from-padded (suc k) m, value_from-padded (suc k) n) h)
