-- ===== src/Effect.antt =====
-- Code that acts on the world outside (the bucket, the clock, the file system): it takes the state
-- of that world and gives a result and the state after. An error leaves the effects so far in place.
pub mod Keeps
use s3_mcp_relay.Base.{
  Bool, true, false, if◌then◌else◌, ◌⊎◌, inl, inr, ℕ, ◌≢◌, refl, arith, subst, ◌≡◌, Option, none,
  some, ok, err,
}
use s3_mcp_relay.Failure.{Error, Outcome}

abbrev pub Eff : Type 0 → Type 0 → Type 0
Eff W A = W → Outcome A × W

-- The rest of a block, after a step has ended.
abbrev pub continue : {W A B : Type 0} → (A → Eff W B) → Outcome A × W → Outcome B × W
continue f (ok a, w) = f a w
continue f (err e, w) = (err e, w)

infixl 5 ◌>>=◌ ◌>>◌
abbrev pub ◌>>=◌ : {W A B : Type 0} → Eff W A → (A → Eff W B) → Eff W B
◌>>=◌ m f w = continue f (m w)

abbrev pub ◌>>◌ : {W B : Type 0} → Eff W (Unit {0}) → Eff W B → Eff W B
m >> k = m >>= λ _. k

abbrev pub pure : {W A : Type 0} → A → Eff W A
pure a w = (ok a, w)

abbrev pub fail : {W A : Type 0} → Error → Eff W A
fail e w = (err e, w)

-- A result computed with no effect, under `?`.
abbrev pub lift : {W A : Type 0} → Outcome A → Eff W A
lift r w = (r, w)

-- A call of a library: `none` is its failure, which becomes the error `e`.
abbrev pub reply : {W A : Type 0} → Error → Option A × W → Outcome A × W
reply e (none, w) = (err e, w)
reply e (some a, w) = (ok a, w)

abbrev pub request : {W A : Type 0} → Error → (W → Option A × W) → Eff W A
request e call w = reply e (call w)

-- A call that cannot fail, such as reading the clock.
abbrev pub sample : {W A : Type 0} → (W → A × W) → Eff W A
sample call w = let (a, w') = call w in (ok a, w')

-- `match m.await { Ok(_) => …, Err(_) => … }`: the result is at hand, and the block goes on.
abbrev pub attempt : {W A : Type 0} → Eff W A → Eff W (Outcome A)
attempt m w = let (r, w') = m w in (ok r, w')

-- `let _ = m.await;`
abbrev pub ignore : {W A : Type 0} → Eff W A → Eff W (Unit {0})
ignore m w = (ok tt, (m w).1)

abbrev pub option_or : {A : Type 0} → Error → Option A → Outcome A
option_or e none = err e
option_or e (some a) = ok a

-- A step that has succeeded hands its result and the world on.
pub continue_ok :
    {W A B : Type 0} (f : A → Eff W B) (m : Outcome A × W) (a : A)
    → m.0 ≡ ok a
    → continue f m ≡ f a m.1
continue_ok f (ok b, w) a e = cc
continue_ok f (err x, w) a e = absurd (cc)

-- A postcondition: it holds of the result and the world of a run that succeeds.
abbrev pub Ensures : {W A : Type 0} → (A → W → Type 0) → Outcome A × W → Type 0
Ensures {W} {A} P r = (a : A) → r.0 ≡ ok a → P a r.1

-- The rule for a block: what a step ensures is at hand in the rest.
pub Ensures-continue :
    {W A B : Type 0} (P : A → W → Type 0) (Q : B → W → Type 0) (f : A → Eff W B) (r : Outcome A × W)
    → Ensures P r
    → ((a : A) (w : W) → P a w → Ensures Q (f a w))
    → Ensures Q (continue f r)
Ensures-continue P Q f (ok a, w) h k = k a w (h a refl)
Ensures-continue P Q f (err e, w) h k = λ b s. absurd (cc)

pub Ensures-pure :
    {W A : Type 0} (Q : A → W → Type 0) (a : A) (w : W) → Q a w → Ensures Q (pure a w)
Ensures-pure Q a w h b e = let same : a ≡ b = ground arith in subst (λ x. Q x w) same h

-- A run that ends within the fuel of the model: a block does if its steps do.
abbrev pub IsFueled : {W A : Type 0} → Outcome A × W → Type 0
IsFueled r = r.0 ≢ err Error.out_of_fuel

pub IsFueled-continue :
    {W A B : Type 0} (P : A → W → Type 0) (f : A → Eff W B) (r : Outcome A × W)
    → IsFueled r
    → Ensures P r
    → ((a : A) (w : W) → P a w → IsFueled (f a w))
    → IsFueled (continue f r)
IsFueled-continue P f (ok a, w) fueled h k = k a w (h a refl)
IsFueled-continue P f (err e, w) fueled h k = λ out. fueled (ground arith)

-- What holds of the world after a step, whatever its result, and is kept by the rest of a block.
pub continue-keeps :
    {W A B : Type 0} (I : W → Type 0) (f : A → Eff W B) (r : Outcome A × W)
    → I r.1
    → ((a : A) (w : W) → I w → I (f a w).1)
    → I (continue f r).1
continue-keeps I f (ok a, w) h k = k a w h
continue-keeps I f (err e, w) h k = h

-- A run that succeeds with a postcondition, unless a library fails.
abbrev pub Arrives : {W A : Type 0} → (A → W → Type 0) → Outcome A × W → Type 0
Arrives {W} {A} P r = ((a : A) × (r.0 ≡ ok a) × P a r.1) ⊎ ((n : ℕ) × (r.0 ≡ err (Error.service n)))

pub Arrives-continue :
    {W A B : Type 0} (P : A → W → Type 0) (Q : B → W → Type 0) (f : A → Eff W B) (r : Outcome A × W)
    → Arrives P r
    → ((a : A) (w : W) → P a w → Arrives Q (f a w))
    → Arrives Q (continue f r)
Arrives-continue P Q f (ok a, w) (inl (b, same, h)) k =
    k a w (let e : b ≡ a = ground arith in subst (λ x. P x w) e h)
Arrives-continue P Q f (ok a, w) (inr (n, bad)) k = absurd (ground arith)
Arrives-continue P Q f (err e, w) (inl (b, bad, h)) k = absurd (ground arith)
Arrives-continue P Q f (err e, w) (inr (n, same)) k = inr (n, ground arith)

-- An invariant of the world that holds whatever the result, and a postcondition of success.
abbrev pub Good : {W A : Type 0} → (W → Type 0) → (A → W → Type 0) → Outcome A × W → Type 0
Good I P r = I r.1 × Ensures P r

pub Good-continue :
    {W A B : Type 0} (I : W → Type 0) (P : A → W → Type 0) (Q : B → W → Type 0) (f : A → Eff W B)
    (r : Outcome A × W)
    → Good I P r
    → ((a : A) (w : W) → I w → P a w → Good I Q (f a w))
    → Good I Q (continue f r)
Good-continue I P Q f (ok a, w) h k = k a w h.0 (h.1 a refl)
Good-continue I P Q f (err e, w) h k = (h.0, λ b s. absurd (cc))

pub Good-pure :
    {W A : Type 0} (I : W → Type 0) (Q : A → W → Type 0) (a : A) (w : W)
    → I w
    → Q a w
    → Good I Q (pure a w)
Good-pure I Q a w i h = (i, Ensures-pure Q a w h)

pub Good-fail :
    {W A : Type 0} (I : W → Type 0) (Q : A → W → Type 0) (e : Error) (w : W)
    → I w
    → Good I Q (fail e w)
Good-fail I Q e w i = (i, λ a s. absurd (ground arith))

pub Good-if :
    {W A : Type 0} (I : W → Type 0) (Q : A → W → Type 0) (b : Bool) (m n : Eff W A) (w : W)
    → (b ≡ true → Good I Q (m w))
    → (b ≡ false → Good I Q (n w))
    → Good I Q ((if b then m else n) w)
Good-if I Q true m n w hm hn = hm refl
Good-if I Q false m n w hm hn = hn refl
