-- ===== src/Effect/Keeps.antt =====
-- Invariants of effects: `m` keeps `I`, whether it succeeds or fails. One rule for each way to build
-- an effect.
use s3_mcp_relay.Base.{◌≡◌, Bool, true, false, Option, none, some, refl, subst, sym}
use s3_mcp_relay.Failure.{Error, Outcome}
use s3_mcp_relay.Effect.{
  Eff, continue-keeps, Good, Good-continue, ◌>>=◌, pure, fail, lift, request, reply, sample,
  attempt, ignore,
}
use s3_mcp_relay.Base.{if◌then◌else◌}

pub record Keeps {W A : Type 0} (I : W → Type 0) (m : Eff W A) : Type 0 where
  pub at : (w : W) → I w → I (m w).1

pub reply-world : {W A : Type 0} (e : Error) (r : Option A × W) → (reply e r).1 ≡ r.1
reply-world e (none, w) = refl
reply-world e (some a, w) = refl

module _ {W : Type 0} {I : W → Type 0} where
  pub Keeps-pure : {A : Type 0} (a : A) → Keeps I (pure a)
  Keeps-pure a = record { at = λ w h. h }

  pub Keeps-fail : {A : Type 0} (e : Error) → Keeps {A = A} I (fail e)
  Keeps-fail e = record { at = λ w h. h }

  pub Keeps-lift : {A : Type 0} (r : Outcome A) → Keeps I (lift r)
  Keeps-lift r = record { at = λ w h. h }

  pub Keeps-bind :
      {A B : Type 0} (m : Eff W A) (f : A → Eff W B)
      → Keeps I m
      → ((a : A) → Keeps I (f a))
      → Keeps I (m >>= f)
  Keeps-bind m f km kf = record {
    at = λ w h. continue-keeps I f (m w) (km.at w h) (λ a v k. (kf a).at v k);
  }

  -- What the first step ensures is at hand in the rest, in the world after it …
  pub Keeps-after :
      {A B : Type 0} (P : A → W → Type 0) (m : Eff W A) (f : A → Eff W B)
      → ((w : W) → I w → Good I P (m w))
      → ((a : A) (w : W) → I w → P a w → I (f a w).1)
      → Keeps I (m >>= f)
  Keeps-after P m f good k = record {
    at = λ w i.
        (Good-continue I P (λ b v. Unit {0}) f (m w) (good w i)
          (λ a v j p. (k a v j p, λ b e. tt))).0;
  }

  -- … or wherever the rest begins.
  pub Keeps-given :
      {A B : Type 0} (P : A → Type 0) (m : Eff W A) (f : A → Eff W B)
      → ((w : W) → I w → Good I (λ a v. P a) (m w))
      → ((a : A) → P a → Keeps I (f a))
      → Keeps I (m >>= f)
  Keeps-given P m f good k = Keeps-after (λ a v. P a) m f good (λ a v i p. (k a p).at v i)

  pub Keeps-if :
      {A : Type 0} (b : Bool) (m n : Eff W A) → Keeps I m → Keeps I n → Keeps I (if b then m else n)
  Keeps-if true m n km kn = km
  Keeps-if false m n km kn = kn

  pub Keeps-request :
      {A : Type 0} (e : Error) (call : W → Option A × W)
      → ((w : W) → I w → I (call w).1)
      → Keeps I (request e call)
  Keeps-request e call k = record { at = λ w h. subst I (sym (reply-world e (call w))) (k w h) }

  pub Keeps-sample :
      {A : Type 0} (call : W → A × W) → ((w : W) → I w → I (call w).1) → Keeps I (sample call)
  Keeps-sample call k = record { at = λ w h. k w h }

  pub Keeps-ignore : {A : Type 0} (m : Eff W A) → Keeps I m → Keeps I (ignore m)
  Keeps-ignore m km = record { at = λ w h. km.at w h }

  pub Keeps-attempt : {A : Type 0} (m : Eff W A) → Keeps I m → Keeps I (attempt m)
  Keeps-attempt m km = record { at = λ w h. km.at w h }

pub ruleset keeps_rules = (
  Keeps-pure, Keeps-fail, Keeps-lift, Keeps-bind, Keeps-if, Keeps-request, Keeps-sample,
  Keeps-ignore, Keeps-attempt,
)
