-- ===== src/Base/Triples.antt =====
-- What coroutines lead to: Hoare triples for them, a rule for each way to build one.
use mathlib.Core.Bool.{Bool, true, false}
use mathlib.Core.Option.{Option, none, some}
use mathlib.Core.Path.{◌≡◌, refl}
use coro_http.Base.Outcome.{Outcome, returned, thrown, undefined}
use coro_http.Base.Text.{Bytes}
use coro_http.Base.Tests.{if◌then◌else◌}
use coro_http.Base.Awaiting.{
  Awaitable, clean_after, clean_up, co_return, finally, gets, lift, on_exception, resume, throw,
  ◌>>=◌,
}

-- Where the coroutine returns, `Q` holds of the value and the state; where it throws, `E` holds of the
-- state. Nothing is said of one that still waits, or after undefined behaviour.
abbrev pub Post {ℓ} : {S A : Type 0} → (A → S → Type ℓ) → (S → Type ℓ) → Outcome A → S → Type ℓ
Post Q E (returned a) s = Q a s
Post Q E (thrown e) s = E s
Post Q E undefined s = Unit

abbrev pub Ends {ℓ} :
    {S A : Type 0} → (A → S → Type ℓ) → (S → Type ℓ) → Option (Outcome A × S) → Type ℓ
Ends Q E none = Unit
Ends Q E (some (o, s)) = Post Q E o s

pub record Triple {ℓ} {S A : Type 0} (P : S → Type ℓ) (m : Awaitable S A) (Q : A → S → Type ℓ)
    (E : S → Type ℓ) : Type ℓ where
  pub at : (s : S) → P s → Ends Q E (m s)

module _ {ℓ} {S A : Type 0} (Q : A → S → Type ℓ) (E : S → Type ℓ) where
  Ends-rethrow :
      (e : Bytes) (r : Option (Outcome Unit × S))
      → Ends {A = Unit} (λ _. E) E r
      → Ends Q E (elim r [ none ↦ none | some (o, s') ↦ resume (λ _. throw e) o s' ])
  Ends-rethrow e none q = tt
  Ends-rethrow e (some (returned a, s')) q = q
  Ends-rethrow e (some (thrown e', s')) q = q
  Ends-rethrow e (some (undefined, s')) q = tt

  Ends-clean_up :
      (F : S → Type ℓ) (h : Awaitable S Unit) (o : Outcome A) (s : S)
      → Triple F h (λ _. E) E
      → Post Q F o s
      → Ends Q E (clean_up h o s)
  Ends-clean_up F h (returned a) s t p = p
  Ends-clean_up F h (thrown e) s t p = Ends-rethrow e (h s) (t.at s p)
  Ends-clean_up F h undefined s t p = tt

  Ends-resume :
      {B : Type 0} (R : B → S → Type ℓ) (f : B → Awaitable S A) (o : Outcome B) (s : S)
      → ((b : B) → Triple (R b) (f b) Q E)
      → Post R E o s
      → Ends Q E (resume f o s)
  Ends-resume R f (returned a) s t p = (t a).at s p
  Ends-resume R f (thrown e) s t p = p
  Ends-resume R f undefined s t p = tt

module _ {ℓ} {S A : Type 0} {P : S → Type ℓ} {Q : A → S → Type ℓ} {E : S → Type ℓ} where
  pub Triple-return : (a : A) → ((s : S) → P s → Q a s) → Triple P (co_return a) Q E
  Triple-return a h = record { at = h }

  pub Triple-throw : (e : Bytes) → ((s : S) → P s → E s) → Triple P (throw e) Q E
  Triple-throw e h = record { at = h }

  pub Triple-lift :
      (o : Outcome A)
      → ((a : A) → o ≡ returned a → (s : S) → P s → Q a s)
      → ((s : S) → P s → E s)
      → Triple P (lift o) Q E
  Triple-lift (returned a) h k = record { at = h a refl }
  Triple-lift (thrown e) h k = record { at = k }
  Triple-lift undefined h k = record { at = λ s p. tt }

  pub Triple-if :
      (b : Bool) (m n : Awaitable S A)
      → (b ≡ true → Triple P m Q E)
      → (b ≡ false → Triple P n Q E)
      → Triple P (if b then m else n) Q E
  Triple-if true m n h k = h refl
  Triple-if false m n h k = k refl

  -- For each of the values that the precondition tells there is.
  pub Triple-any :
      {X : Type 0} (K : X → S → Type ℓ) (m : Awaitable S A)
      → ((s : S) → P s → (x : X) × K x s)
      → ((x : X) → Triple (K x) m Q E)
      → Triple P m Q E
  Triple-any K m h t = record { at = λ s p. let (x, k) = h s p in (t x).at s k }

  pub Triple-gets : (f : S → A) → ((s : S) → P s → Q (f s) s) → Triple P (gets f) Q E
  Triple-gets f h = record { at = h }

  -- A weaker precondition at hand.
  pub Triple-from :
      (R : S → Type ℓ) (m : Awaitable S A) → ((s : S) → P s → R s) → Triple R m Q E → Triple P m Q E
  Triple-from R m h t = record { at = λ s p. t.at s (h s p) }

  pub Triple-on_exception :
      (F : S → Type ℓ) (h : Awaitable S Unit) (m : Awaitable S A)
      → Triple P m Q F
      → Triple F h (λ _. E) E
      → Triple P (on_exception h m) Q E
  Triple-on_exception F h m t u = record { at = λ s p. after (m s) (t.at s p) }
    where
      after :
          (r : Option (Outcome A × S))
          → Ends Q F r
          → Ends Q E (elim r [ none ↦ none | some (o, s') ↦ clean_up h o s' ])
      after none q = tt
      after (some (o, s')) q = Ends-clean_up Q E F h o s' u q

module _ {ℓ} {S A B : Type 0} {P : S → Type ℓ} {R : B → S → Type ℓ} {E : S → Type ℓ} where
  pub Triple-bind :
      (Q : A → S → Type ℓ) (m : Awaitable S A) (f : A → Awaitable S B)
      → Triple P m Q E
      → ((a : A) → Triple (Q a) (f a) R E)
      → Triple P (m >>= f) R E
  Triple-bind Q m f t u = record { at = λ s p. after (m s) (t.at s p) }
    where
      after :
          (r : Option (Outcome A × S))
          → Ends Q E r
          → Ends R E (elim r [ none ↦ none | some (o, s') ↦ resume f o s' ])
      after none q = tt
      after (some (o, s')) q = Ends-resume R E Q f o s' u q

module _ {ℓ} {S A : Type 0} {P : S → Type ℓ} (Q : A → S → Type ℓ) {R : A → S → Type ℓ}
    {E : S → Type ℓ} where
  -- A stronger postcondition at hand.
  pub Triple-to :
      (m : Awaitable S A) → ((a : A) (s : S) → Q a s → R a s) → Triple P m Q E → Triple P m R E
  Triple-to m h t = record { at = λ s p. after (m s) (t.at s p) }
    where
      after : (r : Option (Outcome A × S)) → Ends Q E r → Ends R E r
      after none q = tt
      after (some (returned a, s)) q = h a s q
      after (some (thrown e, s)) q = q
      after (some (undefined, s)) q = tt

module _ {ℓ} {S A : Type 0} {P : S → Type ℓ} {Q : A → S → Type ℓ} {E : S → Type ℓ} where
  pub Triple-finally :
      (h : S → S) (m : Awaitable S A)
      → Triple P m (λ a s. Q a (h s)) (λ s. E (h s))
      → Triple P (finally h m) Q E
  Triple-finally h m t = record { at = λ s p. after (m s) (t.at s p) }
    where
      after :
          (r : Option (Outcome A × S))
          → Ends (λ a s. Q a (h s)) (λ s. E (h s)) r
          → Ends Q E (clean_after h r)
      after none q = tt
      after (some (returned a, s)) q = q
      after (some (thrown e, s)) q = q
      after (some (undefined, s)) q = tt

module _ {ℓ} {S A : Type 0} {Q R : A → S → Type ℓ} {E F : S → Type ℓ} where
  -- Stronger postconditions at hand.
  pub Ends-both :
      (r : Option (Outcome A × S))
      → ((a : A) (s : S) → Q a s → R a s)
      → ((s : S) → E s → F s)
      → Ends Q E r
      → Ends R F r
  Ends-both none h k q = tt
  Ends-both (some (returned a, s)) h k q = h a s q
  Ends-both (some (thrown e, s)) h k q = k s q
  Ends-both (some (undefined, s)) h k q = tt

module _ {ℓ} {S A : Type 0} {P : S → Type ℓ} {Q R : A → S → Type ℓ} {E F : S → Type ℓ} where
  pub Triple-both :
      (m : Awaitable S A)
      → ((a : A) (s : S) → Q a s → R a s)
      → ((s : S) → E s → F s)
      → Triple P m Q E
      → Triple P m R F
  Triple-both m h k t = record { at = λ s p. Ends-both (m s) h k (t.at s p) }
