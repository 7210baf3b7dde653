-- ===== src/Base/Action.antt =====
-- Code that works on a database session and may raise. What was written before a raise is still
-- pending in the session, so the state comes back beside the error; a rollback is the caller's.
use mathlib.Core.Path.{◌≡◌, refl, sym, subst, ap}
use mathlib.Core.Bool.{Bool, true, false}
use livepeer_open_clearingho.Base.Tests.{if◌then◌else◌}
use livepeer_open_clearingho.Base.Result.{Result, ok, err, ok-injective}

abbrev pub Action {ℓ} : Type ℓ → Type ℓ → Type ℓ → Type ℓ
Action E S A = S → Result E A × S

module _ {ℓ} {E S A : Type ℓ} where
  abbrev pub pure : A → Action E S A
  pure a s = (ok a, s)

  abbrev pub raise : E → Action E S A
  raise e s = (err e, s)

  abbrev pub gets : (S → A) → Action E S A
  gets f s = (ok (f s), s)

  abbrev pub lift : Result E A → Action E S A
  lift r s = (r, s)

abbrev pub modify {ℓ} : {E S : Type ℓ} → (S → S) → Action E S (Unit {ℓ})
modify f s = (ok tt, f s)

abbrev pub continue {ℓ} : {E S A B : Type ℓ} → Result E A → (A → Action E S B) → Action E S B
continue (ok a) f s = f a s
continue (err e) f s = (err e, s)

infixl 5 ◌>>=◌ ◌>>◌
abbrev pub ◌>>=◌ {ℓ} : {E S A B : Type ℓ} → Action E S A → (A → Action E S B) → Action E S B
◌>>=◌ m f s = let (r, s') = m s in continue r f s'

abbrev pub ◌>>◌ {ℓ} : {E S A B : Type ℓ} → Action E S A → Action E S B → Action E S B
m >> k = m >>= λ _. k

-- `if b: raise e`
abbrev pub raise_if {ℓ} : {E S : Type ℓ} → Bool → E → Action E S (Unit {ℓ})
raise_if true e = raise e
raise_if false e = pure tt

-- Whatever the action does, returning or raising, `P` holds of the session after it if it did before.
pub record Keeps {ℓ} {E S A : Type ℓ} (P : S → Type ℓ) (action : Action E S A) : Type ℓ where
  pub after : (session : S) → P session → P (action session).1

-- An action that only reads.
module _ {ℓ} {E S A : Type ℓ} {P : S → Type ℓ} where
  reading-Keeps :
      (action : Action E S A) → ((session : S) → (action session).1 ≡ session) → Keeps P action
  reading-Keeps action same = record {
    after = λ session before. subst P (sym (same session)) before;
  }

  pub Keeps-gets : (read : S → A) → Keeps {E = E} P (gets read)
  Keeps-gets read = reading-Keeps _ λ session. refl

  pub Keeps-lift : (result : Result E A) → Keeps P (lift result)
  Keeps-lift result = reading-Keeps _ λ session. refl

  pub Keeps-pure : (value : A) → Keeps {E = E} P (pure value)
  Keeps-pure value = reading-Keeps _ λ session. refl

  pub Keeps-raise : (raised : E) → Keeps {A = A} P (raise raised)
  Keeps-raise raised = reading-Keeps _ λ session. refl

  pub Keeps-if :
      (test : Bool) (passed failed : Action E S A)
      → Keeps P passed
      → Keeps P failed
      → Keeps P (if test then passed else failed)
  Keeps-if false passed failed of_passed of_failed = of_failed
  Keeps-if true passed failed of_passed of_failed = of_passed

module _ {ℓ} {E S A B : Type ℓ} {P : S → Type ℓ} where
  after-continue :
      (result : Result E A) (next : A → Action E S B)
      → ((value : A) → Keeps P (next value))
      → (session : S) → P session
      → P (continue result next session).1
  after-continue (err raised) next each session before = before
  after-continue (ok value) next each session before = (each value).after session before

  pub Keeps-bind :
      (first : Action E S A) (next : A → Action E S B)
      → Keeps P first
      → ((value : A) → Keeps P (next value))
      → Keeps P (first >>= next)
  Keeps-bind first next of_first each = record {
    after = λ session before.
        after-continue (first session).0 next each (first session).1
          (of_first.after session before);
  }

-- A block that returns: its first step returned, and the rest of the block returned after it.
pub bind-eq-ok {ℓ} :
    {E S A B : Type ℓ} (first : Action E S A) (next : A → Action E S B) (s : S) {b : B} {s' : S}
    → (first >>= next) s ≡ (ok b, s')
    → (a : A) × (t : S) × (first s ≡ (ok a, t)) × (next a t ≡ (ok b, s'))
bind-eq-ok {E = E} {S = S} {A = A} {B = B} first next s {b} {s'} h = stepped (first s) h
  where
    stepped :
        (r : Result E A × S)
        → continue r.0 next r.1 ≡ (ok b, s')
        → (a : A) × (t : S) × (r ≡ (ok a, t)) × (next a t ≡ (ok b, s'))
    stepped (ok a, t) h = (a, t, refl, h)
    stepped (err e, t) h = cc

-- A block that passed a test: the test was not met, and the rest returned.
pub raise_if-eq-ok {ℓ} :
    {E S A : Type ℓ} (test : Bool) (e : E) (rest : Action E S A) (s : S) {a : A} {s' : S}
    → (raise_if test e >> rest) s ≡ (ok a, s')
    → (test ≡ false) × (rest s ≡ (ok a, s'))
raise_if-eq-ok true e rest s h = cc
raise_if-eq-ok false e rest s h = (refl, h)

pub returned-eq {ℓ} :
    {E S A : Type ℓ} {a b : A} {s t : S}
    → ◌≡◌ {A = Result E A × S} (ok a, s) (ok b, t)
    → (a ≡ b) × (s ≡ t)
returned-eq h = (ok-injective (ap (λ x. x.0) h), ap (λ x. x.1) h)

pub lift-eq-ok {ℓ} :
    {E S A : Type ℓ} (r : Result E A) (s s' : S) {a : A}
    → lift r s ≡ (ok a, s')
    → (r ≡ ok a) × (s' ≡ s)
lift-eq-ok r s s' h = (ap (λ x. x.0) h, sym (ap (λ x. x.1) h))
