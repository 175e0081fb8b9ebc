-- ===== src/Base/Action.antt =====
-- Calls on a state: what a method with `&mut self` does. A failed call keeps what it changed.
use mathlib.Core.Path.{◌≡◌, refl, ap, subst}
use mathlib.Core.Bool.{Bool, true, false}
use webtor_rs.Base.Tests.{if◌then◌else◌}
use webtor_rs.Base.Outcome.{Result, ok, err, panics, stuck}

abbrev pub Action : Type 0 → Type 0 → Type 0 → Type 0
Action S E A = S → Result E A × S

module _ {S E : Type 0} where
  infixl 5 ◌>>=◌ ◌>>◌
  abbrev pub ◌>>=◌ : {A B : Type 0} → Action S E A → (A → Action S E B) → Action S E B
  ◌>>=◌ m f s =
      let (r, s') = m s in
      elim r [ ok a ↦ f a s' | err e ↦ (err e, s') | panics ↦ (panics, s') | stuck ↦ (stuck, s') ]

  abbrev pub ◌>>◌ : {A B : Type 0} → Action S E A → Action S E B → Action S E B
  m >> k = m >>= λ _. k

  abbrev pub pure : {A : Type 0} → A → Action S E A
  pure a s = (ok a, s)

  abbrev pub fail : {A : Type 0} → E → Action S E A
  fail e s = (err e, s)

module _ {S E A B : Type 0} where
  -- A bind whose first call returned goes on from there.
  pub >>=-step :
      (m : Action S E A) (f : A → Action S E B) (s : S) (a : A) (s' : S)
      → m s ≡ (ok a, s')
      → (m >>= f) s ≡ f a s'
  >>=-step m f s a s' e = rw (ap (λ p. p.0) e, ◌>>=◌) (ap (λ p. f a p.1) e)

module _ {S E A B : Type 0} where
  -- `f a` for the value of a call that changes nothing.
  abbrev pub given : Result E A → S → (A → Result E B × S) → Result E B × S
  given (ok a) s f = f a
  given (err e) s f = (err e, s)
  given panics s f = (panics, s)
  given stuck s f = (stuck, s)

-- What holds of the value and the state if the call returns a value.
abbrev pub After : {S E A : Type 0} → (A → S → Type 0) → Result E A × S → Type 0
After P (ok a, s) = P a s
After P (err e, s) = Unit {0}
After P (panics, s) = Unit {0}
After P (stuck, s) = Unit {0}

pub After-if :
    {S E B : Type 0} (P : B → S → Type 0) (b : Bool) (x y : Result E B × S)
    → (b ≡ true → After P x)
    → (b ≡ false → After P y)
    → After P (if b then x else y)
After-if P true x y h k = h refl
After-if P false x y h k = k refl

pub After-value :
    {S E B : Type 0} (P : B → S → Type 0) (r : Result E B × S) (b : B) (s : S)
    → After P r
    → r ≡ (ok b, s)
    → P b s
After-value P r b s h e = subst (After P) e h

module _ {S E A B : Type 0} (P : B → S → Type 0) where
  pub After-given :
      (r : Result E A) (s : S) (f : A → Result E B × S)
      → ((a : A) → r ≡ ok a → After P (f a))
      → After P (given r s f)
  After-given (ok a) s f h = h a refl
  After-given (err e) s f h = tt
  After-given panics s f h = tt
  After-given stuck s f h = tt

  -- A call that has returned, and the next one.
  pub After-then :
      (Q : A → S → Type 0) (r : Result E A) (s : S) (f : A → Result E B × S)
      → After Q (r, s)
      → ((a : A) → Q a s → After P (f a))
      → After P (given r s f)
  After-then Q (ok a) s f h k = k a h
  After-then Q (err e) s f h k = tt
  After-then Q panics s f h k = tt
  After-then Q stuck s f h k = tt
