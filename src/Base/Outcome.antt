-- ===== src/Base/Outcome.antt =====
-- How a call of the source ends, and calls that change a state.
use mathlib.Core.Path.{◌≡◌, refl, subst}
use mathlib.Core.Logic.{◌≢◌}
use mathlib.Core.Bool.{Bool, true, false}
use webtor_rs.Base.Tests.{if◌then◌else◌}

-- `Result<A, E>`, with two more ends: `panics`, and `stuck`, which is no value of the source and
-- means that the fuel of a loop of the model ran out.
pub data Result {ℓ} (E : Type 0) (A : Type ℓ) : Type ℓ where
  ok : A → Result E A
  err : E → Result E A
  panics : Result E A
  stuck : Result E A

-- `std::task::Poll<A>` of a fallible call.
pub data Poll {ℓ} (E : Type 0) (A : Type ℓ) : Type ℓ where
  pending : Poll E A
  ready : Result E A → Poll E A

module _ {E : Type 0} where
  infixl 5 ◌>>=◌
  abbrev pub ◌>>=◌ {ℓ κ} : {A : Type ℓ} {B : Type κ} → Result E A → (A → Result E B) → Result E B
  ok a >>= f = f a
  err e >>= f = err e
  panics >>= f = panics
  stuck >>= f = stuck

abbrev pub map_ok : {E A B : Type 0} → (A → B) → Result E A → Result E B
map_ok f (ok a) = ok (f a)
map_ok f (err e) = err e
map_ok f panics = panics
map_ok f stuck = stuck

-- A bind that succeeds has two parts that succeed.
pub >>=-ok {ℓ κ} :
    {E : Type 0} {A : Type ℓ} {B : Type κ} {b : B} (f : A → Result E B) (r : Result E A)
    → (r >>= f) ≡ ok b
    → (a : A) × (f a ≡ ok b) × (r ≡ ok a)
>>=-ok f stuck e = cc
>>=-ok f panics e = cc
>>=-ok f (err x) e = cc
>>=-ok f (ok a) e = (a, e, refl)

pub >>=-panics :
    {E A B : Type 0} (r : Result E A) (f : A → Result E B) → r ≡ panics → (r >>= f) ≡ panics
>>=-panics r f e = rw e refl

-- A call that ends with a value or an error of the source.
abbrev pub Ends : {E A : Type 0} → Result E A → Type 0
Ends r = (r ≢ stuck) × (r ≢ panics)

pub Ends->>=-ok :
    {E A B : Type 0} (r : Result E A) (f : A → B) → Ends r → Ends (r >>= λ a. ok (f a))
Ends->>=-ok (ok a) f h = (λ e. cc, λ e. cc)
Ends->>=-ok (err x) f h = (λ e. cc, λ e. cc)
Ends->>=-ok panics f h = absurd (h.1 refl)
Ends->>=-ok stuck f h = absurd (h.0 refl)

-- A call that ends, and whose value has a property if it returns one.
abbrev pub Gives : {E A : Type 0} → (A → Type 0) → Result E A → Type 0
Gives P (ok a) = P a
Gives P (err e) = Unit {0}
Gives P panics = ⊥
Gives P stuck = ⊥

abbrev pub Any : {A : Type 0} → A → Type 0
Any a = Unit {0}

pub Gives->>= :
    {E A B : Type 0} (P : A → Type 0) (Q : B → Type 0) (r : Result E A) (f : A → Result E B)
    → Gives P r
    → ((a : A) → P a → Gives Q (f a))
    → Gives Q (r >>= f)
Gives->>= P Q (ok a) f h k = k a h
Gives->>= P Q (err x) f h k = tt
Gives->>= P Q panics f h k = h
Gives->>= P Q stuck f h k = h

pub Gives-ok : {E A : Type 0} (P : A → Type 0) (r : Result E A) (a : A) → r ≡ ok a → P a → Gives P r
Gives-ok P r a e h = rw e h

pub Gives-if :
    {E A : Type 0} (P : A → Type 0) (b : Bool) (x y : Result E A)
    → (b ≡ true → Gives P x)
    → (b ≡ false → Gives P y)
    → Gives P (if b then x else y)
Gives-if P true x y h k = h refl
Gives-if P false x y h k = k refl

pub Gives-value :
    {E A : Type 0} (P : A → Type 0) (r : Result E A) (a : A) → Gives P r → r ≡ ok a → P a
Gives-value P (ok b) a h e = let same : b ≡ a = cc in subst P same h
Gives-value P (err x) a h e = cc
Gives-value P panics a h e = absurd h
Gives-value P stuck a h e = absurd h

pub Gives-Ends : {E A : Type 0} (P : A → Type 0) (r : Result E A) → Gives P r → Ends r
Gives-Ends P (ok a) h = (λ e. cc, λ e. cc)
Gives-Ends P (err x) h = (λ e. cc, λ e. cc)
Gives-Ends P panics h = absurd h
Gives-Ends P stuck h = absurd h
