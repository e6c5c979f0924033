-- ===== src/Prelude/Results.antt =====
-- A Go result `(value, error)`: the value is read only where the error is nil.
use mathlib.Core.Path.{◌≡◌, refl, subst}
use mathlib.Core.Bool.{Bool, true, false}

pub data Result {ℓ κ} (E : Type ℓ) (A : Type κ) : Type (ℓ ⊔ κ) where
  ok : A → Result E A
  err : E → Result E A

infixl 5 ◌>>=◌
abbrev pub ◌>>=◌ {ℓ κ ι} :
    {E : Type ℓ} {A : Type κ} {B : Type ι} → Result E A → (A → Result E B) → Result E B
ok a >>= f = f a
err e >>= f = err e

-- `fmt.Errorf("…: %w", err)`
abbrev pub map_err {ℓ κ} : {E : Type ℓ} {A : Type κ} → (E → E) → Result E A → Result E A
map_err f (ok a) = ok a
map_err f (err e) = err (f e)

-- An error of another kind, wrapped.
abbrev pub raise_as {ℓ κ ι} :
    {E : Type ℓ} {E' : Type κ} {A : Type ι} → (E → E') → Result E A → Result E' A
raise_as f (ok a) = ok a
raise_as f (err e) = err (f e)

-- `if !b { return e }`
abbrev pub require {ℓ} : {E : Type ℓ} → Bool → E → Result E (Unit {0})
require true e = ok tt
require false e = err e

pub >>=-eq-ok {ℓ κ ι} :
    {E : Type ℓ} {S : Type κ} {T : Type ι} (r : Result E S) (k : S → Result E T) {y : T}
    → r >>= k ≡ ok y
    → (x : S) × (r ≡ ok x) × (k x ≡ ok y)
>>=-eq-ok (err e) k q = cc
>>=-eq-ok (ok x) k q = (x, refl, q)

-- What holds of the error, if there is one; what holds of the value, if there is one.
abbrev pub Fails {ℓ κ ι} : {E : Type ℓ} {A : Type κ} → (E → Type ι) → Result E A → Type ι
Fails P (ok a) = Unit
Fails P (err e) = P e

abbrev pub Returns {ℓ κ ι} : {E : Type ℓ} {A : Type κ} → (A → Type ι) → Result E A → Type ι
Returns P (ok a) = P a
Returns P (err e) = Unit

module _ {ℓ κ ι υ} {E : Type ℓ} {A : Type κ} {B : Type ι} where
  pub Fails-bind :
      (P : E → Type υ) (m : Result E A) (f : A → Result E B)
      → Fails P m
      → ((a : A) → m ≡ ok a → Fails P (f a))
      → Fails P (m >>= f)
  Fails-bind P (ok a) f h k = k a refl
  Fails-bind P (err e) f h k = h

  pub Returns-bind :
      (P : B → Type υ) (m : Result E A) (f : A → Result E B)
      → ((a : A) → m ≡ ok a → Returns P (f a))
      → Returns P (m >>= f)
  Returns-bind P (ok a) f k = k a refl
  Returns-bind P (err e) f k = tt

module _ {ℓ κ ι} {E : Type ℓ} {A : Type κ} where
  pub Fails-eq : (P : E → Type ι) (m : Result E A) {e : E} → Fails P m → m ≡ err e → P e
  Fails-eq P m h q = subst (Fails P) q h

  pub Returns-eq : (P : A → Type ι) (m : Result E A) {a : A} → Returns P m → m ≡ ok a → P a
  Returns-eq P m h q = subst (Returns P) q h

  pub Fails-intro : (P : E → Type ι) (m : Result E A) → ((e : E) → m ≡ err e → P e) → Fails P m
  Fails-intro P (ok a) h = tt
  Fails-intro P (err e) h = h e refl

  pub Fails-map_err :
      (P : E → Type ι) (f : E → E) (m : Result E A) → Fails (λ e. P (f e)) m → Fails P (map_err f m)
  Fails-map_err P f (ok a) h = tt
  Fails-map_err P f (err e) h = h

-- Both at once.
abbrev pub Ensures {ℓ κ ι} :
    {E : Type ℓ} {A : Type κ} → (A → Type ι) → (E → Type ι) → Result E A → Type ι
Ensures Q P (ok a) = Q a
Ensures Q P (err e) = P e

module _ {ℓ κ ι} {E : Type ℓ} {A : Type κ} where
  pub Ensures-ok :
      (Q : A → Type ι) (P : E → Type ι) (m : Result E A) {a : A} → Ensures Q P m → m ≡ ok a → Q a
  Ensures-ok Q P m h q = subst (Ensures Q P) q h

  pub Ensures-err :
      (Q : A → Type ι) (P : E → Type ι) (m : Result E A) {e : E} → Ensures Q P m → m ≡ err e → P e
  Ensures-err Q P m h q = subst (Ensures Q P) q h

  pub Ensures-intro :
      (Q : A → Type ι) (P : E → Type ι) (m : Result E A)
      → ((a : A) → m ≡ ok a → Q a)
      → ((e : E) → m ≡ err e → P e)
      → Ensures Q P m
  Ensures-intro Q P (ok a) h k = h a refl
  Ensures-intro Q P (err e) h k = k e refl

pub Ensures-bind {ℓ κ ι υ} :
    {E : Type ℓ} {A : Type κ} {B : Type ι} (Q : B → Type υ) (P : E → Type υ) (m : Result E A)
    (f : A → Result E B)
    → ((e : E) → m ≡ err e → P e)
    → ((a : A) → m ≡ ok a → Ensures Q P (f a))
    → Ensures Q P (m >>= f)
Ensures-bind Q P (ok a) f h k = k a refl
Ensures-bind Q P (err e) f h k = h e refl

pub raise_as-eq-ok {ℓ κ ι} :
    {E : Type ℓ} {E' : Type κ} {A : Type ι} (f : E → E') (m : Result E A) {a : A}
    → raise_as f m ≡ ok a
    → m ≡ ok a
raise_as-eq-ok f (ok x) q = cc
raise_as-eq-ok f (err e) q = cc

pub require-eq-ok {ℓ} :
    {E : Type ℓ} (b : Bool) (e : E) {u : Unit {0}} → require b e ≡ ok u → b ≡ true
require-eq-ok true e q = refl
require-eq-ok false e q = cc

pub ok_injective {ℓ κ} :
    {E : Type ℓ} {A : Type κ} {a b : A} → ◌≡◌ {A = Result E A} (ok a) (ok b) → a ≡ b
ok_injective q = cc
