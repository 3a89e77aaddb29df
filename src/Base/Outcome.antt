-- ===== src/Base/Outcome.antt =====
-- The outcome of code that may throw: `std::out_of_range`, `std::runtime_error`,
-- `std::invalid_argument` and proxy/Converter.hpp's `ConversionError`. `stuck` is no outcome of
-- the program: it says that a loop of the model ran out of fuel.
use mathlib.Core.Path.{◌≡◌, refl, subst}
use mathlib.Core.Bool.{Bool, true, false}
use gsup_map_proxy.Base.Tests.{if◌then◌else◌}
use mathlib.Core.Logic.{◌≢◌, ◌⊎◌, inl, inr}

pub data Error : Type 0 where
  out_of_range runtime_error invalid_argument conversion_error : Error

pub data Result {ℓ} (A : Type ℓ) : Type ℓ where
  ok : A → Result A
  err : Error → Result A
  stuck : Result A

infixl 5 ◌>>=◌
abbrev pub ◌>>=◌ {ℓ ℓ'} : {A : Type ℓ} {B : Type ℓ'} → Result A → (A → Result B) → Result B
stuck >>= next = stuck
err x >>= next = err x
ok a >>= next = next a

abbrev pub map_ok {ℓ κ} : {A : Type ℓ} {B : Type κ} → (A → B) → Result A → Result B
map_ok f (ok a) = ok (f a)
map_ok f (err e) = err e
map_ok f stuck = stuck

pub Result-cases {ℓ} :
    {A : Type ℓ} (r : Result A) → ((a : A) × (r ≡ ok a)) ⊎ ((e : Error) × (r ≡ err e)) ⊎ (r ≡ stuck)
Result-cases (ok a) = inl (a, refl)
Result-cases (err e) = inr (inl (e, refl))
Result-cases stuck = inr (inr refl)

-- A chain that has a value had one at its first step too.
pub bind-eq-ok {ℓ ℓ'} :
    {A : Type ℓ} {B : Type ℓ'} (first : Result A) (next : A → Result B) {out : B}
    → (first >>= next) ≡ ok out
    → (a : A) × (first ≡ ok a) × (next a ≡ ok out)
bind-eq-ok stuck next e = cc
bind-eq-ok (err x) next e = cc
bind-eq-ok (ok a) next e = (a, refl, e)

-- Totality: a chain is not stuck when neither part is.
pub bind-ne-stuck {ℓ κ} :
    {A : Type ℓ} {B : Type κ} (m : Result A) (f : A → Result B)
    → m ≢ stuck
    → ((a : A) → m ≡ ok a → f a ≢ stuck)
    → (m >>= f) ≢ stuck
bind-ne-stuck (ok a) f hm hf = hf a refl
bind-ne-stuck (err e) f hm hf = λ p. cc
bind-ne-stuck stuck f hm hf = λ p. hm refl

-- The outcome is a value with `P`, or an exception.
pub data Ensures {ℓ κ} {A : Type ℓ} (P : A → Type κ) : Result A → Type (ℓ ⊔ κ) where
  holds : {a : A} → P a → Ensures P (ok a)
  throws : {e : Error} → Ensures P (err e)

module _ {ℓ κ} {A : Type ℓ} {P : A → Type κ} where
  pub Ensures-ok : {r : Result A} {a : A} → Ensures P r → r ≡ ok a → P a
  Ensures-ok (holds h) e = subst P (cc) h
  Ensures-ok throws e = cc

  pub Ensures-ne-stuck : {r : Result A} → Ensures P r → r ≢ stuck
  Ensures-ne-stuck (holds h) = λ e. cc
  Ensures-ne-stuck throws = λ e. cc

  pub Ensures-weaken {ℓ'} :
      {Q : A → Type ℓ'} {r : Result A} → Ensures P r → ((a : A) → P a → Q a) → Ensures Q r
  Ensures-weaken (holds {a} h) k = holds (k a h)
  Ensures-weaken throws k = throws

  pub Ensures-if :
      (b : Bool) {x y : Result A}
      → (b ≡ true → Ensures P x)
      → (b ≡ false → Ensures P y)
      → Ensures P (if b then x else y)
  Ensures-if true hx hy = hx refl
  Ensures-if false hx hy = hy refl

  pub Ensures-bind {ℓ' κ'} :
      {B : Type ℓ'} {Q : B → Type κ'} {r : Result A} {f : A → Result B}
      → Ensures P r
      → ((a : A) → P a → Ensures Q (f a))
      → Ensures Q (r >>= f)
  Ensures-bind (holds {a} h) k = k a h
  Ensures-bind throws k = throws

pub Ensures-map {ℓ κ ℓ' κ'} :
    {A : Type ℓ} {P : A → Type κ} {B : Type ℓ'} {Q : B → Type κ'} {r : Result A} (f : A → B)
    → Ensures P r
    → ((a : A) → P a → Q (f a))
    → Ensures Q (map_ok f r)
Ensures-map f (holds {a} h) k = holds (k a h)
Ensures-map f throws k = throws

-- Without a stuck loop there is always an outcome.
pub Ensures-of_ne_stuck {ℓ} : {A : Type ℓ} (r : Result A) → r ≢ stuck → Ensures (λ _. Unit {0}) r
Ensures-of_ne_stuck (ok a) h = holds tt
Ensures-of_ne_stuck (err e) h = throws
Ensures-of_ne_stuck stuck h = absurd (h refl)
