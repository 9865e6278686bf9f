-- ===== src/Go/Results.antt =====
-- What a Go function with an `error` result does: it returns a value, returns an error, or panics.
-- A method that changes shared state is an action of `Exec`: what it wrote before an error stays.
use terraform_provider_runde.Common.{
  String, ◌≡◌, refl, List, [], ◌∷◌, All, Bool, true, false, if◌then◌else◌,
}

pub data Error : Type 0 where
  -- `fmt.Errorf`, with the formatted text
  errorf : String → Error
  -- rundeck/error.go: `NotFoundError`
  not_found : Error
  -- an error that a library returned
  external : String → Error

pub data Panic : Type 0 where
  -- a type assertion `v.(T)` on a value of another type
  bad_assertion : Panic
  index_out_of_range : Panic
  nil_dereference : Panic

pub data Outcome {ℓ} (A : Type ℓ) : Type ℓ where
  panic : Panic → Outcome A
  err : Error → Outcome A
  ok : A → Outcome A

infixl 5 ◌>>=◌ ◌>>◌
abbrev pub ◌>>=◌ {ℓ κ} : {A : Type ℓ} {B : Type κ} → Outcome A → (A → Outcome B) → Outcome B
panic p >>= f = panic p
err e >>= f = err e
ok a >>= f = f a

abbrev pub ◌>>◌ {ℓ} : {B : Type ℓ} → Outcome (Unit {0}) → Outcome B → Outcome B
m >> k = m >>= λ _. k

-- `if b { return err }`
abbrev pub refuse_if : Bool → Error → Outcome (Unit {0})
refuse_if true e = err e
refuse_if false e = ok tt

-- inversion of a bind that succeeds
pub >>=-eq-ok {ℓ κ} :
    {A : Type ℓ} {B : Type κ} (result : Outcome A) (f : A → Outcome B) {b : B}
    → (result >>= f) ≡ ok b
    → (a : A) × (result ≡ ok a) × (f a ≡ ok b)
>>=-eq-ok (panic p) f h = cc
>>=-eq-ok (err e) f h = cc
>>=-eq-ok (ok a) f h = (a, refl, h)

pub ok-injective {ℓ} : {A : Type ℓ} {a b : A} → Path (Outcome A) (ok a) (ok b) → a ≡ b
ok-injective h = cc

pub >>=_ext {ℓ κ} :
    {A : Type ℓ} {B : Type κ} (m : Outcome A) {f g : A → Outcome B}
    → ((a : A) → f a ≡ g a)
    → (m >>= f) ≡ (m >>= g)
>>=_ext (panic p) h = refl
>>=_ext (err e) h = refl
>>=_ext (ok a) h = h a

pub panic-ne-ok : {A : Type 0} {p : Panic} {a : A} → Path (Outcome A) (panic p) (ok a) → ⊥
panic-ne-ok h = cc

pub err-ne-ok : {A : Type 0} {e : Error} {a : A} → Path (Outcome A) (err e) (ok a) → ⊥
err-ne-ok h = cc

pub panic-ne-err : {A : Type 0} {p : Panic} {e : Error} → Path (Outcome A) (panic p) (err e) → ⊥
panic-ne-err h = cc

-- It returns or reports an error, and does not panic.
abbrev pub IsSafe {ℓ} : {A : Type ℓ} → Outcome A → Type 0
IsSafe (ok a) = Unit
IsSafe (err e) = Unit
IsSafe (panic p) = ⊥

pub >>=-IsSafe {ℓ κ} :
    {A : Type ℓ} {B : Type κ} (m : Outcome A) (f : A → Outcome B)
    → IsSafe m
    → ((a : A) → m ≡ ok a → IsSafe (f a))
    → IsSafe (m >>= f)
>>=-IsSafe (ok a) f _ h = h a refl
>>=-IsSafe (err e) f _ h = tt
>>=-IsSafe (panic p) f s h = elim s [ ]

-- a loop that appends one result for each element and stops at the first error
unfoldable pub traverse {ℓ κ} :
    {A : Type ℓ} {B : Type κ} → (A → Outcome B) → List A → Outcome (List B)
traverse f [] = ok []
traverse f (x ∷ xs) = f x >>= λ y. traverse f xs >>= λ ys. ok (y ∷ ys)

pub traverse-IsSafe {ℓ κ μ} :
    {A : Type ℓ} {B : Type κ} {P : A → Type μ} (f : A → Outcome B) (xs : List A)
    → ((x : A) → P x → IsSafe (f x))
    → All P xs
    → IsSafe (traverse f xs)
unfolding traverse
traverse-IsSafe f [] h _ = tt
traverse-IsSafe f (x ∷ xs) h (p, ps) =
    >>=-IsSafe (f x) _ (h x p)
      λ _ _. >>=-IsSafe (traverse f xs) _ (traverse-IsSafe f xs h ps) λ _ _. tt

pub if-IsSafe {ℓ} :
    {A : Type ℓ} (b : Bool) (m n : Outcome A) → IsSafe m → IsSafe n → IsSafe (if b then m else n)
if-IsSafe true m n p q = p
if-IsSafe false m n p q = q
