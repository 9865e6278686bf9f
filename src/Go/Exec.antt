-- ===== src/Go/Exec.antt =====
-- Methods that change shared state. An error ends the method, and what it wrote before stays.
use terraform_provider_runde.Common.{◌≡◌, refl, ap, ◌∙◌}
use terraform_provider_runde.Go.Results.{Outcome, panic, err, ok}

abbrev pub Exec : Type 0 → Type 0 → Type 0
Exec S A = S → Outcome A × S

abbrev pub after : {S A B : Type 0} → (A → Exec S B) → Outcome A × S → Outcome B × S
after f (panic p, s) = (panic p, s)
after f (err e, s) = (err e, s)
after f (ok a, s) = f a s

infixl 5 ◌>>=◌ ◌>>◌
abbrev pub ◌>>=◌ : {S A B : Type 0} → Exec S A → (A → Exec S B) → Exec S B
(m >>= f) s = after f (m s)

abbrev pub ◌>>◌ : {S B : Type 0} → Exec S (Unit {0}) → Exec S B → Exec S B
m >> k = m >>= λ _. k

abbrev pub return : {S A : Type 0} → A → Exec S A
return a s = (ok a, s)

-- a step that reads and writes no state
abbrev pub lift : {S A : Type 0} → Outcome A → Exec S A
lift result s = (result, s)

after_assoc :
    {S B : Type 0} (x : Outcome (Unit {0}) × S) (k : Exec S (Unit {0})) (l : Exec S B)
    → after (λ _. l) (after (λ _. k) x) ≡ after (λ _. k >> l) x
after_assoc (panic p, t) k l = refl
after_assoc (err e, t) k l = refl
after_assoc (ok a, t) k l = refl

pub >>_assoc :
    {S B : Type 0} (m k : Exec S (Unit {0})) (l : Exec S B) (s : S)
    → ((m >> k) >> l) s ≡ (m >> (k >> l)) s
>>_assoc m k l s = after_assoc (m s) k l

after_ext :
    {S B : Type 0} (x : Outcome (Unit {0}) × S) {k l : Exec S B}
    → ((t : S) → k t ≡ l t)
    → after (λ _. k) x ≡ after (λ _. l) x
after_ext (panic p, t) h = refl
after_ext (err e, t) h = refl
after_ext (ok a, t) h = h t

pub >>_ext :
    {S B : Type 0} (m n : Exec S (Unit {0})) (k l : Exec S B) (s t : S)
    → m s ≡ n t
    → ((u : S) → k u ≡ l u)
    → (m >> k) s ≡ (n >> l) t
>>_ext m n k l s t g h = ap (after (λ _. k)) g ∙ after_ext (n t) h

after-return : {S : Type 0} (x : Outcome (Unit {0}) × S) → after (λ _. return tt) x ≡ x
after-return (panic p, t) = refl
after-return (err e, t) = refl
after-return (ok a, t) = refl

pub >>-return : {S : Type 0} (m : Exec S (Unit {0})) → Path (Exec S (Unit {0})) (m >> return tt) m
>>-return m = λ i s. after-return (m s) i
