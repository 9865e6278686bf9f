-- ===== src/Go/Decimal/RoundTrip.antt =====
-- A printed number is read back.
use mathlib.Core.Logic.{ite, dite}
use mathlib.Core.WellFounded
use mathlib.Core.WellFounded.{Acc, WellFounded, Acc-prop}
use native.Mathlib.Decide.{dec_lt}
use terraform_provider_runde.Common.{ℕ, ◌+◌, ◌*◌, ◌/◌, ◌%◌, ◌<◌, ◌≡◌, refl, String, some, arith}
use Prim.Native.Char.{Char, code}
use terraform_provider_runde.Common.Texts.{Lacks}
use terraform_provider_runde.Go.Integers.{pos}
use terraform_provider_runde.Go.Decimal.{lt_wf, digit, print_loop, print, scan, atoi, int_bound}

abbrev with_last : ℕ → String → String
with_last n text = String.◌∷◌ (digit (n % 10) (omega arith)) text

-- any two proofs of `Acc` are equal
print_loop_step :
    (n : ℕ) (w : Acc ◌<◌ n) (w' : Acc ◌<◌ (n / 10)) (text : String)
    → print_loop n w text
      ≡ ite (dec_lt 9 n) (print_loop (n / 10) w' (with_last n text)) (with_last n text)
unfolding print_loop
print_loop_step n (Acc.intro _ smaller) w' text = λ i.
    dite (dec_lt 9 n)
      (λ h. print_loop (n / 10) (Acc-prop (smaller (n / 10) (omega arith)) w' i) (with_last n text))
      (λ _. with_last n text)

abbrev printed : ℕ → String → String
printed n = print_loop n (lt_wf.apply n)

print_step :
    (n : ℕ) (text : String)
    → printed n text ≡ ite (dec_lt 9 n) (printed (n / 10) (with_last n text)) (with_last n text)
print_step n = print_loop_step n _ _

scan_last : (n m : ℕ) (text : String) → scan (with_last n text) m ≡ scan text (m * 10 + n % 10)
unfolding scan
scan_last n m text = ground arith

scan-printed : (n : ℕ) (text : String) → scan (printed n text) 0 ≡ scan text n
scan-printed n =
    WellFounded.induction lt_wf {C = λ m. (text : String) → scan (printed m text) 0 ≡ scan text m} n
      λ m ih text.
        grind (arith, print_step m text, scan_last m 0 text, scan_last m (m / 10) text, ih (m / 10))

ite-either :
    {A : Type 0} (d : Dec A) (P : String → Type 0) {x y : String} → (A → P x) → P y → P (ite d x y)
ite-either (yes a) P h g = h a
ite-either (no _) P h g = g

-- what every round keeps
printed_ind :
    (P Q : String → Type 0)
    → ((m : ℕ) (text : String) → Q text → P (with_last m text))
    → ((text : String) → P text → Q text)
    → (n : ℕ) (text : String) → Q text
    → P (printed n text)
printed_ind P Q step forget n =
    WellFounded.induction lt_wf {C = λ m. (text : String) → Q text → P (printed m text)} n
      λ m ih text h. rw (print_step m text) (
        ite-either (dec_lt 9 m) P
          (λ (g : 9 < m). ih (m / 10) (omega arith) (with_last m text) (forget _ (step m text h)))
          (step m text h))

-- what is printed begins with a digit
abbrev BeginsWithDigit : String → Type 0
BeginsWithDigit text = (c : Char) × (s : String) × (text ≡ String.◌∷◌ c s) × (47 < code c)

printed-BeginsWithDigit : (n : ℕ) (text : String) → BeginsWithDigit (printed n text)
printed-BeginsWithDigit n text =
    printed_ind BeginsWithDigit (λ _. Unit {0})
      (λ m t _. (digit (m % 10) (omega arith), t, refl, omega arith)) (λ t _. tt) n text tt

atoi_cons :
    (c : Char) (s : String) (n : ℕ)
    → 47 < code c
    → scan (String.◌∷◌ c s) 0 ≡ some n
    → n < int_bound
    → atoi (String.◌∷◌ c s) ≡ some (pos n)
unfolding atoi
atoi_cons c s n h read fits = ground (arith, read)

atoi_digits :
    (text : String) (n : ℕ)
    → BeginsWithDigit text
    → scan text 0 ≡ some n
    → n < int_bound
    → atoi text ≡ some (pos n)
atoi_digits text n (c, s, e, h) read fits = rw e (atoi_cons c s n h (rw (← e) read) fits)

-- A number in the range of a 64-bit `int` is read back from its print.
pub atoi-print : (n : ℕ) → n < int_bound → atoi (print n) ≡ some (pos n)
unfolding print scan
atoi-print n h = atoi_digits (printed n "") n (printed-BeginsWithDigit n "") (scan-printed n "") h

printed-Lacks : (n : ℕ) (text : String) → Lacks "." text → Lacks "." (printed n text)
printed-Lacks = printed_ind (Lacks ".") (Lacks ".") (λ m t h. (omega arith, h)) (λ t h. h)

pub print-Lacks : (n : ℕ) → Lacks "." (print n)
unfolding print
print-Lacks n = printed-Lacks n "" tt
