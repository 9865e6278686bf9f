-- ===== src/Go/Decimal.antt =====
-- `strconv.Atoi` and the verb `%v` on an `int`, of the Go standard library. The provider only prints
-- the positions of a list, which are not negative.
pub mod RoundTrip
use mathlib.Core.Logic.{dite}
use mathlib.Core.WellFounded.{Acc, WellFounded}
use native.Mathlib.Decide.{dec_lt}
use Prim.Native.Char.{Char, code}
use terraform_provider_runde.Common.{
  ℕ, zero, suc, ◌+◌, ◌-◌, ◌*◌, ◌/◌, ◌%◌, ◌^◌, ◌<◌, String, Bool, ◌&&◌, Option, none, some, arith,
  ltb, leb, eqb, if◌then◌else◌,
}
use terraform_provider_runde.Go.Integers.{ℤ, pos, negsuc}

below : (k n : ℕ) → n < k → Acc ◌<◌ n
below zero n h = absurd (omega arith)
below (suc k) n h = Acc.intro n λ m lt. below k m (omega arith)

pub lt_wf : WellFounded ◌<◌
unfolding below
lt_wf = record { apply = λ n. below (suc n) n (omega arith) }

abbrev pub digit : (d : ℕ) → d < 10 → Char
digit d h = Char.char (48 + d) (ground arith)

-- the last digit goes in front of the text so far
unfoldable pub print_loop : (n : ℕ) → Acc ◌<◌ n → String → String
print_loop n (Acc.intro _ smaller) text =
    let text' = String.◌∷◌ (digit (n % 10) (omega arith)) text in
    dite (dec_lt 9 n) (λ h. print_loop (n / 10) (smaller (n / 10) (omega arith)) text') (λ _. text')

unfoldable pub print : ℕ → String
unfolding print_loop lt_wf dec_lt
print n = print_loop n (lt_wf.apply n) ""

abbrev is_digit : Char → Bool
is_digit c = leb 48 (code c) && leb (code c) 57

unfoldable pub scan : String → ℕ → Option ℕ
scan String.[] n = some n
scan (String.◌∷◌ c s) n =
    let rest = scan s (n * 10 + (code c - 48)) in if is_digit c then rest else none

-- at least one digit
unfoldable pub magnitude : String → Option ℕ
unfolding scan
magnitude String.[] = none
magnitude (String.◌∷◌ c s) = scan (String.◌∷◌ c s) 0

abbrev pub int_bound : ℕ
int_bound = 2 ^ 63

-- within the range of a 64-bit `int`
abbrev pub plus : Option ℕ → Option ℤ
plus none = none
plus (some n) = if ltb n int_bound then some (pos n) else none

abbrev pub minus : Option ℕ → Option ℤ
minus none = none
minus (some zero) = some (pos 0)
minus (some (suc n)) = if ltb n int_bound then some (negsuc n) else none

-- `strconv.Atoi`: none where it returns an error
unfoldable pub atoi : String → Option ℤ
unfolding magnitude
atoi String.[] = none
atoi (String.◌∷◌ c s) =
    if eqb (code c) 45
    then minus (magnitude s)
    else if eqb (code c) 43
    then plus (magnitude s)
    else plus (magnitude (String.◌∷◌ c s))
