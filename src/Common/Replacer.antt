-- ===== src/Common/Replacer.antt =====
-- `strings.NewReplacer` of the Go standard library, for one character that stands for another.
use Prim.Native.Char.{Char, code}
use Prim.Native.String.{String}
use mathlib.Core.Path.{◌≡◌, refl, ap₂}
use mathlib.Core.Logic.{◌≢◌}
use native.Mathlib.Omega.{arith}
use text.Mathlib.TextEquality.{Char-path}
use terraform_provider_runde.Common.Tests.{eqb, if◌then◌else◌}
use terraform_provider_runde.Common.Texts.{Lacks}

abbrev replace_char : Char → Char → Char → Char
replace_char old new c = if eqb (code c) (code old) then new else c

unfoldable pub replace : Char → Char → String → String
replace old new String.[] = String.[]
replace old new (String.◌∷◌ c s) = String.◌∷◌ (replace_char old new c) (replace old new s)

replace_char_back :
    (old new c : Char) → code c ≢ code new → replace_char new old (replace_char old new c) ≡ c
replace_char_back old new c h = Char-path _ c (ground arith)

-- Replacing is undone by the opposite replacement, where the new character was not there before.
pub replace_back :
    (old new : Char) (s : String) → Lacks new s → replace new old (replace old new s) ≡ s
unfolding replace
replace_back old new String.[] _ = refl
replace_back old new (String.◌∷◌ c s) (h, hs) =
    ap₂ String.◌∷◌ (replace_char_back old new c h) (replace_back old new s hs)
