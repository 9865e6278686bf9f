-- ===== src/Common/Texts.antt =====
-- `strings.Split` and `strings.Join` of the Go standard library at a separator of one character.
-- A Go string that is valid UTF-8 is a native `String`; cutting it at an ASCII separator is the same
-- on bytes and on characters.
use Prim.Native.Char.{Char, code}
use Prim.Native.String.{String, ◌++◌ as ◌<>◌}
use mathlib.Core.Path.{◌≡◌, refl, sym, ap}
use mathlib.Core.Logic.{◌≢◌, inl, inr}
use mathlib.Core.Bool.{Bool, true, false}
use mathlib.Core.List.{List, [], ◌∷◌}
use native.Mathlib.Omega.{arith}
use text.Mathlib.TextEquality.{Char-path}
use text.Mathlib.TextLemmas.{nil-append, cons-append}
use terraform_provider_runde.Common.Tests.{eqb, eqb→eq, eqb_refl, if◌then◌else◌, Bool-cases, All}

-- `c` before the first part
abbrev pub cons_head : Char → List String → List String
cons_head c [] = (String.◌∷◌ c String.[]) ∷ []
cons_head c (p ∷ ps) = String.◌∷◌ c p ∷ ps

unfoldable pub split : Char → String → List String
split sep String.[] = String.[] ∷ []
split sep (String.◌∷◌ c s) =
    let rest = split sep s in if eqb (code c) (code sep) then String.[] ∷ rest else cons_head c rest

unfoldable pub join : Char → List String → String
join sep [] = String.[]
join sep (p ∷ []) = p
join sep (p ∷ q ∷ r) = p <> String.◌∷◌ sep (join sep (q ∷ r))

abbrev pub Lacks : Char → String → Type 0
Lacks sep String.[] = Unit
Lacks sep (String.◌∷◌ c s) = (code c ≢ code sep) × Lacks sep s

cons_head-ne-nil : (c : Char) (ps : List String) → cons_head c ps ≢ []
cons_head-ne-nil c [] h = cc
cons_head-ne-nil c (p ∷ ps) h = cc

module _ (sep : Char) where
  pub split-ne-nil : (s : String) → split sep s ≢ []
  unfolding split
  split-ne-nil String.[] h = cc
  split-ne-nil (String.◌∷◌ c s) h = ground (arith, cons_head-ne-nil c (split sep s))

  join-cons_nil :
      (ps : List String) → ps ≢ [] → join sep (String.[] ∷ ps) ≡ String.◌∷◌ sep (join sep ps)
  unfolding join
  join-cons_nil [] h = absurd (h refl)
  join-cons_nil (p ∷ ps) _ = nil-append _

  join-cons_head :
      (c : Char) (ps : List String)
      → ps ≢ []
      → join sep (cons_head c ps) ≡ String.◌∷◌ c (join sep ps)
  unfolding join
  join-cons_head c [] h = absurd (h refl)
  join-cons_head c (p ∷ []) _ = refl
  join-cons_head c (p ∷ q ∷ r) _ = cons-append c p _

  -- Joining the parts of a split gives the text back, for every text.
  pub join-split : (s : String) → join sep (split sep s) ≡ s
  unfolding split join
  join-split String.[] = unfold join in refl
  join-split (String.◌∷◌ c s) = elim (Bool-cases (eqb (code c) (code sep))) [
    | inl same ↦
        rw (same, join-cons_nil (split sep s) (split-ne-nil s), join-split s)
          (ap (λ d. String.◌∷◌ d s) (Char-path sep c (sym (eqb→eq _ _ same))))
    | inr other ↦ rw (other, join-cons_head c (split sep s) (split-ne-nil s), join-split s)
  ]

  split-cons_sep : (s : String) → split sep (String.◌∷◌ sep s) ≡ String.[] ∷ split sep s
  unfolding split
  split-cons_sep s = rw eqb_refl

  split-cons_Lacks :
      (c : Char) (s : String)
      → code c ≢ code sep
      → split sep (String.◌∷◌ c s) ≡ cons_head c (split sep s)
  unfolding split
  split-cons_Lacks c s h = ground arith

  pub split-append_Lacks :
      (p s : String) → Lacks sep p → split sep (p <> String.◌∷◌ sep s) ≡ p ∷ split sep s
  split-append_Lacks String.[] s _ = rw nil-append (split-cons_sep s)
  split-append_Lacks (String.◌∷◌ c p) s (h, hs) =
      rw (cons-append, split-cons_Lacks c _ h, split-append_Lacks p s hs)

  split_of_Lacks : (p : String) → Lacks sep p → split sep p ≡ p ∷ []
  unfolding split
  split_of_Lacks String.[] _ = refl
  split_of_Lacks (String.◌∷◌ c p) (h, hs) = ground (arith, split_of_Lacks p hs)

  -- Splitting a join gives the parts back, if there is a part and none holds the separator.
  pub split-join : (ps : List String) → ps ≢ [] → All (Lacks sep) ps → split sep (join sep ps) ≡ ps
  unfolding join
  split-join [] h _ = absurd (h refl)
  split-join (p ∷ []) _ (h, _) = split_of_Lacks p h
  split-join (p ∷ q ∷ r) _ (h, hs) =
      rw (split-append_Lacks p (join sep (q ∷ r)) h)
        (ap (λ rest. p ∷ rest) (split-join (q ∷ r) (λ e. cc) hs))

  cons_head-Lacks :
      (c : Char) (ps : List String)
      → code c ≢ code sep
      → All (Lacks sep) ps
      → All (Lacks sep) (cons_head c ps)
  cons_head-Lacks c [] h _ = ((h, tt), tt)
  cons_head-Lacks c (p ∷ ps) h (hp, hps) = ((h, hp), hps)

  -- No part of a split holds the separator.
  pub split-Lacks : (s : String) → All (Lacks sep) (split sep s)
  unfolding split
  split-Lacks String.[] = (tt, tt)
  split-Lacks (String.◌∷◌ c s) = ground (arith, split-Lacks s, cons_head-Lacks c (split sep s))

  pub Lacks-if :
      (b : Bool) (s t : String) → Lacks sep s → Lacks sep t → Lacks sep (if b then s else t)
  Lacks-if true s t hs ht = hs
  Lacks-if false s t hs ht = ht
