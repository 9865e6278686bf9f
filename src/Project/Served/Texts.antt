-- ===== src/Project/Served/Texts.antt =====
-- Properties whose values are all texts, and the loop of `ReadProject` that keeps every key once.
use terraform_provider_runde.Common.{
  String, All, Option, none, some, [], ◌∷◌, map, ◌≡◌, refl, sym, ◌∙◌, arith,
}
use terraform_provider_runde.Common.Dict.{Dict, lookup, NodupKeys}
use terraform_provider_runde.Common.Bindings.Keys.{erase-NodupKeys}
use terraform_provider_runde.Go.{Value, string}
use terraform_provider_runde.Project.Read.{
  Part, part_of, unrelated, unknown_field, type_of, config_of, Scan, apply_part, visit_all,
}
use terraform_provider_runde.Project.Served.{text_of}

apply_part-NodupKeys :
    (q : Part) (key : String) (v : Value) (s : Scan)
    → NodupKeys s.config
    → NodupKeys (apply_part q key v s).config
apply_part-NodupKeys unrelated key v s u = u
apply_part-NodupKeys (unknown_field i) key v s u = u
apply_part-NodupKeys (type_of i) key v s u = erase-NodupKeys key s.config u
apply_part-NodupKeys (config_of i k) key v s u = erase-NodupKeys key s.config u

pub visit_all-NodupKeys :
    (c : Dict Value) (s : Scan) → NodupKeys s.config → NodupKeys (visit_all c s).config
unfolding visit_all
visit_all-NodupKeys [] s u = u
visit_all-NodupKeys ((key, v) ∷ c) s u =
    visit_all-NodupKeys c (apply_part (part_of key) key v s)
      (apply_part-NodupKeys (part_of key) key v s u)

abbrev pub IsText : Value → Type 0
IsText v = (text : String) × (v ≡ string text)

-- properties whose values are all texts
abbrev pub as_values : Dict String → Dict Value
as_values t = map (λ e. (e.0, string e.1)) t

pub texts_of :
    (q : Dict Value)
    → All (λ (e : String × Value). IsText e.1) q
    → (t : Dict String) × (q ≡ as_values t)
texts_of [] _ = ([], refl)
texts_of ((k, v) ∷ q) ((text, e), all) =
    let (t, e') = texts_of q all in ((k, text) ∷ t, λ i. (k, e i) ∷ e' i)

pub lookup-as_values :
    (k : String) (t : Dict String) → lookup k (as_values t) ≡ text_of (lookup k t)
unfolding lookup
lookup-as_values k [] = refl
lookup-as_values k ((j, v) ∷ t) = ground (arith, lookup-as_values k t)

pub text_of-injective : (a b : Option String) → text_of a ≡ text_of b → a ≡ b
text_of-injective none none h = refl
text_of-injective none (some b) h = cc
text_of-injective (some a) none h = cc
text_of-injective (some a) (some b) h = cc

pub as_values-NodupKeys : (t : Dict String) → NodupKeys (as_values t) → NodupKeys t
as_values-NodupKeys [] _ = tt
as_values-NodupKeys ((k, v) ∷ t) (fresh, u) =
    (text_of-injective _ none (sym (lookup-as_values k t) ∙ fresh), as_values-NodupKeys t u)

pub IsText-of : (o : Option String) (v : Value) → text_of o ≡ some v → IsText v
IsText-of none v h = cc
IsText-of (some text) v h = (text, cc)
