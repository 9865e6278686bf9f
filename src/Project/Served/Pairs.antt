-- ===== src/Project/Served/Pairs.antt =====
-- The types and configurations among the properties of the sources, by the place of the source.
use terraform_provider_runde.Common.{
  String, ℕ, ◌+◌, ◌<◌, ◌<>◌, Bool, true, false, ◌&&◌, ◌==◌, eqb, if◌then◌else◌, length, All, Option,
  none, some, List, [], ◌∷◌, ◌≡◌, refl, ap, ◌∙◌, arith,
}
use terraform_provider_runde.Common.Dict.{Dict, lookup, NodupKeys}
use terraform_provider_runde.Common.Texts.{Lacks}
use terraform_provider_runde.Common.Bindings.{
  later, when, last_where, last_where-append, later-none,
}
use terraform_provider_runde.Common.Bindings.Keys.{
  AllKeys, AllKeys-map, AllKeys-weaken, last_where-false, last_where_ext, last_where-map,
  written-lookup,
}
use terraform_provider_runde.Go.{pos, int_eq}
use terraform_provider_runde.Go.Decimal.{int_bound}
use terraform_provider_runde.Project.Keys.{part_of-type_key, part_of-config_key}
use terraform_provider_runde.Project.Update.{type_key, config_key_prefix}
use terraform_provider_runde.Project.Update.Settings.{Plugin, config_pairs, source_pairs}
use terraform_provider_runde.Project.Read.{part_of}
use terraform_provider_runde.Project.Read.Steps.{is_type, is_config}
use terraform_provider_runde.Project.Served.{IsPlainPlugin}

-- the element at place `i` of a list whose first place is `s`
abbrev pub at_from : {A : Type 0} → ℕ → ℕ → List A → Option A
at_from s i [] = none
at_from s i (x ∷ xs) = if eqb s i then some x else at_from (s + 1) i xs

pub at_from-none : {A : Type 0} (s i : ℕ) (xs : List A) → i < s → at_from s i xs ≡ none
at_from-none s i [] h = refl
at_from-none s i (x ∷ xs) h = ground (arith, at_from-none (s + 1) i xs (omega arith))

abbrev pub type_at : Option Plugin → Option String
type_at none = none
type_at (some plugin) = some plugin.type

abbrev pub config_at : String → Option Plugin → Option String
config_at k none = none
config_at k (some plugin) = lookup k plugin.config

abbrev pub tests_type : ℕ → String → Bool
tests_type i key = is_type (pos (i + 1)) (part_of key)

abbrev pub tests_config : ℕ → String → String → Bool
tests_config i k key = is_config (pos (i + 1)) k (part_of key)

place_eq : (s i : ℕ) → int_eq (pos (s + 1)) (pos (i + 1)) ≡ eqb s i
place_eq s i = ground arith

pub tests_type-type_key : (s i : ℕ) → s + 1 < int_bound → tests_type i (type_key s) ≡ eqb s i
tests_type-type_key s i h = rw (part_of-type_key s h) (place_eq s i)

tests_type-config_key :
    (s i : ℕ) (k : String)
    → s + 1 < int_bound
    → Lacks "." k
    → tests_type i (config_key_prefix s <> k) ≡ false
tests_type-config_key s i k h lacks = rw (part_of-config_key s k h lacks) refl

tests_config-type_key :
    (s i : ℕ) (k : String) → s + 1 < int_bound → tests_config i k (type_key s) ≡ false
tests_config-type_key s i k h = rw (part_of-type_key s h) refl

pub tests_config-config_key :
    (s i : ℕ) (k l : String)
    → s + 1 < int_bound
    → Lacks "." l
    → tests_config i k (config_key_prefix s <> l) ≡ (eqb s i && (l == k))
tests_config-config_key s i k l h lacks =
    rw (part_of-config_key s l h lacks) (ap (λ b. b && (l == k)) (place_eq s i))

type_in_config_pairs :
    (s i : ℕ) (config : Dict String)
    → s + 1 < int_bound
    → AllKeys (Lacks ".") config
    → last_where (tests_type i) (config_pairs s config) ≡ none
type_in_config_pairs s i config h plain = last_where-false (tests_type i) (config_pairs s config) (
    AllKeys-map (λ k. tests_type i k ≡ false) (Lacks ".") (λ k. config_key_prefix s <> k) config
      (λ k. tests_type-config_key s i k h) plain)

last_where_never : (m : Dict String) → last_where (λ _. false) m ≡ none
last_where_never [] = refl
last_where_never ((k, v) ∷ m) = rw (last_where_never m)

tested :
    (b : Bool) (k : String) (config : Dict String)
    → NodupKeys config
    → last_where (λ l. b && (l == k)) config ≡ (if b then lookup k config else none)
tested true k config u = written-lookup k config u
tested false k config u = last_where_never config

config_in_config_pairs :
    (s i : ℕ) (k : String) (config : Dict String)
    → s + 1 < int_bound
    → NodupKeys config
    → AllKeys (Lacks ".") config
    → last_where (tests_config i k) (config_pairs s config)
      ≡ (if eqb s i then lookup k config else none)
config_in_config_pairs s i k config h u plain =
    last_where-map (tests_config i k) (λ l. config_key_prefix s <> l) config
    ∙ last_where_ext _ (λ l. eqb s i && (l == k)) config
        (AllKeys-weaken _ (Lacks ".") config (λ l. tests_config-config_key s i k l h) plain)
    ∙ tested (eqb s i) k config u

-- the first plugin is the one, or one of the others is
pick_type :
    (b : Bool) (plugin : Plugin) (o : Option Plugin)
    → (b ≡ true → o ≡ none)
    → later (later (type_at o) none) (when b plugin.type) ≡ type_at (if b then some plugin else o)
pick_type true plugin o h = rw (h refl) refl
pick_type false plugin o h = later-none _ ∙ later-none _

pick_config :
    (b : Bool) (k : String) (plugin : Plugin) (o : Option Plugin)
    → (b ≡ true → o ≡ none)
    → later (later (config_at k o) (if b then lookup k plugin.config else none)) none
      ≡ config_at k (if b then some plugin else o)
pick_config true k plugin o h = later-none _ ∙ rw (h refl) refl
pick_config false k plugin o h = later-none _ ∙ later-none _

gone_after : (s i : ℕ) (plugins : List Plugin) → eqb s i ≡ true → at_from (s + 1) i plugins ≡ none
gone_after s i plugins h = at_from-none (s + 1) i plugins (ground arith)

pub last_type :
    (i s : ℕ) (plugins : List Plugin)
    → s + length plugins < int_bound
    → All IsPlainPlugin plugins
    → last_where (tests_type i) (source_pairs s plugins) ≡ type_at (at_from s i plugins)
last_type i s [] h _ = refl
last_type i s (plugin ∷ rest) h ((u, plain), all) =
    rw
      (
        last_where-append (tests_type i) (config_pairs s plugin.config) (source_pairs (s + 1) rest),
        type_in_config_pairs s i plugin.config (omega arith) plain,
        last_type i (s + 1) rest (omega arith) all,
        tests_type-type_key s i (omega arith),
      )
      (pick_type (eqb s i) plugin (at_from (s + 1) i rest) (gone_after s i rest))

pub last_config :
    (i s : ℕ) (k : String) (plugins : List Plugin)
    → s + length plugins < int_bound
    → All IsPlainPlugin plugins
    → last_where (tests_config i k) (source_pairs s plugins) ≡ config_at k (at_from s i plugins)
last_config i s k [] h _ = refl
last_config i s k (plugin ∷ rest) h ((u, plain), all) =
    rw
      (
        last_where-append (tests_config i k) (config_pairs s plugin.config)
            (source_pairs (s + 1) rest),
        config_in_config_pairs s i k plugin.config (omega arith) u plain,
        last_config i (s + 1) k rest (omega arith) all,
        tests_config-type_key s i k (omega arith),
      )
      (pick_config (eqb s i) k plugin (at_from (s + 1) i rest) (gone_after s i rest))
