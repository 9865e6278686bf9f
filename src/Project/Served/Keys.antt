-- ===== src/Project/Served/Keys.antt =====
-- Which keys the properties of readable settings have, and how `ReadProject` takes them.
use mathlib.Core.Path.{ap₂}
use terraform_provider_runde.Common.{
  String, ℕ, ◌+◌, ◌<◌, ◌≤◌, ◌<>◌, ◌==◌, length, All, Option, none, some, List, [], ◌∷◌, ◌≡◌, ◌≢◌,
  refl, ap, ◌∙◌, ◌⊎◌, inl, inr, Bool-cases, arith,
}
use terraform_provider_runde.Common.Dict.{Dict, lookup}
use terraform_provider_runde.Common.Texts.{Lacks}
use terraform_provider_runde.Common.Bindings.{later, later-none, written, lookup-insert_all}
use terraform_provider_runde.Common.Bindings.Keys.{
  AllKeys, AllKeys-of, AllKeys-lookup, written-none_of, AllKeys-append, AllKeys-map,
  AllKeys-written,
}
use terraform_provider_runde.Go.{pos}
use terraform_provider_runde.Go.Decimal.{int_bound}
use terraform_provider_runde.Project.{project_config_attributes, slash_to_dot}
use terraform_provider_runde.Project.Keys.{part_of-type_key, part_of-config_key}
use terraform_provider_runde.Project.Update.{config_key_prefix}
use terraform_provider_runde.Project.Update.Settings.{
  Plugin, Settings, properties, extra_pairs, attribute_pairs, config_pairs, source_pairs,
}
use terraform_provider_runde.Project.Read.{part_of, unrelated, type_of, config_of, Part}
use terraform_provider_runde.Project.Served.{IsExtraKey, IsPlainPlugin, IsReadable, IsSourceKey}

config_key-IsSourceKey :
    (n i : ℕ) → i < n → (j : String) → Lacks "." j → IsSourceKey n (config_key_prefix i <> j)
config_key-IsSourceKey n i h j lacks = (i, h, inr (j, lacks, refl))

pub source_pairs-IsSourceKey :
    (n s : ℕ) (plugins : List Plugin)
    → s + length plugins ≤ n
    → All IsPlainPlugin plugins
    → AllKeys (IsSourceKey n) (source_pairs s plugins)
source_pairs-IsSourceKey n s [] h _ = tt
source_pairs-IsSourceKey n s (plugin ∷ rest) h ((u, plain), all) = (
  (s, omega arith, inl refl),
  AllKeys-append (IsSourceKey n) (config_pairs s plugin.config) (source_pairs (s + 1) rest)
      (AllKeys-map (IsSourceKey n) (Lacks ".") (λ k. config_key_prefix s <> k) plugin.config
        (config_key-IsSourceKey n s (omega arith)) plain)
      (source_pairs-IsSourceKey n (s + 1) rest (omega arith) all),
)

-- what reading makes of such a key
abbrev pub SourcePart : ℕ → Part → Type 0
SourcePart n p =
    (i : ℕ) × (i < n)
    × ((p ≡ type_of (pos (i + 1))) ⊎ ((j : String) × (p ≡ config_of (pos (i + 1)) j)))

pub IsSourceKey-SourcePart :
    (n : ℕ) (k : String) → n < int_bound → IsSourceKey n k → SourcePart n (part_of k)
IsSourceKey-SourcePart n k few (i, h, inl e) =
    (i, h, inl (ap part_of e ∙ part_of-type_key i (omega arith)))
IsSourceKey-SourcePart n k few (i, h, inr (j, lacks, e)) =
    (i, h, inr (j, ap part_of e ∙ part_of-config_key i j (omega arith) lacks))

SourcePart-ne-unrelated : (n : ℕ) (p : Part) → SourcePart n p → p ≢ unrelated
SourcePart-ne-unrelated n p (i, _, inl e) h = cc
SourcePart-ne-unrelated n p (i, _, inr (j, e)) h = cc

-- the key of an extra property
abbrev pub IsExtraProperty : Dict String → String → Type 0
IsExtraProperty extra k =
    (j : String) × (lookup j extra ≢ none) × IsExtraKey j × (k ≡ slash_to_dot j)

attribute_pairs-AllKeys :
    (P : String → Type 0) (table : Dict String) (values : String → String)
    → AllKeys P table
    → AllKeys P (attribute_pairs table values)
unfolding attribute_pairs
attribute_pairs-AllKeys P [] values _ = tt
attribute_pairs-AllKeys P ((config_key, attr_key) ∷ table) values (h, hs) =
    elim (Bool-cases (values attr_key == "")) [
      | inl blank ↦ rw blank (attribute_pairs-AllKeys P table values hs)
      | inr given ↦ rw given ((h, attribute_pairs-AllKeys P table values hs))
    ]

abbrev pub IsAttributeKey : String → Type 0
IsAttributeKey k = lookup k project_config_attributes ≢ none

attribute_keys-unrelated : AllKeys (λ k. part_of k ≡ unrelated) project_config_attributes
unfolding part_of
attribute_keys-unrelated = (refl, (refl, (refl, (refl, (refl, (refl, (refl, tt)))))))

pub IsAttributeKey-unrelated : (k : String) → IsAttributeKey k → part_of k ≡ unrelated
IsAttributeKey-unrelated k =
    AllKeys-lookup (λ k. part_of k ≡ unrelated) k project_config_attributes attribute_keys-unrelated

module _ (p : Settings) (ready : IsReadable p) where
  abbrev n : ℕ
  n = length p.sources

  abbrev S : Dict String
  S = source_pairs 0 p.sources

  abbrev A : Dict String
  A = attribute_pairs project_config_attributes p.attributes

  abbrev E : Dict String
  E = extra_pairs p.extra

  pub source_keys : AllKeys (IsSourceKey n) S
  source_keys = source_pairs-IsSourceKey n 0 p.sources (omega arith) ready.plain_sources

  attribute_keys : AllKeys IsAttributeKey A
  attribute_keys =
      attribute_pairs-AllKeys IsAttributeKey project_config_attributes p.attributes
        (AllKeys-of IsAttributeKey project_config_attributes (λ k b. b))

  pub extra_properties : AllKeys (IsExtraProperty p.extra) E
  extra_properties =
      AllKeys-map (IsExtraProperty p.extra) (λ k. (lookup k p.extra ≢ none) × IsExtraKey k)
        slash_to_dot p.extra (λ k h. (k, h.0, h.1, refl))
        (AllKeys-of _ p.extra (λ k b. (b, AllKeys-lookup IsExtraKey k p.extra ready.extra_keys b)))

  lookup-properties :
      (k : String)
      → lookup k (properties p) ≡ later (written k S) (later (written k A) (written k E))
  unfolding lookup
  lookup-properties k =
      lookup-insert_all k S _
      ∙ ap (later (written k S)) (
          lookup-insert_all k A _
          ∙ ap (later (written k A)) (lookup-insert_all k E [] ∙ later-none (written k E)))

  pub IsExtraProperty-unrelated : (k : String) → IsExtraProperty p.extra k → part_of k ≡ unrelated
  IsExtraProperty-unrelated k (j, _, extra, e) = ap part_of e ∙ extra.no_part

  pub IsSourceKey-ne-unrelated : (k : String) → IsSourceKey n k → part_of k ≢ unrelated
  IsSourceKey-ne-unrelated k h =
      SourcePart-ne-unrelated n (part_of k) (IsSourceKey-SourcePart n k ready.few_sources h)

  pub IsExtraProperty-not-IsAttributeKey :
      (k : String) → IsExtraProperty p.extra k → IsAttributeKey k → ⊥
  IsExtraProperty-not-IsAttributeKey k (j, _, extra, e) h =
      h (ap (λ k. lookup k project_config_attributes) e ∙ extra.no_attribute)

  no_source : (k : String) → part_of k ≡ unrelated → written k S ≡ none
  no_source k e =
      written-none_of (IsSourceKey n) k S source_keys (λ h. IsSourceKey-ne-unrelated k h e)

  no_attribute : (k : String) → (IsAttributeKey k → ⊥) → written k A ≡ none
  no_attribute k h = written-none_of IsAttributeKey k A attribute_keys h

  no_extra : (k : String) → (IsExtraProperty p.extra k → ⊥) → written k E ≡ none
  no_extra k h = written-none_of (IsExtraProperty p.extra) k E extra_properties h

  pub lookup-source_key : (k : String) → IsSourceKey n k → lookup k (properties p) ≡ written k S
  lookup-source_key k h =
      lookup-properties k
      ∙ ap₂ (λ a e. later (written k S) (later a e))
          (no_attribute k (λ g. IsSourceKey-ne-unrelated k h (IsAttributeKey-unrelated k g)))
          (no_extra k (λ g. IsSourceKey-ne-unrelated k h (IsExtraProperty-unrelated k g)))
      ∙ later-none (written k S)

  pub lookup-attribute_key : (k : String) → IsAttributeKey k → lookup k (properties p) ≡ written k A
  lookup-attribute_key k h =
      lookup-properties k
      ∙ ap₂ (λ s e. later s (later (written k A) e)) (no_source k (IsAttributeKey-unrelated k h))
          (no_extra k (λ g. IsExtraProperty-not-IsAttributeKey k g h))
      ∙ later-none (written k A)

  pub lookup-extra_property :
      (k : String) → IsExtraProperty p.extra k → lookup k (properties p) ≡ written k E
  lookup-extra_property k h =
      lookup-properties k
      ∙ ap₂ (λ s a. later s (later a (written k E))) (no_source k (IsExtraProperty-unrelated k h))
          (no_attribute k (IsExtraProperty-not-IsAttributeKey k h))

  -- where a property comes from
  abbrev pub Origin : String → Type 0
  Origin k = IsSourceKey n k ⊎ (IsAttributeKey k ⊎ IsExtraProperty p.extra k)

  later-cases : (a b : Option String) → later a b ≢ none → (a ≢ none) ⊎ (b ≢ none)
  later-cases none b h = inr h
  later-cases (some v) b h = inl (λ e. cc)

  pub lookup-Origin : (k : String) → lookup k (properties p) ≢ none → Origin k
  lookup-Origin k h =
      elim (later-cases (written k S) (later (written k A) (written k E))
        (rw (← lookup-properties k) h)) [
          | inl s ↦ inl (AllKeys-written (IsSourceKey n) k S source_keys s)
          | inr others ↦ elim (later-cases (written k A) (written k E) others) [
            | inl a ↦ inr (inl (AllKeys-written IsAttributeKey k A attribute_keys a))
            | inr e ↦ inr (inr (AllKeys-written (IsExtraProperty p.extra) k E extra_properties e))
          ]
        ]
