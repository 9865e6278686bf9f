-- ===== src/Project/Served/Sources.antt =====
-- The types and configurations of the sources that `ReadProject` finds in the properties of readable
-- settings.
use mathlib.Core.Path.{subst}
use terraform_provider_runde.Common.{
  String, ℕ, ◌+◌, ◌<◌, ◌<>◌, true, false, ◌==◌, eq_iff, eq_refl, eqb, eqb_refl, length, All, Option,
  none, some, List, [], ◌∷◌, ◌≡◌, ◌≢◌, refl, sym, ap, ◌∙◌, ◌⊎◌, inl, inr, Bool-cases, Option-cases,
  arith,
}
use terraform_provider_runde.Common.Dict.{Dict, lookup}
use terraform_provider_runde.Common.Texts.{Lacks}
use terraform_provider_runde.Common.Bindings.{
  written, last_where-lookup, any_key, any_key-Found, any_key_of, Bool_ext, last_where-none,
}
use terraform_provider_runde.Common.Bindings.Keys.{AllKeys-weaken, AllKeys-lookup, last_where_ext}
use terraform_provider_runde.Go.{pos, Value}
use terraform_provider_runde.Go.Decimal.{int_bound}
use terraform_provider_runde.Project.{project_config_attributes}
use terraform_provider_runde.Project.Update.{type_key, config_key_prefix}
use terraform_provider_runde.Project.Update.Settings.{Plugin, Settings, source_pairs}
use terraform_provider_runde.Project.Read.{part_of, SourceMap, source_at, scan_config}
use terraform_provider_runde.Project.Read.Steps.{type_in, config_in}
use terraform_provider_runde.Project.Read.Sources.{type_in-scan_config, config_in-scan_config}
use terraform_provider_runde.Project.Read.Order.{type_of_is_type, config_of_is_config}
use terraform_provider_runde.Project.Served.{
  IsReadable, IsPlainPlugin, IsSourceKey, IsLeft, text_of,
}
use terraform_provider_runde.Project.Served.Keys.{
  IsExtraProperty, IsAttributeKey-unrelated, lookup-Origin, lookup-source_key, source_keys,
  IsSourceKey-ne-unrelated, IsExtraProperty-unrelated,
}
use terraform_provider_runde.Project.Served.Pairs.{
  at_from, type_at, config_at, tests_type, tests_config, tests_type-type_key,
  tests_config-config_key, last_type, last_config,
}
use terraform_provider_runde.Project.Served.Only.{only_type, only_config}

none_of : {A : Type 0} (o : Option A) → (o ≢ none → ⊥) → o ≡ none
none_of none h = refl
none_of (some a) h = absurd (h (λ e. cc))

text_of-none : (o : Option String) → text_of o ≡ none → o ≡ none
text_of-none none h = refl
text_of-none (some a) h = cc

plain_key :
    (s i : ℕ) (c : String) (plugins : List Plugin)
    → All IsPlainPlugin plugins
    → config_at c (at_from s i plugins) ≢ none
    → Lacks "." c
plain_key s i c [] _ h = absurd (h refl)
plain_key s i c (plugin ∷ rest) ((u, plain), all) h = elim (Bool-cases (eqb s i)) [
  | inl this ↦ AllKeys-lookup (Lacks ".") c plugin.config plain (λ e. h (rw this e))
  | inr other ↦ plain_key (s + 1) i c rest all (λ e. h (rw other e))
]

module _ (p : Settings) (ready : IsReadable p) (r : Dict Value) (left : IsLeft p r) where
  abbrev n : ℕ
  n = length p.sources

  abbrev S : Dict String
  S = source_pairs 0 p.sources

  abbrev m : SourceMap
  m = (scan_config r).sources

  abbrev plugin_at : ℕ → Option Plugin
  plugin_at i = at_from 0 i p.sources

  pub left-source_key : (k : String) → IsSourceKey n k → lookup k r ≡ text_of (written k S)
  left-source_key k h =
      left.left_bound k
        (none_of _ (λ b. IsSourceKey-ne-unrelated p ready k h (IsAttributeKey-unrelated k b)))
      ∙ ap text_of (lookup-source_key p ready k h)

  pub left-Origin : (k : String) → lookup k r ≢ none → IsSourceKey n k ⊎ IsExtraProperty p.extra k
  left-Origin k b = elim (Option-cases (lookup k project_config_attributes)) [
    | inl free ↦ elim (lookup-Origin p ready k (λ e. b (left.left_bound k free ∙ ap text_of e))) [
      | inl source ↦ inl source
      | inr (inl attribute) ↦ absurd (attribute free)
      | inr (inr extra) ↦ inr extra
    ]
    | inr (a, e) ↦ absurd (b (left.left_gone k (λ e'. cc)))
  ]

  bound_type : (i : ℕ) (k : String) → lookup k r ≢ none → tests_type i k ≡ true → k ≡ type_key i
  bound_type i k b t = elim (left-Origin k b) [
    | inl source ↦ only_type n i k ready.few_sources source t
    | inr extra ↦ absurd (
        cc (IsExtraProperty-unrelated p ready k extra, type_of_is_type (pos (i + 1)) (part_of k) t))
  ]

  bound_config :
      (i : ℕ) (c k : String)
      → lookup k r ≢ none
      → tests_config i c k ≡ true
      → Lacks "." c × (k ≡ config_key_prefix i <> c)
  bound_config i c k b t = elim (left-Origin k b) [
    | inl source ↦ only_config n i c k ready.few_sources source t
    | inr extra ↦ absurd (
        cc (
          IsExtraProperty-unrelated p ready k extra,
          config_of_is_config (pos (i + 1)) c (part_of k) t,
        ))
  ]

  fits : {i : ℕ} → i < n → i + 1 < int_bound
  fits h = omega (arith, ready.few_sources)

  is_type_key : (i : ℕ) → i < n → tests_type i (type_key i) ≡ true
  is_type_key i h = tests_type-type_key i i (fits h) ∙ eqb_refl i

  is_config_key :
      (i : ℕ) (c : String)
      → i < n
      → Lacks "." c
      → tests_config i c (config_key_prefix i <> c) ≡ true
  is_config_key i c h lacks =
      tests_config-config_key i i c c (fits h) lacks ∙ rw (eqb_refl i, eq_refl c) refl

  -- the test and the key pick the same among the properties of the sources
  written_type : (i : ℕ) → i < n → written (type_key i) S ≡ type_at (plugin_at i)
  written_type i h =
      last_where_ext (λ k. k == type_key i) (tests_type i) S
        (AllKeys-weaken (λ k. (k == type_key i) ≡ tests_type i k) (IsSourceKey n) S
          (λ k source.
            Bool_ext (k == type_key i) (tests_type i k)
              (λ e. subst (λ j. tests_type i j ≡ true) (sym ((eq_iff _ _).0 e)) (is_type_key i h))
              (λ t. (eq_iff _ _).1 (only_type n i k ready.few_sources source t)))
          (source_keys p ready))
      ∙ last_type i 0 p.sources (omega (arith, ready.few_sources)) ready.plain_sources

  written_config :
      (i : ℕ) (c : String)
      → i < n
      → Lacks "." c
      → written (config_key_prefix i <> c) S ≡ config_at c (plugin_at i)
  written_config i c h lacks =
      last_where_ext (λ k. k == (config_key_prefix i <> c)) (tests_config i c) S
        (AllKeys-weaken (λ k. (k == (config_key_prefix i <> c)) ≡ tests_config i c k)
          (IsSourceKey n) S
          (λ k source.
            Bool_ext (k == (config_key_prefix i <> c)) (tests_config i c k)
              (λ e.
                subst (λ j. tests_config i c j ≡ true) (sym ((eq_iff _ _).0 e))
                  (is_config_key i c h lacks))
              (λ t. (eq_iff _ _).1 (only_config n i c k ready.few_sources source t).1))
          (source_keys p ready))
      ∙ last_config i 0 c p.sources (omega (arith, ready.few_sources)) ready.plain_sources

  pub left-type_key : (i : ℕ) → i < n → lookup (type_key i) r ≡ text_of (type_at (plugin_at i))
  left-type_key i h = left-source_key (type_key i) (i, h, inl refl) ∙ ap text_of (written_type i h)

  left-config_key :
      (i : ℕ) (c : String)
      → i < n
      → Lacks "." c
      → lookup (config_key_prefix i <> c) r ≡ text_of (config_at c (plugin_at i))
  left-config_key i c h lacks =
      left-source_key (config_key_prefix i <> c) (i, h, inr (c, lacks, refl))
      ∙ ap text_of (written_config i c h lacks)

  pub type_found :
      (i : ℕ) → i < n → type_in (source_at (pos (i + 1)) m) ≡ text_of (type_at (plugin_at i))
  type_found i h =
      type_in-scan_config r (pos (i + 1))
      ∙ last_where-lookup (tests_type i) (type_key i) r (is_type_key i h) (bound_type i)
          left.nodup_left
      ∙ left-type_key i h

  -- an entry that no property has is not among the settings
  no_config :
      (i : ℕ) (c : String)
      → i < n
      → any_key (tests_config i c) r ≡ false
      → config_at c (plugin_at i) ≡ none
  no_config i c h absent = none_of _ (λ b.
      let lacks = plain_key 0 i c p.sources ready.plain_sources b in
      let bound : lookup (config_key_prefix i <> c) r ≢ none =
        λ e. b (text_of-none _ (sym (left-config_key i c h lacks) ∙ e)) in
      cc (
        absent,
        any_key_of (tests_config i c) (config_key_prefix i <> c) r bound
            (is_config_key i c h lacks),
      ))

  pub config_found :
      (i : ℕ) (c : String)
      → i < n
      → config_in (source_at (pos (i + 1)) m) c ≡ text_of (config_at c (plugin_at i))
  config_found i c h =
      config_in-scan_config r (pos (i + 1)) c ∙ elim (Bool-cases (any_key (tests_config i c) r)) [
        | inl there ↦
            let (k, b, t) = any_key-Found (tests_config i c) r there in
            let lacks = (bound_config i c k b t).0 in
            last_where-lookup (tests_config i c) (config_key_prefix i <> c) r
              (is_config_key i c h lacks) (λ j b' t'. (bound_config i c j b' t').1) left.nodup_left
            ∙ left-config_key i c h lacks
        | inr absent ↦
            last_where-none (tests_config i c) r absent ∙ ap text_of (sym (no_config i c h absent))
      ]
