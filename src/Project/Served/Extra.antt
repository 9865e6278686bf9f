-- ===== src/Project/Served/Extra.antt =====
-- The extra properties that `ReadProject` finds in the properties of readable settings are the ones of
-- the settings.
use terraform_provider_runde.Common.{
  ℕ, String, Bool, true, false, ◌==◌, eq_iff, eq_refl, if◌then◌else◌, Option, none, some, [], ◌∷◌,
  map, ◌≡◌, ◌≢◌, refl, sym, ap, ◌∙◌, inl, inr, Bool-cases, Option-cases, subst,
}
use terraform_provider_runde.Common.Dict.{Dict, lookup, insert, NodupKeys}
use terraform_provider_runde.Common.Replacer.{replace_back}
use terraform_provider_runde.Common.Bindings.{
  last_where, last_where-lookup, any_key, any_key-Found, last_where-none, insert_all,
  lookup-insert_all, insert_all-NodupKeys, later-none,
}
use terraform_provider_runde.Common.Bindings.Keys.{AllKeys-lookup, AllValues_of, last_where-map}
use terraform_provider_runde.Go.{ok, Value}
use terraform_provider_runde.Project.{project_config_attributes, slash_to_dot, dot_to_slash}
use terraform_provider_runde.Project.Update.Settings.{Settings, properties}
use terraform_provider_runde.Project.Read.{Part, part_of, scan_config, extra_config}
use terraform_provider_runde.Project.Read.Steps.{is_taken}
use terraform_provider_runde.Project.Read.Sources.{left-scan_config}
use terraform_provider_runde.Project.Served.{IsReadable, IsExtraKey, IsLeft, text_of}
use terraform_provider_runde.Project.Served.Keys.{
  SourcePart, IsSourceKey-SourcePart, IsExtraProperty, lookup-extra_property,
  IsExtraProperty-unrelated,
}
use terraform_provider_runde.Project.Served.Sources.{left-Origin}
use terraform_provider_runde.Project.Served.Texts.{
  IsText-of, visit_all-NodupKeys, IsText, as_values, texts_of, lookup-as_values, text_of-injective,
  as_values-NodupKeys,
}

abbrev slashed : Dict String → Dict String
slashed t = map (λ e. (dot_to_slash e.0, e.1)) t

extra_config_lem :
    (t m : Dict String) → extra_config (as_values t) m ≡ ok (insert_all (slashed t) m)
unfolding extra_config insert_all
extra_config_lem [] m = refl
extra_config_lem ((k, v) ∷ t) m = extra_config_lem t (insert (dot_to_slash k) v m)

-- Keys without dots are still different with dots in place of slashes.
slash_to_dot-injective :
    (j k : String) → IsExtraKey j → IsExtraKey k → slash_to_dot j ≡ slash_to_dot k → j ≡ k
slash_to_dot-injective j k hj hk e =
    sym (replace_back "/" "." j hj.no_dot) ∙ ap dot_to_slash e ∙ replace_back "/" "." k hk.no_dot

SourcePart-is_taken : (n : ℕ) (q : Part) → SourcePart n q → is_taken q ≡ true
SourcePart-is_taken n q (i, _, inl e) = ap is_taken e
SourcePart-is_taken n q (i, _, inr (k, e)) = ap is_taken e

none_if : (b : Bool) (o : Option Value) → o ≡ none → (if b then none else o) ≡ none
none_if true o h = refl
none_if false o h = h

abbrev read_key : String → String → Bool
read_key k j = dot_to_slash j == k

not_attribute :
    (extra : Dict String) (k : String)
    → IsExtraProperty extra k
    → lookup k project_config_attributes ≡ none
not_attribute extra k (j, _, h, e) = ap (λ k. lookup k project_config_attributes) e ∙ h.no_attribute

module _ (p : Settings) (ready : IsReadable p) (r : Dict Value) (left : IsLeft p r) where
  abbrev q : Dict Value
  q = (scan_config r).config

  q-IsExtraProperty : (k : String) → lookup k q ≢ none → IsExtraProperty p.extra k
  q-IsExtraProperty k b =
      elim (left-Origin p ready r left k
        (λ e. b (left-scan_config r k ∙ none_if (is_taken (part_of k)) _ e))) [
          | inl source ↦ absurd (
              b (
                left-scan_config r k
                ∙ ap (λ taken. if taken then none else lookup k r)
                    (SourcePart-is_taken _ _
                      (IsSourceKey-SourcePart _ k ready.few_sources source))))
          | inr extra ↦ extra
        ]

  lookup-q :
      (k : String) → IsExtraProperty p.extra k → lookup k q ≡ text_of (lookup k (properties p))
  lookup-q k h =
      left-scan_config r k
      ∙ ap (λ part. if is_taken part then none else lookup k r)
          (IsExtraProperty-unrelated p ready k h)
      ∙ left.left_bound k (not_attribute p.extra k h)

  q-IsText : (k : String) (v : Value) → lookup k q ≡ some v → IsText v
  q-IsText k v h = IsText-of _ v (sym (lookup-q k (q-IsExtraProperty k (λ e. cc (h, e)))) ∙ h)

  extra_key : (k : String) → lookup k p.extra ≢ none → IsExtraKey k
  extra_key k b = AllKeys-lookup IsExtraKey k p.extra ready.extra_keys b

  -- the text of an extra property
  q-extra :
      (k : String)
      → lookup k p.extra ≢ none
      → lookup (slash_to_dot k) q ≡ text_of (lookup k p.extra)
  q-extra k b =
      let h = extra_key k b in
      let own : IsExtraProperty p.extra (slash_to_dot k) = (k, b, h, refl) in
      lookup-q (slash_to_dot k) own
      ∙ ap text_of (
          lookup-extra_property p ready (slash_to_dot k) own
          ∙ last_where-map (λ j. j == slash_to_dot k) slash_to_dot p.extra
          ∙ last_where-lookup (λ j. slash_to_dot j == slash_to_dot k) k p.extra
              (eq_refl (slash_to_dot k))
              (λ j b' e. slash_to_dot-injective j k (extra_key j b') h ((eq_iff _ _).0 e))
              ready.nodup_extra)

  -- the property that an extra key is read from
  from_extra :
      (j k : String)
      → lookup j q ≢ none
      → dot_to_slash j ≡ k
      → (lookup k p.extra ≢ none) × (j ≡ slash_to_dot k)
  from_extra j k b e =
      let (l, b', h, e') = q-IsExtraProperty j b in
      let same : l ≡ k = sym (replace_back "/" "." l h.no_dot) ∙ ap dot_to_slash (sym e') ∙ e in
      (subst (λ l. lookup l p.extra ≢ none) same b', e' ∙ ap slash_to_dot same)

  module _ (t : Dict String) (e : q ≡ as_values t) where
    lookup-t : (k : String) → lookup k q ≡ text_of (lookup k t)
    lookup-t k = ap (lookup k) e ∙ lookup-as_values k t

    nodup : NodupKeys t
    nodup = as_values-NodupKeys t (subst NodupKeys e (visit_all-NodupKeys r _ left.nodup_left))

    bound : (j : String) → lookup j t ≢ none → lookup j q ≢ none
    bound j b h = b (text_of-injective _ none (sym (lookup-t j) ∙ h))

    slashed_back : (k : String) → last_where (read_key k) t ≡ lookup k p.extra
    slashed_back k = elim (Option-cases (lookup k p.extra)) [
      | inl absent ↦ elim (Bool-cases (any_key (read_key k) t)) [
        | inl there ↦
            let (j, b, h) = any_key-Found (read_key k) t there in
            absurd ((from_extra j k (bound j b) ((eq_iff _ _).0 h)).0 absent)
        | inr nowhere ↦ last_where-none (read_key k) t nowhere ∙ sym absent
      ]
      | inr (v, given) ↦
          let b : lookup k p.extra ≢ none = λ e'. cc (given, e') in
          last_where-lookup (read_key k) (slash_to_dot k) t
            ((eq_iff _ _).1 (replace_back "/" "." k (extra_key k b).no_dot))
            (λ j b' h. (from_extra j k (bound j b') ((eq_iff _ _).0 h)).1) nodup
          ∙ text_of-injective _ _ (sym (lookup-t (slash_to_dot k)) ∙ q-extra k b)
    ]

  -- The extra configuration is the one of the settings.
  pub extra_back :
      (extra : Dict String) × (extra_config (scan_config r).config [] ≡ ok extra)
      × NodupKeys extra
      × ((k : String) → lookup k extra ≡ lookup k p.extra)
  unfolding lookup
  extra_back =
      let (t, e) =
        texts_of q (AllValues_of IsText q (visit_all-NodupKeys r _ left.nodup_left) q-IsText) in
      (
        insert_all (slashed t) [],
        ap (λ c. extra_config c []) e ∙ extra_config_lem t [],
        insert_all-NodupKeys (slashed t) [] tt,
        λ k.
            lookup-insert_all k (slashed t) []
            ∙ later-none _
            ∙ last_where-map (λ j. j == k) dot_to_slash t
            ∙ slashed_back t e k,
      )
