-- ===== src/Project/Read/Order.antt =====
-- Go ranges over a map in any order. The loop of `ReadProject` over the properties finds the same in
-- every order, unless two keys stand for the same thing.
use terraform_provider_runde.Common.{
  String, true, if◌then◌else◌, eq_iff, AllPairs, AllPairs-map, Option, none, some, List, [], ◌∷◌,
  map, ◌≡◌, ◌≢◌, refl, sym, ap, ◌∙◌, arith,
}
use terraform_provider_runde.Common.Dict.{Dict, lookup, NodupKeys}
use terraform_provider_runde.Common.Orders.{SameBindings}
use terraform_provider_runde.Common.Bindings.{any_key_same, last_where_same}
use terraform_provider_runde.Go.{ℤ, int_eq_iff, ok, traverse, Value}
use terraform_provider_runde.Project.Read.{
  unrelated, unknown_field, type_of, config_of, Part, part_of, Source, SourceMap, source_at,
  indices, sort_ints, asserted, resource_sources, scan_config,
}
use terraform_provider_runde.Project.Read.Steps.{
  type_in, config_in, is_there, is_type, is_config, makes, is_taken, or_new,
}
use terraform_provider_runde.Project.Read.Sources.{
  type_in-scan_config, config_in-scan_config, is_there-scan_config, left-scan_config,
}
use terraform_provider_runde.Project.Read.Indices.{
  elem, Ascending-ext, sort_ints-Ascending, elem-sort_ints-indices, visit_all-NodupIndices,
}

-- No two keys are the type of one source, or the same entry of its configuration.
abbrev pub Unambiguous : Dict Value → Type 0
Unambiguous c =
    (j k : String)
    → lookup j c ≢ none
    → lookup k c ≢ none
    → part_of j ≡ part_of k
    → is_taken (part_of j) ≡ true
    → j ≡ k

-- the same type, and the same entries of the configuration
pub record SameSource (a b : Source) : Type 0 where
  pub same_type : a.type ≡ b.type
  pub same_config : (k : String) → lookup k a.config ≡ lookup k b.config

abbrev pub found_at : SourceMap → ℤ → Source
found_at m i = or_new (source_at i m)

pub type-or_new : (o : Option Source) → (or_new o).type ≡ type_in o
type-or_new none = refl
type-or_new (some source) = refl

pub config-or_new : (o : Option Source) (k : String) → lookup k (or_new o).config ≡ config_in o k
unfolding lookup
config-or_new none k = refl
config-or_new (some source) k = refl

asserted_there : (o : Option Source) → is_there o ≡ true → asserted o ≡ ok (or_new o)
asserted_there none h = cc
asserted_there (some source) h = refl

traverse_there :
    (m : SourceMap) (l : List ℤ)
    → ((i : ℤ) → elem i l ≡ true → is_there (source_at i m) ≡ true)
    → traverse (λ i. asserted (source_at i m)) l ≡ ok (map (found_at m) l)
unfolding traverse
traverse_there m [] h = refl
traverse_there m (i ∷ l) h = rw (
  asserted_there (source_at i m) (h i (ground (arith, int_eq_iff i i))),
  traverse_there m l (λ j g. h j (ground arith)),
)

-- every index that is sorted has a source
pub resource_sources_lem :
    (m : SourceMap) → resource_sources m ≡ ok (map (found_at m) (sort_ints (indices m)))
unfolding resource_sources
resource_sources_lem m =
    traverse_there m (sort_ints (indices m)) (λ i h. sym (elem-sort_ints-indices i m) ∙ h)

pub type_of_is_type : (i : ℤ) (p : Part) → is_type i p ≡ true → p ≡ type_of i
type_of_is_type i (type_of j) h = ap type_of (ground (arith, int_eq_iff j i))
type_of_is_type i unrelated h = cc
type_of_is_type i (unknown_field j) h = cc
type_of_is_type i (config_of j k) h = cc

pub config_of_is_config :
    (i : ℤ) (k : String) (p : Part) → is_config i k p ≡ true → p ≡ config_of i k
config_of_is_config i k (config_of j l) h = ground (arith, int_eq_iff j i, eq_iff l k)
config_of_is_config i k unrelated h = cc
config_of_is_config i k (unknown_field j) h = cc
config_of_is_config i k (type_of j) h = cc

module _ (c c' : Dict Value) (u : NodupKeys c) (same : SameBindings c c')
    (clear : Unambiguous c) where
  abbrev m : SourceMap
  m = (scan_config c).sources

  abbrev m' : SourceMap
  m' = (scan_config c').sources

  -- two keys of the same part, which is taken, are the same
  only_key :
      (p : Part) (j k : String)
      → is_taken p ≡ true
      → lookup j c ≢ none
      → lookup k c ≢ none
      → part_of j ≡ p
      → part_of k ≡ p
      → j ≡ k
  only_key p j k t hj hk ej ek = clear j k hj hk (ej ∙ sym ek) (ap is_taken ej ∙ t)

  type_same : (i : ℤ) → type_in (source_at i m) ≡ type_in (source_at i m')
  type_same i =
      type_in-scan_config c i
      ∙ last_where_same (λ key. is_type i (part_of key)) c c' same u
          (λ j k hj hk fj fk.
            only_key (type_of i) j k refl hj hk (type_of_is_type i _ fj) (type_of_is_type i _ fk))
      ∙ sym (type_in-scan_config c' i)

  config_same : (i : ℤ) (k : String) → config_in (source_at i m) k ≡ config_in (source_at i m') k
  config_same i k =
      config_in-scan_config c i k
      ∙ last_where_same (λ key. is_config i k (part_of key)) c c' same u
          (λ j l hj hl fj fl.
            only_key (config_of i k) j l refl hj hl (config_of_is_config i k _ fj)
              (config_of_is_config i k _ fl))
      ∙ sym (config_in-scan_config c' i k)

  there_same : (i : ℤ) → is_there (source_at i m) ≡ is_there (source_at i m')
  there_same i =
      is_there-scan_config c i
      ∙ any_key_same (λ key. makes i (part_of key)) c c' same
      ∙ sym (is_there-scan_config c' i)

  indices_same : sort_ints (indices m) ≡ sort_ints (indices m')
  indices_same =
      Ascending-ext _ _ (sort_ints-Ascending m (visit_all-NodupIndices c _ tt))
        (sort_ints-Ascending m' (visit_all-NodupIndices c' _ tt))
        (λ i. elem-sort_ints-indices i m ∙ there_same i ∙ sym (elem-sort_ints-indices i m'))

  found_same : (i : ℤ) → SameSource (found_at m i) (found_at m' i)
  found_same i = record {
    same_type = type-or_new (source_at i m) ∙ type_same i ∙ sym (type-or_new (source_at i m'));
    same_config = λ k.
        config-or_new (source_at i m) k ∙ config_same i k ∙ sym (config-or_new (source_at i m') k);
  }

  left_same : (k : String) → lookup k (scan_config c).config ≡ lookup k (scan_config c').config
  left_same k =
      left-scan_config c k
      ∙ ap (λ o. if is_taken (part_of k) then none else o) (same.same k)
      ∙ sym (left-scan_config c' k)

  -- Two orders of the same properties, in which no two keys are the type of one source or the same entry
  -- of its configuration, give the same sources in the same order, with the same types and the same
  -- entries of their configurations, and leave the same properties for `extra_config`.
  pub scan_config_same :
      (l : List Source) × (l' : List Source) × (resource_sources (scan_config c).sources ≡ ok l)
      × (resource_sources (scan_config c').sources ≡ ok l')
      × AllPairs SameSource l l'
      × ((k : String) → lookup k (scan_config c).config ≡ lookup k (scan_config c').config)
  scan_config_same = (
    map (found_at m) (sort_ints (indices m)),
    map (found_at m') (sort_ints (indices m)),
    resource_sources_lem m,
    resource_sources_lem m' ∙ ap (λ l. ok (map (found_at m') l)) (sym indices_same),
    AllPairs-map SameSource (found_at m) (found_at m') (sort_ints (indices m)) found_same,
    left_same,
  )
