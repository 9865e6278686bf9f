-- ===== src/Project/Served/Places.antt =====
-- The sources that `ReadProject` finds in the properties of readable settings are the ones of the
-- settings, in their order.
use mathlib.Core.Path.{subst}
use terraform_provider_runde.Common.{
  String, ℕ, zero, suc, ◌+◌, ◌<◌, ◌≤◌, true, false, eqb, eqb_refl, length, All, AllPairs, some,
  List, [], ◌∷◌, map, ◌≡◌, refl, sym, ap, ◌∙◌, inl, inr, Bool-cases, arith,
}
use terraform_provider_runde.Common.Dict.{Dict, lookup, NodupKeys}
use terraform_provider_runde.Common.Bindings.{any_key, any_key-Found, any_key_of, Bool_ext}
use terraform_provider_runde.Go.{ℤ, pos, int_eq, int_le, int_eq_iff, ok, Value, string}
use terraform_provider_runde.Project.Keys.{part_of-type_key}
use terraform_provider_runde.Project.Update.{type_key}
use terraform_provider_runde.Project.Update.Settings.{Plugin, Settings}
use terraform_provider_runde.Project.Read.{
  Part, part_of, Source, SourceMap, source_at, indices, sort_ints, scan_config, resource_sources,
}
use terraform_provider_runde.Project.Read.Steps.{is_there, makes}
use terraform_provider_runde.Project.Read.Sources.{is_there-scan_config}
use terraform_provider_runde.Project.Read.Indices.{
  elem, Ascending, Ascending-ext, sort_ints-Ascending, elem-sort_ints-indices,
  visit_all-NodupIndices,
}
use terraform_provider_runde.Project.Read.Order.{
  found_at, resource_sources_lem, type-or_new, config-or_new,
}
use terraform_provider_runde.Project.Served.{IsReadable, IsLeft, text_of}
use terraform_provider_runde.Project.Served.Keys.{
  SourcePart, IsSourceKey-SourcePart, IsExtraProperty-unrelated,
}
use terraform_provider_runde.Project.Served.Pairs.{at_from, at_from-none, type_at, config_at}
use terraform_provider_runde.Project.Read.Configs.{scan_config-NodupConfig}
use terraform_provider_runde.Project.Served.Sources.{
  left-Origin, left-type_key, type_found, config_found,
}

-- the indices of `n` sources, behind the first `s`
abbrev pub indices_from : ℕ → ℕ → List ℤ
indices_from s zero = []
indices_from s (suc n) = pos (s + 1) ∷ indices_from (s + 1) n

indices_from-above :
    (s t n : ℕ) → s < t → All (λ j. int_le j (pos (s + 1)) ≡ false) (indices_from t n)
indices_from-above s t zero h = tt
indices_from-above s t (suc n) h = (ground arith, indices_from-above s (t + 1) n (omega arith))

indices_from-Ascending : (s n : ℕ) → Ascending (indices_from s n)
indices_from-Ascending s zero = tt
indices_from-Ascending s (suc n) =
    (indices_from-above s (s + 1) n (omega arith), indices_from-Ascending (s + 1) n)

elem_of : (s n i : ℕ) → s ≤ i → i < s + n → elem (pos (i + 1)) (indices_from s n) ≡ true
elem_of s zero i h g = absurd (omega arith)
elem_of s (suc n) i h g =
    ground (arith, elem_of (s + 1) n i, int_eq_iff (pos (s + 1)) (pos (i + 1)))

-- the index of a source among these
abbrev IsPlace : ℕ → ℕ → ℤ → Type 0
IsPlace s n j = (i : ℕ) × (s ≤ i) × (i < s + n) × (j ≡ pos (i + 1))

IsPlace-more : (s n : ℕ) (j : ℤ) → IsPlace (s + 1) n j → IsPlace s (suc n) j
IsPlace-more s n j (i, h, g, e) = (i, omega arith, omega arith, e)

elem-IsPlace : (s n : ℕ) (j : ℤ) → elem j (indices_from s n) ≡ true → IsPlace s n j
elem-IsPlace s zero j h = cc
elem-IsPlace s (suc n) j h = elim (Bool-cases (int_eq (pos (s + 1)) j)) [
  | inl this ↦ (s, omega arith, omega arith, sym ((int_eq_iff _ _).0 this))
  | inr other ↦ IsPlace-more s n j (elem-IsPlace (s + 1) n j (ground arith))
]

at_from-there :
    {A : Type 0} (s i : ℕ) (xs : List A)
    → s ≤ i
    → i < s + length xs
    → (x : A) × (at_from s i xs ≡ some x)
at_from-there s i [] h g = absurd (omega arith)
at_from-there s i (x ∷ xs) h g = elim (Bool-cases (eqb s i)) [
  | inl this ↦ (x, rw this refl)
  | inr other ↦ rw other (at_from-there (s + 1) i xs (ground arith) (omega arith))
]

at_from-lt :
    {A : Type 0} (s i : ℕ) (xs : List A) (x : A) → at_from s i xs ≡ some x → i < s + length xs
at_from-lt s i [] x e = cc
at_from-lt s i (y ∷ xs) x e = ground (arith, at_from-lt (s + 1) i xs x)

SourcePart-IsPlace : (n : ℕ) (j : ℤ) (q : Part) → SourcePart n q → makes j q ≡ true → IsPlace 0 n j
SourcePart-IsPlace n j q (i, h, inl e) t =
    (i, omega arith, omega arith, sym ((int_eq_iff (pos (i + 1)) j).0 (rw (← ap (makes j) e) t)))
SourcePart-IsPlace n j q (i, h, inr (k, e)) t =
    (i, omega arith, omega arith, sym ((int_eq_iff (pos (i + 1)) j).0 (rw (← ap (makes j) e) t)))

-- what `ReadProject` makes of a plugin
pub record IsSourceOf (plugin : Plugin) (source : Source) : Type 0 where
  pub same_type : source.type ≡ some (string plugin.type)
  pub same_config : (k : String) → lookup k source.config ≡ text_of (lookup k plugin.config)
  pub nodup_config : NodupKeys source.config

all_places :
    (m : SourceMap) (s : ℕ) (plugins : List Plugin)
    → ((i : ℕ) (plugin : Plugin)
        → at_from s i plugins ≡ some plugin
        → IsSourceOf plugin (found_at m (pos (i + 1))))
    → AllPairs IsSourceOf plugins (map (found_at m) (indices_from s (length plugins)))
all_places m s [] h = tt
all_places m s (plugin ∷ rest) h = (
  h s plugin (rw (eqb_refl s) refl),
  all_places m (s + 1) rest λ i other e. h i other (later_place s i plugin other rest e),
)
  where
    later_place :
        (s i : ℕ) (plugin other : Plugin) (rest : List Plugin)
        → at_from (s + 1) i rest ≡ some other
        → at_from s i (plugin ∷ rest) ≡ some other
    later_place s i plugin other rest e = ground (arith, at_from-none (s + 1) i rest)

module _ (p : Settings) (ready : IsReadable p) (r : Dict Value) (left : IsLeft p r) where
  abbrev n : ℕ
  n = length p.sources

  abbrev m : SourceMap
  m = (scan_config r).sources

  place_there : (i : ℕ) → i < n → any_key (λ key. makes (pos (i + 1)) (part_of key)) r ≡ true
  place_there i h =
      any_key_of (λ key. makes (pos (i + 1)) (part_of key)) (type_key i) r
        (λ e. cc (
          left-type_key p ready r left i h,
          ap (λ o. text_of (type_at o)) (at_from-there 0 i p.sources (omega arith) (omega arith)).1,
          e,
        ))
        (rw (part_of-type_key i (omega (arith, ready.few_sources)))
          ((int_eq_iff (pos (i + 1)) (pos (i + 1))).1 refl))

  there-IsPlace : (j : ℤ) → any_key (λ key. makes j (part_of key)) r ≡ true → IsPlace 0 n j
  there-IsPlace j h =
      let (k, b, t) = any_key-Found (λ key. makes j (part_of key)) r h in
      elim (left-Origin p ready r left k b) [
        | inl source ↦
            SourcePart-IsPlace n j (part_of k) (IsSourceKey-SourcePart n k ready.few_sources source)
              t
        | inr extra ↦ absurd (cc (IsExtraProperty-unrelated p ready k extra, t))
      ]

  there_at : (j : ℤ) → is_there (source_at j m) ≡ elem j (indices_from 0 n)
  there_at j =
      is_there-scan_config r j
      ∙ Bool_ext _ _
          (λ h.
            let (i, _, g, e) = there-IsPlace j h in
            subst (λ j. elem j (indices_from 0 n) ≡ true) (sym e) (elem_of 0 n i (omega arith) g))
          (λ h.
            let (i, _, g, e) = elem-IsPlace 0 n j h in
            subst (λ j. any_key (λ key. makes j (part_of key)) r ≡ true) (sym e)
              (place_there i (omega arith)))

  indices_lem : sort_ints (indices m) ≡ indices_from 0 n
  indices_lem =
      Ascending-ext _ _ (sort_ints-Ascending m (visit_all-NodupIndices r _ tt))
        (indices_from-Ascending 0 n) (λ j. elem-sort_ints-indices j m ∙ there_at j)

  place_back :
      (i : ℕ) (plugin : Plugin)
      → at_from 0 i p.sources ≡ some plugin
      → IsSourceOf plugin (found_at m (pos (i + 1)))
  place_back i plugin e =
      let h : i < n = omega (arith, at_from-lt 0 i p.sources plugin e) in
      record {
        same_type =
            type-or_new (source_at (pos (i + 1)) m)
            ∙ type_found p ready r left i h
            ∙ ap (λ o. text_of (type_at o)) e;
        same_config = λ k.
            config-or_new (source_at (pos (i + 1)) m) k
            ∙ config_found p ready r left i k h
            ∙ ap (λ o. text_of (config_at k o)) e;
        nodup_config = scan_config-NodupConfig (pos (i + 1)) r;
      }

  -- The sources are the ones of the settings, in their order.
  pub sources_back :
      (sources : List Source) × (resource_sources (scan_config r).sources ≡ ok sources)
      × AllPairs IsSourceOf p.sources sources
  sources_back = (
    map (found_at m) (indices_from 0 n),
    resource_sources_lem m ∙ ap (λ l. ok (map (found_at m) l)) indices_lem,
    all_places m 0 p.sources place_back,
  )
