-- ===== src/Project/Served/Rest.antt =====
-- What `ReadProject` leaves of the properties where it has read the attributes.
use terraform_provider_runde.Common.{
  String, Bool, true, false, ◌==◌, eq_iff, if◌then◌else◌, All, Option, none, some, [], ◌∷◌, ◌≡◌,
  ◌≢◌, refl, ap, ◌∙◌, inl, inr, Bool-cases, Option-cases, arith,
}
use terraform_provider_runde.Common.Dict.{Dict, lookup, NodupKeys, lookup-erase}
use terraform_provider_runde.Common.Bindings.Keys.{erase-NodupKeys}
use terraform_provider_runde.Go.{Value}
use terraform_provider_runde.Project.{project_config_attributes}
use terraform_provider_runde.Project.Operations.{without}
use terraform_provider_runde.Project.Update.Settings.{Settings}
use terraform_provider_runde.Project.Served.{IsServed, IsLeft}
use terraform_provider_runde.Project.Served.Writes.{rest_of}

-- the property and the attribute of this row are those of no other row
abbrev pub IsApart : String × String → String × String → Type 0
IsApart row other = ((row.0 == other.0) ≡ false) × ((other.1 == row.1) ≡ false)

abbrev pub DistinctRows : Dict String → Type 0
DistinctRows [] = Unit
DistinctRows (row ∷ table) = All (IsApart row) table × DistinctRows table

pub distinct_attributes : DistinctRows project_config_attributes
distinct_attributes = ground arith

pub All-weaken :
    {P Q : String × String → Type 0} (table : Dict String)
    → ((row : String × String) → P row → Q row)
    → All P table
    → All Q table
All-weaken [] step _ = tt
All-weaken (row ∷ table) step (h, hs) = (step row h, All-weaken table step hs)

pub All-both :
    (P Q R : String × String → Type 0) (table : Dict String)
    → ((row : String × String) → P row → Q row → R row)
    → All P table
    → All Q table
    → All R table
All-both P Q R [] step _ _ = tt
All-both P Q R (row ∷ table) step (h, hs) (g, gs) = (step row h g, All-both P Q R table step hs gs)

pub lookup-without :
    (k j : String) (c : Dict Value)
    → lookup j (without k (lookup k c) c) ≡ (if k == j then none else lookup j c)
lookup-without k j c = elim (Option-cases (lookup k c)) [
  | inl absent ↦ rw absent (ground (arith, eq_iff k j))
  | inr (v, bound) ↦ rw bound (lookup-erase k j c)
]

without-NodupKeys :
    (k : String) (o : Option Value) (c : Dict Value) → NodupKeys c → NodupKeys (without k o c)
without-NodupKeys k none c u = u
without-NodupKeys k (some v) c u = erase-NodupKeys k c u

rest_of-NodupKeys :
    (table : Dict String) (c : Dict Value) → NodupKeys c → NodupKeys (rest_of table c)
unfolding rest_of
rest_of-NodupKeys [] c u = u
rest_of-NodupKeys ((k, _) ∷ table) c u =
    rest_of-NodupKeys table _ (without-NodupKeys k (lookup k c) c u)

none_if : (b : Bool) → Path (Option Value) (if b then none else none) none
none_if true = refl
none_if false = refl

abbrev is_bound : Option String → Bool
is_bound none = false
is_bound (some a) = true

absent-rest_of :
    (table : Dict String) (k : String) (c : Dict Value)
    → lookup k c ≡ none
    → lookup k (rest_of table c) ≡ none
unfolding rest_of
absent-rest_of [] k c h = h
absent-rest_of ((j, a) ∷ table) k c h =
    absent-rest_of table k (without j (lookup j c) c)
      (lookup-without j k c ∙ ap (λ o. if j == k then none else o) h ∙ none_if (j == k))

lookup-rest_of :
    (table : Dict String) (k : String) (c : Dict Value)
    → lookup k (rest_of table c) ≡ (if is_bound (lookup k table) then none else lookup k c)
unfolding rest_of lookup
lookup-rest_of [] k c = refl
lookup-rest_of ((j, a) ∷ table) k c = elim (Bool-cases (j == k)) [
  | inl this ↦
      rw this
        (absent-rest_of table k (without j (lookup j c) c) (lookup-without j k c ∙ rw this refl))
  | inr other ↦ rw other (
      lookup-rest_of table k (without j (lookup j c) c)
      ∙ ap (λ o. if is_bound (lookup k table) then none else o)
          (lookup-without j k c ∙ rw other refl))
]

bound_if :
    (o : Option String) (v : Option Value) → o ≢ none → (if is_bound o then none else v) ≡ none
bound_if none v h = absurd (h refl)
bound_if (some a) v h = refl

pub rest_of-IsLeft :
    (p : Settings) (c : Dict Value) → IsServed p c → IsLeft p (rest_of project_config_attributes c)
rest_of-IsLeft p c h = record {
  nodup_left = rest_of-NodupKeys project_config_attributes c h.nodup;
  left_bound = λ k free.
      lookup-rest_of project_config_attributes k c
      ∙ ap (λ o. if is_bound o then none else lookup k c) free
      ∙ h.served k;
  left_gone = λ k there.
      lookup-rest_of project_config_attributes k c
      ∙ bound_if (lookup k project_config_attributes) _ there;
}
