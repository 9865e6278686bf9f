-- ===== src/Project/Served/Attributes.antt =====
-- What `ReadProject` makes of the properties that stand for attributes, and what it leaves.
use terraform_provider_runde.Common.{
  String, true, false, ◌==◌, eq_iff, eq_refl, if◌then◌else◌, All, Option, none, some, [], ◌∷◌, ◌++◌,
  ◌≡◌, ◌≢◌, refl, sym, ap, ◌∙◌, inl, inr, Bool-cases, Option-cases, arith,
}
use terraform_provider_runde.Common.Dict.{Dict, lookup, erase}
use terraform_provider_runde.Common.Bindings.{written, later-none, lookup_more, lookup_first}
use terraform_provider_runde.Go.{Value, nil, string}
use terraform_provider_runde.Sdk.Reader.{SchemaReader, IsReader}
use terraform_provider_runde.Sdk.{type_string}
use terraform_provider_runde.Project.{project_config_attributes}
use terraform_provider_runde.Project.Operations.{without}
use terraform_provider_runde.Project.Update.Settings.{Settings, attribute_pairs}
use terraform_provider_runde.Project.Served.{IsReadable, IsServed, text_of}
use terraform_provider_runde.Project.Served.Keys.{lookup-attribute_key}
use terraform_provider_runde.Project.Served.Writes.{found_write, attribute_writes}
use terraform_provider_runde.Project.Served.Rest.{
  IsApart, DistinctRows, distinct_attributes, All-weaken, All-both, lookup-without,
}

abbrev pub or_nil : Option Value → Value
or_nil none = nil
or_nil (some v) = v

not_written :
    (table : Dict String) (c : Dict Value) (k : String)
    → All (λ (row : String × String). (row.1 == k) ≡ false) table
    → written k (attribute_writes table c) ≡ none
unfolding attribute_writes
not_written [] c k _ = refl
not_written ((j, a) ∷ table) c k (h, hs) = elim (Option-cases (lookup j c)) [
  | inl absent ↦ rw (absent, not_written table c k hs, h) refl
  | inr (v, bound) ↦ rw (bound, not_written table (erase j c) k hs, h) refl
]

-- the writes of the first row, and what the other rows write
written-row :
    (k a : String) (o : Option Value) (rest : Dict Value)
    → (a == k) ≡ true
    → written k rest ≡ none
    → written k ((a, nil) ∷ (found_write a o ++ rest)) ≡ some (or_nil o)
written-row k a none rest h g = rw (g, h) refl
written-row k a (some v) rest h g = rw (g, h) refl

written-later_row :
    (k a : String) (o : Option Value) (rest : Dict Value) {v : Value}
    → written k rest ≡ some v
    → written k ((a, nil) ∷ (found_write a o ++ rest)) ≡ some v
written-later_row k a none rest g = rw g refl
written-later_row k a (some w) rest g = rw g refl

-- Every attribute is written last with its property, or with nil where there is none.
attribute_written :
    (table : Dict String) (c : Dict Value)
    → DistinctRows table
    → All
        (λ (row : String × String).
          written row.1 (attribute_writes table c) ≡ some (or_nil (lookup row.0 c)))
        table
unfolding attribute_writes
attribute_written [] c _ = tt
attribute_written ((j, a) ∷ table) c (apart, distinct) =
    let c' = without j (lookup j c) c in
    let rest = attribute_writes table c' in
    (
      written-row a a (lookup j c) rest (eq_refl a)
          (not_written table c' a (All-weaken table (λ row h. h.1) apart)),
      All-both (IsApart (j, a)) _ _ table
          (λ row h g. written-later_row row.1 a (lookup j c) rest (
            g
            ∙ ap (λ o. some (or_nil o))
                (lookup-without j row.0 c ∙ ap (λ b. if b then none else lookup row.0 c) h.0)))
          apart (attribute_written table c' distinct),
    )

-- a text that is not empty
abbrev given : String → Option String
given v = if v == "" then none else some v

abbrev put_given : String → String → Dict String → Dict String
put_given k v pairs = if v == "" then pairs else (k, v) ∷ pairs

eq_sym : (j k : String) → (j == k) ≡ false → (k == j) ≡ false
eq_sym j k h = ground (arith, eq_iff j k, eq_iff k j)

put_given_same :
    (k v : String) (pairs : Dict String)
    → written k pairs ≡ none
    → written k (put_given k v pairs) ≡ given v
put_given_same k v pairs h = elim (Bool-cases (v == "")) [
  | inl blank ↦ rw blank h
  | inr full ↦ rw (full, h, eq_refl k) refl
]

put_given_other :
    (j k v : String) (pairs : Dict String)
    → (j == k) ≡ false
    → written k (put_given j v pairs) ≡ written k pairs
put_given_other j k v pairs h = elim (Bool-cases (v == "")) [
  | inl blank ↦ rw blank refl
  | inr full ↦ rw (full, h) (later-none (written k pairs))
]

pairs_without :
    (table : Dict String) (values : String → String) (k : String)
    → All (λ (row : String × String). (row.0 == k) ≡ false) table
    → written k (attribute_pairs table values) ≡ none
unfolding attribute_pairs
pairs_without [] values k _ = refl
pairs_without ((j, a) ∷ table) values k (h, hs) =
    put_given_other j k (values a) (attribute_pairs table values) h
    ∙ pairs_without table values k hs

-- The property of every attribute is sent, unless it is empty.
property_given :
    (table : Dict String) (values : String → String)
    → DistinctRows table
    → All
        (λ (row : String × String).
          written row.0 (attribute_pairs table values) ≡ given (values row.1))
        table
unfolding attribute_pairs
property_given [] values _ = tt
property_given ((j, a) ∷ table) values (apart, distinct) =
    let pairs = attribute_pairs table values in
    (
      put_given_same j (values a) pairs
          (pairs_without table values j (All-weaken table (λ row h. eq_sym j row.0 h.0) apart)),
      All-both (IsApart (j, a)) _ _ table
          (λ row h g. put_given_other j row.0 (values a) pairs h.0 ∙ g) apart
          (property_given table values distinct),
    )

abbrev table : Dict String
table = project_config_attributes

All-bound :
    (rows : Dict String)
    → ((row : String × String) → lookup row.0 rows ≢ none → lookup row.0 table ≢ none)
    → All (λ (row : String × String). lookup row.0 table ≢ none) rows
unfolding lookup
All-bound [] h = tt
All-bound (row ∷ rows) h = (
  h row (lookup_first row.0 row.1 rows),
  All-bound rows (λ other b. h other (lookup_more other.0 row.0 row.1 rows b)),
)

module _ (r : SchemaReader) (reads : IsReader r) where
  read_given : (v : String) → r.read type_string (or_nil (text_of (given v))) ≡ string v
  read_given v = elim (Bool-cases (v == "")) [
    | inl blank ↦ rw blank (reads.read-string_nil ∙ ap string (sym ((eq_iff v "").0 blank)))
    | inr full ↦ rw full (reads.read-string v)
  ]

  -- the last write of this row's attribute is read as in the settings
  abbrev pub IsReadBack : Settings → Dict Value → String × String → Type 0
  IsReadBack p c row =
      (v : Value) × (written row.1 (attribute_writes table c) ≡ some v)
      × (r.read type_string v ≡ string (p.attributes row.1))

  -- What is read of every attribute is the one of the settings.
  pub attributes_back :
      (p : Settings) (c : Dict Value) → IsReadable p → IsServed p c → All (IsReadBack p c) table
  attributes_back p c ready served =
      All-both (λ row. written row.1 (attribute_writes table c) ≡ some (or_nil (lookup row.0 c)))
        (λ row. lookup row.0 c ≡ text_of (given (p.attributes row.1))) (IsReadBack p c) table
        (λ row h g. (
          or_nil (lookup row.0 c),
          h,
          ap (λ o. r.read type_string (or_nil o)) g ∙ read_given (p.attributes row.1),
        ))
        (attribute_written table c distinct_attributes)
        (All-both (λ row. lookup row.0 table ≢ none)
          (λ row. written row.0 (attribute_pairs table p.attributes) ≡ given (p.attributes row.1))
          (λ row. lookup row.0 c ≡ text_of (given (p.attributes row.1))) table
          (λ row b g. served.served row.0 ∙ ap text_of (lookup-attribute_key p ready row.0 b ∙ g))
          (All-bound table (λ row b. b)) (property_given table p.attributes distinct_attributes))
