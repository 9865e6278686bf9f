-- ===== src/Tests/Conformance.antt =====
-- A test for values of a declared type, so that concrete values conform by evaluation.
use mathlib.Core.Path.{subst₂}
use terraform_provider_runde.Common.{
  String, ◌==◌, eq_iff, inl, inr, Bool-cases, some, ◌≡◌, refl, true, false, Bool, ◌&&◌, List, [],
  ◌∷◌, arith, All,
}
use terraform_provider_runde.Go.{
  Value, string, bool, int, list, object, Fields, no_fields, field, get_field, elems,
}
use terraform_provider_runde.Sdk.{
  Attributes, no_attributes, attribute, Elem, plain, resource, type_list, type_string, type_bool,
  type_int, type_map, Kind, kind_of, Conforms, ElemConforms, FieldsConform, AllStrings,
  all_declared,
}

abbrev all : (Value → Bool) → List Value → Bool
all p [] = true
all p (v ∷ vs) = p v && all p vs

abbrev all_strings : Fields → Bool
all_strings no_fields = true
all_strings (field k (string s) fs) = all_strings fs
all_strings (field k v fs) = false

abbrev is_string : Value → Bool
is_string (string s) = true
is_string _ = false

abbrev is_bool : Value → Bool
is_bool (bool s) = true
is_bool _ = false

abbrev is_int : Value → Bool
is_int (int s) = true
is_int _ = false

abbrev is_map : Value → Bool
is_map (object fs) = all_strings fs
is_map _ = false

abbrev is_list : (Value → Bool) → Value → Bool
is_list p (list vs) = all p (elems vs)
is_list p _ = false

abbrev is_object : (Fields → Bool) → Value → Bool
is_object p (object fs) = p fs
is_object p _ = false

unfoldable mutual
  pub conforms : Kind → Value → Bool
  conforms type_string v = is_string v
  conforms type_bool v = is_bool v
  conforms type_int v = is_int v
  conforms type_map v = is_map v
  conforms (type_list e) v = is_list (elem_conforms e) v

  pub elem_conforms : Elem → Value → Bool
  elem_conforms (plain kind) v = conforms kind v
  elem_conforms (resource attrs) v =
      is_object (λ fs. fields_conform attrs fs && all_declared attrs fs) v

  pub fields_conform : Attributes → Fields → Bool
  fields_conform no_attributes fs = true
  fields_conform (attribute k kind flags rest) fs =
      conforms kind (get_field k fs) && fields_conform rest fs

&&-left : (a b : Bool) → (a && b) ≡ true → a ≡ true
&&-left a b h = ground arith

&&-right : (a b : Bool) → (a && b) ≡ true → b ≡ true
&&-right a b h = ground arith

all_strings-AllStrings : (fs : Fields) → all_strings fs ≡ true → AllStrings fs
all_strings-AllStrings no_fields h = tt
all_strings-AllStrings (field k (string s) fs) h = ((s, refl), all_strings-AllStrings fs h)
all_strings-AllStrings (field k v fs) h = cc

all-All :
    (p : Value → Bool) (P : Value → Type 0)
    → ((v : Value) → p v ≡ true → P v)
    → (vs : List Value) → all p vs ≡ true
    → All P vs
all-All p P sound [] h = tt
all-All p P sound (v ∷ vs) h =
    (sound v (&&-left (p v) _ h), all-All p P sound vs (&&-right (p v) _ h))

is_string-Conforms : (v : Value) → is_string v ≡ true → Conforms type_string v
is_string-Conforms (string s) h = (s, refl)
is_string-Conforms _ h = cc

is_bool-Conforms : (v : Value) → is_bool v ≡ true → Conforms type_bool v
is_bool-Conforms (bool s) h = (s, refl)
is_bool-Conforms _ h = cc

is_int-Conforms : (v : Value) → is_int v ≡ true → Conforms type_int v
is_int-Conforms (int s) h = (s, refl)
is_int-Conforms _ h = cc

is_map-Conforms : (v : Value) → is_map v ≡ true → Conforms type_map v
is_map-Conforms (object fs) h = (fs, refl, all_strings-AllStrings fs h)
is_map-Conforms _ h = cc

is_list-Conforms :
    (e : Elem) (p : Value → Bool)
    → ((v : Value) → p v ≡ true → ElemConforms e v)
    → (v : Value) → is_list p v ≡ true
    → Conforms (type_list e) v
is_list-Conforms e p sound (list vs) h = (vs, refl, all-All p (ElemConforms e) sound (elems vs) h)
is_list-Conforms e p sound _ h = cc

is_object-ElemConforms :
    (attrs : Attributes) (p : Fields → Bool)
    → ((fs : Fields) → p fs ≡ true → FieldsConform attrs fs)
    → (v : Value) → is_object (λ fs. p fs && all_declared attrs fs) v ≡ true
    → ElemConforms (resource attrs) v
is_object-ElemConforms attrs p sound (object fs) h =
    (fs, refl, sound fs (&&-left (p fs) _ h), &&-right (p fs) _ h)
is_object-ElemConforms attrs p sound _ h = cc

mutual
  unfolding conforms

  conforms_kind : (kind : Kind) (v : Value) → conforms kind v ≡ true → Conforms kind v
  conforms_kind type_string v h = is_string-Conforms v h
  conforms_kind type_bool v h = is_bool-Conforms v h
  conforms_kind type_int v h = is_int-Conforms v h
  conforms_kind type_map v h = is_map-Conforms v h
  conforms_kind (type_list e) v h = is_list-Conforms e (elem_conforms e) (conforms_elem e) v h

  conforms_elem : (e : Elem) (v : Value) → elem_conforms e v ≡ true → ElemConforms e v
  conforms_elem (plain kind) v h = conforms_kind kind v h
  conforms_elem (resource attrs) v h =
      is_object-ElemConforms attrs (fields_conform attrs) (conforms_fields attrs) v h

  conforms_fields :
      (attrs : Attributes) (fs : Fields) → fields_conform attrs fs ≡ true → FieldsConform attrs fs
  conforms_fields no_attributes fs h = tt
  conforms_fields (attribute k kind flags rest) fs h = (
    conforms_kind kind (get_field k fs) (&&-left (conforms kind (get_field k fs)) _ h),
    conforms_fields rest fs (&&-right (conforms kind (get_field k fs)) _ h),
  )

pub elem_conforms-ElemConforms :
    (e : Elem) (v : Value) → elem_conforms e v ≡ true → ElemConforms e v
elem_conforms-ElemConforms = conforms_elem

pub fields_conform-FieldsConform :
    (attrs : Attributes) (fs : Fields) → fields_conform attrs fs ≡ true → FieldsConform attrs fs
fields_conform-FieldsConform = conforms_fields

-- a declared attribute of conforming fields conforms
pub get_field-Conforms :
    (k : String) (kind : Kind) (attrs : Attributes) (fs : Fields)
    → FieldsConform attrs fs
    → kind_of k attrs ≡ some kind
    → Conforms kind (get_field k fs)
get_field-Conforms k kind no_attributes fs _ h = cc
get_field-Conforms k kind (attribute j other flags rest) fs (c, cs) h = elim (Bool-cases (j == k)) [
  | inl same ↦
      let kinds : other ≡ kind = ground arith in
      let keys : j ≡ k = ground (arith, eq_iff j k) in
      subst₂ (λ l other. Conforms other (get_field l fs)) keys kinds c
  | inr other' ↦ get_field-Conforms k kind rest fs cs (ground arith)
]
