-- ===== src/Sdk/Schema.antt =====
-- `schema.Schema` and `schema.Resource` as data. Descriptions are left out.
use terraform_provider_runde.Common.{
  String, Bool, true, false, ◌&&◌, Option, none, some, ◌≡◌, refl, arith, eq_iff, All, ◌==◌,
  if◌then◌else◌,
}
use terraform_provider_runde.Go.{
  Value, nil, string, bool, int, list, object, Fields, no_fields, field, get_field, ℤ, Values,
  elems,
}

pub record Flags : Type 0 where
  pub required : Bool
  pub optional : Bool
  pub computed : Bool
  pub force_new : Bool
  pub default : Option Value

mutual
  -- `Type`, with the `Elem` of a list
  pub data Kind : Type 0 where
    type_string : Kind
    type_bool : Kind
    type_int : Kind
    type_map : Kind
    type_list : Elem → Kind

  pub data Elem : Type 0 where
    -- `Elem: &schema.Schema{Type: …}`
    plain : Kind → Elem
    -- `Elem: &schema.Resource{…}`
    resource : Attributes → Elem

  pub data Attributes : Type 0 where
    no_attributes : Attributes
    attribute : String → Kind → Flags → Attributes → Attributes

abbrev pub optional : Flags
optional = record {
  required = false;
  optional = true;
  computed = false;
  force_new = false;
  default = none;
}

abbrev pub required : Flags
required = record optional { required = true; optional = false }

abbrev pub optional_default : Value → Flags
optional_default v = record optional { default = some v }

abbrev pub forces_new : Flags → Flags
forces_new f = record f { force_new = true }

abbrev pub is_computed : Flags → Flags
is_computed f = record f { computed = true }

abbrev pub computed : Flags
computed = record optional { optional = false; computed = true }

abbrev pub kind_of : String → Attributes → Option Kind
kind_of k no_attributes = none
kind_of k (attribute j kind flags rest) = if j == k then some kind else kind_of k rest

abbrev pub is_declared : String → Attributes → Bool
is_declared k no_attributes = false
is_declared k (attribute j kind flags rest) = if j == k then true else is_declared k rest

-- the fields of a block are among its attributes
abbrev pub all_declared : Attributes → Fields → Bool
all_declared attrs no_fields = true
all_declared attrs (field k v fs) = is_declared k attrs && all_declared attrs fs

abbrev pub AllStrings : Fields → Type 0
AllStrings no_fields = Unit
AllStrings (field k v fs) = ((s : String) × (v ≡ string s)) × AllStrings fs

-- What `d.Get` of an attribute returns: a value of the attribute's type, in a nested block with a
-- field for every declared attribute and no other.
abbrev mutual
  pub Conforms : Kind → Value → Type 0
  Conforms type_string v = (s : String) × (v ≡ string s)
  Conforms type_bool v = (b : Bool) × (v ≡ bool b)
  Conforms type_int v = (n : ℤ) × (v ≡ int n)
  Conforms type_map v = (fs : Fields) × (v ≡ object fs) × AllStrings fs
  Conforms (type_list e) v = (vs : Values) × (v ≡ list vs) × All (ElemConforms e) (elems vs)

  pub ElemConforms : Elem → Value → Type 0
  ElemConforms (plain kind) v = Conforms kind v
  ElemConforms (resource attrs) v =
      (fs : Fields) × (v ≡ object fs) × FieldsConform attrs fs × (all_declared attrs fs ≡ true)

  pub FieldsConform : Attributes → Fields → Type 0
  FieldsConform no_attributes fs = Unit
  FieldsConform (attribute k kind flags rest) fs =
      Conforms kind (get_field k fs) × FieldsConform rest fs

pub get_field_undeclared :
    (k : String) (attrs : Attributes) (fs : Fields)
    → is_declared k attrs ≡ false
    → all_declared attrs fs ≡ true
    → get_field k fs ≡ nil
unfolding get_field
get_field_undeclared k attrs no_fields _ _ = refl
get_field_undeclared k attrs (field j v fs) h d =
    ground (arith, get_field_undeclared k attrs fs h, eq_iff j k)
