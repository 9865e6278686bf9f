-- ===== src/Sdk/Settable.antt =====
-- Which values `d.Set` takes: a parameter's documented behaviour.
use terraform_provider_runde.Common.{String, Bool, true, none, some, ◌≡◌, ◌⊎◌, All}
use terraform_provider_runde.Common.Dict.{Dict}
use terraform_provider_runde.Go.{
  Value, nil, string, bool, int, list, object, Fields, get_field, string_map, ℤ, Values, elems,
}
use terraform_provider_runde.Sdk.Schema.{
  Kind, type_string, type_bool, type_int, type_map, type_list, Elem, plain, resource, Attributes,
  no_attributes, attribute, kind_of, all_declared,
}
use terraform_provider_runde.Sdk.Reader.{strings_of}
use terraform_provider_runde.Sdk.ResourceData.{ResourceData}

-- nil, or a value of the attribute's type, in a nested block with no field that is not declared
abbrev mutual
  pub Settable : Kind → Value → Type 0
  Settable type_string v = (v ≡ nil) ⊎ ((s : String) × (v ≡ string s))
  Settable type_bool v = (v ≡ nil) ⊎ ((b : Bool) × (v ≡ bool b))
  Settable type_int v = (v ≡ nil) ⊎ ((n : ℤ) × (v ≡ int n))
  Settable type_map v =
      (v ≡ nil) ⊎ ((m : Dict String) × ((v ≡ string_map m) ⊎ (v ≡ object (strings_of m))))
  Settable (type_list e) v =
      (v ≡ nil) ⊎ ((vs : Values) × (v ≡ list vs) × All (ElemSettable e) (elems vs))

  pub ElemSettable : Elem → Value → Type 0
  ElemSettable (plain kind) v = Settable kind v
  ElemSettable (resource attrs) v =
      (fs : Fields) × (v ≡ object fs) × FieldsSettable attrs fs × (all_declared attrs fs ≡ true)

  pub FieldsSettable : Attributes → Fields → Type 0
  FieldsSettable no_attributes fs = Unit
  FieldsSettable (attribute k kind flags rest) fs =
      Settable kind (get_field k fs) × FieldsSettable rest fs

-- the value of a declared attribute, which its kind allows
abbrev pub IsSettable : Attributes → String × Value → Type 0
IsSettable attrs e = (kind : Kind) × (kind_of e.0 attrs ≡ some kind) × Settable kind e.1

-- `d.Set` refuses no such value.
abbrev pub Accepts : {S : Type 0} → Attributes → ResourceData S → Type 0
Accepts attrs d =
    (k : String) (v : Value) (s : _) → IsSettable attrs (k, v) → (d.set_value k v s).0 ≡ none
