-- ===== src/Sdk/Reader.antt =====
-- How the SDK reads back what `d.Set` was given: a parameter, with its documented behaviour as laws.
use terraform_provider_runde.Common.{String, Bool, none, some, List, map, ◌≡◌, false}
use terraform_provider_runde.Common.Dict.{Dict}
use terraform_provider_runde.Go.{
  Value, nil, string, strings, string_map, bool, int, list, end, object, Fields, get_field, of_list,
  of_dict, ℤ,
}
use terraform_provider_runde.Sdk.Schema.{
  Kind, type_string, type_bool, type_int, type_map, type_list, Elem, plain, resource, Attributes,
  kind_of,
}

abbrev pub strings_of : Dict String → Fields
strings_of m = of_dict (map (λ e. (e.0, string e.1)) m)

-- `read kind v` is what `d.Get` returns after `d.Set` of `v` to an attribute of that kind.
pub record SchemaReader : Type 0 where
  pub read : Kind → Value → Value
  pub read_fields : Attributes → Fields → Fields

-- Values of the right type are kept, absent ones are the zero value of their type, and each declared
-- attribute of a nested block is read by itself.
pub record IsReader (r : SchemaReader) : Type 0 where
  pub read-string : (s : String) → r.read type_string (string s) ≡ string s
  pub read-string_nil : r.read type_string nil ≡ string ""
  pub read-bool : (b : Bool) → r.read type_bool (bool b) ≡ bool b
  pub read-bool_nil : r.read type_bool nil ≡ bool false
  pub read-int : (n : ℤ) → r.read type_int (int n) ≡ int n
  pub read-map : (m : Dict String) → r.read type_map (string_map m) ≡ object (strings_of m)
  pub read-object :
      (m : Dict String) → r.read type_map (object (strings_of m)) ≡ object (strings_of m)
  pub read-list_nil : (e : Elem) → r.read (type_list e) nil ≡ list end
  pub read-strings :
      (xs : List String)
      → r.read (type_list (plain type_string)) (strings xs) ≡ list (of_list (map string xs))
  pub read-blocks :
      (attrs : Attributes) (blocks : List Fields)
      → r.read (type_list (resource attrs)) (list (of_list (map object blocks)))
        ≡ list (of_list (map (λ fs. object (r.read_fields attrs fs)) blocks))
  pub get_field-read_fields :
      (k : String) (kind : Kind) (attrs : Attributes) (fs : Fields)
      → kind_of k attrs ≡ some kind
      → get_field k (r.read_fields attrs fs) ≡ r.read kind (get_field k fs)
  pub get_field-read_fields_undeclared :
      (k : String) (attrs : Attributes) (fs : Fields)
      → kind_of k attrs ≡ none
      → get_field k (r.read_fields attrs fs) ≡ nil
