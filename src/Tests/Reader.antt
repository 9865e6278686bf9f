-- ===== src/Tests/Reader.antt =====
-- A reader that meets the laws of Sdk/Reader.antt.
use terraform_provider_runde.Common.{
  String, eq_iff, ap, ◌≡◌, refl, false, List, [], ◌∷◌, none, some, map, arith,
}
use terraform_provider_runde.Go.{
  Value, Values, nil, string, bool, int, pos, list, end, cons, object, strings, string_map, Fields,
  no_fields, field, get_field, of_list,
}
use terraform_provider_runde.Sdk.{
  Attributes, no_attributes, attribute, Elem, plain, resource, type_list, type_string, type_bool,
  type_int, type_map, Kind, kind_of,
}
use terraform_provider_runde.Sdk.Reader.{SchemaReader, IsReader, strings_of}

abbrev map_values : (Value → Value) → Values → Values
map_values f end = end
map_values f (cons v vs) = cons (f v) (map_values f vs)

abbrev strings_list : Value → Values
strings_list (strings xs) = of_list (map string xs)
strings_list (list vs) = vs
strings_list _ = end

abbrev read_string : Value → Value
read_string (string s) = string s
read_string _ = string ""

abbrev read_bool : Value → Value
read_bool (bool b) = bool b
read_bool _ = bool false

abbrev read_int : Value → Value
read_int (int n) = int n
read_int _ = int (pos 0)

abbrev read_map : Value → Value
read_map (string_map m) = object (strings_of m)
read_map (object fs) = object fs
read_map _ = object no_fields

abbrev fields_in : Value → Fields
fields_in (object fs) = fs
fields_in _ = no_fields

unfoldable mutual
  pub read_value : Kind → Value → Value
  read_value type_string v = read_string v
  read_value type_bool v = read_bool v
  read_value type_int v = read_int v
  read_value type_map v = read_map v
  read_value (type_list e) v = list (map_values (read_elem e) (strings_list v))

  pub read_elem : Elem → Value → Value
  read_elem (plain kind) v = read_value kind v
  read_elem (resource attrs) v = object (read_attributes attrs (fields_in v))

  pub read_attributes : Attributes → Fields → Fields
  read_attributes no_attributes fs = no_fields
  read_attributes (attribute k kind flags rest) fs =
      field k (read_value kind (get_field k fs)) (read_attributes rest fs)

abbrev pub plain_reader : SchemaReader
plain_reader = record { read = read_value; read_fields = read_attributes }

read-strings :
    (xs : List String)
    → map_values (read_elem (plain type_string)) (of_list (map string xs)) ≡ of_list (map string xs)
unfolding read_value
read-strings [] = refl
read-strings (x ∷ xs) = ap (cons (string x)) (read-strings xs)

read-blocks :
    (attrs : Attributes) (blocks : List Fields)
    → map_values (read_elem (resource attrs)) (of_list (map object blocks))
      ≡ of_list (map (λ fs. object (read_attributes attrs fs)) blocks)
unfolding read_value
read-blocks attrs [] = refl
read-blocks attrs (fs ∷ blocks) =
    ap (cons (object (read_attributes attrs fs))) (read-blocks attrs blocks)

read-declared :
    (k : String) (kind : Kind) (attrs : Attributes) (fs : Fields)
    → kind_of k attrs ≡ some kind
    → get_field k (read_attributes attrs fs) ≡ read_value kind (get_field k fs)
unfolding read_value get_field
read-declared k kind no_attributes fs h = cc
read-declared k kind (attribute j other flags rest) fs h =
    ground (arith, read-declared k kind rest fs, eq_iff j k)

read-undeclared :
    (k : String) (attrs : Attributes) (fs : Fields)
    → kind_of k attrs ≡ none
    → get_field k (read_attributes attrs fs) ≡ nil
unfolding read_value get_field
read-undeclared k no_attributes fs h = refl
read-undeclared k (attribute j other flags rest) fs h =
    ground (arith, read-undeclared k rest fs, eq_iff j k)

pub plain_reader-IsReader : IsReader plain_reader
unfolding read_value
plain_reader-IsReader = record {
  read-string = λ s. refl;
  read-string_nil = refl;
  read-bool = λ b. refl;
  read-bool_nil = refl;
  read-int = λ n. refl;
  read-map = λ m. refl;
  read-object = λ m. refl;
  read-list_nil = λ e. refl;
  read-strings = λ xs. ap list (read-strings xs);
  read-blocks = λ attrs blocks. ap list (read-blocks attrs blocks);
  get_field-read_fields = read-declared;
  get_field-read_fields_undeclared = read-undeclared;
}
