-- ===== src/Go/Interfaces.antt =====
-- Values of type `interface{}`, as the Terraform SDK hands them over and takes them back.
use terraform_provider_runde.Common.{
  String, Bool, List, [], ◌∷◌, Option, none, some, ◌==◌, if◌then◌else◌,
}
use terraform_provider_runde.Common.Dict.{Dict}
use terraform_provider_runde.Go.Integers.{ℤ}
use terraform_provider_runde.Go.Results.{Outcome, ok, panic, bad_assertion}

mutual
  pub data Value : Type 0 where
    nil : Value
    bool : Bool → Value
    int : ℤ → Value
    string : String → Value
    -- []interface{}
    list : Values → Value
    -- map[string]interface{}
    object : Fields → Value
    -- []string, and the named types of it
    strings : List String → Value
    -- map[string]string
    string_map : Dict String → Value

  pub data Values : Type 0 where
    end : Values
    cons : Value → Values → Values

  pub data Fields : Type 0 where
    no_fields : Fields
    field : String → Value → Fields → Fields

abbrev pub elems : Values → List Value
elems end = []
elems (cons v vs) = v ∷ elems vs

-- the map literal with these entries
abbrev pub entries : Fields → Dict Value
entries no_fields = []
entries (field k v fs) = (k, v) ∷ entries fs

abbrev pub of_list : List Value → Values
of_list [] = end
of_list (v ∷ vs) = cons v (of_list vs)

abbrev pub of_dict : Dict Value → Fields
of_dict [] = no_fields
of_dict ((k, v) ∷ m) = field k v (of_dict m)

-- `m[k]` on a map[string]interface{}: a missing key gives nil
unfoldable pub get_field : String → Fields → Value
get_field k no_fields = nil
get_field k (field j v fs) = if j == k then v else get_field k fs

-- the type assertions `v.(T)`, which panic on a value of another type
abbrev pub as_string : Value → Outcome String
as_string (string s) = ok s
as_string _ = panic bad_assertion

abbrev pub as_bool : Value → Outcome Bool
as_bool (bool b) = ok b
as_bool _ = panic bad_assertion

abbrev pub as_int : Value → Outcome ℤ
as_int (int n) = ok n
as_int _ = panic bad_assertion

abbrev pub as_list : Value → Outcome (List Value)
as_list (list vs) = ok (elems vs)
as_list _ = panic bad_assertion

abbrev pub as_object : Value → Outcome Fields
as_object (object fs) = ok fs
as_object _ = panic bad_assertion

-- `[]interface{}{v}`
abbrev pub singleton : Value → Value
singleton v = list (of_list (v ∷ []))

-- `if o != nil { m[key] = … }`, on a map that lacks the key
abbrev pub with_entry {ℓ} : {A : Type ℓ} → String → (A → Value) → Option A → Dict Value → Dict Value
with_entry key f none m = m
with_entry key f (some a) m = (key, f a) ∷ m
