-- ===== src/Sdk/Reading.antt =====
-- Reading back what an encoder wrote, by the laws of the SDK's reader: plain attributes, and blocks
-- that are absent or single.
use terraform_provider_runde.Common.{
  String, Bool, ap, ◌∙◌, ◌==◌, eq_iff, ◌≡◌, refl, false, List, [], ◌∷◌, map, Option, none, some,
  arith,
}
use terraform_provider_runde.Common.Dict.{Dict}
use terraform_provider_runde.Go.{
  Value, nil, string, bool, list, end, cons, object, Fields, get_field, of_dict, singleton,
  with_entry, ok, traverse, as_string, elems, of_list,
}
use terraform_provider_runde.Sdk.Schema.{
  Attributes, resource, type_list, type_string, type_bool, Kind, kind_of,
}
use terraform_provider_runde.Sdk.Reader.{SchemaReader, IsReader}

abbrev pub value_or {ℓ} : {A : Type ℓ} → (A → Value) → Option A → Value → Value
value_or f none v = v
value_or f (some a) v = f a

abbrev pub AllSome {ℓ κ} : {A : Type ℓ} → (A → Type κ) → Option A → Type κ
AllSome P none = Unit
AllSome P (some a) = P a

pub get_field-with_entry {ℓ} :
    {A : Type ℓ} (k : String) (f : A → Value) (o : Option A) (m : Dict Value)
    → get_field k (of_dict (with_entry k f o m)) ≡ value_or f o (get_field k (of_dict m))
unfolding get_field
get_field-with_entry k f none m = refl
get_field-with_entry k f (some a) m = ground (arith, eq_iff k k)

pub get_field-with_entry_ne {ℓ} :
    {A : Type ℓ} (j k : String) (f : A → Value) (o : Option A) (m : Dict Value)
    → (j == k) ≡ false
    → get_field k (of_dict (with_entry j f o m)) ≡ get_field k (of_dict m)
unfolding get_field
get_field-with_entry_ne j k f none m h = refl
get_field-with_entry_ne j k f (some a) m h = rw h

pub strings_back : (xs : List String) → traverse as_string (elems (of_list (map string xs))) ≡ ok xs
unfolding traverse
strings_back [] = refl
strings_back (x ∷ xs) = rw (strings_back xs)

-- a block that is absent or single, as the reader gives it
unfoldable pub block {ℓ} :
    (r : SchemaReader) {A : Type ℓ} (attrs : Attributes) (f : A → Fields) (o : Option A) → Value
block r attrs f o =
    r.read (type_list (resource attrs)) (value_or (λ a. singleton (object (f a))) o nil)

module _ (r : SchemaReader) (reads : IsReader r) where
  pub field_read :
      (k : String) (kind : Kind) (attrs : Attributes) (fs : Fields) {v : Value}
      → kind_of k attrs ≡ some kind
      → get_field k fs ≡ v
      → get_field k (r.read_fields attrs fs) ≡ r.read kind v
  field_read k kind attrs fs h e =
      reads.get_field-read_fields k kind attrs fs h ∙ ap (r.read kind) e

  pub string_read :
      (k s : String) (attrs : Attributes) (fs : Fields)
      → kind_of k attrs ≡ some type_string
      → get_field k fs ≡ string s
      → get_field k (r.read_fields attrs fs) ≡ string s
  string_read k s attrs fs h e = field_read k type_string attrs fs h e ∙ reads.read-string s

  pub bool_read :
      (k : String) (b : Bool) (attrs : Attributes) (fs : Fields)
      → kind_of k attrs ≡ some type_bool
      → get_field k fs ≡ bool b
      → get_field k (r.read_fields attrs fs) ≡ bool b
  bool_read k b attrs fs h e = field_read k type_bool attrs fs h e ∙ reads.read-bool b

  pub block-none :
      {A : Type 0} (attrs : Attributes) (f : A → Fields) → block r attrs f none ≡ list end
  unfolding block
  block-none attrs f = reads.read-list_nil (resource attrs)

  pub block-some :
      {A : Type 0} (attrs : Attributes) (f : A → Fields) (a : A)
      → block r attrs f (some a) ≡ list (cons (object (r.read_fields attrs (f a))) end)
  unfolding block
  block-some attrs f a = reads.read-blocks attrs (f a ∷ [])
