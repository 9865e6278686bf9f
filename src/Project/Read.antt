-- ===== src/Project/Read.antt =====
-- rundeck/resource_project.go: how `ReadProject` takes the server's properties apart.
pub mod Steps
pub mod Sources
pub mod Indices
pub mod Order
pub mod Configs
use text.Mathlib.Text.{starts_with}
use terraform_provider_runde.Common.{
  String, Bool, if◌then◌else◌, ◌==◌, Option, none, some, List, [], ◌∷◌, map,
}
use terraform_provider_runde.Common.Dict.{Dict, lookup, insert, erase}
use terraform_provider_runde.Common.Texts.{split}
use terraform_provider_runde.Go.{
  Outcome, ok, panic, bad_assertion, ◌>>=◌, traverse, ℤ, int_le, int_eq, Value, as_string, object,
  of_dict, of_list, list, with_entry, Fields,
}
use terraform_provider_runde.Go.Decimal.{atoi}
use terraform_provider_runde.Project.{dot_to_slash}

-- What the loop over the properties makes of a key. The cases are its branches: the key is kept and no
-- source is made; the source of an index is made and the key is kept; the key is the type, or an entry
-- of the configuration, of the source of an index.
pub data Part : Type 0 where
  unrelated : Part
  unknown_field : ℤ → Part
  type_of : ℤ → Part
  config_of : ℤ → String → Part

-- the `switch`, with the parts behind `nameParts[3]`
abbrev pub field_part : ℤ → String → List String → Part
field_part index name [] = if name == "type" then type_of index else unknown_field index
field_part index name (k ∷ []) = if name == "config" then config_of index k else unknown_field index
field_part index name (k ∷ l ∷ rest) = unknown_field index

abbrev pub indexed_part : Option ℤ → String → List String → Part
indexed_part none name rest = unrelated
indexed_part (some index) name rest = field_part index name rest

abbrev pub parts_part : List String → Part
parts_part (first ∷ second ∷ number ∷ name ∷ rest) = indexed_part (atoi number) name rest
parts_part _ = unrelated

unfoldable pub part_of : String → Part
part_of key = if starts_with key "resources.source." then parts_part (split "." key) else unrelated

-- An entry of `resourceSourceMap`. Its `config` is the map that `configMaps` holds for the same index,
-- so that one field stands for both.
pub record Source : Type 0 where
  pub type : Option Value
  pub config : Dict Value

abbrev pub new_source : Source
new_source = record { type = none; config = [] }

abbrev pub with_type : Value → Source → Source
with_type v source = record source { type = some v }

abbrev pub with_config : String → Value → Source → Source
with_config k v source = record source { config = insert k v source.config }

abbrev pub SourceMap : Type 0
SourceMap = List (ℤ × Source)

-- The source of an index is made if it is missing, and changed.
unfoldable pub change_source : ℤ → (Source → Source) → SourceMap → SourceMap
change_source index f [] = (index, f new_source) ∷ []
change_source index f ((j, source) ∷ rest) =
    if int_eq j index then (j, f source) ∷ rest else (j, source) ∷ change_source index f rest

pub record Scan : Type 0 where
  pub sources : SourceMap
  -- `projectConfig`
  pub config : Dict Value

abbrev pub apply_part : Part → String → Value → Scan → Scan
apply_part unrelated key v s = s
apply_part (unknown_field i) key v s = record s {
  sources = change_source i (λ source. source) s.sources;
}
apply_part (type_of i) key v s = record {
  sources = change_source i (with_type v) s.sources;
  config = erase key s.config;
}
apply_part (config_of i k) key v s = record {
  sources = change_source i (with_config k v) s.sources;
  config = erase key s.config;
}

-- The loop visits the properties that there are when it begins: only the visited key is deleted.
unfoldable pub visit_all : Dict Value → Scan → Scan
visit_all [] s = s
visit_all ((key, v) ∷ rest) s = visit_all rest (apply_part (part_of key) key v s)

abbrev pub scan_config : Dict Value → Scan
scan_config config = visit_all config (record { sources = []; config = config })

-- `sort.Ints`
unfoldable pub insert_int : ℤ → List ℤ → List ℤ
insert_int i [] = i ∷ []
insert_int i (j ∷ js) = let rest = insert_int i js in if int_le i j then i ∷ j ∷ js else j ∷ rest

unfoldable pub sort_ints : List ℤ → List ℤ
sort_ints [] = []
sort_ints (i ∷ is) = insert_int i (sort_ints is)

unfoldable pub source_at : ℤ → SourceMap → Option Source
source_at index [] = none
source_at index ((j, source) ∷ rest) = if int_eq j index then some source else source_at index rest

abbrev pub indices : SourceMap → List ℤ
indices m = map (λ e. e.0) m

-- `resourceSourceMap[index].(map[string]interface{})`
abbrev pub asserted : Option Source → Outcome Source
asserted none = panic bad_assertion
asserted (some source) = ok source

-- `resourceSources`
unfoldable pub resource_sources : SourceMap → Outcome (List Source)
resource_sources m = traverse (λ i. asserted (source_at i m)) (sort_ints (indices m))

abbrev pub source_fields : Source → Fields
source_fields source =
    of_dict
      (with_entry "type" (λ v. v) source.type (("config", object (of_dict source.config)) ∷ []))

abbrev pub sources_value : List Source → Value
sources_value sources = list (of_list (map object (map source_fields sources)))

-- the loop that makes `extraConfig` of the properties that are left
unfoldable pub extra_config : Dict Value → Dict String → Outcome (Dict String)
extra_config [] m = ok m
extra_config ((k, v) ∷ rest) m =
    as_string v >>= λ text. extra_config rest (insert (dot_to_slash k) text m)
