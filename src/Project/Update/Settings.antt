-- ===== src/Project/Update/Settings.antt =====
-- The settings of a project, as the resource data hold them, and the properties that `UpdateProject`
-- sends for them.
use terraform_provider_runde.Common.{
  String, ℕ, ◌+◌, ◌<>◌, ◌==◌, if◌then◌else◌, Bool-cases, inl, inr, All, AllPairs, List, [], ◌∷◌,
  ◌++◌, map, ◌≡◌, refl, sym, ap, ◌∙◌,
}
use terraform_provider_runde.Common.Dict.{Dict, insert}
use terraform_provider_runde.Common.Bindings.{insert_all, insert_all-append}
use terraform_provider_runde.Go.{
  ok, Value, string, list, object, Fields, get_field, of_list, of_dict, elems, entries,
}
use terraform_provider_runde.Sdk.Reader.{strings_of}
use terraform_provider_runde.Project.{project_config_attributes, slash_to_dot}
use terraform_provider_runde.Project.Update.{
  put_extra, put_extra_config, put_attributes, type_key, config_key_prefix, put_config, put_source,
  put_sources, update_map,
}

-- a resource model source
pub record Plugin : Type 0 where
  pub type : String
  pub config : Dict String

pub record Settings : Type 0 where
  -- by the attribute's name
  pub attributes : String → String
  pub extra : Dict String
  pub sources : List Plugin

abbrev pub HoldsPlugin : Plugin → Value → Type 0
HoldsPlugin plugin v =
    (fs : Fields) × (v ≡ object fs)
    × (get_field "type" fs ≡ string plugin.type)
    × (get_field "config" fs ≡ object (strings_of plugin.config))

-- What `d.Get` returns are these settings.
pub record HoldsSettings (get : String → Value) (p : Settings) : Type 0 where
  pub blocks : List Value
  pub held_extra : get "extra_config" ≡ object (strings_of p.extra)
  pub held_attributes :
      All (λ (e : String × String). get e.1 ≡ string (p.attributes e.1)) project_config_attributes
  pub held_sources : get "resource_model_source" ≡ list (of_list blocks)
  pub held_blocks : AllPairs HoldsPlugin p.sources blocks

abbrev pub extra_pairs : Dict String → Dict String
extra_pairs extra = map (λ e. (slash_to_dot e.0, e.1)) extra

unfoldable pub attribute_pairs : Dict String → (String → String) → Dict String
attribute_pairs [] values = []
attribute_pairs ((config_key, attr_key) ∷ rest) values =
    let others = attribute_pairs rest values in
    if values attr_key == "" then others else (config_key, values attr_key) ∷ others

abbrev pub config_pairs : ℕ → Dict String → Dict String
config_pairs i config = map (λ e. (config_key_prefix i <> e.0, e.1)) config

abbrev pub source_pairs : ℕ → List Plugin → Dict String
source_pairs i [] = []
source_pairs i (plugin ∷ rest) =
    (type_key i, plugin.type) ∷ (config_pairs i plugin.config ++ source_pairs (i + 1) rest)

-- the properties of these settings; a later one takes the place of an earlier one with the same key
abbrev pub properties : Settings → Dict String
properties p = insert_all (source_pairs 0 p.sources) (
    insert_all (attribute_pairs project_config_attributes p.attributes)
      (insert_all (extra_pairs p.extra) []))

pub entries-of_dict : (m : Dict Value) → entries (of_dict m) ≡ m
entries-of_dict [] = refl
entries-of_dict ((k, v) ∷ m) = ap (λ rest. (k, v) ∷ rest) (entries-of_dict m)

elems-of_list : (vs : List Value) → elems (of_list vs) ≡ vs
elems-of_list [] = refl
elems-of_list (v ∷ vs) = ap (λ rest. v ∷ rest) (elems-of_list vs)

put_extra_lem :
    (extra m : Dict String)
    → put_extra (map (λ e. (e.0, string e.1)) extra) m ≡ ok (insert_all (extra_pairs extra) m)
unfolding put_extra insert_all
put_extra_lem [] m = refl
put_extra_lem ((k, v) ∷ extra) m = put_extra_lem extra (insert (slash_to_dot k) v m)

put_attributes_lem :
    (table : Dict String) (get : String → Value) (values : String → String) (m : Dict String)
    → All (λ (e : String × String). get e.1 ≡ string (values e.1)) table
    → put_attributes table get m ≡ ok (insert_all (attribute_pairs table values) m)
unfolding put_attributes insert_all attribute_pairs
put_attributes_lem [] get values m _ = refl
put_attributes_lem ((config_key, attr_key) ∷ table) get values m (h, hs) =
    rw h (elim (Bool-cases (values attr_key == "")) [
      | inl blank ↦ rw blank (put_attributes_lem table get values m hs)
      | inr given ↦
          rw given (put_attributes_lem table get values (insert config_key (values attr_key) m) hs)
    ])

put_config_lem :
    (i : ℕ) (config m : Dict String)
    → put_config i (map (λ e. (e.0, string e.1)) config) m
      ≡ ok (insert_all (config_pairs i config) m)
unfolding put_config insert_all
put_config_lem i [] m = refl
put_config_lem i ((k, v) ∷ config) m =
    put_config_lem i config (insert (config_key_prefix i <> k) v m)

put_source_lem :
    (i : ℕ) (plugin : Plugin) (v : Value) (m : Dict String)
    → HoldsPlugin plugin v
    → put_source i v m
      ≡ ok (insert_all (config_pairs i plugin.config) (insert (type_key i) plugin.type m))
unfolding put_source
put_source_lem i plugin v m (fs, e, t, c) =
    rw (e, t, c, entries-of_dict (map (λ b. (b.0, string b.1)) plugin.config))
      (put_config_lem i plugin.config (insert (type_key i) plugin.type m))

put_sources_lem :
    (i : ℕ) (plugins : List Plugin) (vs : List Value) (m : Dict String)
    → AllPairs HoldsPlugin plugins vs
    → put_sources i vs m ≡ ok (insert_all (source_pairs i plugins) m)
unfolding put_sources insert_all
put_sources_lem i [] [] m _ = refl
put_sources_lem i [] (v ∷ vs) m h = elim h [ ]
put_sources_lem i (plugin ∷ plugins) [] m h = elim h [ ]
put_sources_lem i (plugin ∷ plugins) (v ∷ vs) m (h, hs) = rw (put_source_lem i plugin v m h) (
    put_sources_lem (i + 1) plugins vs _ hs
    ∙ ap ok
        (sym (insert_all-append (config_pairs i plugin.config) (source_pairs (i + 1) plugins) _)))

-- `UpdateProject` sends the properties of the settings that the resource data hold.
pub update_map-properties :
    (get : String → Value) (p : Settings) → HoldsSettings get p → update_map get ≡ ok (properties p)
unfolding update_map put_extra_config
update_map-properties get p h = rw (
  h.held_extra,
  h.held_sources,
  entries-of_dict (map (λ b. (b.0, string b.1)) p.extra),
  put_extra_lem p.extra [],
  put_attributes_lem project_config_attributes get p.attributes _ h.held_attributes,
  elems-of_list h.blocks,
  put_sources_lem 0 p.sources h.blocks _ h.held_blocks,
)
