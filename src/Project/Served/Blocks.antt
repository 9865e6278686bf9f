-- ===== src/Project/Served/Blocks.antt =====
-- The blocks that `ReadProject` writes for the sources, as the resource data give them back.
use terraform_provider_runde.Common.{
  String, AllPairs, some, List, [], ◌∷◌, map, ◌≡◌, refl, sym, ap, ◌∙◌,
}
use terraform_provider_runde.Common.Dict.{lookup}
use terraform_provider_runde.Common.Bindings.Keys.{AllValues_of}
use terraform_provider_runde.Go.{Value, string, object, get_field}
use terraform_provider_runde.Sdk.{type_map}
use terraform_provider_runde.Sdk.Reader.{SchemaReader, IsReader}
use terraform_provider_runde.Sdk.Reading.{string_read, field_read}
use terraform_provider_runde.Project.{source_attributes}
use terraform_provider_runde.Project.Update.Settings.{Plugin, HoldsPlugin}
use terraform_provider_runde.Project.Read.{Source, source_fields}
use terraform_provider_runde.Project.Served.Places.{IsSourceOf}
use terraform_provider_runde.Project.Served.Texts.{
  IsText, IsText-of, as_values, texts_of, lookup-as_values, text_of-injective,
}

-- the same type, and the same entries of the configuration
pub record SamePlugin (a b : Plugin) : Type 0 where
  pub same_type : a.type ≡ b.type
  pub same_config : (k : String) → lookup k a.config ≡ lookup k b.config

-- the plugin of a source, whose configuration has the order in which it was read
pub read_plugin :
    (plugin : Plugin) (source : Source)
    → IsSourceOf plugin source
    → (plugin' : Plugin) × SamePlugin plugin plugin'
      × (source.type ≡ some (string plugin'.type))
      × (source.config ≡ as_values plugin'.config)
read_plugin plugin source h =
    let (config, e) = texts_of source.config (
      AllValues_of IsText source.config h.nodup_config
        (λ k v b. IsText-of (lookup k plugin.config) v (sym (h.same_config k) ∙ b))) in
    (
      record { type = plugin.type; config = config },
      record {
        same_type = refl;
        same_config = λ k.
            text_of-injective _ _
              (sym (h.same_config k) ∙ ap (lookup k) e ∙ lookup-as_values k config);
      },
      h.same_type,
      e,
    )

module _ (r : SchemaReader) (reads : IsReader r) where
  abbrev pub read_block : Source → Value
  read_block source = object (r.read_fields source_attributes (source_fields source))

  block-HoldsPlugin :
      (plugin : Plugin) (source : Source)
      → source.type ≡ some (string plugin.type)
      → source.config ≡ as_values plugin.config
      → HoldsPlugin plugin (read_block source)
  unfolding get_field
  block-HoldsPlugin plugin source t c = (
    r.read_fields source_attributes (source_fields source),
    refl,
    string_read r reads "type" plugin.type source_attributes (source_fields source) refl
        (rw t refl),
    field_read r reads "config" type_map source_attributes (source_fields source) refl
          (rw (t, c) refl)
        ∙ reads.read-object plugin.config,
  )

  -- The blocks hold the plugins.
  pub blocks_back :
      (plugins : List Plugin) (sources : List Source)
      → AllPairs IsSourceOf plugins sources
      → (plugins' : List Plugin) × AllPairs SamePlugin plugins plugins'
        × AllPairs HoldsPlugin plugins' (map read_block sources)
  blocks_back [] [] _ = ([], tt, tt)
  blocks_back [] (source ∷ sources) h = elim h [ ]
  blocks_back (plugin ∷ plugins) [] h = elim h [ ]
  blocks_back (plugin ∷ plugins) (source ∷ sources) (h, hs) =
      let (plugin', same, t, c) = read_plugin plugin source h in
      let (plugins', others, held) = blocks_back plugins sources hs in
      (plugin' ∷ plugins', (same, others), (block-HoldsPlugin plugin' source t c, held))
