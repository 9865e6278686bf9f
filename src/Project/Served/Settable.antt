-- ===== src/Project/Served/Settable.antt =====
-- The values that `ReadProject` sets are of the types of their attributes.
use terraform_provider_runde.Common.{
  String, ◌==◌, if◌then◌else◌, All, All-append, AllPairs, Option, none, some, List, [], ◌∷◌, ◌++◌,
  map, ◌≡◌, refl, sym, ap, ◌∙◌, inl, inr, Bool-cases,
}
use terraform_provider_runde.Common.Dict.{Dict, lookup}
use terraform_provider_runde.Go.{Value, object, of_list, elems, get_field}
use terraform_provider_runde.Sdk.{kind_of, type_string, type_map, type_list, resource}
use terraform_provider_runde.Sdk.Settable.{Settable, ElemSettable, IsSettable}
use terraform_provider_runde.Project.{
  project_config_attributes, project_resource, source_attributes, ProjectReply,
}
use terraform_provider_runde.Project.Operations.{without, pointer}
use terraform_provider_runde.Project.Update.Settings.{Plugin}
use terraform_provider_runde.Project.Read.{Source, source_fields}
use terraform_provider_runde.Project.Served.Places.{IsSourceOf}
use terraform_provider_runde.Project.Served.Texts.{IsText}
use terraform_provider_runde.Project.Served.Blocks.{read_plugin}
use terraform_provider_runde.Project.Served.Rest.{lookup-without}
use terraform_provider_runde.Project.Served.Writes.{
  found_write, attribute_writes, source_writes, reply_writes, config_writes,
}

abbrev pub HasTexts : Dict Value → Type 0
HasTexts c = (k : String) (v : Value) → lookup k c ≡ some v → IsText v

abbrev IsTextRow : String × String → Type 0
IsTextRow row = kind_of row.1 project_resource ≡ some type_string

without-HasTexts : (k : String) (c : Dict Value) → HasTexts c → HasTexts (without k (lookup k c) c)
without-HasTexts k c h j v b = elim (Bool-cases (k == j)) [
  | inl same ↦ cc (lookup-without k j c, b, same)
  | inr other ↦
      h j v (sym (lookup-without k j c ∙ ap (λ t. if t then none else lookup j c) other) ∙ b)
]

found-IsSettable :
    (a : String) (o : Option Value) (rest : Dict Value)
    → kind_of a project_resource ≡ some type_string
    → ((v : Value) → o ≡ some v → IsText v)
    → All (IsSettable project_resource) rest
    → All (IsSettable project_resource) (found_write a o ++ rest)
found-IsSettable a none rest declared texts hs = hs
found-IsSettable a (some v) rest declared texts hs =
    ((type_string, declared, inr (texts v refl)), hs)

attribute_writes-IsSettable :
    (table : Dict String) (c : Dict Value)
    → All IsTextRow table
    → HasTexts c
    → All (IsSettable project_resource) (attribute_writes table c)
unfolding attribute_writes
attribute_writes-IsSettable [] c _ texts = tt
attribute_writes-IsSettable ((j, a) ∷ table) c (declared, rows) texts = (
  (type_string, declared, inl refl),
  found-IsSettable a (lookup j c) _ declared (texts j) (
      attribute_writes-IsSettable table (without j (lookup j c) c) rows
        (without-HasTexts j c texts)),
)

block-IsSettable :
    (plugin : Plugin) (source : Source)
    → IsSourceOf plugin source
    → ElemSettable (resource source_attributes) (object (source_fields source))
unfolding get_field
block-IsSettable plugin source h =
    let (plugin', _, t, c) = read_plugin plugin source h in
    (
      source_fields source,
      refl,
      rw (t, c) (inr (plugin'.type, refl), (inr (plugin'.config, inr refl), tt)),
      rw t refl,
    )

blocks-IsSettable :
    (plugins : List Plugin) (sources : List Source)
    → AllPairs IsSourceOf plugins sources
    → All
        (ElemSettable (resource source_attributes))
        (elems (of_list (map object (map source_fields sources))))
blocks-IsSettable [] [] _ = tt
blocks-IsSettable [] (source ∷ sources) h = elim h [ ]
blocks-IsSettable (plugin ∷ plugins) [] h = elim h [ ]
blocks-IsSettable (plugin ∷ plugins) (source ∷ sources) (h, hs) =
    (block-IsSettable plugin source h, blocks-IsSettable plugins sources hs)

pointer-IsSettable : (o : Option String) → Settable type_string (pointer o)
pointer-IsSettable none = inl refl
pointer-IsSettable (some text) = inr (text, refl)

attributes-IsTextRow : All IsTextRow project_config_attributes
attributes-IsTextRow = (refl, (refl, (refl, (refl, (refl, (refl, (refl, tt)))))))

-- Every value that is set for properties that are texts, and for these sources, is one that `d.Set`
-- takes.
pub writes-IsSettable :
    (c : Dict Value) (plugins : List Plugin) (sources : List Source) (extra : Dict String)
    (reply : ProjectReply)
    → HasTexts c
    → AllPairs IsSourceOf plugins sources
    → All (IsSettable project_resource) (config_writes c sources extra ++ reply_writes reply)
writes-IsSettable c plugins sources extra reply texts same =
    All-append (IsSettable project_resource) (config_writes c sources extra) (reply_writes reply)
      (All-append (IsSettable project_resource) (attribute_writes project_config_attributes c)
        (source_writes sources extra)
        (attribute_writes-IsSettable project_config_attributes c attributes-IsTextRow texts)
        (
          (
            type_list (resource source_attributes),
            refl,
            inr (
              of_list (map object (map source_fields sources)),
              refl,
              blocks-IsSettable plugins sources same,
            ),
          ),
          ((type_map, refl, inr (extra, inl refl)), tt),
        ))
      (
        (type_string, refl, pointer-IsSettable reply.name),
        ((type_string, refl, pointer-IsSettable reply.url), tt),
      )
