-- ===== src/Project/Served/Kept.antt =====
-- `ReadProject` and `UpdateProject` keep the settings of a project.
use mathlib.Core.List.{map-map}
use terraform_provider_runde.Common.{
  String, All, AllPairs, Option, none, some, List, [], ◌∷◌, ◌++◌, map, ◌≡◌, ◌==◌, refl, sym, ap,
  subst, ◌∙◌, ◌⊎◌, inl, inr,
}
use terraform_provider_runde.Common.Dict.{Dict, lookup}
use terraform_provider_runde.Common.Bindings.{later, written, last_where-append}
use terraform_provider_runde.Go.{ok, Value, string, object, of_list, list, Error, string_map}
use terraform_provider_runde.Go.Exec.{◌>>◌}
use terraform_provider_runde.Sdk.{Kind, kind_of, type_string, type_map, type_list, resource}
use terraform_provider_runde.Sdk.Reader.{SchemaReader, IsReader, strings_of}
use terraform_provider_runde.Sdk.ResourceData.{ResourceData, IsResourceData, set_all, result_of}
use terraform_provider_runde.Sdk.Writes.{get-set_all, reads_as}
use terraform_provider_runde.Sdk.Settable.{Accepts, IsSettable}
use terraform_provider_runde.Project.Served.Settable.{writes-IsSettable}
use terraform_provider_runde.Project.{
  project_config_attributes, project_resource, source_attributes, ProjectClient, ProjectReply,
}
use terraform_provider_runde.Project.Update.Settings.{
  Settings, HoldsSettings, properties, update_map-properties,
}
use terraform_provider_runde.Project.Read.{Source, source_fields, sources_value}
use terraform_provider_runde.Project.Operations.{read_project, update_project}
use terraform_provider_runde.Project.Served.{IsReadable, IsServed}
use terraform_provider_runde.Project.Served.Rest.{rest_of-IsLeft, All-both}
use terraform_provider_runde.Project.Served.Attributes.{attributes_back, IsReadBack}
use terraform_provider_runde.Project.Served.Places.{IsSourceOf, sources_back}
use terraform_provider_runde.Project.Served.Texts.{IsText-of}
use terraform_provider_runde.Project.Served.Extra.{extra_back}
use terraform_provider_runde.Project.Served.Blocks.{SamePlugin, read_block, blocks_back}
use terraform_provider_runde.Project.Served.Writes.{
  attribute_writes, rest_of, source_writes, reply_writes, ShowsProject, put_all, config_writes,
  read_project-put_all,
}

-- The same settings, apart from the order of the extra properties and of the configurations.
pub record SameSettings (p q : Settings) : Type 0 where
  pub same_attributes : p.attributes ≡ q.attributes
  pub same_extra : (k : String) → lookup k p.extra ≡ lookup k q.extra
  pub same_sources : AllPairs SamePlugin p.sources q.sources

-- the server's reply on the project behind the update, and the state then
abbrev pub shown_after :
    {S : Type 0}
    → ResourceData S
    → ProjectClient S
    → String
    → Settings
    → S
    → (ProjectReply × Option Error) × S
shown_after d client name p s =
    let s1 = (client.project_config_update name (properties p) s).1 in
    client.project_get (d.id s1) s1

module _ {S : Type 0} (r : SchemaReader) (reads : IsReader r) (d : ResourceData S)
    (laws : IsResourceData project_resource r d) (accepts : Accepts project_resource d) where
  set_all-put_all :
      (m : Dict Value) (s : S)
      → All (IsSettable project_resource) m
      → set_all d m s ≡ (ok tt, put_all d m s)
  unfolding set_all put_all
  set_all-put_all [] s _ = refl
  set_all-put_all ((k, v) ∷ m) s (h, hs) =
      ap (λ e. ((λ s. result_of (e, (d.set_value k v s).1)) >> set_all d m) s) (accepts k v s h)
      ∙ set_all-put_all m (d.set_value k v s).1 hs

  id-put_all : (m : Dict Value) (s : S) → d.id (put_all d m s) ≡ d.id s
  unfolding put_all
  id-put_all [] s = refl
  id-put_all ((k, v) ∷ m) s = id-put_all m (d.set_value k v s).1 ∙ laws.id-set_value k v s

  -- where an attribute is written behind the first loop
  abbrev IsWrittenOnce : List Source → Dict String → ProjectReply → String × String → Type 0
  IsWrittenOnce sources extra reply row =
      (kind_of row.1 project_resource ≡ some type_string)
      × (written row.1 (source_writes sources extra) ≡ none)
      × ((written row.1 (reply_writes reply) ≡ none) ⊎ (row.1 ≡ "name"))

  attribute_rows :
      (sources : List Source) (extra : Dict String) (reply : ProjectReply)
      → All (IsWrittenOnce sources extra reply) project_config_attributes
  attribute_rows sources extra reply = (
    (refl, refl, inr refl),
    (
      (refl, refl, inl refl),
      (
        (refl, refl, inl refl),
        (
          (refl, refl, inl refl),
          ((refl, refl, inl refl), ((refl, refl, inl refl), ((refl, refl, inl refl), tt))),
        ),
      ),
    ),
  )

  module _ (p : Settings) (ready : IsReadable p) (c : Dict Value) (served : IsServed p c)
      (sources : List Source) (same : AllPairs IsSourceOf p.sources sources) (extra : Dict String)
      (reply : ProjectReply) (s : S) where
    abbrev writes : Dict Value
    writes = config_writes c sources extra ++ reply_writes reply

    abbrev s' : S
    s' = put_all d writes s

    written-writes :
        (k : String)
        → written k writes
          ≡ later (written k (reply_writes reply)) (
              later
                (written k (source_writes sources extra))
                (written k (attribute_writes project_config_attributes c)))
    written-writes k =
        last_where-append (λ j. j == k) (config_writes c sources extra) (reply_writes reply)
        ∙ ap (later (written k (reply_writes reply))) (
            last_where-append (λ j. j == k) (attribute_writes project_config_attributes c)
              (source_writes sources extra))

    fit : All (IsSettable project_resource) writes
    fit =
        writes-IsSettable c p.sources sources extra reply
          (λ k v b. IsText-of (lookup k (properties p)) v (sym (served.served k) ∙ b)) same

    got :
        (k : String) (kind : Kind) (v : Value)
        → kind_of k project_resource ≡ some kind
        → written k writes ≡ some v
        → d.get s' k ≡ r.read kind v
    got k kind v declared h =
        get-set_all d project_resource r laws writes s s' (set_all-put_all writes s fit) k kind
          declared
        ∙ ap (λ o. reads_as r kind o (d.get s k)) h

    attribute_got :
        (row : String × String)
        → reply.name ≡ some (p.attributes "name")
        → IsReadBack r reads p c row
        → IsWrittenOnce sources extra reply row
        → d.get s' row.1 ≡ string (p.attributes row.1)
    attribute_got row name (v, w, e) (declared, unset, inl free) =
        got row.1 type_string v declared (written-writes row.1 ∙ rw (free, unset, w) refl) ∙ e
    attribute_got row name (v, w, e) (declared, unset, inr again) =
        subst (λ k. d.get s' k ≡ string (p.attributes k)) (sym again)
          (got "name" type_string (string (p.attributes "name")) refl
              (written-writes "name" ∙ rw name refl)
            ∙ reads.read-string (p.attributes "name"))

    extra_got : d.get s' "extra_config" ≡ object (strings_of extra)
    extra_got =
        got "extra_config" type_map (string_map extra) refl (written-writes "extra_config" ∙ refl)
        ∙ reads.read-map extra

    sources_got :
        d.get s' "resource_model_source" ≡ list (of_list (map (read_block r reads) sources))
    sources_got =
        got "resource_model_source" (type_list (resource source_attributes)) (sources_value sources)
          refl (written-writes "resource_model_source" ∙ refl)
        ∙ reads.read-blocks source_attributes (map source_fields sources)
        ∙ ap (λ vs. list (of_list vs)) (map-map _ source_fields sources)

  -- If the server shows readable settings under the same name, and `d.Set` accepts nil and values of
  -- an attribute's type, `ReadProject` succeeds, and the resource data then hold these settings.
  pub read_project-HoldsSettings :
      (client : ProjectClient S) (p : Settings) (c : Dict Value) (s : S)
      → IsReadable p
      → IsServed p c
      → ShowsProject (client.project_get (d.id s) s).0 c
      → (client.project_get (d.id s) s).0.0.name ≡ some (p.attributes "name")
      → (s' : S) × (q : Settings) × (read_project d client s ≡ (ok tt, s'))
        × (d.id s' ≡ d.id (client.project_get (d.id s) s).1)
        × HoldsSettings (d.get s') q
        × SameSettings p q
  read_project-HoldsSettings client p c s ready served shown name =
      let left = rest_of-IsLeft p c served in
      let (sources, found, same) =
        sources_back p ready (rest_of project_config_attributes c) left in
      let (extra, rest, u, same_extra) =
        extra_back p ready (rest_of project_config_attributes c) left in
      let (plugins, same_plugins, held) = blocks_back r reads p.sources sources same in
      let reply = (client.project_get (d.id s) s).0.0 in
      let s1 = (client.project_get (d.id s) s).1 in
      (
        put_all d (config_writes c sources extra ++ reply_writes reply) s1,
        record { attributes = p.attributes; extra = extra; sources = plugins },
        read_project-put_all d c sources extra found rest client s shown,
        id-put_all (config_writes c sources extra ++ reply_writes reply) s1,
        record {
          blocks = map (read_block r reads) sources;
          held_extra = extra_got p ready c served sources same extra reply s1;
          held_attributes =
              All-both (IsReadBack r reads p c) (IsWrittenOnce sources extra reply) _
                project_config_attributes
                (λ row. attribute_got p ready c served sources same extra reply s1 row name)
                (attributes_back r reads p c ready served) (attribute_rows sources extra reply);
          held_sources = sources_got p ready c served sources same extra reply s1;
          held_blocks = held;
        },
        record {
          same_attributes = refl;
          same_extra = λ k. sym (same_extra k);
          same_sources = same_plugins;
        },
      )

  -- If the resource data hold readable settings, the server accepts the properties that are sent, and
  -- then shows the project under the same name with exactly these properties, in any order, and `d.Set`
  -- accepts nil and values of an attribute's type, then `UpdateProject` succeeds, and the resource data hold the same settings afterwards, under the
  -- identifier that the client left.
  pub update_project-HoldsSettings :
      (client : ProjectClient S) (p : Settings) (c : Dict Value) (s : S)
      → IsReadable p
      → HoldsSettings (d.get s) p
      → (client.project_config_update (d.id s) (properties p) s).0.1 ≡ none
      → IsServed p c
      → ShowsProject (shown_after d client (d.id s) p s).0 c
      → (shown_after d client (d.id s) p s).0.0.name ≡ some (p.attributes "name")
      → (s' : S) × (q : Settings) × (update_project d client s ≡ (ok tt, s'))
        × (d.id s' ≡ d.id (shown_after d client (d.id s) p s).1)
        × HoldsSettings (d.get s') q
        × SameSettings p q
  unfolding update_project
  update_project-HoldsSettings client p c s ready held accepted served shown name =
      rw (update_map-properties (d.get s) p held, accepted)
        (read_project-HoldsSettings client p c
          (client.project_config_update (d.id s) (properties p) s).1 ready served shown name)
