-- ===== src/Project/Served/Created.antt =====
-- `CreateProject` makes a project with the settings of the resource data.
use terraform_provider_runde.Common.{String, ◌==◌, false, All, none, some, ◌≡◌, refl, ap, ◌∙◌}
use terraform_provider_runde.Common.Dict.{Dict}
use terraform_provider_runde.Go.{ok, Value, string}
use terraform_provider_runde.Sdk.Reader.{SchemaReader, IsReader}
use terraform_provider_runde.Sdk.ResourceData.{ResourceData, IsResourceData}
use terraform_provider_runde.Sdk.Settable.{Accepts}
use terraform_provider_runde.Project.{project_config_attributes, project_resource, ProjectClient}
use terraform_provider_runde.Project.Update.Settings.{Settings, HoldsSettings, properties}
use terraform_provider_runde.Project.Operations.{create_project}
use terraform_provider_runde.Project.Served.{IsReadable, IsServed}
use terraform_provider_runde.Project.Served.Rest.{All-both}
use terraform_provider_runde.Project.Served.Writes.{ShowsProject}
use terraform_provider_runde.Project.Served.Kept.{
  SameSettings, shown_after, update_project-HoldsSettings,
}

-- The client does not touch the resource data.
pub record LeavesData {S : Type 0} (d : ResourceData S) (client : ProjectClient S) : Type 0 where
  pub get-create : (n : String) (s : S) → d.get (client.project_create n s).1 ≡ d.get s
  pub id-config_update :
      (n : String) (m : Dict String) (s : S) → d.id (client.project_config_update n m s).1 ≡ d.id s
  pub id-get : (n : String) (s : S) → d.id (client.project_get n s).1 ≡ d.id s

attributes-ne-id :
    All (λ (row : String × String). ("id" == row.1) ≡ false) project_config_attributes
attributes-ne-id = (refl, (refl, (refl, (refl, (refl, (refl, (refl, tt)))))))

-- The settings do not depend on `id`.
HoldsSettings-id :
    (get get' : String → Value) (p : Settings)
    → ((k : String) → ("id" == k) ≡ false → get' k ≡ get k)
    → HoldsSettings get p
    → HoldsSettings get' p
HoldsSettings-id get get' p same h = record {
  blocks = h.blocks;
  held_extra = same "extra_config" refl ∙ h.held_extra;
  held_attributes =
      All-both (λ row. ("id" == row.1) ≡ false) (λ row. get row.1 ≡ string (p.attributes row.1))
        (λ row. get' row.1 ≡ string (p.attributes row.1)) project_config_attributes
        (λ row other g. same row.1 other ∙ g) attributes-ne-id h.held_attributes;
  held_sources = same "resource_model_source" refl ∙ h.held_sources;
  held_blocks = h.held_blocks;
}

module _ {S : Type 0} (r : SchemaReader) (reads : IsReader r) (d : ResourceData S)
    (laws : IsResourceData project_resource r d) (accepts : Accepts project_resource d)
    (client : ProjectClient S) (leaves : LeavesData d client) where
  -- the state when `UpdateProject` begins
  abbrev pub created : String → S → S
  created name s =
      (d.set_value "id" (string name) (d.set_id name (client.project_create name s).1)).1

  -- If the resource data hold readable settings, the server makes the project, accepts the properties
  -- that are sent, and then shows it under the same name with exactly these properties, in any order,
  -- then `CreateProject` succeeds, and the resource data hold the same settings afterwards, with the
  -- project's name as the identifier. The client must not touch the resource data, and `d.Set` must
  -- accept nil and values of an attribute's type.
  pub create_project-HoldsSettings :
      (p : Settings) (c : Dict Value) (s : S)
      → IsReadable p
      → HoldsSettings (d.get s) p
      → (client.project_create (p.attributes "name") s).0.1 ≡ none
      → (client.project_config_update
          (d.id (created (p.attributes "name") s))
          (properties p)
          (created (p.attributes "name") s)).0.1
        ≡ none
      → IsServed p c
      → ShowsProject
          (shown_after d client
            (d.id (created (p.attributes "name") s))
            p
            (created (p.attributes "name") s)).0
          c
      → (shown_after d client
          (d.id (created (p.attributes "name") s))
          p
          (created (p.attributes "name") s)).0.0.name
        ≡ some (p.attributes "name")
      → (s' : S) × (q : Settings) × (create_project d client s ≡ (ok tt, s'))
        × (d.id s' ≡ p.attributes "name")
        × HoldsSettings (d.get s') q
        × SameSettings p q
  unfolding create_project
  create_project-HoldsSettings p c s ready held made accepted served shown name =
      let name' = p.attributes "name" in
      let s0 = (client.project_create name' s).1 in
      let s1 = created (p.attributes "name") s in
      let (s', q, e, i, holds, same) =
        update_project-HoldsSettings r reads d laws accepts client p c s1 ready
          (HoldsSettings-id (d.get s) (d.get s1) p
            (λ k other.
              laws.get-set_value_ne "id" k (string name') (d.set_id name' s0) other
              ∙ laws.get-set_id name' s0 k
              ∙ ap (λ get. get k) (leaves.get-create name' s))
            held)
          accepted served shown name in
      (
        s',
        q,
        rw (held.held_attributes.0, made) e,
        i
            ∙ leaves.id-get _ _
            ∙ leaves.id-config_update _ _ _
            ∙ laws.id-set_value "id" (string name') (d.set_id name' s0)
            ∙ laws.id-set_id name' s0,
        holds,
        same,
      )
