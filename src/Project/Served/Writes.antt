-- ===== src/Project/Served/Writes.antt =====
-- `ReadProject` as a list of writes: what it sets in the resource data, in order.
use terraform_provider_runde.Common.{
  String, eqb, false, Option, none, some, Option-cases, inl, inr, List, [], ◌∷◌, ◌++◌, ◌≡◌, refl,
}
use terraform_provider_runde.Common.Dict.{Dict, lookup, erase}
use terraform_provider_runde.Go.{ok, Value, nil, string_map, object, entries, Error, Fields}
use terraform_provider_runde.Http.{HttpResponse}
use terraform_provider_runde.Sdk.ResourceData.{ResourceData}
use terraform_provider_runde.Project.{project_config_attributes, ProjectClient, ProjectReply}
use terraform_provider_runde.Project.Read.{
  Source, scan_config, resource_sources, sources_value, extra_config,
}
use terraform_provider_runde.Project.Operations.{
  read_attributes, read_config, read_project, without, pointer,
}

-- the properties behind the attributes
unfoldable pub rest_of : Dict String → Dict Value → Dict Value
rest_of [] c = c
rest_of ((config_key, attr_key) ∷ table) c =
    rest_of table (without config_key (lookup config_key c) c)

abbrev pub found_write : String → Option Value → Dict Value
found_write attr_key none = []
found_write attr_key (some v) = (attr_key, v) ∷ []

unfoldable pub attribute_writes : Dict String → Dict Value → Dict Value
attribute_writes [] c = []
attribute_writes ((config_key, attr_key) ∷ table) c =
    (attr_key, nil)
    ∷ (found_write attr_key (lookup config_key c)
        ++ attribute_writes table (without config_key (lookup config_key c) c))

abbrev pub source_writes : List Source → Dict String → Dict Value
source_writes sources extra =
    ("resource_model_source", sources_value sources) ∷ ("extra_config", string_map extra) ∷ []

abbrev pub reply_writes : ProjectReply → Dict Value
reply_writes reply = ("name", pointer reply.name) ∷ ("ui_url", pointer reply.url) ∷ []

abbrev pub config_writes : Dict Value → List Source → Dict String → Dict Value
config_writes c sources extra =
    attribute_writes project_config_attributes c ++ source_writes sources extra

-- a reply that shows the project with these properties
pub record ShowsProject (reply : ProjectReply × Option Error) (c : Dict Value) : Type 0 where
  pub response : HttpResponse
  pub fields : Fields
  pub no_error : reply.1 ≡ none
  pub replied : reply.0.response ≡ some response
  pub found : eqb response.status 404 ≡ false
  pub config : reply.0.config ≡ object fields
  pub shown : entries fields ≡ c

module _ {S : Type 0} (d : ResourceData S) where
  -- the state after these writes, whether `d.Set` accepts them or not
  unfoldable pub put_all : Dict Value → S → S
  put_all [] s = s
  put_all ((k, v) ∷ m) s = put_all m (d.set_value k v s).1

  pub put_all-append : (m n : Dict Value) (s : S) → put_all (m ++ n) s ≡ put_all n (put_all m s)
  unfolding put_all
  put_all-append [] n s = refl
  put_all-append ((k, v) ∷ m) n s = put_all-append m n (d.set_value k v s).1

  pub read_attributes-put_all :
      (table : Dict String) (c : Dict Value) (s : S)
      → read_attributes d table c s ≡ (ok (rest_of table c), put_all (attribute_writes table c) s)
  unfolding read_attributes rest_of attribute_writes put_all
  read_attributes-put_all [] c s = refl
  read_attributes-put_all ((config_key, attr_key) ∷ table) c s =
      elim (Option-cases (lookup config_key c)) [
        | inl absent ↦ rw absent (read_attributes-put_all table c (d.set_value attr_key nil s).1)
        | inr (v, bound) ↦ rw bound (
            read_attributes-put_all table (erase config_key c)
              (d.set_value attr_key v (d.set_value attr_key nil s).1).1)
      ]

  module _ (c : Dict Value) (sources : List Source) (extra : Dict String)
      (found : resource_sources (scan_config (rest_of project_config_attributes c)).sources
        ≡ ok sources)
      (left : extra_config (scan_config (rest_of project_config_attributes c)).config []
        ≡ ok extra) where
    abbrev writes : Dict Value
    writes = config_writes c sources extra

    read_config-put_all : (s : S) → read_config d c s ≡ (ok tt, put_all writes s)
    unfolding read_config put_all
    read_config-put_all s =
        rw
          (
            read_attributes-put_all project_config_attributes c s,
            found,
            left,
            put_all-append (attribute_writes project_config_attributes c)
                (source_writes sources extra) s,
          )
          refl

    -- `ReadProject` on a reply with these properties
    pub read_project-put_all :
        (client : ProjectClient S) (s : S)
        → ShowsProject (client.project_get (d.id s) s).0 c
        → read_project d client s ≡ (
          ok tt,
          put_all
              (writes ++ reply_writes (client.project_get (d.id s) s).0.0)
              (client.project_get (d.id s) s).1,
        )
    unfolding read_project put_all
    read_project-put_all client s h =
        let reply = (client.project_get (d.id s) s).0.0 in
        let s' = (client.project_get (d.id s) s).1 in
        rw
          (
            h.no_error,
            h.replied,
            h.found,
            h.config,
            h.shown,
            read_config-put_all s',
            put_all-append writes (reply_writes reply) s',
          )
          refl
