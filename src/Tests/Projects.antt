-- ===== src/Tests/Projects.antt =====
-- A server with one project, and the theorems on projects there.
mod Server
use terraform_provider_runde.Common.{
  String, ◌≡◌, refl, sym, ap, ◌∙◌, none, some, inl, inr, ◌⊎◌, [], ◌∷◌, ◌==◌, if◌then◌else◌, List,
  AllPairs,
}
use terraform_provider_runde.Common.Dict.{Dict, lookup, NodupKeys, insert}
use terraform_provider_runde.Common.Bindings.{insert_all}
use terraform_provider_runde.Go.{
  ok, IsSafe, Value, string, object, list, of_list, of_dict, get_field,
}
use terraform_provider_runde.Go.Decimal.{print, atoi}
use terraform_provider_runde.Sdk.Reader.{strings_of}
use terraform_provider_runde.Project.{ProjectClient, ProjectReply, project_resource}
use terraform_provider_runde.Project.Update.{update_map}
use terraform_provider_runde.Project.Update.Settings.{
  Plugin, Settings, HoldsSettings, properties, update_map-properties,
}
use terraform_provider_runde.Project.Served.{IsReadable, IsServed}
use terraform_provider_runde.Project.Operations.{
  read_project, update_project, create_project, project_exists,
}
use terraform_provider_runde.Project.Served.Kept.{
  SameSettings, read_project-HoldsSettings, update_project-HoldsSettings,
}
use terraform_provider_runde.Project.Served.Created.{LeavesData, create_project-HoldsSettings}
use terraform_provider_runde.Project.Served.Texts.{as_values, lookup-as_values}
use terraform_provider_runde.Project.Served.Writes.{ShowsProject}
use terraform_provider_runde.Project.Served.{text_of}
use terraform_provider_runde.Project.Update.Settings.{entries-of_dict, attribute_pairs}
use terraform_provider_runde.Project.Read.{
  part_of, unrelated, scan_config, resource_sources, Source,
}
use terraform_provider_runde.Project.Read.Order.{Unambiguous, SameSource, scan_config_same}
use terraform_provider_runde.Project.Operations.Failures.{project_exists-Agrees, Agrees}
use terraform_provider_runde.Project.Operations.Safety.{read_project-IsSafe}
use terraform_provider_runde.Common.Replacer.{replace}
use terraform_provider_runde.Common.Texts.{split}
use terraform_provider_runde.Common.Orders.{SameBindings, Perm-SameBindings}
use terraform_provider_runde.Sdk.ResourceData.{ResourceData}
use mathlib.Core.List.{Permᴰ}
use terraform_provider_runde.Common.Bindings.Keys.{AllKeys-lookup}
use terraform_provider_runde.Tests.Reader.{plain_reader, plain_reader-IsReader}
use terraform_provider_runde.Tests.Data.{Kept, plain_data, plain_data-IsResourceData}
use terraform_provider_runde.Tests.Projects.Server.{
  settings, config, server, empty_server, data_of, attribute_of, held, held-HoldsSettings,
  settings-IsReadable, config-IsServed, shown-ShowsProject,
}

update_map-properties_example : update_map attribute_of ≡ ok (properties settings)
update_map-properties_example = update_map-properties attribute_of settings held-HoldsSettings

read_project-HoldsSettings_example :
    (s' : Kept) × (q : Settings) × (read_project data_of server held ≡ (ok tt, s'))
    × (data_of.id s' ≡ "p")
    × HoldsSettings (data_of.get s') q
    × SameSettings settings q
read_project-HoldsSettings_example =
    read_project-HoldsSettings plain_reader plain_reader-IsReader data_of
      (plain_data-IsResourceData project_resource) (λ k v s h. refl) server settings config held
      settings-IsReadable config-IsServed shown-ShowsProject refl

update_project-HoldsSettings_example :
    (s' : Kept) × (q : Settings) × (update_project data_of server held ≡ (ok tt, s'))
    × (data_of.id s' ≡ "p")
    × HoldsSettings (data_of.get s') q
    × SameSettings settings q
update_project-HoldsSettings_example =
    update_project-HoldsSettings plain_reader plain_reader-IsReader data_of
      (plain_data-IsResourceData project_resource) (λ k v s h. refl) server settings config held
      settings-IsReadable held-HoldsSettings refl config-IsServed shown-ShowsProject refl

server-LeavesData : LeavesData data_of server
server-LeavesData = record {
  get-create = λ n s. refl;
  id-config_update = λ n m s. refl;
  id-get = λ n s. refl;
}

create_project-HoldsSettings_example :
    (s' : Kept) × (q : Settings) × (create_project data_of server ("", attribute_of) ≡ (ok tt, s'))
    × (data_of.id s' ≡ "p")
    × HoldsSettings (data_of.get s') q
    × SameSettings settings q
create_project-HoldsSettings_example =
    create_project-HoldsSettings plain_reader plain_reader-IsReader data_of
      (plain_data-IsResourceData project_resource) (λ k v s h. refl) server server-LeavesData
      settings config ("", attribute_of) settings-IsReadable held-HoldsSettings refl refl
      config-IsServed shown-ShowsProject refl

-- Another order of two properties.
abbrev first_order : Dict Value
first_order =
    ("resources.source.2.type", string "file") ∷ ("resources.source.1.type", string "url") ∷ []

abbrev second_order : Dict Value
second_order =
    ("resources.source.1.type", string "url") ∷ ("resources.source.2.type", string "file") ∷ []

first_order-NodupKeys : NodupKeys first_order
unfolding lookup
first_order-NodupKeys = (refl, (refl, tt))

orders-SameBindings : SameBindings first_order second_order
orders-SameBindings = Perm-SameBindings (Permᴰ.swap refl refl) first_order-NodupKeys

abbrev IsKey : String → Type 0
IsKey k = (k ≡ "resources.source.2.type") ⊎ (k ≡ "resources.source.1.type")

parts_differ : part_of "resources.source.2.type" ≡ part_of "resources.source.1.type" → ⊥
unfolding part_of split atoi
parts_differ e = cc e

only_keys : (j k : String) → IsKey j → IsKey k → part_of j ≡ part_of k → j ≡ k
only_keys j k (inl a) (inl b) e = a ∙ sym b
only_keys j k (inr a) (inr b) e = a ∙ sym b
only_keys j k (inl a) (inr b) e = absurd (parts_differ (sym (ap part_of a) ∙ e ∙ ap part_of b))
only_keys j k (inr a) (inl b) e = absurd (parts_differ (sym (ap part_of b) ∙ sym e ∙ ap part_of a))

first_order-Unambiguous : Unambiguous first_order
first_order-Unambiguous j k hj hk e t =
    only_keys j k (AllKeys-lookup IsKey j first_order (inl refl, (inr refl, tt)) hj)
      (AllKeys-lookup IsKey k first_order (inl refl, (inr refl, tt)) hk) e

scan_config_same_example :
    (l : List Source) × (l' : List Source) × (resource_sources (scan_config first_order).sources
      ≡ ok l)
    × (resource_sources (scan_config second_order).sources ≡ ok l')
    × AllPairs SameSource l l'
    × ((k : String)
        → lookup k (scan_config first_order).config ≡ lookup k (scan_config second_order).config)
scan_config_same_example =
    scan_config_same first_order second_order first_order-NodupKeys orders-SameBindings
      first_order-Unambiguous

read_project-IsSafe_example : IsSafe (read_project data_of server held).0
read_project-IsSafe_example = read_project-IsSafe data_of server held (
    inr (
      record { status = 200; body = inr "" },
      refl,
      inr (
        of_dict config,
        refl,
        (
          ("x", refl),
          (("p", refl), (("d", refl), (("url", refl), (("http://n", refl), (("5", refl), tt))))),
        ),
      ),
    ))

project_exists-Agrees_example :
    Agrees "p" (project_exists data_of empty_server held) (read_project data_of empty_server held)
project_exists-Agrees_example = project_exists-Agrees data_of empty_server held

-- It is none of a source, as the number is too large.
large_index_test : part_of "resources.source.9223372036854775808.type" ≡ unrelated
unfolding part_of split atoi
large_index_test = refl
