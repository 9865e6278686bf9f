-- ===== src/Tests/Projects/Server.antt =====
-- A server with one project, and resource data that hold the project's settings.
use terraform_provider_runde.Common.{
  String, ◌≡◌, refl, sym, ap, ◌∙◌, none, some, inr, [], ◌∷◌, ◌==◌, if◌then◌else◌, arith,
}
use terraform_provider_runde.Common.Dict.{Dict, lookup, NodupKeys, insert}
use terraform_provider_runde.Common.Bindings.{insert_all}
use terraform_provider_runde.Go.{Value, string, object, list, of_list, of_dict, get_field}
use terraform_provider_runde.Go.Decimal.{print}
use terraform_provider_runde.Sdk.Reader.{strings_of}
use terraform_provider_runde.Project.{ProjectClient, ProjectReply, project_resource}
use terraform_provider_runde.Project.Update.Settings.{Plugin, Settings, HoldsSettings, properties}
use terraform_provider_runde.Project.Served.{IsReadable, IsServed}
use terraform_provider_runde.Project.Served.Texts.{as_values, lookup-as_values}
use terraform_provider_runde.Project.Served.Writes.{ShowsProject}
use terraform_provider_runde.Project.Served.{text_of}
use terraform_provider_runde.Project.Update.Settings.{entries-of_dict, attribute_pairs}
use terraform_provider_runde.Project.Read.{part_of}
use terraform_provider_runde.Common.Replacer.{replace}
use terraform_provider_runde.Sdk.ResourceData.{ResourceData}
use terraform_provider_runde.Tests.Data.{Kept, plain_data}

abbrev nodes : Plugin
nodes = record { type = "url"; config = ("url", "http://n") ∷ ("timeout", "5") ∷ [] }

abbrev values : String → String
values k = if k == "name" then "p" else if k == "description" then "d" else ""

abbrev pub settings : Settings
settings = record { attributes = values; extra = ("a/b", "x") ∷ []; sources = nodes ∷ [] }

abbrev sent : Dict String
sent =
    ("a.b", "x")
    ∷ ("project.name", "p")
    ∷ ("project.description", "d")
    ∷ ("resources.source.1.type", "url")
    ∷ ("resources.source.1.config.url", "http://n")
    ∷ ("resources.source.1.config.timeout", "5")
    ∷ []

properties_test : properties settings ≡ sent
unfolding insert_all insert attribute_pairs replace print
properties_test = refl

abbrev pub config : Dict Value
config = as_values sent

abbrev shown : ProjectReply
shown = record {
  response = some (record { status = 200; body = inr "" });
  name = some "p";
  url = some "http://r/p";
  config = object (of_dict config);
}

abbrev pub server : ProjectClient Kept
server = record {
  project_create = λ n s. ((none, none), s);
  project_config_update = λ n m s. ((none, none), s);
  project_get = λ n s. ((shown, none), s);
  project_delete = λ n s. ((none, none), s);
}

abbrev pub empty_server : ProjectClient Kept
empty_server = record server {
  project_get =
      λ n s. ((record shown { response = some (record { status = 404; body = inr "" }) }, none), s);
}

abbrev pub data_of : ResourceData Kept
data_of = plain_data project_resource

abbrev block : Value
block =
    object (of_dict (("type", string "url") ∷ ("config", object (strings_of nodes.config)) ∷ []))

abbrev pub attribute_of : String → Value
attribute_of k =
    if k == "extra_config"
    then object (strings_of settings.extra)
    else if k == "resource_model_source"
    then list (of_list (block ∷ []))
    else string (values k)

abbrev pub held : Kept
held = ("p", attribute_of)

pub held-HoldsSettings : HoldsSettings attribute_of settings
unfolding get_field
held-HoldsSettings = record {
  blocks = block ∷ [];
  held_extra = refl;
  held_attributes = (refl, (refl, (refl, (refl, (refl, (refl, (refl, tt)))))));
  held_sources = refl;
  held_blocks = ((_, refl, refl, refl), tt);
}

pub settings-IsReadable : IsReadable settings
unfolding lookup part_of replace
settings-IsReadable = record {
  few_sources = omega arith;
  nodup_extra = (refl, tt);
  extra_keys = (record { no_dot = omega arith; no_part = refl; no_attribute = refl }, tt);
  plain_sources = (((refl, (refl, tt)), (omega arith, (omega arith, tt))), tt);
}

config-NodupKeys : NodupKeys config
unfolding lookup
config-NodupKeys = (refl, (refl, (refl, (refl, (refl, (refl, tt))))))

pub config-IsServed : IsServed settings config
config-IsServed = record {
  nodup = config-NodupKeys;
  served = λ k. lookup-as_values k sent ∙ ap (λ m. text_of (lookup k m)) (sym properties_test);
}

pub shown-ShowsProject : ShowsProject (shown, none) config
shown-ShowsProject = record {
  response = record { status = 200; body = inr "" };
  fields = of_dict config;
  no_error = refl;
  replied = refl;
  found = refl;
  config = refl;
  shown = entries-of_dict config;
}
