-- ===== src/Tests/RoundTrips.antt =====
-- A whole job: the theorems on `jobToResourceData` at a concrete job.
use terraform_provider_runde.Common.{
  String, ◌≡◌, refl, true, false, none, some, List, [], ◌∷◌, ◌==◌, if◌then◌else◌,
}
use terraform_provider_runde.Common.Dict.{Dict, lookup}
use terraform_provider_runde.Go.{
  Outcome, ok, err, errorf, pos, get_field, no_fields, string, traverse,
}
use terraform_provider_runde.Sdk.ResourceData.{ResourceData, set_all}
use terraform_provider_runde.Job.Types.{
  JobDispatch, JobNodeFilter, JobLogFilter, JobCommandSequence, JobDetail,
}
use terraform_provider_runde.Job.Schemas.{job_resource}
use terraform_provider_runde.Job.Decode.{job_from_resource_data}
use terraform_provider_runde.Job.Encode.{job_to_resource_data}
use terraform_provider_runde.Job.Writes.Lists.{job_writes}
use terraform_provider_runde.Job.Writes.{job_to_resource_data-set_all}
use terraform_provider_runde.Job.RoundTrip.{
  IsKept, AgreesWith, kept, job_from_resource_data-job_to_resource_data,
}
use terraform_provider_runde.Job.RoundTrip.Reads.{with_parts}
use terraform_provider_runde.Tests.Reader.{
  plain_reader, plain_reader-IsReader, read_attributes, read_value,
}
use terraform_provider_runde.Tests.Data.{Kept, plain_data, plain_data-IsResourceData}
use terraform_provider_runde.Tests.Commands.{guarded, guarded-CanDeclare}
use terraform_provider_runde.Tests.Options.{secret, secret-IsAllowed}
use terraform_provider_runde.Tests.Notifications.{both, both-IsRepresentable}
use terraform_provider_runde.Tests.Schedules.{monday, monday-IsServed}

abbrev masking : JobLogFilter
masking = record { type = "mask"; config = some (("k", "v") ∷ []) }

abbrev pub filters : List (JobLogFilter × Dict String)
filters = (masking, ("k", "v") ∷ []) ∷ []

abbrev pub sequence : JobCommandSequence
sequence = record {
  continue_on_error = true;
  ordering_strategy = "node-first";
  global_log_filters = some (masking ∷ []);
  commands = guarded ∷ [];
  description = "";
}

abbrev pub dispatch : JobDispatch
dispatch = record {
  max_thread_count = pos 2;
  continue_next_node_on_error = true;
  rank_attribute = "a";
  rank_order = "ascending";
  success_on_empty_node_filter = false;
}

abbrev pub filter : JobNodeFilter
filter = record { query = "q"; exclude_query = ""; exclude_precedence = true }

abbrev pub nightly : JobDetail
nightly = record {
  id = "1";
  name = "n";
  group_name = "g";
  project_name = "p";
  options_config = some (record { preserve_order = true; options = secret ∷ [] });
  description = "d";
  execution_enabled = true;
  log_level = "INFO";
  allow_concurrent_executions = false;
  dispatch = none;
  command_sequence = none;
  notification = some both;
  timeout = "";
  retry = "3";
  node_filter = none;
  nodes_selected_by_default = none;
  schedule = some monday;
  schedule_enabled = true;
  time_zone = "UTC";
}

pub nightly-IsKept : IsKept nightly sequence filters
unfolding lookup
nightly-IsKept = record {
  project = λ h. cc;
  no_default = refl;
  no_description = refl;
  commands = (guarded-CanDeclare, tt);
  configs = (refl, (refl, tt));
  some_filters = λ h. cc;
  config_keys = ((refl, tt), tt);
  options = (λ h. cc, (secret-IsAllowed, tt));
  schedule = monday-IsServed;
  notification = both-IsRepresentable;
}

abbrev pub blank : Kept
blank = ("", λ k. get_field k (read_attributes job_resource no_fields))

pub blank-AgreesWith : AgreesWith blank.1 nightly dispatch filters
unfolding read_value get_field
blank-AgreesWith = record {
  timeout = refl;
  success_on_empty = refl;
  log_filters = λ h. cc;
  schedule = λ h. cc;
}

abbrev run : Outcome (Unit {0}) × Kept
run =
    job_to_resource_data (plain_data job_resource) (with_parts nightly dispatch filter sequence)
      blank

run_succeeds : run ≡ (ok tt, run.1)
unfolding job_to_resource_data traverse
run_succeeds = refl

job_from_resource_data-job_to_resource_data_example :
    job_from_resource_data run.1.0 run.1.1 ≡ ok (kept (with_parts nightly dispatch filter sequence))
job_from_resource_data-job_to_resource_data_example =
    job_from_resource_data-job_to_resource_data plain_reader plain_reader-IsReader
      (plain_data job_resource) (plain_data-IsResourceData job_resource) nightly dispatch filter
      sequence filters nightly-IsKept blank run.1 blank-AgreesWith run_succeeds

job_to_resource_data-set_all_example :
    run
    ≡ set_all
        (plain_data job_resource)
        (job_writes (with_parts nightly dispatch filter sequence) filters)
        ("1", blank.1)
job_to_resource_data-set_all_example =
    job_to_resource_data-set_all (plain_data job_resource)
      (with_parts nightly dispatch filter sequence) filters blank (refl, (refl, tt))

-- resource data whose `d.Set` of the log level fails
abbrev picky : ResourceData (List String)
picky = record {
  id = λ s. "";
  set_id = λ i s. s;
  get = λ s k. string "";
  set_value = λ k v s. if k == "log_level" then (some (errorf "no"), s) else (none, k ∷ s);
}

-- what was written before an error stays
stops_test : job_to_resource_data picky (with_parts nightly dispatch filter sequence) [] ≡ (
  err (errorf "no"),
  "time_zone" ∷ "schedule_enabled" ∷ "execution_enabled" ∷ "description" ∷ "project_name"
      ∷ "group_name" ∷ "name" ∷ [],
)
unfolding job_to_resource_data
stops_test = refl
