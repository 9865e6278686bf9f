-- ===== src/Job/RoundTrip/Reads.antt =====
-- What the attributes of a job read as after `jobToResourceData`.
use terraform_provider_runde.Common.{
  String, ◌≡◌, refl, sym, ap, ◌∙◌, ◌==◌, true, false, Option, none, some, List, [], ◌∷◌, ◌++◌, map,
}
use terraform_provider_runde.Common.Dict.{Dict}
use terraform_provider_runde.Go.{Value, string, bool, with_entry, ok}
use terraform_provider_runde.Sdk.{Kind, kind_of}
use terraform_provider_runde.Sdk.Reader.{SchemaReader}
use terraform_provider_runde.Sdk.ResourceData.{ResourceData, IsResourceData, set_all}
use terraform_provider_runde.Sdk.Writes.{written, later, later-none, reads_as, get-set_all}
use terraform_provider_runde.Job.Types.{
  JobDispatch, JobNodeFilter, JobLogFilter, JobOptions, JobCommandSequence, JobDetail,
}
use terraform_provider_runde.Job.Schedule.{schedule_to_cron_spec}
use terraform_provider_runde.Job.Schemas.{job_resource}
use terraform_provider_runde.Job.Command.Encode.{command_to_resource_data}
use terraform_provider_runde.Job.Options.Encode.{option_blocks}
use terraform_provider_runde.Job.Notifications.Encode.{notification_blocks}
use terraform_provider_runde.Job.Encode.{block_list}
use terraform_provider_runde.Job.Writes.Lists.{
  names, settings, dispatch_writes, filter_writes, log_filter_writes, with_configs, job_writes,
}

written-skip_entry :
    {A : Type 0} (j k : String) (f : A → Value) (o : Option A) (m : Dict Value)
    → (j == k) ≡ false
    → written k (with_entry j f o [] ++ m) ≡ written k m
written-skip_entry j k f none m h = refl
written-skip_entry j k f (some a) m h = rw h (later-none (written k m))

written-skip_entries :
    {A : Type 0} (j k : String) (f : A → Value) (o : Option A) (l m : Dict Value)
    → (j == k) ≡ false
    → written k ((with_entry j f o [] ++ l) ++ m) ≡ written k (l ++ m)
written-skip_entries j k f none l m h = refl
written-skip_entries j k f (some a) l m h = rw h (later-none (written k (l ++ m)))

written-skip_log_filters :
    (k : String) (fs : List (JobLogFilter × Dict String)) (l m : Dict Value)
    → ("global_log_filter" == k) ≡ false
    → written k ((log_filter_writes fs ++ l) ++ m) ≡ written k (l ++ m)
written-skip_log_filters k [] l m h = refl
written-skip_log_filters k (f ∷ fs) l m h = rw h (later-none (written k (l ++ m)))

abbrev pub entry_of : {A : Type 0} → (A → Value) → Option A → Option Value
entry_of f none = none
entry_of f (some a) = some (f a)

written-entry :
    {A : Type 0} (j : String) (f : A → Value) (o : Option A) (m : Dict Value)
    → (j == j) ≡ true
    → written j (with_entry j f o [] ++ m) ≡ later (written j m) (entry_of f o)
written-entry j f none m h = sym (later-none (written j m))
written-entry j f (some a) m h = rw h refl

written-entries :
    {A : Type 0} (j : String) (f : A → Value) (o : Option A) (l m : Dict Value)
    → (j == j) ≡ true
    → written j ((with_entry j f o [] ++ l) ++ m) ≡ later (written j (l ++ m)) (entry_of f o)
written-entries j f none l m h = sym (later-none (written j (l ++ m)))
written-entries j f (some a) l m h = rw h refl

abbrev pub filters_of : List (JobLogFilter × Dict String) → Option Value
filters_of [] = none
filters_of (f ∷ fs) = some (block_list (with_configs (f ∷ fs)))

written-log_filters :
    (fs : List (JobLogFilter × Dict String)) (l m : Dict Value)
    → written "global_log_filter" ((log_filter_writes fs ++ l) ++ m)
      ≡ later (written "global_log_filter" (l ++ m)) (filters_of fs)
written-log_filters [] l m = sym (later-none _)
written-log_filters (f ∷ fs) l m = refl

-- a job with its pointers that decoding never leaves nil
abbrev pub with_parts : JobDetail → JobDispatch → JobNodeFilter → JobCommandSequence → JobDetail
with_parts job dispatch filter sequence = record job {
  dispatch = some dispatch;
  node_filter = some filter;
  command_sequence = some sequence;
}

-- the attributes that are written whatever is absent from the job
abbrev pub always : JobDetail → JobDispatch → JobNodeFilter → JobCommandSequence → Dict Value
always job dispatch filter sequence =
    names job
    ++ ((("project_name", string job.project_name) ∷ settings job)
        ++ (dispatch_writes (some dispatch)
            ++ (filter_writes (some filter)
                ++ (("option", block_list (option_blocks job.options_config))
                    ∷ ("command_ordering_strategy", string sequence.ordering_strategy)
                    ∷ ("continue_on_error", bool sequence.continue_on_error)
                    ∷ ("command", block_list (map command_to_resource_data sequence.commands))
                    ∷ ("notification", block_list (notification_blocks job.notification))
                    ∷ []))))

module _ (job : JobDetail) (dispatch : JobDispatch) (filter : JobNodeFilter)
    (sequence : JobCommandSequence) (filters : List (JobLogFilter × Dict String))
    (project : (job.project_name == "") ≡ false) where
  pub written-always :
      (k : String)
      → ("preserve_options_order" == k) ≡ false
      → ("global_log_filter" == k) ≡ false
      → ("schedule" == k) ≡ false
      → written k (job_writes (with_parts job dispatch filter sequence) filters)
        ≡ written k (always job dispatch filter sequence)
  written-always k p g s =
      rw
        (
          project,
          written-skip_entries "preserve_options_order" k (λ o. bool o.preserve_order)
              job.options_config _ _ p,
          written-skip_log_filters k filters _ _ g,
          written-skip_entry "schedule" k _ job.schedule _ s,
        )
        refl

  pub written-preserve :
      written "preserve_options_order"
        (job_writes (with_parts job dispatch filter sequence) filters)
      ≡ entry_of (λ (o : JobOptions). bool o.preserve_order) job.options_config
  written-preserve =
      rw
        (
          project,
          written-entries "preserve_options_order" (λ o. bool o.preserve_order) job.options_config _
              _ refl,
          written-skip_log_filters "preserve_options_order" filters _ _ refl,
          written-skip_entry "schedule" "preserve_options_order" _ job.schedule _ refl,
        )
        (simp (later-none))

  pub written-filters :
      written "global_log_filter" (job_writes (with_parts job dispatch filter sequence) filters)
      ≡ filters_of filters
  written-filters =
      rw
        (
          project,
          written-skip_entries "preserve_options_order" "global_log_filter"
              (λ o. bool o.preserve_order) job.options_config _ _ refl,
          written-log_filters filters _ _,
          written-skip_entry "schedule" "global_log_filter" _ job.schedule _ refl,
        )
        (simp (later-none))

  pub written-schedule :
      written "schedule" (job_writes (with_parts job dispatch filter sequence) filters)
      ≡ entry_of (λ s. string (schedule_to_cron_spec s)) job.schedule
  written-schedule =
      rw
        (
          project,
          written-skip_entries "preserve_options_order" "schedule" (λ o. bool o.preserve_order)
              job.options_config _ _ refl,
          written-skip_log_filters "schedule" filters _ _ refl,
          written-entry "schedule" _ job.schedule _ refl,
        )
        (simp (later-none))

  module _ {S : Type 0} (d : ResourceData S) (r : SchemaReader)
      (laws : IsResourceData job_resource r d) (s s' : S)
      (done : set_all d (job_writes (with_parts job dispatch filter sequence) filters) s
        ≡ (ok tt, s')) where
    pub read :
        (k : String) (kind : Kind) {o : Option Value}
        → kind_of k job_resource ≡ some kind
        → written k (job_writes (with_parts job dispatch filter sequence) filters) ≡ o
        → d.get s' k ≡ reads_as r kind o (d.get s k)
    read k kind declared h =
        get-set_all d job_resource r laws _ s s' done k kind declared
        ∙ ap (λ o. reads_as r kind o (d.get s k)) h
