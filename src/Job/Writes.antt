-- ===== src/Job/Writes.antt =====
-- What `jobToResourceData` writes, as a list of attributes and values.
pub mod Lists
use terraform_provider_runde.Common.{
  String, ◌≡◌, refl, sym, ap, ◌==◌, false, Bool-cases, inl, inr, if◌then◌else◌, Option, none, some,
  List, [], ◌∷◌, ◌++◌, map, All,
}
use terraform_provider_runde.Common.Dict.{Dict}
use terraform_provider_runde.Go.{
  ok, Value, nil, bool, int, pos, string, string_map, Fields, of_dict, traverse, with_entry,
}
use terraform_provider_runde.Go.Exec.{>>_ext, >>-return}
use terraform_provider_runde.Sdk.ResourceData.{ResourceData, set, set_all, set_all-then}
use terraform_provider_runde.Job.Types.{
  JobDispatch, JobNodeFilter, JobLogFilter, JobOptions, JobCommandSequence, JobSchedule, JobDetail,
}
use terraform_provider_runde.Job.Schedule.{schedule_to_cron_spec}
use terraform_provider_runde.Job.Command.Encode.{command_to_resource_data}
use terraform_provider_runde.Job.Options.Encode.{option_blocks}
use terraform_provider_runde.Job.Notifications.Encode.{notification_blocks}
use terraform_provider_runde.Job.Encode.{
  block_list, log_filter_to_resource_data, fields_to_resource_data, dispatch_to_resource_data,
  filter_to_resource_data, options_to_resource_data, log_filters_to_resource_data,
  sequence_to_resource_data, schedule_to_resource_data, job_to_resource_data,
}
use terraform_provider_runde.Job.Writes.Lists.{
  project_writes, names, settings, dispatch_writes, filter_writes, preserve_writes, with_configs,
  log_filter_writes, sequence_writes, schedule_writes, job_writes, HasConfigs, SequenceHasConfigs,
}

module _ {S : Type 0} (d : ResourceData S) where
  fields-writes :
      (job : JobDetail) (s : S)
      → fields_to_resource_data d job s
        ≡ set_all d
            (names job ++ (project_writes job.project_name ++ settings job))
            (d.set_id job.id s)
  unfolding set_all
  fields-writes job s = elim (Bool-cases (job.project_name == "")) [
    | inl h ↦ rw (h, >>-return (set d "retry" (string job.retry))) refl
    | inr h ↦ rw (h, >>-return (set d "retry" (string job.retry))) refl
  ]

  dispatch-writes :
      (o : Option JobDispatch) (s : S)
      → dispatch_to_resource_data d o s ≡ set_all d (dispatch_writes o) s
  unfolding set_all
  dispatch-writes none s = rw (>>-return (set d "rank_order" (string "ascending"))) refl
  dispatch-writes (some dispatch) s =
      rw (>>-return (set d "rank_order" (string dispatch.rank_order))) refl

  filter-writes :
      (o : Option JobNodeFilter) (s : S)
      → filter_to_resource_data d o s ≡ set_all d (filter_writes o) s
  unfolding set_all
  filter-writes none s = rw (>>-return (set d "node_filter_exclude_precedence" nil)) refl
  filter-writes (some filter) s =
      rw (>>-return (set d "node_filter_exclude_precedence" (bool filter.exclude_precedence))) refl

  one-write : (k : String) (v : Value) (s : S) → set d k v s ≡ set_all d ((k, v) ∷ []) s
  unfolding set_all
  one-write k v s = sym (ap (λ m. m s) (>>-return (set d k v)))

  options-writes :
      (o : Option JobOptions) (s : S)
      → options_to_resource_data d o s
        ≡ set_all d (preserve_writes o ++ (("option", block_list (option_blocks o)) ∷ [])) s
  unfolding set_all
  options-writes none s = one-write "option" (block_list []) s
  options-writes (some o) s =
      >>_ext (set d "preserve_options_order" (bool o.preserve_order))
        (set d "preserve_options_order" (bool o.preserve_order)) _ _ s s refl
        (one-write "option" (block_list (option_blocks (some o))))

  traverse-configs :
      (fs : List (JobLogFilter × Dict String))
      → All (λ f. f.0.config ≡ some f.1) fs
      → traverse log_filter_to_resource_data (map (λ f. f.0) fs) ≡ ok (with_configs fs)
  unfolding traverse
  traverse-configs [] _ = refl
  traverse-configs (f ∷ fs) (h, hs) = rw (h, traverse-configs fs hs)

  log_filters-writes :
      (o : Option (List JobLogFilter)) (fs : List (JobLogFilter × Dict String)) (s : S)
      → HasConfigs o fs
      → log_filters_to_resource_data d o s ≡ set_all d (log_filter_writes fs) s
  unfolding set_all
  log_filters-writes none fs s h = rw h refl
  log_filters-writes (some filters) [] s (same, configs) = rw same refl
  log_filters-writes (some filters) (f ∷ fs) s (same, configs) =
      rw (same, traverse-configs (f ∷ fs) configs) (one-write "global_log_filter" _ s)

  sequence-writes :
      (o : Option JobCommandSequence) (fs : List (JobLogFilter × Dict String)) (s : S)
      → SequenceHasConfigs o fs
      → sequence_to_resource_data d o s ≡ set_all d (sequence_writes o fs) s
  unfolding set_all
  sequence-writes none fs s h = refl
  sequence-writes (some q) fs s h =
      >>_ext (set d "command_ordering_strategy" (string q.ordering_strategy))
        (set d "command_ordering_strategy" (string q.ordering_strategy)) _ _ s s refl
        λ t.
          >>_ext (set d "continue_on_error" (bool q.continue_on_error))
            (set d "continue_on_error" (bool q.continue_on_error)) _ _ t t refl
            λ u.
              set_all-then d (log_filters_to_resource_data d q.global_log_filters) _ _ _ u u
                (log_filters-writes q.global_log_filters fs u h) (one-write "command" _)

  schedule-writes :
      (o : Option JobSchedule) (s : S)
      → schedule_to_resource_data d o s ≡ set_all d (schedule_writes o) s
  unfolding set_all
  schedule-writes none s = refl
  schedule-writes (some schedule) s = one-write "schedule" _ s

  -- `jobToResourceData` sets the identifier and then the listed attributes in this order, and stops at
  -- the first error with what was written before it; every log filter having a configuration.
  pub job_to_resource_data-set_all :
      (job : JobDetail) (filters : List (JobLogFilter × Dict String)) (s : S)
      → SequenceHasConfigs job.command_sequence filters
      → job_to_resource_data d job s ≡ set_all d (job_writes job filters) (d.set_id job.id s)
  unfolding job_to_resource_data
  job_to_resource_data-set_all job filters s h =
      set_all-then d (fields_to_resource_data d job) _ _ _ s (d.set_id job.id s)
        (fields-writes job s)
        λ t.
          set_all-then d (dispatch_to_resource_data d job.dispatch) _ _ _ t t
            (dispatch-writes job.dispatch t)
            λ t.
              set_all-then d (filter_to_resource_data d job.node_filter) _ _ _ t t
                (filter-writes job.node_filter t)
                λ t.
                  set_all-then d (options_to_resource_data d job.options_config) _ _ _ t t
                    (options-writes job.options_config t)
                    λ t.
                      set_all-then d (sequence_to_resource_data d job.command_sequence) _ _ _ t t
                        (sequence-writes job.command_sequence filters t h)
                        λ t.
                          set_all-then d (schedule_to_resource_data d job.schedule) _ _ _ t t
                            (schedule-writes job.schedule t) (one-write "notification" _)
