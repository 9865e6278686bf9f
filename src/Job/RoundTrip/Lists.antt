-- ===== src/Job/RoundTrip/Lists.antt =====
-- The nested blocks of a job, written to the resource data and decoded again, list by list.
use terraform_provider_runde.Common.{
  String, ◌≡◌, ◌≢◌, refl, sym, ap, Bool, ◌∙◌, Option, none, some, List, [], ◌∷◌, map, All,
}
use terraform_provider_runde.Common.Dict.{Dict, NodupKeys}
use terraform_provider_runde.Go.{
  Outcome, ok, traverse, Value, bool, list, end, object, Fields, get_field, of_list, elems, as_list,
}
use terraform_provider_runde.Sdk.{Attributes, resource, type_list, type_map, type_bool}
use terraform_provider_runde.Sdk.Reader.{SchemaReader, IsReader}
use terraform_provider_runde.Sdk.Reading.{AllSome, field_read, string_read}
use terraform_provider_runde.Job.Types.{JobCommand, JobOption, JobOptions, JobLogFilter}
use terraform_provider_runde.Job.Schemas.{command_resource, option_resource, job_filter_resource}
use terraform_provider_runde.Job.Command.Decode.{command_from_resource_data}
use terraform_provider_runde.Job.Command.Encode.{command_to_resource_data}
use terraform_provider_runde.Job.Command.RoundTrip.{
  CanDeclare, command_from_resource_data-command_to_resource_data,
}
use terraform_provider_runde.Job.Command.RoundTrip.Parts.{config_from-strings_of}
use terraform_provider_runde.Job.Options.Decode.{
  option_from_resource_data, options_of, options_from_resource_data,
}
use terraform_provider_runde.Job.Options.Encode.{option_to_resource_data, option_blocks}
use terraform_provider_runde.Job.Options.Rules.{IsAllowed}
use terraform_provider_runde.Job.Options.RoundTrip.{
  without_date, option_from_resource_data-option_to_resource_data,
}
use terraform_provider_runde.Job.Decode.{log_filter_from_resource_data, log_filters_of}
use terraform_provider_runde.Job.Encode.{block_list}
use terraform_provider_runde.Sdk.Writes.{reads_as}
use terraform_provider_runde.Job.RoundTrip.Reads.{filters_of, entry_of}
use terraform_provider_runde.Job.Writes.Lists.{HasConfigs, log_filter_fields, with_configs}

-- the blocks as they are read back, one value each
abbrev pub read_blocks : SchemaReader → Attributes → List Fields → List Value
read_blocks r attrs blocks = elems (of_list (map (λ fs. object (r.read_fields attrs fs)) blocks))

-- a group of options is not empty, and each option obeys the rules
abbrev pub AreKept : Option JobOptions → Type 0
AreKept = AllSome (λ o. (o.options ≢ []) × All IsAllowed o.options)

abbrev pub options_without_dates : Option JobOptions → Option JobOptions
options_without_dates none = none
options_without_dates (some o) = some (record o { options = map without_date o.options })

map_same : {A : Type 0} (xs : List A) → map (λ x. x) xs ≡ xs
map_same [] = refl
map_same (x ∷ xs) = ap (λ l. x ∷ l) (map_same xs)

both : {A : Type 0} (P Q : A → Type 0) (xs : List A) → All P xs → All Q xs → All (λ x. P x × Q x) xs
both P Q [] _ _ = tt
both P Q (x ∷ xs) (p, ps) (q, qs) = ((p, q), both P Q xs ps qs)

module _ (r : SchemaReader) (reads : IsReader r) where
  traverse_back :
      {A B : Type 0} (attrs : Attributes) (decode : Value → Outcome B) (encode : A → Fields)
      (keep : A → B) {P : A → Type 0}
      → ((a : A) → P a → decode (object (r.read_fields attrs (encode a))) ≡ ok (keep a))
      → (xs : List A) → All P xs
      → traverse decode (read_blocks r attrs (map encode xs)) ≡ ok (map keep xs)
  unfolding traverse
  traverse_back attrs decode encode keep h [] _ = refl
  traverse_back attrs decode encode keep h (x ∷ xs) (p, ps) =
      rw (h x p, traverse_back attrs decode encode keep h xs ps)

  pub commands_back :
      (cs : List JobCommand)
      → All CanDeclare cs
      → traverse command_from_resource_data
          (read_blocks r command_resource (map command_to_resource_data cs))
        ≡ ok cs
  commands_back cs h =
      traverse_back command_resource command_from_resource_data command_to_resource_data (λ c. c)
        (command_from_resource_data-command_to_resource_data r reads) cs h
      ∙ ap ok (map_same cs)

  pub options_of-back :
      (get : String → Value) (preserve_order : Bool) (os : List JobOption)
      → os ≢ []
      → All IsAllowed os
      → get "preserve_options_order" ≡ bool preserve_order
      → options_of get (read_blocks r option_resource (map option_to_resource_data os))
        ≡ ok (some (record { preserve_order = preserve_order; options = map without_date os }))
  options_of-back get preserve_order [] ne _ _ = absurd (ne refl)
  options_of-back get preserve_order (o ∷ os) _ h e = rw (
    e,
    traverse_back option_resource option_from_resource_data option_to_resource_data without_date
        (option_from_resource_data-option_to_resource_data r reads) (o ∷ os) h,
  )

  log_filter-back :
      (f : JobLogFilter × Dict String)
      → NodupKeys f.1
      → log_filter_from_resource_data
          (object (r.read_fields job_filter_resource (log_filter_fields f.0 f.1)))
        ≡ ok (record f.0 { config = some f.1 })
  unfolding log_filter_from_resource_data get_field
  log_filter-back f u =
      let fs = log_filter_fields f.0 f.1 in
      rw (
        field_read r reads "config" type_map job_filter_resource fs refl refl,
        string_read r reads "type" f.0.type job_filter_resource fs refl refl,
        reads.read-map f.1,
        config_from-strings_of f.1 u,
      )

  pub log_filters_of-back :
      (fs : List (JobLogFilter × Dict String))
      → fs ≢ []
      → All (λ f. NodupKeys f.1) fs
      → All (λ f. f.0.config ≡ some f.1) fs
      → log_filters_of (read_blocks r job_filter_resource (with_configs fs))
        ≡ ok (some (map (λ f. f.0) fs))
  log_filters_of-back [] ne u h = absurd (ne refl)
  log_filters_of-back (f ∷ fs) _ u h = rw (
      traverse_back job_filter_resource log_filter_from_resource_data
        (λ g. log_filter_fields g.0 g.1) (λ g. g.0)
        (λ g (keys, config).
          log_filter-back g keys ∙ ap (λ c. ok (record g.0 { config = c })) (sym config))
        (f ∷ fs) (both (λ g. NodupKeys g.1) (λ g. g.0.config ≡ some g.1) (f ∷ fs) u h))

  pub log_filters_read :
      (o : Option (List JobLogFilter)) (fs : List (JobLogFilter × Dict String)) (v old : Value)
      → v ≡ reads_as r (type_list (resource job_filter_resource)) (filters_of fs) old
      → HasConfigs o fs
      → o ≢ some []
      → All (λ f. NodupKeys f.1) fs
      → (fs ≡ [] → old ≡ list end)
      → (vs : List Value) × (as_list v ≡ ok vs) × (log_filters_of vs ≡ ok o)
  log_filters_read none fs v old e same _ _ h = ([], rw (e, same, h same), refl)
  log_filters_read (some filters) [] v old e (same, _) ne _ h = absurd (ne (ap some same))
  log_filters_read (some filters) (f ∷ fs) v old e (same, configs) _ u h = (
    read_blocks r job_filter_resource (with_configs (f ∷ fs)),
    rw (e, reads.read-blocks job_filter_resource (with_configs (f ∷ fs))),
    log_filters_of-back (f ∷ fs) (λ p. cc) u configs ∙ ap (λ l. ok (some l)) (sym same),
  )

  preserve_read :
      (o : Option JobOptions) (v old : Value)
      → v ≡ reads_as r type_bool (entry_of (λ (p : JobOptions). bool p.preserve_order) o) old
      → AllSome (λ p. v ≡ bool p.preserve_order) o
  preserve_read none v old e = tt
  preserve_read (some p) v old e = e ∙ reads.read-bool p.preserve_order

  options_from-read :
      (get : String → Value) (o : Option JobOptions)
      → get "option"
        ≡ list (of_list (map (λ fs. object (r.read_fields option_resource fs)) (option_blocks o)))
      → AllSome (λ p. get "preserve_options_order" ≡ bool p.preserve_order) o
      → AreKept o
      → options_from_resource_data get ≡ ok (options_without_dates o)
  unfolding options_from_resource_data
  options_from-read get none e _ _ = rw e refl
  options_from-read get (some o) e p (ne, allowed) =
      rw e (options_of-back get o.preserve_order o.options ne allowed p)

  pub options_read :
      (get : String → Value) (o : Option JobOptions) (old : Value)
      → get "option" ≡ r.read (type_list (resource option_resource)) (block_list (option_blocks o))
      → get "preserve_options_order"
        ≡ reads_as r type_bool (entry_of (λ (p : JobOptions). bool p.preserve_order) o) old
      → AreKept o
      → options_from_resource_data get ≡ ok (options_without_dates o)
  options_read get o old e p =
      options_from-read get o (e ∙ reads.read-blocks option_resource (option_blocks o))
        (preserve_read o _ old p)
