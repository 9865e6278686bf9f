-- ===== src/Job/Notifications/RoundTrip.antt =====
-- A notification that is written to the resource data and read back through its schema.
pub mod Hooks
use terraform_provider_runde.Common.{
  String, ◌≡◌, ◌≢◌, ◌==◌, false, refl, ap, ◌∙◌, Option, none, some, List, [], ◌∷◌, map,
}
use terraform_provider_runde.Common.Dict.{Dict, NodupKeys}
use terraform_provider_runde.Go.{
  ok, Value, nil, string, strings, object, Fields, get_field, of_dict, of_list, elems, as_list,
  with_entry, singleton,
}
use terraform_provider_runde.Sdk.{type_string, type_list, plain, resource}
use terraform_provider_runde.Sdk.Reader.{SchemaReader, IsReader}
use terraform_provider_runde.Sdk.Reading.{
  AllSome, value_or, get_field-with_entry, get_field-with_entry_ne, field_read, string_read,
  bool_read, block, block-none, block-some, strings_back,
}
use terraform_provider_runde.Job.Types.{
  JobPlugin, EmailNotification, WebHookNotification, Notification,
}
use terraform_provider_runde.Job.Schemas.{
  notification_resource, email_resource, job_plugin_resource,
}
use terraform_provider_runde.Job.Command.Encode.{plugin_to_resource_data}
use terraform_provider_runde.Job.Command.RoundTrip.Parts.{plugin_of-read}
use terraform_provider_runde.Job.Notifications.Decode.{
  email_of, web_hook_of, notification_plugin, no_notification, notification_from_resource_data,
}
use terraform_provider_runde.Job.Notifications.Encode.{
  email_to_resource_data, with_web_hook, read_notification,
}
use terraform_provider_runde.Job.Notifications.RoundTrip.Hooks.{
  HookIsRepresentable, email_and_plugin, get_field-with_web_hook, urls_written, HasHookEntries,
  with_web_hook-HasHookEntries, web_hook_of-some, IsRepresentable,
}

module _ (r : SchemaReader) (reads : IsReader r) where
  email_of-read :
      (e : EmailNotification)
      → email_of (object (r.read_fields email_resource (email_to_resource_data e)) ∷ [])
        ≡ ok (some e)
  unfolding get_field
  email_of-read e =
      let fs = email_to_resource_data e in
      rw (
        bool_read r reads "attach_log" e.attach_log email_resource fs refl refl,
        string_read r reads "subject" e.subject email_resource fs refl refl,
        field_read r reads "recipients" (type_list (plain type_string)) email_resource fs refl refl,
        reads.read-strings e.recipients,
        strings_back e.recipients,
      )

  emails-read :
      (o : Option EmailNotification) (v : Value)
      → v ≡ block r email_resource email_to_resource_data o
      → (vs : List Value) × (as_list v ≡ ok vs) × (email_of vs ≡ ok o)
  emails-read none v h =
      ([], rw (h, block-none r reads email_resource email_to_resource_data), refl)
  emails-read (some e) v h = (
    object (r.read_fields email_resource (email_to_resource_data e)) ∷ [],
    rw (h, block-some r reads email_resource email_to_resource_data e),
    email_of-read e,
  )

  plugins-read :
      (o : Option JobPlugin) (v : Value)
      → AllSome (λ p. NodupKeys p.config) o
      → v ≡ block r job_plugin_resource plugin_to_resource_data o
      → (vs : List Value) × (as_list v ≡ ok vs) × (notification_plugin vs ≡ ok o)
  plugins-read none v _ h =
      ([], rw (h, block-none r reads job_plugin_resource plugin_to_resource_data), refl)
  plugins-read (some p) v u h = (
    object (r.read_fields job_plugin_resource (plugin_to_resource_data p)) ∷ [],
    rw (h, block-some r reads job_plugin_resource plugin_to_resource_data p),
    rw (plugin_of-read r reads p u),
  )

  abbrev read_back : Notification → String → Fields
  read_back n t = r.read_fields notification_resource (read_notification n t)

  email_field :
      (n : Notification) (t : String)
      → get_field "email" (read_back n t) ≡ block r email_resource email_to_resource_data n.email
  unfolding get_field read_notification block
  email_field n t =
      field_read r reads "email" (type_list (resource email_resource)) notification_resource
        (read_notification n t) refl
        (get_field-with_web_hook "email" n n.web_hook _ refl refl refl
          ∙ get_field-with_entry "email" _ n.email _
          ∙ ap (value_or _ n.email) (get_field-with_entry_ne "plugin" "email" _ n.plugin [] refl))

  plugin_field :
      (n : Notification) (t : String)
      → get_field "plugin" (read_back n t)
        ≡ block r job_plugin_resource plugin_to_resource_data n.plugin
  unfolding get_field read_notification block
  plugin_field n t =
      field_read r reads "plugin" (type_list (resource job_plugin_resource)) notification_resource
        (read_notification n t) refl
        (get_field-with_web_hook "plugin" n n.web_hook _ refl refl refl
          ∙ get_field-with_entry_ne "email" "plugin" _ n.email _ refl
          ∙ get_field-with_entry "plugin" _ n.plugin [])

  hook_of-read :
      (n : Notification) (fs : Fields) (o : Option WebHookNotification)
      → HookIsRepresentable n o
      → get_field "webhook_urls" fs ≡ value_or (λ w. strings w.urls) o nil
      → HasHookEntries n fs o
      → (vs : List Value) × (as_list
            (get_field "webhook_urls" (r.read_fields notification_resource fs))
          ≡ ok vs)
        × (web_hook_of
              (r.read_fields notification_resource fs)
              vs
              (record no_notification { email = n.email })
            ≡ ok (record n { web_hook = o; plugin = none }))
  hook_of-read n fs none (no_method, no_format) written _ = (
    [],
    rw (
      field_read r reads "webhook_urls" (type_list (plain type_string)) notification_resource fs
          refl written,
      reads.read-list_nil (plain type_string),
    ),
    rw (no_method, no_format),
  )
  hook_of-read n fs (some w) has_urls written (format, method) = (
    elems (of_list (map string w.urls)),
    rw (
      field_read r reads "webhook_urls" (type_list (plain type_string)) notification_resource fs
          refl written,
      reads.read-strings w.urls,
    ),
    web_hook_of-some (r.read_fields notification_resource fs) w.urls
        (record no_notification { email = n.email }) n.format n.http_method has_urls
        (string_read r reads "webhook_format" n.format notification_resource fs refl format)
        (string_read r reads "webhook_http_method" n.http_method notification_resource fs refl
          method),
  )

  hook-read :
      (n : Notification) (t : String)
      → HookIsRepresentable n n.web_hook
      → (vs : List Value) × (as_list (get_field "webhook_urls" (read_back n t)) ≡ ok vs)
        × (web_hook_of (read_back n t) vs (record no_notification { email = n.email })
            ≡ ok (record n { plugin = none }))
  unfolding read_notification get_field
  hook-read n t h =
      hook_of-read n (read_notification n t) n.web_hook h (urls_written n n.web_hook)
        (with_web_hook-HasHookEntries n n.web_hook _)

  pub notification_from-read :
      (n : Notification) (t : String)
      → IsRepresentable n
      → notification_from_resource_data (object (read_back n t)) ≡ ok (t, n)
  unfolding notification_from_resource_data read_notification get_field
  notification_from-read n t p =
      let (emails, emails_listed, email_found) = emails-read n.email _ (email_field n t) in
      let (urls, urls_listed, hook_found) = hook-read n t p.hook in
      let (plugins, plugins_listed, plugin_found) =
        plugins-read n.plugin _ p.plugin_keys (plugin_field n t) in
      rw (
        string_read r reads "type" t notification_resource (read_notification n t) refl refl,
        emails_listed,
        email_found,
        urls_listed,
        hook_found,
        plugins_listed,
        plugin_found,
      )
