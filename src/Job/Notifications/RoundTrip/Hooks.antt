-- ===== src/Job/Notifications/RoundTrip/Hooks.antt =====
-- The webhook of a notification, as `readNotification` and the decoder of a block see it.
use terraform_provider_runde.Common.{
  String, ◌≡◌, ◌≢◌, ◌==◌, false, refl, ◌∙◌, Option, none, some, List, [], ◌∷◌, map,
}
use terraform_provider_runde.Common.Dict.{Dict, NodupKeys}
use terraform_provider_runde.Go.{
  ok, Value, nil, string, strings, object, Fields, get_field, of_dict, of_list, elems, with_entry,
  singleton,
}
use terraform_provider_runde.Sdk.Reading.{AllSome, value_or, get_field-with_entry_ne, strings_back}
use terraform_provider_runde.Job.Types.{JobPlugin, WebHookNotification, Notification}
use terraform_provider_runde.Job.Command.Encode.{plugin_to_resource_data}
use terraform_provider_runde.Job.Notifications.Decode.{web_hook_of}
use terraform_provider_runde.Job.Notifications.Encode.{email_to_resource_data, with_web_hook}

-- A method and a format stand only beside a webhook, which has a URL.
abbrev pub HookIsRepresentable : Notification → Option WebHookNotification → Type 0
HookIsRepresentable n none = (n.http_method ≡ "") × (n.format ≡ "")
HookIsRepresentable n (some hook) = hook.urls ≢ []

-- what the resource data can represent of a notification
pub record IsRepresentable (n : Notification) : Type 0 where
  pub hook : HookIsRepresentable n n.web_hook
  pub plugin_keys : AllSome (λ (p : JobPlugin). NodupKeys p.config) n.plugin

abbrev pub email_and_plugin : Notification → Dict Value
email_and_plugin n =
    with_entry "email" (λ e. singleton (object (email_to_resource_data e))) n.email
      (with_entry "plugin" (λ p. singleton (object (plugin_to_resource_data p))) n.plugin [])

pub get_field-with_web_hook :
    (k : String) (n : Notification) (o : Option WebHookNotification) (m : Dict Value)
    → ("webhook_urls" == k) ≡ false
    → ("webhook_http_method" == k) ≡ false
    → ("webhook_format" == k) ≡ false
    → get_field k (of_dict (with_web_hook n o m)) ≡ get_field k (of_dict m)
unfolding get_field
get_field-with_web_hook k n none m _ _ _ = refl
get_field-with_web_hook k n (some hook) m h₁ h₂ h₃ = rw (h₁, h₂, h₃)

pub urls_written :
    (n : Notification) (o : Option WebHookNotification)
    → get_field "webhook_urls" (of_dict (with_web_hook n o (email_and_plugin n)))
      ≡ value_or (λ (w : WebHookNotification). strings w.urls) o nil
unfolding get_field
urls_written n none =
    get_field-with_entry_ne "email" "webhook_urls" _ n.email _ refl
    ∙ get_field-with_entry_ne "plugin" "webhook_urls" _ n.plugin [] refl
urls_written n (some w) = refl

-- the two other entries, if there is a webhook
abbrev pub HasHookEntries : Notification → Fields → Option WebHookNotification → Type 0
HasHookEntries n fs = AllSome (λ _.
    (get_field "webhook_format" fs ≡ string n.format)
    × (get_field "webhook_http_method" fs ≡ string n.http_method))

pub with_web_hook-HasHookEntries :
    (n : Notification) (o : Option WebHookNotification) (m : Dict Value)
    → HasHookEntries n (of_dict (with_web_hook n o m)) o
unfolding get_field
with_web_hook-HasHookEntries n none m = tt
with_web_hook-HasHookEntries n (some w) m = (refl, refl)

pub web_hook_of-some :
    (fs : Fields) (urls : List String) (n : Notification) (format method : String)
    → urls ≢ []
    → get_field "webhook_format" fs ≡ string format
    → get_field "webhook_http_method" fs ≡ string method
    → web_hook_of fs (elems (of_list (map string urls))) n
      ≡ ok (record n {
        web_hook = some (record { urls = urls });
        format = format;
        http_method = method;
      })
web_hook_of-some fs [] n format method h _ _ = absurd (h refl)
web_hook_of-some fs (u ∷ us) n format method _ f m = rw (strings_back (u ∷ us), f, m)
