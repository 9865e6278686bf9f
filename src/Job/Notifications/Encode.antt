-- ===== src/Job/Notifications/Encode.antt =====
-- rundeck/resource_job.go: `readNotification`, and the notifications in `jobToResourceData`.
use terraform_provider_runde.Common.{String, List, [], ◌∷◌, Option, none, some}
use terraform_provider_runde.Common.Dict.{Dict}
use terraform_provider_runde.Go.{
  Value, string, bool, strings, object, Fields, of_dict, singleton, with_entry,
}
use terraform_provider_runde.Job.Types.{
  EmailNotification, WebHookNotification, Notification, JobNotification,
}
use terraform_provider_runde.Job.Command.Encode.{plugin_to_resource_data}

abbrev pub email_to_resource_data : EmailNotification → Fields
email_to_resource_data email = of_dict (
    ("attach_log", bool email.attach_log)
    ∷ ("subject", string email.subject)
    ∷ ("recipients", strings email.recipients)
    ∷ [])

-- The three webhook entries are written together, if there is a webhook.
abbrev pub with_web_hook : Notification → Option WebHookNotification → Dict Value → Dict Value
with_web_hook n none m = m
with_web_hook n (some hook) m =
    ("webhook_urls", strings hook.urls)
    ∷ ("webhook_http_method", string n.http_method)
    ∷ ("webhook_format", string n.format)
    ∷ m

unfoldable pub read_notification : Notification → String → Fields
read_notification n notification_type = of_dict (
    ("type", string notification_type)
    ∷ with_web_hook n n.web_hook (
        with_entry "email" (λ e. singleton (object (email_to_resource_data e))) n.email
          (with_entry "plugin" (λ p. singleton (object (plugin_to_resource_data p))) n.plugin [])))

abbrev pub read_if : Option Notification → String → List Fields → List Fields
read_if none notification_type blocks = blocks
read_if (some n) notification_type blocks = read_notification n notification_type ∷ blocks

-- `notificationConfigsI`
abbrev pub notification_blocks : Option JobNotification → List Fields
notification_blocks none = []
notification_blocks (some job) =
    read_if job.on_success "on_success"
      (read_if job.on_failure "on_failure" (read_if job.on_start "on_start" []))
