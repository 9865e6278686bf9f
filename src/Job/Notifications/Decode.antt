-- ===== src/Job/Notifications/Decode.antt =====
-- rundeck/resource_job.go: the notifications in `jobFromResourceData`.
use terraform_provider_runde.Common.{
  String, ◌<>◌, ◌==◌, if◌then◌else◌, Option, none, some, List, [], ◌∷◌, length, leb,
}
use terraform_provider_runde.Go.{
  Outcome, ok, err, ◌>>=◌, traverse, Error, errorf, Value, Fields, get_field, as_string, as_bool,
  as_list, as_object,
}
use terraform_provider_runde.Job.Types.{JobPlugin, EmailNotification, Notification, JobNotification}
use terraform_provider_runde.Job.Command.Decode.{plugin_of}

-- Of several e-mail blocks only the first counts.
abbrev pub email_of : List Value → Outcome (Option EmailNotification)
email_of [] = ok none
email_of (v ∷ vs) = do
  email ← as_object v
  attach_log ← as_bool (get_field "attach_log" email)
  subject ← as_string (get_field "subject" email)
  recipient_values ← as_list (get_field "recipients" email)
  recipients ← traverse as_string recipient_values
  ok (some (record { attach_log = attach_log; recipients = recipients; subject = subject }))

abbrev pub web_hook_of : Fields → List Value → Notification → Outcome Notification
web_hook_of notification_map [] n = ok n
web_hook_of notification_map (v ∷ vs) n = do
  urls ← traverse as_string (v ∷ vs)
  format ← as_string (get_field "webhook_format" notification_map)
  http_method ← as_string (get_field "webhook_http_method" notification_map)
  ok (record n {
    web_hook = some (record { urls = urls });
    format = format;
    http_method = http_method;
  })

abbrev pub notification_plugin : List Value → Outcome (Option JobPlugin)
notification_plugin [] = ok none
notification_plugin (v ∷ []) = plugin_of v >>= λ p. ok (some p)
notification_plugin (v ∷ w ∷ vs) =
    err (errorf "rundeck command may have no more than one notification plugin")

abbrev pub no_notification : Notification
no_notification = record {
  email = none;
  web_hook = none;
  plugin = none;
  http_method = "";
  format = "";
}

-- One round of the loop, up to the `switch`: the type and the notification.
unfoldable pub notification_from_resource_data : Value → Outcome (String × Notification)
notification_from_resource_data v = do
  notification_map ← as_object v
  job_type ← as_string (get_field "type" notification_map)
  emails ← as_list (get_field "email" notification_map)
  email ← email_of emails
  urls ← as_list (get_field "webhook_urls" notification_map)
  notification ← web_hook_of notification_map urls (record no_notification { email = email })
  plugins ← as_list (get_field "plugin" notification_map)
  plugin ← notification_plugin plugins
  ok (job_type, record notification { plugin = plugin })

abbrev pub already_exists : String → Error
already_exists job_type = errorf ("a block with " <> job_type <> " already exists")

abbrev pub unknown_type : Error
unknown_type = errorf "the notification type is not one of `on_success`, `on_failure`, `on_start`"

abbrev pub too_many : Error
too_many =
    errorf "can only have up to three notfication blocks, `on_success`, `on_failure`, `on_start`"

abbrev put_once : {A : Type 0} → String → Option Notification → A → Outcome A
put_once job_type none a = ok a
put_once job_type (some n) a = err (already_exists job_type)

-- the `switch` on the type
unfoldable pub add_notification : JobNotification → String × Notification → Outcome JobNotification
add_notification job (job_type, n) =
    if job_type == "on_success"
    then put_once job_type job.on_success (record job { on_success = some n })
    else if job_type == "on_failure"
    then put_once job_type job.on_failure (record job { on_failure = some n })
    else if job_type == "on_start"
    then put_once job_type job.on_start (record job { on_start = some n })
    else err unknown_type

-- the loop over the blocks
unfoldable pub notifications_onto : JobNotification → List Value → Outcome JobNotification
notifications_onto job [] = ok job
notifications_onto job (v ∷ vs) = notification_from_resource_data v >>= λ n.
    add_notification job n >>= λ job'. notifications_onto job' vs

abbrev pub no_notifications : JobNotification
no_notifications = record { on_failure = none; on_start = none; on_success = none }

abbrev pub notifications_of : List Value → Outcome (Option JobNotification)
notifications_of [] = ok none
notifications_of (v ∷ vs) =
    if leb (length (v ∷ vs)) 3
    then (notifications_onto no_notifications (v ∷ vs) >>= λ job. ok (some job))
    else err too_many

-- from the attributes that `get` reads
unfoldable pub notifications_from_resource_data :
    (String → Value) → Outcome (Option JobNotification)
notifications_from_resource_data get = as_list (get "notification") >>= notifications_of
