-- ===== src/Tests/Notifications.antt =====
-- Notifications: tests, and the theorems at concrete notifications.
use terraform_provider_runde.Common.{String, ◌≡◌, ◌↔◌, refl, true, none, some, [], ◌∷◌, map}
use terraform_provider_runde.Common.Dict.{lookup, insert}
use terraform_provider_runde.Go.{
  ok, err, object, Value, traverse, get_field, list, of_list, end, cons,
}
use terraform_provider_runde.Sdk.{type_list, resource}
use terraform_provider_runde.Job.Types.{Notification, JobNotification}
use terraform_provider_runde.Job.Schemas.{notification_resource}
use terraform_provider_runde.Job.Notifications.Decode.{
  notification_from_resource_data, notifications_from_resource_data, no_notification,
  notifications_onto, add_notification, already_exists, unknown_type, too_many,
}
use terraform_provider_runde.Job.Command.Decode.{config_onto}
use terraform_provider_runde.Job.Notifications.Encode.{read_notification, notification_blocks}
use terraform_provider_runde.Job.Notifications.Accepts.{
  HasBlocks, notifications_from_resource_data-HasBlocks,
}
use terraform_provider_runde.Job.Notifications.RoundTrip.Hooks.{IsRepresentable}
use terraform_provider_runde.Job.Notifications.Blocks.{
  JobIsRepresentable, notifications_from_resource_data-notification_blocks,
}
use terraform_provider_runde.Tests.Reader.{plain_reader, plain_reader-IsReader, read_value}

abbrev mail : Notification
mail = record no_notification {
  email = some (record { attach_log = true; recipients = "a@x" ∷ "b@x" ∷ []; subject = "s" });
}

abbrev hooked : Notification
hooked = record {
  email = none;
  web_hook = some (record { urls = "http://x" ∷ [] });
  plugin = some (record { type = "p"; config = ("k", "v") ∷ [] });
  http_method = "post";
  format = "json";
}

abbrev pub both : JobNotification
both = record { on_failure = some hooked; on_start = none; on_success = some mail }

abbrev blocks : Value
blocks = list (of_list (map object (notification_blocks (some both))))

abbrev get : String → Value
get k = read_value (type_list (resource notification_resource)) blocks

mail-IsRepresentable : IsRepresentable mail
mail-IsRepresentable = record { hook = (refl, refl); plugin_keys = tt }

hooked-IsRepresentable : IsRepresentable hooked
unfolding lookup
hooked-IsRepresentable = record { hook = λ h. cc; plugin_keys = (refl, tt) }

pub both-IsRepresentable : JobIsRepresentable (some both)
both-IsRepresentable = record {
  some_notification = λ h. cc;
  success = mail-IsRepresentable;
  failure = hooked-IsRepresentable;
  start = tt;
}

notifications_from_resource_data-notification_blocks_example :
    notifications_from_resource_data get ≡ ok (some both)
notifications_from_resource_data-notification_blocks_example =
    notifications_from_resource_data-notification_blocks plain_reader plain_reader-IsReader
      (some both) get both-IsRepresentable refl

abbrev block_of : Notification → String → Value
block_of n t = object (plain_reader.read_fields notification_resource (read_notification n t))

abbrev get_two : String → String → String → Value
get_two t u k = list (cons (block_of mail t) (cons (block_of hooked u) end))

abbrev five : String → Value
five k = let b = block_of mail "on_start" in list (cons b (cons b (cons b (cons b (cons b end)))))

notification_tests :
    (notifications_from_resource_data (get_two "on_start" "on_start")
      ≡ err (already_exists "on_start"))
    × (notifications_from_resource_data (get_two "on_start" "on_pause") ≡ err unknown_type)
    × (notifications_from_resource_data five ≡ err too_many)
unfolding notifications_from_resource_data notifications_onto add_notification
    notification_from_resource_data read_notification read_value get_field traverse config_onto
    insert
notification_tests = (refl, refl, refl)

decoded_test :
    traverse notification_from_resource_data
      (block_of mail "on_success" ∷ block_of hooked "on_failure" ∷ [])
    ≡ ok (("on_success", mail) ∷ ("on_failure", hooked) ∷ [])
unfolding notification_from_resource_data read_notification read_value get_field traverse
    config_onto insert
decoded_test = refl

notifications_from_resource_data-HasBlocks_example :
    (notifications_from_resource_data (get_two "on_success" "on_failure") ≡ ok (some both))
    ↔ HasBlocks (("on_success", mail) ∷ ("on_failure", hooked) ∷ []) both
notifications_from_resource_data-HasBlocks_example =
    notifications_from_resource_data-HasBlocks (get_two "on_success" "on_failure")
      (block_of mail "on_success") (block_of hooked "on_failure" ∷ [])
      (("on_success", mail) ∷ ("on_failure", hooked) ∷ []) both refl decoded_test
