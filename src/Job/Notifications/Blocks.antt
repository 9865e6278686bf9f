-- ===== src/Job/Notifications/Blocks.antt =====
-- The notification blocks of a job, written to the resource data and read back through their schema.
use terraform_provider_runde.Common.{
  String, ◌≡◌, ◌⊎◌, inl, inr, ◌≢◌, refl, Option, none, some, List, [], map,
}
use terraform_provider_runde.Go.{ok, Value, list, object, Fields, of_list, elems}
use terraform_provider_runde.Sdk.{type_list, resource}
use terraform_provider_runde.Sdk.Reader.{SchemaReader, IsReader}
use terraform_provider_runde.Sdk.Reading.{AllSome}
use terraform_provider_runde.Job.Types.{Notification, JobNotification}
use terraform_provider_runde.Job.Schemas.{notification_resource}
use terraform_provider_runde.Job.Notifications.Decode.{
  notifications_from_resource_data, notifications_of, notifications_onto, add_notification,
  no_notifications,
}
use terraform_provider_runde.Job.Notifications.Encode.{notification_blocks, read_if}
use terraform_provider_runde.Job.Notifications.RoundTrip.Hooks.{IsRepresentable}
use terraform_provider_runde.Job.Notifications.RoundTrip.{notification_from-read}

-- At least one notification, and each can be represented.
pub record AreRepresentable (job : JobNotification) : Type 0 where
  pub some_notification : job ≢ no_notifications
  pub success : AllSome IsRepresentable job.on_success
  pub failure : AllSome IsRepresentable job.on_failure
  pub start : AllSome IsRepresentable job.on_start

abbrev pub JobIsRepresentable : Option JobNotification → Type 0
JobIsRepresentable = AllSome AreRepresentable

module _ (r : SchemaReader) (reads : IsReader r) where
  abbrev blocks_back : List Fields → List Value
  blocks_back blocks =
      elems (of_list (map (λ fs. object (r.read_fields notification_resource fs)) blocks))

  notifications_of-blocks :
      (s f t : Option Notification)
      → AllSome IsRepresentable s
      → AllSome IsRepresentable f
      → AllSome IsRepresentable t
      → Path JobNotification
          (record { on_success = s; on_failure = f; on_start = t })
          no_notifications
        ⊎ (notifications_of (
              blocks_back
                (read_if s "on_success" (read_if f "on_failure" (read_if t "on_start" []))))
            ≡ ok (some (record { on_success = s; on_failure = f; on_start = t })))
  unfolding notifications_onto add_notification
  notifications_of-blocks none none none _ _ _ = inl refl
  notifications_of-blocks none none (some t) _ _ h =
      inr (rw (notification_from-read r reads t "on_start" h))
  notifications_of-blocks none (some f) none _ g _ =
      inr (rw (notification_from-read r reads f "on_failure" g))
  notifications_of-blocks none (some f) (some t) _ g h = inr (
      rw (
        notification_from-read r reads f "on_failure" g,
        notification_from-read r reads t "on_start" h,
      ))
  notifications_of-blocks (some s) none none k _ _ =
      inr (rw (notification_from-read r reads s "on_success" k))
  notifications_of-blocks (some s) none (some t) k _ h = inr (
      rw (
        notification_from-read r reads s "on_success" k,
        notification_from-read r reads t "on_start" h,
      ))
  notifications_of-blocks (some s) (some f) none k g _ = inr (
      rw (
        notification_from-read r reads s "on_success" k,
        notification_from-read r reads f "on_failure" g,
      ))
  notifications_of-blocks (some s) (some f) (some t) k g h = inr (
      rw (
        notification_from-read r reads s "on_success" k,
        notification_from-read r reads f "on_failure" g,
        notification_from-read r reads t "on_start" h,
      ))

  -- The notifications of a job are written as blocks and read back as they were, if there is at least
  -- one, no plugin configuration has a key twice, every webhook has a URL, and a notification
  -- without a webhook has neither a method nor a format.
  pub notifications_from_resource_data-notification_blocks :
      (job : Option JobNotification) (get : String → Value)
      → JobIsRepresentable job
      → get "notification"
        ≡ r.read
            (type_list (resource notification_resource))
            (list (of_list (map object (notification_blocks job))))
      → notifications_from_resource_data get ≡ ok job
  unfolding notifications_from_resource_data
  notifications_from_resource_data-notification_blocks none get _ h =
      rw (h, reads.read-blocks notification_resource [])
  notifications_from_resource_data-notification_blocks (some job) get p h =
      rw (h, reads.read-blocks notification_resource (notification_blocks (some job)))
        (elim (notifications_of-blocks job.on_success job.on_failure job.on_start p.success
          p.failure p.start) [ inl e ↦ absurd (p.some_notification e) | inr e ↦ e ])
