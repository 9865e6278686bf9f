-- ===== src/Job/Notifications/Safety.antt =====
-- Panics in the decoding of notification blocks of the declared type.
use terraform_provider_runde.Common.{String, List, [], ◌∷◌, All, leb, length, arith}
use terraform_provider_runde.Go.{
  >>=-IsSafe, traverse-IsSafe, if-IsSafe, IsSafe, Value, Fields, get_field, elems, traverse,
  as_string,
}
use terraform_provider_runde.Sdk.{resource, type_list, type_string, Conforms, ElemConforms}
use terraform_provider_runde.Job.Types.{Notification, JobNotification}
use terraform_provider_runde.Job.Schemas.{
  notification_resource, email_resource, job_plugin_resource,
}
use terraform_provider_runde.Job.Command.Decode.{plugin_of}
use terraform_provider_runde.Job.Command.Safety.{plugin_of-IsSafe}
use terraform_provider_runde.Job.Notifications.Decode.{
  email_of, web_hook_of, notification_plugin, notification_from_resource_data, add_notification,
  notifications_onto, notifications_of, notifications_from_resource_data, no_notifications,
}

as_string-IsSafe : (v : Value) → Conforms type_string v → IsSafe (as_string v)
as_string-IsSafe v (s, e) = rw e tt

strings-IsSafe : (vs : List Value) → All (Conforms type_string) vs → IsSafe (traverse as_string vs)
strings-IsSafe vs h = traverse-IsSafe as_string vs as_string-IsSafe h

email_of-IsSafe :
    (vs : List Value) → All (ElemConforms (resource email_resource)) vs → IsSafe (email_of vs)
email_of-IsSafe [] h = tt
email_of-IsSafe (v ∷ vs) ((fs, e, ((a, ae), ((rs, re, h), ((s, se), _))), _), _) =
    rw (e, ae, se, re)
      (>>=-IsSafe (traverse as_string (elems rs)) _ (strings-IsSafe (elems rs) h) λ _ _. tt)

web_hook_of-IsSafe :
    (fs : Fields) (vs : List Value) (n : Notification)
    → All (Conforms type_string) vs
    → Conforms type_string (get_field "webhook_format" fs)
    → Conforms type_string (get_field "webhook_http_method" fs)
    → IsSafe (web_hook_of fs vs n)
web_hook_of-IsSafe fs [] n _ _ _ = tt
web_hook_of-IsSafe fs (v ∷ vs) n h (f, fe) (m, me) =
    rw (fe, me) (>>=-IsSafe (traverse as_string (v ∷ vs)) _ (strings-IsSafe (v ∷ vs) h) λ _ _. tt)

notification_plugin-IsSafe :
    (vs : List Value)
    → All (ElemConforms (resource job_plugin_resource)) vs
    → IsSafe (notification_plugin vs)
notification_plugin-IsSafe [] h = tt
notification_plugin-IsSafe (v ∷ []) (h, _) =
    >>=-IsSafe (plugin_of v) _ (plugin_of-IsSafe v h) (λ _ _. tt)
notification_plugin-IsSafe (v ∷ w ∷ vs) h = tt

notification_from_resource_data-IsSafe :
    (v : Value)
    → ElemConforms (resource notification_resource) v
    → IsSafe (notification_from_resource_data v)
unfolding notification_from_resource_data
notification_from_resource_data-IsSafe v
      (fs, e, ((t, te), ((es, ee, eh), ((us, ue, uh), (m, (f, ((ps, pe, ph), _)))))), _) =
    rw (e, te, ee, ue, pe)
      (>>=-IsSafe (email_of (elems es)) _ (email_of-IsSafe (elems es) eh) λ _ _.
        >>=-IsSafe (web_hook_of fs (elems us) _) _ (web_hook_of-IsSafe fs (elems us) _ uh f m)
          λ _ _.
            >>=-IsSafe (notification_plugin (elems ps)) _ (notification_plugin-IsSafe (elems ps) ph)
              λ _ _. tt)

add_notification-IsSafe :
    (job : JobNotification) (t : String) (n : Notification) → IsSafe (add_notification job (t, n))
unfolding add_notification
add_notification-IsSafe job t n = ground arith

notifications_onto-IsSafe :
    (job : JobNotification) (vs : List Value)
    → All (ElemConforms (resource notification_resource)) vs
    → IsSafe (notifications_onto job vs)
unfolding notifications_onto
notifications_onto-IsSafe job [] h = tt
notifications_onto-IsSafe job (v ∷ vs) (p, h) =
    >>=-IsSafe (notification_from_resource_data v) _ (notification_from_resource_data-IsSafe v p)
      λ n _.
        >>=-IsSafe (add_notification job n) _ (add_notification-IsSafe job n.0 n.1)
          λ job' _. notifications_onto-IsSafe job' vs h

notifications_of-IsSafe :
    (vs : List Value)
    → All (ElemConforms (resource notification_resource)) vs
    → IsSafe (notifications_of vs)
notifications_of-IsSafe [] h = tt
notifications_of-IsSafe (v ∷ vs) h =
    if-IsSafe (leb (length (v ∷ vs)) 3) _ _
      (>>=-IsSafe (notifications_onto no_notifications (v ∷ vs)) _
        (notifications_onto-IsSafe no_notifications (v ∷ vs) h) λ _ _. tt)
      tt

pub notifications_from_resource_data-IsSafe :
    (get : String → Value)
    → Conforms (type_list (resource notification_resource)) (get "notification")
    → IsSafe (notifications_from_resource_data get)
unfolding notifications_from_resource_data
notifications_from_resource_data-IsSafe get (vs, e, h) = rw e (notifications_of-IsSafe (elems vs) h)
