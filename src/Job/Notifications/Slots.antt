-- ===== src/Job/Notifications/Slots.antt =====
-- What the loop over the notification blocks accepts, and what it builds.
use terraform_provider_runde.Common.{
  String, ◌==◌, eq_iff, ◌≡◌, ◌≢◌, ◌↔◌, refl, sym, ap, ◌∙◌, Bool, true, ◌||◌, if◌then◌else◌, Option,
  none, some, List, [], ◌∷◌, arith, All, ◌⊎◌, inl, inr, eq_refl,
}
use terraform_provider_runde.Common.Dict.{lookup, NodupKeys}
use terraform_provider_runde.Go.{
  Outcome, ok, ◌>>=◌, >>=-eq-ok, >>=_ext, ok-injective, traverse, Value,
}
use terraform_provider_runde.Job.Types.{Notification, JobNotification}
use terraform_provider_runde.Job.Notifications.Decode.{
  add_notification, notifications_onto, no_notifications, notification_from_resource_data,
}

-- the notification of a type
abbrev pub slot : String → JobNotification → Option Notification
slot t job =
    if t == "on_success"
    then job.on_success
    else if t == "on_failure"
    then job.on_failure
    else if t == "on_start"
    then job.on_start
    else none

abbrev pub is_known : String → Bool
is_known t = t == "on_success" || t == "on_failure" || t == "on_start"

-- the `switch` for each decoded block in turn
unfoldable pub add_all : JobNotification → List (String × Notification) → Outcome JobNotification
add_all job [] = ok job
add_all job (n ∷ ns) = add_notification job n >>= λ job'. add_all job' ns

notifications_onto_sound :
    (job r : JobNotification) (vs : List Value)
    → notifications_onto job vs ≡ ok r
    → (ns : List (String × Notification)) × (traverse notification_from_resource_data vs ≡ ok ns)
      × (add_all job ns ≡ ok r)
unfolding traverse notifications_onto add_all
notifications_onto_sound job r [] h = ([], refl, h)
notifications_onto_sound job r (v ∷ vs) h =
    let (n, decoded, h₁) = >>=-eq-ok (notification_from_resource_data v) _ h in
    let (job', added, h₂) = >>=-eq-ok (add_notification job n) _ h₁ in
    let (ns, all_decoded, all_added) = notifications_onto_sound job' r vs h₂ in
    (n ∷ ns, rw (decoded, all_decoded), rw added all_added)

pub notifications_onto_complete :
    (job : JobNotification) (vs : List Value) (ns : List (String × Notification))
    → traverse notification_from_resource_data vs ≡ ok ns
    → notifications_onto job vs ≡ add_all job ns
unfolding traverse notifications_onto add_all
notifications_onto_complete job [] ns h =
    ap (add_all job) (ok-injective {0} {A = List (String × Notification)} h)
notifications_onto_complete job (v ∷ vs) ns h =
    let (n, decoded, h₁) = >>=-eq-ok (notification_from_resource_data v) _ h in
    let (ns', all_decoded, h₂) = >>=-eq-ok (traverse notification_from_resource_data vs) _ h₁ in
    let split = ok-injective {0} {A = List (String × Notification)} h₂ in
    ap (λ d. d >>= λ m. add_notification job m >>= λ job'. notifications_onto job' vs) decoded
    ∙ >>=_ext (add_notification job n) (λ job'. notifications_onto_complete job' vs ns' all_decoded)
    ∙ ap (add_all job) split

add_notification_sound :
    (job r : JobNotification) (t : String) (n : Notification)
    → add_notification job (t, n) ≡ ok r
    → (is_known t ≡ true)
      × (slot t job ≡ none)
      × ((u : String) → slot u r ≡ (if t == u then some n else slot u job))
unfolding add_notification
add_notification_sound job r t n h = (
  ground arith,
  ground (arith, eq_iff t "on_success", eq_iff t "on_failure", eq_iff t "on_start"),
  λ u. ground (
    arith,
    eq_iff t "on_success",
    eq_iff t "on_failure",
    eq_iff t "on_start",
    eq_iff u "on_success",
    eq_iff u "on_failure",
    eq_iff u "on_start",
    eq_iff t u,
  ),
)

with_slot : String → Notification → JobNotification → JobNotification
with_slot t n job =
    if t == "on_success"
    then record job { on_success = some n }
    else if t == "on_failure"
    then record job { on_failure = some n }
    else record job { on_start = some n }

add_notification_complete :
    (job : JobNotification) (t : String) (n : Notification)
    → is_known t ≡ true
    → slot t job ≡ none
    → (r : JobNotification) × (add_notification job (t, n) ≡ ok r)
unfolding add_notification with_slot
add_notification_complete job t n k h = (with_slot t n job, ground arith)

abbrev pub or_else : Option Notification → Option Notification → Option Notification
or_else none o = o
or_else (some n) o = some n

or_else-none : (o : Option Notification) → o ≡ or_else o none
or_else-none none = refl
or_else-none (some n) = refl

none_or : (o : Option Notification) → (o ≡ none) ⊎ (o ≢ none)
none_or none = inl refl
none_or (some n) = inr (λ h. cc)

free_slot : (o : Option Notification) → ¬ (o ≢ none) → o ≡ none
free_slot none _ = refl
free_slot (some n) h = elim (h (λ e. cc)) [ ]

same_slots : (r r' : JobNotification) → ((t : String) → slot t r ≡ slot t r') → r ≡ r'
same_slots r r' h = rw (sym (h "on_success"), sym (h "on_failure"), sym (h "on_start")) refl

add_all_sound :
    (job r : JobNotification) (ns : List (String × Notification))
    → add_all job ns ≡ ok r
    → NodupKeys ns
      × All (λ e. is_known e.0 ≡ true) ns
      × ((u : String) → slot u job ≢ none → lookup u ns ≡ none)
      × ((u : String) → slot u r ≡ or_else (slot u job) (lookup u ns))
unfolding add_all lookup
add_all_sound job r [] h =
    (tt, tt, λ u _. refl, λ u. ap (slot u) (sym (ok-injective h)) ∙ or_else-none (slot u job))
add_all_sound job r (n ∷ ns) h =
    let (job', added, h₁) = >>=-eq-ok (add_notification job n) _ h in
    let (known, free, slots) = add_notification_sound job job' n.0 n.1 added in
    let (nodup, all_known, apart, result) = add_all_sound job' r ns h₁ in
    (
      (apart n.0 (λ e. ground (arith, slots n.0, eq_refl n.0)), nodup),
      (known, all_known),
      λ u p. ground (arith, slots u, eq_iff n.0 u, apart u),
      λ u. ground (arith, slots u, result u, eq_iff n.0 u, apart u, none_or (slot u job)),
    )

add_all_complete :
    (job : JobNotification) (ns : List (String × Notification))
    → NodupKeys ns
    → All (λ e. is_known e.0 ≡ true) ns
    → ((u : String) → slot u job ≢ none → lookup u ns ≡ none)
    → (r : JobNotification) × (add_all job ns ≡ ok r)
unfolding add_all lookup
add_all_complete job [] _ _ _ = (job, refl)
add_all_complete job (n ∷ ns) (fresh, nodup) (known, all_known) apart =
    let free = free_slot (slot n.0 job) (λ p. ground (arith, apart n.0 p, eq_refl n.0)) in
    let (job', added) = add_notification_complete job n.0 n.1 known free in
    let (_, _, slots) = add_notification_sound job job' n.0 n.1 added in
    let (r, all_added) =
      add_all_complete job' ns nodup all_known
        (λ u p. ground (arith, slots u, eq_iff n.0 u, apart u)) in
    (r, ap (λ m. m >>= λ j. add_all j ns) added ∙ all_added)

slot-no_notifications : (u : String) → slot u no_notifications ≡ none
slot-no_notifications u = ground arith

-- Decoded notification blocks are accepted exactly when their types are known and distinct; each
-- notification of the job is then the one of the block with its type.
pub add_all-no_notifications :
    (ns : List (String × Notification)) (r : JobNotification)
    → (add_all no_notifications ns ≡ ok r)
      ↔ (NodupKeys ns × All (λ e. is_known e.0 ≡ true) ns × ((t : String) → slot t r ≡ lookup t ns))
add_all-no_notifications ns r = (
  λ h.
      let (nodup, known, _, result) = add_all_sound no_notifications r ns h in
      (nodup, known, λ t. result t ∙ ap (λ o. or_else o (lookup t ns)) (slot-no_notifications t)),
  λ (nodup, known, slots).
      let (r', h) =
        add_all_complete no_notifications ns nodup known
          (λ u p. elim (p (slot-no_notifications u)) [ ]) in
      let (_, _, _, result) = add_all_sound no_notifications r' ns h in
      h
      ∙ ap ok (
          same_slots r' r (λ t.
            result t
            ∙ ap (λ o. or_else o (lookup t ns)) (slot-no_notifications t)
            ∙ sym (slots t))),
)
