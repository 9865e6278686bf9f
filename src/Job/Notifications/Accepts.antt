-- ===== src/Job/Notifications/Accepts.antt =====
-- Which notification blocks `jobFromResourceData` accepts.
use terraform_provider_runde.Common.{
  String, ◌≡◌, refl, sym, ap, ◌∙◌, ◌↔◌, Bool, true, false, some, if◌then◌else◌, suc, List, [], ◌∷◌,
  length, leb, All,
}
use terraform_provider_runde.Common.Dict.{lookup, NodupKeys}
use terraform_provider_runde.Go.{
  Outcome, ok, err, panic, Error, ◌>>=◌, >>=-eq-ok, ok-injective, traverse, Value, as_list,
}
use terraform_provider_runde.Job.Types.{Notification, JobNotification}
use terraform_provider_runde.Job.Notifications.Decode.{
  notification_from_resource_data, notifications_from_resource_data, notifications_onto,
  no_notifications, notifications_of, too_many,
}
use terraform_provider_runde.Job.Notifications.Slots.{
  slot, is_known, add_all-no_notifications, notifications_onto_complete,
}

-- at most three blocks, of known and distinct types, whose notifications the job has
pub record HasBlocks (ns : List (String × Notification)) (job : JobNotification) : Type 0 where
  pub few : leb (length ns) 3 ≡ true
  pub known : All (λ e. is_known e.0 ≡ true) ns
  pub distinct : NodupKeys ns
  pub slots : (t : String) → slot t job ≡ lookup t ns

length-traverse :
    (vs : List Value) (ns : List (String × Notification))
    → traverse notification_from_resource_data vs ≡ ok ns
    → length vs ≡ length ns
unfolding traverse
length-traverse [] ns h = ap length (ok-injective {0} {A = List (String × Notification)} h)
length-traverse (v ∷ vs) ns h =
    let (n, decoded, h₁) = >>=-eq-ok (notification_from_resource_data v) _ h in
    let (ns', all_decoded, h₂) = >>=-eq-ok (traverse notification_from_resource_data vs) _ h₁ in
    ap suc (length-traverse vs ns' all_decoded)
    ∙ ap length (ok-injective {0} {A = List (String × Notification)} h₂)

some_of :
    {A : Type 0} (m : Outcome A) (a : A) → ((m >>= λ x. ok (some x)) ≡ ok (some a)) ↔ (m ≡ ok a)
some_of (panic p) a = (λ h. cc, λ h. cc)
some_of (err e) a = (λ h. cc, λ h. cc)
some_of (ok x) a = (λ h. cc, λ h. cc)

guarded :
    {A : Type 0} (b : Bool) (m : Outcome A) (e : Error) (a : A)
    → ((if b then (m >>= λ x. ok (some x)) else err e) ≡ ok (some a)) ↔ ((b ≡ true) × (m ≡ ok a))
guarded true m e a = let (to, from) = some_of m a in (λ h. (refl, to h), λ (_, h). from h)
guarded false m e a = (λ h. cc, λ h. cc)

-- Notification blocks that are decoded one by one are accepted exactly when there are at most three,
-- of the three known types and no type twice. The job then has the notification of each block in the
-- place of its type, and no other.
pub notifications_from_resource_data-HasBlocks :
    (get : String → Value) (v : Value) (vs : List Value) (ns : List (String × Notification))
    (job : JobNotification)
    → as_list (get "notification") ≡ ok (v ∷ vs)
    → traverse notification_from_resource_data (v ∷ vs) ≡ ok ns
    → (notifications_from_resource_data get ≡ ok (some job)) ↔ HasBlocks ns job
unfolding notifications_from_resource_data
notifications_from_resource_data-HasBlocks get v vs ns job read decoded =
    let (to, from) =
      guarded (leb (length (v ∷ vs)) 3) (notifications_onto no_notifications (v ∷ vs)) too_many
        job in
    let (accepted, accept) = add_all-no_notifications ns job in
    let same = notifications_onto_complete no_notifications (v ∷ vs) ns decoded in
    let same_length = length-traverse (v ∷ vs) ns decoded in
    (
      λ h.
          let (few, onto) = to (ap (λ m. m >>= notifications_of) (sym read) ∙ h) in
          let (distinct, known, slots) = accepted (sym same ∙ onto) in
          record {
            few = ap (λ n. leb n 3) (sym same_length) ∙ few;
            known = known;
            distinct = distinct;
            slots = slots;
          },
      λ b.
          ap (λ m. m >>= notifications_of) read
          ∙ from
              (ap (λ n. leb n 3) same_length ∙ b.few, same ∙ accept (b.distinct, b.known, b.slots)),
    )
