-- ===== src/Job/Options/Rules.antt =====
-- The rules on options that decoding enforces.
use terraform_provider_runde.Common.{◌≡◌, ◌≢◌, ◌==◌, eq_iff, true, false, arith}
use terraform_provider_runde.Go.{ok, >>=-eq-ok, Value, as_list, as_object, get_field}
use terraform_provider_runde.Job.Types.{JobOption}
use terraform_provider_runde.Job.Options.Decode.{
  check_option, option_fields, option_from_resource_data, value_choices_of,
}

-- A value that comes from storage or is shown to scripts is obscured, and a date has a format.
pub record IsAllowed (o : JobOption) : Type 0 where
  pub storage : o.storage_path ≢ "" → o.obscure_input ≡ true
  pub exposed : o.value_is_exposed_to_scripts ≡ true → o.obscure_input ≡ true
  pub date : o.is_date ≡ true → o.date_format ≢ ""

check_option_sound : (o : JobOption) → check_option o ≡ ok tt → IsAllowed o
unfolding check_option
check_option_sound o h = record {
  storage = λ p. ground (arith, eq_iff o.storage_path "");
  exposed = λ p. ground (arith, eq_iff o.storage_path "");
  date = λ p q. ground (arith, eq_iff o.date_format "");
}

pub check_option_complete :
    (o : JobOption)
    → ((o.storage_path == "") ≡ false → o.obscure_input ≡ true)
    → (o.value_is_exposed_to_scripts ≡ true → o.obscure_input ≡ true)
    → (o.is_date ≡ true → (o.date_format == "") ≡ false)
    → check_option o ≡ ok tt
unfolding check_option
check_option_complete o s x d = ground (arith, s, x, d)

-- the option as decoded, and its fields before the choices are read
option_from_resource_data-parts :
    (v : Value) (o : JobOption)
    → option_from_resource_data v ≡ ok o
    → (p : JobOption) × (check_option p ≡ ok tt)
      × (o ≡ record p { value_choices = o.value_choices })
unfolding option_from_resource_data
option_from_resource_data-parts v o h =
    let (fs, _, h₁) = >>=-eq-ok (as_object v) _ h in
    let (p, _, h₂) = >>=-eq-ok (option_fields fs) _ h₁ in
    let (_, passed, h₃) = >>=-eq-ok (check_option p) _ h₂ in
    let (choices, _, h₄) = >>=-eq-ok (as_list (get_field "value_choices" fs)) _ h₃ in
    let (value_choices, _, h₅) = >>=-eq-ok (value_choices_of choices) _ h₄ in (p, passed, cc)

-- Every option that is decoded obeys the rules.
pub option_from_resource_data-IsAllowed :
    (v : Value) (o : JobOption) → option_from_resource_data v ≡ ok o → IsAllowed o
option_from_resource_data-IsAllowed v o h =
    let (p, passed, same) = option_from_resource_data-parts v o h in
    let a = check_option_sound p passed in
    rw same (record { storage = a.storage; exposed = a.exposed; date = a.date })
