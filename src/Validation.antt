-- ===== src/Validation.antt =====
-- rundeck/util.go: `validateValueFunc`.
use terraform_provider_runde.Common.{
  arith, eq_iff, String, ◌<>◌, ◌==◌, ◌≡◌, ◌⊎◌, ◌↔◌, refl, ap, inl, inr, Bool, true, false, not,
  if◌then◌else◌, List, [], ◌∷◌, Bool-cases,
}
use terraform_provider_runde.Go.{
  Outcome, ok, ok-injective, ◌>>=◌, Error, errorf, Value, string, as_string,
}

-- the loop, which stops at the value
abbrev pub is_listed : String → List String → Bool
is_listed value [] = false
is_listed value (role ∷ roles) = if value == role then true else is_listed value roles

abbrev pub invalid_value : String → String → Error
invalid_value value k = errorf (value <> " is an invalid value for argument " <> k)

-- the warnings, of which there are none, and the errors
unfoldable pub validate_value : List String → Value → String → Outcome (List String × List Error)
validate_value values v k = do
  value ← as_string v
  ok ([], if not (is_listed value values) then invalid_value value k ∷ [] else [])

abbrev pub IsAmong : String → List String → Type 0
IsAmong s [] = ⊥
IsAmong s (r ∷ rs) = (s ≡ r) ⊎ IsAmong s rs

is_listed-IsAmong : (s : String) (rs : List String) → is_listed s rs ≡ true → IsAmong s rs
is_listed-IsAmong s [] h = cc
is_listed-IsAmong s (r ∷ rs) h = elim (Bool-cases (s == r)) [
  | inl same ↦ inl (ground (arith, eq_iff s r))
  | inr other ↦ inr (is_listed-IsAmong s rs (ground arith))
]

IsAmong-is_listed : (s : String) (rs : List String) → IsAmong s rs → is_listed s rs ≡ true
IsAmong-is_listed s [] h = elim h [ ]
IsAmong-is_listed s (r ∷ rs) (inl same) = ground (arith, eq_iff s r)
IsAmong-is_listed s (r ∷ rs) (inr among) = ground (arith, IsAmong-is_listed s rs among)

no_errors :
    (b : Bool) (e : Error)
    → (Path
        (Outcome (List String × List Error))
        (ok ([], if not b then e ∷ [] else []))
        (ok ([], [])))
      ↔ (b ≡ true)
no_errors true e = (λ h. refl, λ h. refl)
no_errors false e = (λ h. cc (ap (λ x. x.1) (ok-injective h)), λ h. cc)

-- A string passes without warnings and errors exactly when it is one of the values that are listed.
pub validate_value-IsAmong :
    (values : List String) (s k : String)
    → (validate_value values (string s) k ≡ ok ([], [])) ↔ IsAmong s values
unfolding validate_value
validate_value-IsAmong values s k =
    let (to, from) = no_errors (is_listed s values) (invalid_value s k) in
    (λ h. is_listed-IsAmong s values (to h), λ h. from (IsAmong-is_listed s values h))
