-- ===== src/Tests/Validation.antt =====
-- The values that are listed, at a concrete list.
use terraform_provider_runde.Common.{◌≡◌, ◌↔◌, refl, [], ◌∷◌}
use terraform_provider_runde.Go.{ok, string}
use terraform_provider_runde.Validation.{
  IsAmong, invalid_value, validate_value, validate_value-IsAmong,
}

validate_value_test :
    validate_value ("a" ∷ "b" ∷ []) (string "c") "k" ≡ ok ([], invalid_value "c" "k" ∷ [])
unfolding validate_value
validate_value_test = refl

validate_value-IsAmong_example :
    (validate_value ("a" ∷ "b" ∷ []) (string "b") "k" ≡ ok ([], [])) ↔ IsAmong "b" ("a" ∷ "b" ∷ [])
validate_value-IsAmong_example = validate_value-IsAmong ("a" ∷ "b" ∷ []) "b" "k"
