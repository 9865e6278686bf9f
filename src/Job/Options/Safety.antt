-- ===== src/Job/Options/Safety.antt =====
-- Panics in the decoding of options of the declared type.
use terraform_provider_runde.Common.{String, Bool, true, false, List, [], ◌∷◌, All, not, ◌==◌, ◌&&◌}
use terraform_provider_runde.Go.{
  >>=-IsSafe, traverse, traverse-IsSafe, IsSafe, refuse_if, Error, Value, Fields, elems,
}
use terraform_provider_runde.Sdk.{
  resource, type_list, type_string, type_bool, Conforms, ElemConforms, FieldsConform,
}
use terraform_provider_runde.Job.Types.{JobOption}
use terraform_provider_runde.Job.Schemas.{option_resource}
use terraform_provider_runde.Job.Options.Decode.{
  value_choices_of, option_fields, check_option, option_from_resource_data, options_of,
  options_from_resource_data,
}

value_choices_of-IsSafe :
    (vs : List Value) → All (Conforms type_string) vs → IsSafe (value_choices_of vs)
unfolding value_choices_of
value_choices_of-IsSafe [] h = tt
value_choices_of-IsSafe (v ∷ vs) ((s, e), h) =
    rw e (>>=-IsSafe (value_choices_of vs) _ (value_choices_of-IsSafe vs h) (λ _ _. tt))

refuse_if-IsSafe : (b : Bool) (e : Error) → IsSafe (refuse_if b e)
refuse_if-IsSafe true e = tt
refuse_if-IsSafe false e = tt

check_option-IsSafe : (o : JobOption) → IsSafe (check_option o)
unfolding check_option
check_option-IsSafe o =
    >>=-IsSafe (refuse_if (not (o.storage_path == "") && not o.obscure_input) _) _
      (refuse_if-IsSafe _ _)
      λ _ _.
        >>=-IsSafe (refuse_if (o.value_is_exposed_to_scripts && not o.obscure_input) _) _
          (refuse_if-IsSafe _ _) λ _ _. refuse_if-IsSafe _ _

option_fields-IsSafe : (fs : Fields) → FieldsConform option_resource fs → IsSafe (option_fields fs)
unfolding option_fields
option_fields-IsSafe fs
      (
        (n, ne),
        (
          (l, le),
          (
            (d, de),
            (
              _,
              (
                (u, ue),
                (
                  (p, pe),
                  (
                    (v, ve),
                    (
                      (t, te),
                      (
                        (q, qe),
                        (
                          (a, ae),
                          ((m, me), ((o, oe), ((x, xe), ((s, se), ((i, ie), ((f, fe), _)))))),
                        ),
                      ),
                    ),
                  ),
                ),
              ),
            ),
          ),
        ),
      ) =
    rw (ne, le, de, ue, pe, ve, te, qe, ae, me, oe, xe, se, ie, fe) tt

pub option_from_resource_data-IsSafe :
    (v : Value) → ElemConforms (resource option_resource) v → IsSafe (option_from_resource_data v)
unfolding option_from_resource_data
option_from_resource_data-IsSafe v (fs, e, all, _) =
    let (_, (_, (_, ((cs, ce, choices), _)))) = all in
    rw (e, ce)
      (>>=-IsSafe (option_fields fs) _ (option_fields-IsSafe fs all) λ o _.
        >>=-IsSafe (check_option o) _ (check_option-IsSafe o) λ _ _.
          >>=-IsSafe (value_choices_of (elems cs)) _ (value_choices_of-IsSafe (elems cs) choices)
            λ _ _. tt)

options_of-IsSafe :
    (get : String → Value) (vs : List Value)
    → Conforms type_bool (get "preserve_options_order")
    → All (ElemConforms (resource option_resource)) vs
    → IsSafe (options_of get vs)
options_of-IsSafe get [] _ _ = tt
options_of-IsSafe get (v ∷ vs) (b, e) h = rw e (
    >>=-IsSafe (traverse option_from_resource_data (v ∷ vs)) _
      (traverse-IsSafe option_from_resource_data (v ∷ vs) option_from_resource_data-IsSafe h)
      λ _ _. tt)

pub options_from_resource_data-IsSafe :
    (get : String → Value)
    → Conforms type_bool (get "preserve_options_order")
    → Conforms (type_list (resource option_resource)) (get "option")
    → IsSafe (options_from_resource_data get)
unfolding options_from_resource_data
options_from_resource_data-IsSafe get p (vs, e, h) = rw e (options_of-IsSafe get (elems vs) p h)
