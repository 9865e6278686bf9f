-- ===== src/Xml/Arguments.antt =====
-- rundeck/job.go: `MarshalXML` and `UnmarshalXML` of `JobCommandJobRefArguments`, a text in an attribute
-- of an element of its own.
use terraform_provider_runde.Common.{String, ◌≡◌, ap, List, [], ◌∷◌, ◌++◌, Option, ◌⊎◌, inr}
use terraform_provider_runde.Go.{Outcome, ok, Error}
use terraform_provider_runde.Http.{result_or}
use terraform_provider_runde.Xml.Tokens.{
  Attr, Token, start_element, end_element, Encoder, Writes, and_then, Writes-two,
}

-- The start element's attributes are replaced; `name` is its name.
unfoldable pub marshal_arguments :
    (e : Encoder) → String → String → e.State → Option Error × e.State
marshal_arguments e a name s =
    and_then (e.encode_token (start_element name (record { name = "line"; value = a } ∷ [])) s)
      (e.encode_token (end_element name))

-- `d.DecodeElement` into a structure with one field, for the attribute `line`: what it returns for an
-- element with these attributes
abbrev pub LineDecoder : Type 0
LineDecoder = List Attr → Error ⊎ String

unfoldable pub unmarshal_arguments : LineDecoder → List Attr → Outcome String
unmarshal_arguments decode_element attrs = result_or (decode_element attrs)

-- The arguments of a job reference are written as one element and read back as they were, where the
-- writer accepts everything and the decoder finds the attribute's value.
pub unmarshal_arguments-marshal_arguments :
    (e : Encoder) (written : e.State → List Token)
    → Writes e written
    → (decode_element : LineDecoder)
    → ((a : String) → decode_element (record { name = "line"; value = a } ∷ []) ≡ inr a)
    → (a name : String) (s : e.State)
    → (attrs : List Attr) × (written (marshal_arguments e a name s).1
        ≡ written s ++ (start_element name attrs ∷ end_element name ∷ []))
      × (unmarshal_arguments decode_element attrs ≡ ok a)
unfolding marshal_arguments unmarshal_arguments
unmarshal_arguments-marshal_arguments e written writes decode_element finds a name s = (
  record { name = "line"; value = a } ∷ [],
  Writes-two e written writes _ _ s,
  ap result_or (finds a),
)
