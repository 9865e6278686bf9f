-- ===== src/Tests/Configs.antt =====
-- Configurations and arguments in XML: the theorems at a concrete encoder and decoder.
use terraform_provider_runde.Common.{String, ◌≡◌, refl, List, [], ◌∷◌, ◌++◌, none, inr}
use terraform_provider_runde.Common.Dict.{Dict, insert}
use terraform_provider_runde.Go.{ok}
use terraform_provider_runde.Xml.Tokens.{
  Attr, Token, start_element, end_element, other_token, token, Event, Encoder, Writes,
}
use terraform_provider_runde.Xml.Arguments.{
  LineDecoder, marshal_arguments, unmarshal_arguments, unmarshal_arguments-marshal_arguments,
}
use terraform_provider_runde.Xml.Configs.{
  EncodeEntry, EntryEvent, entry, entry_tokens, unmarshal_plugin_config,
}
use terraform_provider_runde.Xml.Maps.{entry_start, read_entries, scan_attributes}
use terraform_provider_runde.Xml.Maps.Stops.{StopsAt, unmarshal_map_from_xml-StopsAt}

abbrev keeper : Encoder
keeper = record { State = List Token; encode_token = λ t s. (none, s ++ (t ∷ [])) }

keeper-Writes : Writes keeper (λ s. s)
keeper-Writes = record { succeeds = λ t s. refl; appends = λ t s. refl }

abbrev encode_entry : EncodeEntry keeper
encode_entry key value s = (none, s ++ entry_tokens key value)

-- Entries are read as long as the tokens are those of entries.
abbrev decoded : List Token → List EntryEvent
decoded (start_element key attrs ∷ other_token value ∷ end_element other ∷ ts) =
    entry key value ∷ decoded ts
decoded _ = []

abbrev config : Dict String
config = ("b", "2") ∷ ("a", "1") ∷ []

abbrev line_of : LineDecoder
line_of [] = inr ""
line_of (a ∷ attrs) = inr a.value

arguments_test :
    (attrs : List Attr) × ((marshal_arguments keeper "-x 1" "arg" []).1
      ≡ [] ++ (start_element "arg" attrs ∷ end_element "arg" ∷ []))
    × (unmarshal_arguments line_of attrs ≡ ok "-x 1")
arguments_test =
    unmarshal_arguments-marshal_arguments keeper (λ s. s) keeper-Writes line_of (λ a. refl) "-x 1"
      "arg" []

abbrev written_config : List Event
written_config =
    token (entry_start "entry" "key" "value" "a" "1")
    ∷ token (end_element "entry")
    ∷ token (end_element "configuration")
    ∷ token (end_element "notification")
    ∷ []

-- The loop stops at the end of its element.
stops_test :
    unmarshal_plugin_config "configuration" written_config
    ≡ ok (("a", "1") ∷ [], token (end_element "notification") ∷ [])
unfolding read_entries scan_attributes insert
stops_test = refl

unmarshal_map_from_xml-StopsAt_example :
    StopsAt "configuration" written_config (token (end_element "notification") ∷ [])
unmarshal_map_from_xml-StopsAt_example =
    unmarshal_map_from_xml-StopsAt "entry" "key" "value" "configuration" written_config
      (token (end_element "notification") ∷ []) (("a", "1") ∷ []) stops_test
