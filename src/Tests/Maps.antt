-- ===== src/Tests/Maps.antt =====
-- Maps and lists in XML: an encoder that keeps what it is given, and the theorems at concrete maps.
use mathlib.Core.List.{Permᴰ}
use terraform_provider_runde.Common.{arith, String, ◌≡◌, refl, List, [], ◌∷◌, ◌++◌, none, map}
use terraform_provider_runde.Common.Dict.{Dict, lookup, NodupKeys}
use terraform_provider_runde.Go.{ok}
use terraform_provider_runde.Xml.Tokens.{Token, start_element, end_element, token, Encoder, Writes}
use terraform_provider_runde.Xml.Attributes.{
  marshal_xml_attr, unmarshal_xml_attr, unmarshal_xml_attr-marshal_xml_attr,
  marshal_xml_attr-unmarshal_xml_attr,
}
use terraform_provider_runde.Xml.Maps.{
  marshal_map_to_xml, unmarshal_map_from_xml, entry_start, encode_entries,
}
use terraform_provider_runde.Xml.Maps.Order.{sort_strings}
use terraform_provider_runde.Xml.Maps.Deterministic.{marshal_map_to_xml-Perm}
use terraform_provider_runde.Xml.Maps.RoundTrip.{unmarshal_map_from_xml-marshal_map_to_xml}

-- an encoder whose state is what it was given
abbrev keeper : Encoder
keeper = record { State = List Token; encode_token = λ t s. (none, s ++ (t ∷ [])) }

keeper-Writes : Writes keeper (λ s. s)
keeper-Writes = record { succeeds = λ t s. refl; appends = λ t s. refl }

abbrev config : Dict String
config = ("b", "2") ∷ ("a", "1") ∷ []

abbrev shuffled : Dict String
shuffled = ("a", "1") ∷ ("b", "2") ∷ []

abbrev config_start : Token
config_start = start_element "configuration" []

config-NodupKeys : NodupKeys config
unfolding lookup
config-NodupKeys = (refl, (refl, tt))

marshal_map_to_xml_test :
    marshal_map_to_xml "entry" "key" "value" keeper config config_start "configuration" []
    ≡ config_start
      ∷ entry_start "entry" "key" "value" "a" "1"
      ∷ end_element "entry"
      ∷ entry_start "entry" "key" "value" "b" "2"
      ∷ end_element "entry"
      ∷ end_element "configuration"
      ∷ []
unfolding marshal_map_to_xml encode_entries sort_strings lookup
marshal_map_to_xml_test = refl

marshal_map_to_xml-Perm_example :
    marshal_map_to_xml "entry" "key" "value" keeper config config_start "configuration" []
    ≡ marshal_map_to_xml "entry" "key" "value" keeper shuffled config_start "configuration" []
marshal_map_to_xml-Perm_example =
    marshal_map_to_xml-Perm "entry" "key" "value" keeper config shuffled config_start
      "configuration" [] (Permᴰ.swap refl refl) config-NodupKeys

config-lacks_empty : lookup "" config ≡ none
unfolding lookup
config-lacks_empty = refl

unmarshal_map_from_xml-marshal_map_to_xml_example :
    (ts : List Token) × (d : Dict String) × (marshal_map_to_xml "entry" "key" "value" keeper config
        config_start "configuration" []
      ≡ [] ++ (config_start ∷ ts))
    × (unmarshal_map_from_xml "entry" "key" "value" "configuration" (map token ts ++ [])
        ≡ ok (d, []))
    × ((k : String) → lookup k d ≡ lookup k config)
unmarshal_map_from_xml-marshal_map_to_xml_example =
    unmarshal_map_from_xml-marshal_map_to_xml "entry" "key" "value" keeper (λ s. s) keeper-Writes
      config config_start "configuration" [] [] (λ h. cc) config-lacks_empty (λ h. cc) (λ h. cc)

unmarshal_xml_attr-marshal_xml_attr_example :
    unmarshal_xml_attr (marshal_xml_attr ("a@x" ∷ "b@x" ∷ []) "recipients") ≡ "a@x" ∷ "b@x" ∷ []
unmarshal_xml_attr-marshal_xml_attr_example =
    unmarshal_xml_attr-marshal_xml_attr ("a@x" ∷ "b@x" ∷ []) "recipients" (λ h. cc) (omega arith)

marshal_xml_attr-unmarshal_xml_attr_example :
    marshal_xml_attr (unmarshal_xml_attr (record { name = "urls"; value = "a,,b" })) "urls"
    ≡ record { name = "urls"; value = "a,,b" }
marshal_xml_attr-unmarshal_xml_attr_example =
    marshal_xml_attr-unmarshal_xml_attr (record { name = "urls"; value = "a,,b" })
