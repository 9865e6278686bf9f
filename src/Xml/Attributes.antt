-- ===== src/Xml/Attributes.antt =====
-- rundeck/job.go: `MarshalXMLAttr` and `UnmarshalXMLAttr`, which `NotificationEmails`,
-- `NotificationUrls` and `JobValueChoices` define alike.
use terraform_provider_runde.Common.{String, ◌≡◌, ◌≢◌, refl, List, [], ◌∷◌, All}
use terraform_provider_runde.Common.Texts.{split, join, Lacks, split-join, join-split, split-ne-nil}
use terraform_provider_runde.Xml.Tokens.{Attr}

-- `xml.Attr{}` for an empty list: an attribute with no name, which the encoder leaves out
unfoldable pub marshal_xml_attr : List String → String → Attr
marshal_xml_attr [] name = record { name = ""; value = "" }
marshal_xml_attr (s ∷ c) name = record { name = name; value = join "," (s ∷ c) }

unfoldable pub unmarshal_xml_attr : Attr → List String
unmarshal_xml_attr attr = split "," attr.value

-- A list of at least one text, none of which holds a comma, is written as an attribute and read back.
pub unmarshal_xml_attr-marshal_xml_attr :
    (c : List String) (name : String)
    → c ≢ []
    → All (Lacks ",") c
    → unmarshal_xml_attr (marshal_xml_attr c name) ≡ c
unfolding marshal_xml_attr unmarshal_xml_attr
unmarshal_xml_attr-marshal_xml_attr [] name ne h = absurd (ne refl)
unmarshal_xml_attr-marshal_xml_attr (s ∷ c) name ne h = split-join "," (s ∷ c) ne h

marshal_xml_attr-cons :
    (c : List String) (name : String)
    → c ≢ []
    → marshal_xml_attr c name ≡ record { name = name; value = join "," c }
unfolding marshal_xml_attr
marshal_xml_attr-cons [] name ne = absurd (ne refl)
marshal_xml_attr-cons (s ∷ c) name ne = refl

-- Every attribute that is read is written back as it was.
pub marshal_xml_attr-unmarshal_xml_attr :
    (attr : Attr) → marshal_xml_attr (unmarshal_xml_attr attr) attr.name ≡ attr
unfolding unmarshal_xml_attr
marshal_xml_attr-unmarshal_xml_attr attr = rw (
  marshal_xml_attr-cons (split "," attr.value) attr.name (split-ne-nil "," attr.value),
  join-split,
)
