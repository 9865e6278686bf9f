-- ===== src/Xml/Configs.antt =====
-- rundeck/job.go: `MarshalXML` and `UnmarshalXML` of `JobPluginConfig` and of `JobLogFilterConfig`.
use terraform_provider_runde.Common.{String, ◌≡◌, List, [], ◌∷◌, ◌++◌, Option, none}
use terraform_provider_runde.Common.Dict.{Dict, insert}
use terraform_provider_runde.Go.{Outcome, ok, err, Error}
use terraform_provider_runde.Xml.Tokens.{
  Attr, Token, start_element, end_element, other_token, Encoder, Event, and_then,
}
use terraform_provider_runde.Xml.Maps.{marshal_map_to_xml, unmarshal_map_from_xml}

-- `MarshalXML` of `JobPluginConfig`
abbrev pub marshal_plugin_config : (e : Encoder) → Dict String → Token → String → e.State → e.State
marshal_plugin_config = marshal_map_to_xml "entry" "key" "value"

-- `UnmarshalXML` of `JobPluginConfig`
abbrev pub unmarshal_plugin_config : String → List Event → Outcome (Dict String × List Event)
unmarshal_plugin_config = unmarshal_map_from_xml "entry" "key" "value"

-- `e.Encode` of an `xmlJobLogFilterConfigEntry`, with its name and its value
abbrev pub EncodeEntry : Encoder → Type 0
EncodeEntry e = String → String → e.State → Option Error × e.State

-- What a call of `d.Decode` into an `xmlJobLogFilterConfigEntry` returns. After the last event of a
-- list every call returns `io.EOF`, as at the end of the element.
pub data EntryEvent : Type 0 where
  entry : String → String → EntryEvent
  bad_entry : Error → EntryEvent

module _ (e : Encoder) (encode_entry : EncodeEntry e) where
  -- the loop over the map, and the end element behind it
  unfoldable pub encode_log_filter_entries : Dict String → String → e.State → Option Error × e.State
  encode_log_filter_entries [] name s = e.encode_token (end_element name) s
  encode_log_filter_entries ((key, value) ∷ config) name s =
      and_then (encode_entry key value s) (encode_log_filter_entries config name)

  -- `MarshalXML` of `JobLogFilterConfig`, for the start element of this name
  unfoldable pub marshal_log_filter_config :
      Dict String → List Attr → String → e.State → Option Error × e.State
  marshal_log_filter_config [] attrs name s = (none, s)
  marshal_log_filter_config (first ∷ rest) attrs name s =
      and_then (e.encode_token (start_element name attrs) s)
        (encode_log_filter_entries (first ∷ rest) name)

-- The loop of `UnmarshalXML` of `JobLogFilterConfig`, with the map read so far
unfoldable pub decode_log_filter_entries : Dict String → List EntryEvent → Outcome (Dict String)
decode_log_filter_entries config [] = ok config
decode_log_filter_entries config (bad_entry e ∷ events) = err e
decode_log_filter_entries config (entry key value ∷ events) =
    decode_log_filter_entries (insert key value config) events

abbrev pub unmarshal_log_filter_config : List EntryEvent → Outcome (Dict String)
unmarshal_log_filter_config = decode_log_filter_entries []

abbrev pub entry_tokens : String → String → List Token
entry_tokens key value = start_element key [] ∷ other_token value ∷ end_element key ∷ []

-- `e.Encode` writes an element with the entry's name and value, and accepts everything.
pub record WritesEntries (e : Encoder) (encode_entry : EncodeEntry e)
    (written : e.State → List Token) : Type 0 where
  pub entry_succeeds : (key value : String) (s : e.State) → (encode_entry key value s).0 ≡ none
  pub entry_appends :
      (key value : String) (s : e.State)
      → written (encode_entry key value s).1 ≡ written s ++ entry_tokens key value

-- `d.Decode` reads such elements one by one up to the end of the element that they are in.
pub record ReadsEntries (decoded : List Token → List EntryEvent) : Type 0 where
  pub at_entry :
      (key value : String) (ts : List Token)
      → decoded (entry_tokens key value ++ ts) ≡ entry key value ∷ decoded ts
  pub at_end : (name : String) (ts : List Token) → decoded (end_element name ∷ ts) ≡ []

abbrev config_tokens : Dict String → String → List Token
config_tokens [] name = end_element name ∷ []
config_tokens ((key, value) ∷ config) name = entry_tokens key value ++ config_tokens config name
