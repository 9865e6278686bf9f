-- ===== src/Xml/Maps.antt =====
-- rundeck/util.go: `marshalMapToXML` and `unmarshalMapFromXML`.
pub mod Order
pub mod Deterministic
pub mod RoundTrip
pub mod Stops
use terraform_provider_runde.Common.{
  String, ◌<>◌, ◌==◌, Bool, true, false, not, if◌then◌else◌, List, [], ◌∷◌, Option, none, some, map,
}
use terraform_provider_runde.Common.Dict.{Dict, lookup, insert}
use terraform_provider_runde.Go.{Outcome, ok, err, errorf, Error}
use terraform_provider_runde.Xml.Tokens.{
  Attr, Token, start_element, end_element, other_token, Encoder, Event, token, failed,
}
use terraform_provider_runde.Xml.Maps.Order.{sort_strings}

abbrev pub keys : Dict String → List String
keys c = map (λ e. e.0) c

-- the zero value of a missing key
abbrev pub or_empty : Option String → String
or_empty none = ""
or_empty (some v) = v

-- `(*c)[k]`
abbrev pub value_at : Dict String → String → String
value_at c k = or_empty (lookup k c)

abbrev pub end_of_input : Error
end_of_input = errorf "EOF while decoding job command plugin config"

abbrev pub unexpected : String → Error
unexpected name = errorf ("unexpected element " <> name <> " while looking for config entries")

abbrev pub empty_key : Error
empty_key = errorf "found config entry with empty key"

module _ (entry_name key_name value_name : String) where
  abbrev pub entry_start : String → String → Token
  entry_start k v =
      start_element entry_name
        (record { name = key_name; value = k } ∷ record { name = value_name; value = v } ∷ [])

  -- The errors of `EncodeToken` are dropped, as in the source.
  unfoldable pub encode_entries : (e : Encoder) → Dict String → List String → e.State → e.State
  encode_entries e c [] s = s
  encode_entries e c (k ∷ ks) s =
      encode_entries e c ks
        (e.encode_token (end_element entry_name)
          (e.encode_token (entry_start k (value_at c k)) s).1).1

  -- `marshalMapToXML`: the encoder's state after it. It always returns nil.
  unfoldable pub marshal_map_to_xml :
      (e : Encoder) → Dict String → Token → String → e.State → e.State
  marshal_map_to_xml e [] start start_name s = s
  marshal_map_to_xml e (entry ∷ rest) start start_name s =
      let c = entry ∷ rest in
      (e.encode_token (end_element start_name)
        (encode_entries e c (sort_strings (keys c)) (e.encode_token start s).1)).1

  -- the loop over the attributes, with the variables `k` and `v`
  unfoldable pub scan_attributes : List Attr → String → String → String × String
  scan_attributes [] k v = (k, v)
  scan_attributes (a ∷ attrs) k v =
      scan_attributes attrs (if a.name == key_name then a.value else k)
        (if a.name == key_name then v else if a.name == value_name then a.value else v)

  -- The loop of `unmarshalMapFromXML` with the map read so far; the events that the decoder has left
  -- come back with the map.
  unfoldable pub read_entries :
      String → Dict String → List Event → Outcome (Dict String × List Event)
  read_entries start_name result [] = err end_of_input
  read_entries start_name result (failed e ∷ events) = err end_of_input
  read_entries start_name result (token (other_token text) ∷ events) =
      read_entries start_name result events
  read_entries start_name result (token (start_element name attrs) ∷ events) =
      let kv = scan_attributes attrs "" "" in
      let rest = read_entries start_name (insert kv.0 kv.1 result) events in
      if not (name == entry_name)
      then err (unexpected name)
      else if kv.0 == ""
      then err empty_key
      else rest
  read_entries start_name result (token (end_element name) ∷ events) =
      let rest = read_entries start_name result events in
      if name == start_name then ok (result, events) else rest

  -- `unmarshalMapFromXML`, after the start element of this name
  abbrev pub unmarshal_map_from_xml : String → List Event → Outcome (Dict String × List Event)
  unmarshal_map_from_xml start_name events = read_entries start_name [] events
