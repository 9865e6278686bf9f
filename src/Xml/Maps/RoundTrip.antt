-- ===== src/Xml/Maps/RoundTrip.antt =====
-- A map that is encoded and decoded again.
use terraform_provider_runde.Common.{
  String, ◌==◌, eq_iff, eq_refl, ◌≡◌, ◌≢◌, refl, sym, ap, ◌∙◌, Bool, true, false, if◌then◌else◌,
  List, [], ◌∷◌, ◌++◌, map, Option, none, some, arith,
}
use mathlib.Core.List.{append_assoc, append-nil, tail}
use terraform_provider_runde.Common.Dict.{Dict, lookup, insert, lookup-insert}
use terraform_provider_runde.Go.{ok}
use terraform_provider_runde.Xml.Tokens.{Token, end_element, Encoder, Writes, Event, token}
use terraform_provider_runde.Xml.Maps.Order.{sort_strings, contains, contains-sort_strings}
use terraform_provider_runde.Xml.Maps.{
  keys, or_empty, value_at, entry_start, encode_entries, marshal_map_to_xml, scan_attributes,
  read_entries, unmarshal_map_from_xml,
}

abbrev is_bound : Option String → Bool
is_bound none = false
is_bound (some v) = true

bound_or_none : (o : Option String) → (if is_bound o then some (or_empty o) else none) ≡ o
bound_or_none none = refl
bound_or_none (some v) = refl

contains-keys : (k : String) (m : Dict String) → contains k (keys m) ≡ is_bound (lookup k m)
unfolding contains lookup
contains-keys k [] = refl
contains-keys k (entry ∷ m) = ground (arith, contains-keys k m)

module _ (entry_name key_name value_name : String) where
  pub entry_tokens : Dict String → List String → List Token
  entry_tokens c [] = []
  entry_tokens c (k ∷ ks) =
      entry_start entry_name key_name value_name k (value_at c k)
      ∷ end_element entry_name
      ∷ entry_tokens c ks

  -- The tokens that encode a map: nothing for an empty one, else its entries in the order of the
  -- sorted keys, between the start and the end of the element.
  abbrev pub map_tokens : Dict String → Token → String → List Token
  map_tokens [] start start_name = []
  map_tokens (entry ∷ rest) start start_name =
      start
      ∷ (entry_tokens (entry ∷ rest) (sort_strings (keys (entry ∷ rest)))
          ++ (end_element start_name ∷ []))

  module _ (e : Encoder) (written : e.State → List Token) (w : Writes e written) where
    encode_entries-written :
        (c : Dict String) (ks : List String) (s : e.State)
        → written (encode_entries entry_name key_name value_name e c ks s)
          ≡ written s ++ entry_tokens c ks
    unfolding encode_entries entry_tokens
    encode_entries-written c [] s = sym (append-nil (written s))
    encode_entries-written c (k ∷ ks) s =
        rw (encode_entries-written c ks, w.appends, w.appends, append_assoc, append_assoc)

    pub marshal_map_to_xml-written :
        (c : Dict String) (start : Token) (start_name : String) (s : e.State)
        → written (marshal_map_to_xml entry_name key_name value_name e c start start_name s)
          ≡ written s ++ map_tokens c start start_name
    unfolding marshal_map_to_xml
    marshal_map_to_xml-written [] start start_name s = sym (append-nil (written s))
    marshal_map_to_xml-written (entry ∷ rest) start start_name s =
        rw (
          w.appends,
          encode_entries-written (entry ∷ rest) _,
          w.appends,
          append_assoc,
          append_assoc,
        )

  -- the map that the decoder builds
  decoded : Dict String → List String → Dict String → Dict String
  decoded c [] result = result
  decoded c (k ∷ ks) result = decoded c ks (insert k (value_at c k) result)

  lookup-decoded :
      (j : String) (c : Dict String) (ks : List String) (result : Dict String)
      → lookup j (decoded c ks result)
        ≡ (if contains j ks then some (value_at c j) else lookup j result)
  unfolding decoded contains
  lookup-decoded j c [] result = refl
  lookup-decoded j c (k ∷ ks) result =
      lookup-decoded j c ks (insert k (value_at c k) result)
      ∙ ground (arith, lookup-insert k j (value_at c k) result, eq_iff k j)

  scan_attributes-entry :
      (k v : String)
      → key_name ≢ value_name
      → scan_attributes entry_name key_name value_name
          (record { name = key_name; value = k } ∷ record { name = value_name; value = v } ∷ [])
          ""
          ""
        ≡ (k, v)
  unfolding scan_attributes
  scan_attributes-entry k v h =
      ground (arith, eq_iff value_name key_name, eq_refl key_name, eq_refl value_name)

  module _ (start_name : String) (es : entry_name ≢ start_name) where
    read_entries-start :
        (k v : String) (result : Dict String) (events : List Event)
        → key_name ≢ value_name
        → (k == "") ≡ false
        → read_entries entry_name key_name value_name start_name result
            (token (entry_start entry_name key_name value_name k v) ∷ events)
          ≡ read_entries entry_name key_name value_name start_name (insert k v result) events
    unfolding read_entries
    read_entries-start k v result events kv h =
        rw (scan_attributes-entry k v kv, eq_refl entry_name, h)

    read_entries-end :
        (result : Dict String) (events : List Event)
        → read_entries entry_name key_name value_name start_name result
            (token (end_element entry_name) ∷ events)
          ≡ read_entries entry_name key_name value_name start_name result events
    unfolding read_entries
    read_entries-end result events = ground (arith, eq_iff entry_name start_name)

    read_entries-entry_tokens :
        (c : Dict String) (ks : List String) (result : Dict String) (rest : List Event)
        → key_name ≢ value_name
        → contains "" ks ≡ false
        → read_entries entry_name key_name value_name start_name result
            (map token (entry_tokens c ks ++ (end_element start_name ∷ [])) ++ rest)
          ≡ ok (decoded c ks result, rest)
    unfolding entry_tokens decoded contains
    read_entries-entry_tokens c [] result rest kv h = unfold read_entries in rw (eq_refl start_name)
    read_entries-entry_tokens c (k ∷ ks) result rest kv h =
        read_entries-start k (value_at c k) result _ kv (ground arith)
        ∙ read_entries-end (insert k (value_at c k) result) _
        ∙ read_entries-entry_tokens c ks (insert k (value_at c k) result) rest kv (ground arith)

  decoded_same :
      (m : Dict String) (k : String) → lookup k (decoded m (sort_strings (keys m)) []) ≡ lookup k m
  unfolding lookup
  decoded_same m k =
      lookup-decoded k m (sort_strings (keys m)) []
      ∙ ap (λ b. if b then some (value_at m k) else none)
          (contains-sort_strings k (keys m) ∙ contains-keys k m)
      ∙ bound_or_none (lookup k m)

  -- A map with no empty key that is encoded and decoded again, entry and attribute names being
  -- different from one another, binds the same keys to the same values; what follows its element is
  -- left for the decoder's next call.
  pub unmarshal_map_from_xml-map_tokens :
      (m : Dict String) (start : Token) (start_name : String) (rest : List Event)
      → m ≢ []
      → lookup "" m ≡ none
      → key_name ≢ value_name
      → entry_name ≢ start_name
      → (d : Dict String) × (unmarshal_map_from_xml entry_name key_name value_name start_name
            (map token (tail (map_tokens m start start_name)) ++ rest)
          ≡ ok (d, rest))
        × ((k : String) → lookup k d ≡ lookup k m)
  unmarshal_map_from_xml-map_tokens [] start start_name rest ne h kv es = absurd (ne refl)
  unmarshal_map_from_xml-map_tokens (entry ∷ m) start start_name rest _ h kv es =
      let c = entry ∷ m in
      let ks = sort_strings (keys c) in
      (
        decoded c ks [],
        read_entries-entry_tokens start_name es c ks [] rest kv
            (contains-sort_strings "" (keys c) ∙ contains-keys "" c ∙ ap is_bound h),
        decoded_same c,
      )

  -- What `marshalMapToXML` writes for a non-empty map with no empty key, entry and attribute names
  -- being different from one another and the writer accepting everything, `unmarshalMapFromXML` reads
  -- back, behind the start element, as a map that binds the same keys to the same values; it leaves
  -- what follows the element for the decoder's next call.
  pub unmarshal_map_from_xml-marshal_map_to_xml :
      (e : Encoder) (written : e.State → List Token)
      → Writes e written
      → (m : Dict String) (start : Token) (start_name : String) (s : e.State) (rest : List Event)
      → m ≢ []
      → lookup "" m ≡ none
      → key_name ≢ value_name
      → entry_name ≢ start_name
      → (ts : List Token) × (d : Dict String) × (written
            (marshal_map_to_xml entry_name key_name value_name e m start start_name s)
          ≡ written s ++ (start ∷ ts))
        × (unmarshal_map_from_xml entry_name key_name value_name start_name (map token ts ++ rest)
            ≡ ok (d, rest))
        × ((k : String) → lookup k d ≡ lookup k m)
  unmarshal_map_from_xml-marshal_map_to_xml e written w [] start start_name s rest ne h kv es =
      absurd (ne refl)
  unmarshal_map_from_xml-marshal_map_to_xml e written w (entry ∷ m) start start_name s rest ne h kv
        es =
      let (d, read, same) =
        unmarshal_map_from_xml-map_tokens (entry ∷ m) start start_name rest ne h kv es in
      (
        tail (map_tokens (entry ∷ m) start start_name),
        d,
        marshal_map_to_xml-written e written w (entry ∷ m) start start_name s,
        read,
        same,
      )
