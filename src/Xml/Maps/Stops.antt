-- ===== src/Xml/Maps/Stops.antt =====
-- Where the loop of `unmarshalMapFromXML` stops.
use mathlib.Core.Path.{ap₂}
use terraform_provider_runde.Common.{
  String, ◌==◌, eq_iff, Bool, true, false, not, if◌then◌else◌, Bool-cases, inl, inr, All, ◌≡◌, ◌≢◌,
  ap, List, [], ◌∷◌, ◌++◌,
}
use terraform_provider_runde.Common.Dict.{Dict, insert}
use terraform_provider_runde.Go.{Outcome, ok, err, Error, ok-injective}
use terraform_provider_runde.Xml.Tokens.{
  start_element, end_element, other_token, Event, token, failed,
}
use terraform_provider_runde.Xml.Maps.{read_entries, unmarshal_map_from_xml, scan_attributes}

-- a token that is not the end of this element
abbrev pub IsInside : String → Event → Type 0
IsInside name (token (end_element other)) = other ≢ name
IsInside name (token (start_element other attrs)) = Unit
IsInside name (token (other_token text)) = Unit
IsInside name (failed e) = ⊥

-- the events up to the first end of this element
abbrev pub StopsAt : String → List Event → List Event → Type 0
StopsAt name events rest =
    (inside : List Event) × (events ≡ inside ++ (token (end_element name) ∷ rest))
    × All (IsInside name) inside

StopsAt-cons :
    (name : String) (event : Event) (events rest : List Event)
    → IsInside name event
    → StopsAt name events rest
    → StopsAt name (event ∷ events) rest
StopsAt-cons name event events rest h (inside, e, all) =
    (event ∷ inside, ap (λ l. event ∷ l) e, (h, all))

module _ (entry_name key_name value_name : String) where
  -- the parts of a step that went on
  going_on :
      (b c : Bool) (e f : Error) (m : Outcome (Dict String × List Event))
      (r : Dict String × List Event)
      → (if not b then err e else if c then err f else m) ≡ ok r
      → m ≡ ok r
  going_on true true e f m r h = cc
  going_on true false e f m r h = h
  going_on false c e f m r h = cc

  left_events :
      {m n : Dict String} {l k : List Event}
      → Path (Outcome (Dict String × List Event)) (ok (m, l)) (ok (n, k))
      → l ≡ k
  left_events h = ap (λ p. p.1) (ok-injective h)

  stops :
      (name : String) (result m : Dict String) (events rest : List Event)
      → read_entries entry_name key_name value_name name result events ≡ ok (m, rest)
      → StopsAt name events rest
  unfolding read_entries
  stops name result m [] rest h = cc
  stops name result m (failed e ∷ events) rest h = cc
  stops name result m (token (other_token text) ∷ events) rest h =
      StopsAt-cons name _ events rest tt (stops name result m events rest h)
  stops name result m (token (start_element other attrs) ∷ events) rest h =
      let kv = scan_attributes entry_name key_name value_name attrs "" "" in
      StopsAt-cons name _ events rest tt (
        stops name (insert kv.0 kv.1 result) m events rest
          (going_on (other == entry_name) (kv.0 == "") _ _ _ (m, rest) h))
  stops name result m (token (end_element other) ∷ events) rest h =
      elim (Bool-cases (other == name)) [
        | inl same ↦
            let this : events ≡ rest = left_events (rw same at h) in
            ([], ap₂ (λ n l. token (end_element n) ∷ l) ((eq_iff other name).0 same) this, tt)
        | inr differs ↦
            StopsAt-cons name _ events rest (λ e. cc (differs, (eq_iff other name).1 e))
              (stops name result m events rest (rw differs at h))
      ]

  -- Where `unmarshalMapFromXML` succeeds, it has read the tokens up to the first end of its element and
  -- this end, all of them without an error, and left the ones behind it.
  pub unmarshal_map_from_xml-StopsAt :
      (name : String) (events rest : List Event) (m : Dict String)
      → unmarshal_map_from_xml entry_name key_name value_name name events ≡ ok (m, rest)
      → StopsAt name events rest
  unmarshal_map_from_xml-StopsAt name events rest m h = stops name [] m events rest h
