-- ===== src/Xml/Tokens.antt =====
-- What the provider uses of encoding/xml: tokens, an encoder that takes them one by one (a parameter)
-- and a decoder that hands them out (the list of what its calls of `Token` return).
use mathlib.Core.List.{append_assoc}
use terraform_provider_runde.Common.{
  String, ◌≡◌, refl, ap, ◌∙◌, List, [], ◌∷◌, ◌++◌, Option, none, some,
}
use terraform_provider_runde.Go.{Error}

-- `xml.Attr`, with the local name
pub record Attr : Type 0 where
  pub name : String
  pub value : String

pub data Token : Type 0 where
  start_element : String → List Attr → Token
  end_element : String → Token
  -- character data, a comment, a directive or a processing instruction
  other_token : String → Token

-- `xml.Encoder`
pub record Encoder : Type 1 where
  pub State : Type 0
  pub encode_token : Token → State → Option Error × State

-- An encoder whose writer accepts everything: `written` is what it has been given so far.
pub record Writes (e : Encoder) (written : e.State → List Token) : Type 0 where
  pub succeeds : (t : Token) (s : e.State) → (e.encode_token t s).0 ≡ none
  pub appends : (t : Token) (s : e.State) → written (e.encode_token t s).1 ≡ written s ++ (t ∷ [])

-- A call of `Token` on an `xml.Decoder`: a token, or nil and an error. After the last event of a list
-- every call returns nil.
pub data Event : Type 0 where
  token : Token → Event
  failed : Error → Event

-- `if err := …; err != nil { return err }`, on an encoder
abbrev pub and_then : {S : Type 0} → Option Error × S → (S → Option Error × S) → Option Error × S
and_then (none, s) f = f s
and_then (some e, s) f = (some e, s)

pub and_then-none :
    {S : Type 0} (x : Option Error × S) (f : S → Option Error × S)
    → x.0 ≡ none
    → and_then x f ≡ f x.1
and_then-none (none, s) f h = refl
and_then-none (some e, s) f h = cc

pub Writes-two :
    (e : Encoder) (written : e.State → List Token)
    → Writes e written
    → (t u : Token) (s : e.State)
    → written (and_then (e.encode_token t s) (e.encode_token u)).1 ≡ written s ++ (t ∷ u ∷ [])
Writes-two e written writes t u s =
    ap (λ x. written x.1)
      (and_then-none (e.encode_token t s) (e.encode_token u) (writes.succeeds t s))
    ∙ writes.appends u _
    ∙ ap (λ ts. ts ++ (u ∷ [])) (writes.appends t s)
    ∙ append_assoc (written s) (t ∷ []) (u ∷ [])
