-- ===== src/Xml/Maps/Deterministic.antt =====
-- The encoding of a map, and the order in which `range` visits its keys.
use mathlib.Core.List.{Permᴰ}
use terraform_provider_runde.Common.{String, ◌≡◌, refl, ap, ◌∙◌, List, [], ◌∷◌, Bool, true, false}
use terraform_provider_runde.Common.Dict.{Dict, NodupKeys}
use terraform_provider_runde.Common.Orders.{Perm-SameBindings}
use terraform_provider_runde.Xml.Tokens.{Token, end_element, Encoder}
use terraform_provider_runde.Xml.Maps.Order.{sort_strings, sort_strings-Perm}
use terraform_provider_runde.Xml.Maps.{keys, or_empty, value_at, encode_entries, marshal_map_to_xml}

keys-Perm : {m n : Dict String} → Permᴰ m n → Permᴰ (keys m) (keys n)
keys-Perm Permᴰ.nil = Permᴰ.nil
keys-Perm (Permᴰ.cons e p) = Permᴰ.cons (ap (λ (c : String × String). c.0) e) (keys-Perm p)
keys-Perm (Permᴰ.swap e f) =
    Permᴰ.swap (ap (λ (c : String × String). c.0) e) (ap (λ (c : String × String). c.0) f)
keys-Perm (Permᴰ.trans p q) = Permᴰ.trans (keys-Perm p) (keys-Perm q)

is_empty : Dict String → Bool
is_empty [] = true
is_empty (entry ∷ rest) = false

is_empty-Perm : {m n : Dict String} → Permᴰ m n → is_empty m ≡ is_empty n
unfolding is_empty
is_empty-Perm Permᴰ.nil = refl
is_empty-Perm (Permᴰ.cons e p) = refl
is_empty-Perm (Permᴰ.swap e f) = refl
is_empty-Perm (Permᴰ.trans p q) = is_empty-Perm p ∙ is_empty-Perm q

module _ (entry_name key_name value_name : String) (e : Encoder) where
  -- the entries depend only on what the keys are bound to
  encode_entries-ext :
      (m n : Dict String) (ks : List String) (s : e.State)
      → ((k : String) → value_at m k ≡ value_at n k)
      → encode_entries entry_name key_name value_name e m ks s
        ≡ encode_entries entry_name key_name value_name e n ks s
  unfolding encode_entries
  encode_entries-ext m n [] s h = refl
  encode_entries-ext m n (k ∷ ks) s h = rw (h k) (encode_entries-ext m n ks _ h)

  -- Two orders of the same map are encoded alike, whatever the encoder does.
  pub marshal_map_to_xml-Perm :
      (m n : Dict String) (start : Token) (start_name : String) (s : e.State)
      → Permᴰ m n
      → NodupKeys m
      → marshal_map_to_xml entry_name key_name value_name e m start start_name s
        ≡ marshal_map_to_xml entry_name key_name value_name e n start start_name s
  unfolding marshal_map_to_xml is_empty
  marshal_map_to_xml-Perm [] [] start start_name s p u = refl
  marshal_map_to_xml-Perm [] (b ∷ n) start start_name s p u = cc (is_empty-Perm p)
  marshal_map_to_xml-Perm (a ∷ m) [] start start_name s p u = cc (is_empty-Perm p)
  marshal_map_to_xml-Perm (a ∷ m) (b ∷ n) start start_name s p u =
      let s' = (e.encode_token start s).1 in
      ap (λ x. (e.encode_token (end_element start_name) x).1)
        (encode_entries-ext (a ∷ m) (b ∷ n) (sort_strings (keys (a ∷ m))) s'
            (λ k. ap or_empty ((Perm-SameBindings p u).same k))
          ∙ ap (λ ks. encode_entries entry_name key_name value_name e (b ∷ n) ks s')
              (sort_strings-Perm (keys-Perm p)))
