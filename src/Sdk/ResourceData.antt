-- ===== src/Sdk/ResourceData.antt =====
-- `*schema.ResourceData`: a parameter, with its methods on a state of type `S`.
use terraform_provider_runde.Common.{
  String, ◌≡◌, refl, sym, ◌∙◌, ◌==◌, false, Option, none, some, [], ◌∷◌, ◌++◌,
}
use terraform_provider_runde.Common.Dict.{Dict}
use terraform_provider_runde.Go.{Outcome, ok, err, Error, Value}
use terraform_provider_runde.Go.Exec.{Exec, ◌>>◌, return, >>_assoc, >>_ext}
use terraform_provider_runde.Sdk.Schema.{Kind, Attributes, kind_of}
use terraform_provider_runde.Sdk.Reader.{SchemaReader}

pub record ResourceData (S : Type 0) : Type 0 where
  pub id : S → String
  pub set_id : String → S → S
  pub get : S → String → Value
  -- `d.Set`, whose error is nil or not
  pub set_value : String → Value → S → Option Error × S

-- What was set is read back by its kind, and nothing else changes.
pub record IsResourceData {S : Type 0} (attrs : Attributes) (r : SchemaReader) (d : ResourceData S)
    : Type 0 where
  pub id-set_id : (i : String) (s : S) → d.id (d.set_id i s) ≡ i
  pub get-set_id : (i : String) (s : S) (k : String) → d.get (d.set_id i s) k ≡ d.get s k
  pub id-set_value : (k : String) (v : Value) (s : S) → d.id (d.set_value k v s).1 ≡ d.id s
  pub get-set_value :
      (k : String) (kind : Kind) (v : Value) (s : S)
      → kind_of k attrs ≡ some kind
      → (d.set_value k v s).0 ≡ none
      → d.get (d.set_value k v s).1 k ≡ r.read kind v
  pub get-set_value_ne :
      (j k : String) (v : Value) (s : S)
      → (j == k) ≡ false
      → d.get (d.set_value j v s).1 k ≡ d.get s k

abbrev pub result_of : {S : Type 0} → Option Error × S → Outcome (Unit {0}) × S
result_of (none, s) = (ok tt, s)
result_of (some e, s) = (err e, s)

module _ {S : Type 0} (d : ResourceData S) where
  -- `if err := d.Set(k, v); err != nil { return err }`
  abbrev pub set : String → Value → Exec S (Unit {0})
  set k v s = result_of (d.set_value k v s)

  -- `d.Set(k, v)`, whose error is dropped
  abbrev pub set_anyway : String → Value → Exec S (Unit {0})
  set_anyway k v s = (ok tt, (d.set_value k v s).1)

  -- `d.SetId(i)`
  abbrev pub set_id : String → Exec S (Unit {0})
  set_id i s = (ok tt, d.set_id i s)

  -- these attributes in turn, up to the first error
  unfoldable pub set_all : Dict Value → Exec S (Unit {0})
  set_all [] = return tt
  set_all ((k, v) ∷ m) = set k v >> set_all m

  pub set_all-append : (m n : Dict Value) (s : S) → set_all (m ++ n) s ≡ (set_all m >> set_all n) s
  unfolding set_all
  set_all-append [] n s = refl
  set_all-append ((k, v) ∷ m) n s =
      >>_ext (set k v) (set k v) (set_all (m ++ n)) (set_all m >> set_all n) s s refl
        (set_all-append m n)
      ∙ sym (>>_assoc (set k v) (set_all m) (set_all n) s)

  -- two actions that write these attributes, one after the other
  pub set_all-then :
      (k l : Exec S (Unit {0})) (m n : Dict Value) (s t : S)
      → k s ≡ set_all m t
      → ((u : S) → l u ≡ set_all n u)
      → (k >> l) s ≡ set_all (m ++ n) t
  set_all-then k l m n s t h g =
      >>_ext k (set_all m) l (set_all n) s t h g ∙ sym (set_all-append m n t)
