-- ===== src/Sdk/Writes.antt =====
-- What a resource's attributes read as after a sequence of `d.Set` that succeeded.
use mathlib.Core.Path.{subst}
use terraform_provider_runde.Common.{
  String, ◌≡◌, refl, sym, ap, ◌∙◌, ◌==◌, eq_iff, Bool-cases, inl, inr, if◌then◌else◌, Option, none,
  some, [], ◌∷◌, arith,
}
use terraform_provider_runde.Common.Dict.{Dict}
pub use terraform_provider_runde.Common.Bindings.{later, written, later-none}
use terraform_provider_runde.Go.{ok, Error, Value}
use terraform_provider_runde.Go.Exec.{Exec, ◌>>◌}
use terraform_provider_runde.Sdk.Schema.{Kind, Attributes, kind_of}
use terraform_provider_runde.Sdk.Reader.{SchemaReader}
use terraform_provider_runde.Sdk.ResourceData.{ResourceData, IsResourceData, set_all, result_of}

-- what is read of an attribute that was written, and of one that was not
abbrev pub reads_as : SchemaReader → Kind → Option Value → Value → Value
reads_as r kind none old = old
reads_as r kind (some v) old = r.read kind v

reads_as-later :
    (r : SchemaReader) (kind : Kind) (o p : Option Value) (old : Value)
    → reads_as r kind o (reads_as r kind p old) ≡ reads_as r kind (later o p) old
reads_as-later r kind none p old = refl
reads_as-later r kind (some v) p old = refl

module _ {S : Type 0} (d : ResourceData S) where
  set_step :
      (x : Option Error × S) (rest : Exec S (Unit {0})) (s' : S)
      → ((λ (s : S). result_of x) >> rest) x.1 ≡ (ok tt, s')
      → (x.0 ≡ none) × (rest x.1 ≡ (ok tt, s'))
  set_step (none, s) rest s' h = (refl, h)
  set_step (some e, s) rest s' h = cc (ap (λ x. x.0) h)

  module _ (attrs : Attributes) (r : SchemaReader) (laws : IsResourceData attrs r d) where
    get-set :
        (k j : String) (kind : Kind) (v : Value) (s : S)
        → kind_of k attrs ≡ some kind
        → (d.set_value j v s).0 ≡ none
        → d.get (d.set_value j v s).1 k
          ≡ reads_as r kind (if j == k then some v else none) (d.get s k)
    get-set k j kind v s declared h = elim (Bool-cases (j == k)) [
      | inl same ↦
          let keys : j ≡ k = ground (arith, eq_iff j k) in
          rw same (
            subst (λ i. d.get (d.set_value j v s).1 i ≡ r.read kind v) keys
              (laws.get-set_value j kind v s (ap (λ i. kind_of i attrs) keys ∙ declared) h))
      | inr other ↦ rw other (laws.get-set_value_ne j k v s other)
    ]

    pub get-set_all :
        (m : Dict Value) (s s' : S)
        → set_all d m s ≡ (ok tt, s')
        → (k : String) (kind : Kind) → kind_of k attrs ≡ some kind
        → d.get s' k ≡ reads_as r kind (written k m) (d.get s k)
    unfolding set_all
    get-set_all [] s s' h k kind declared = sym (ap (λ x. d.get x.1 k) h)
    get-set_all ((j, v) ∷ m) s s' h k kind declared =
        let (done, rest) = set_step (d.set_value j v s) (set_all d m) s' h in
        get-set_all m (d.set_value j v s).1 s' rest k kind declared
        ∙ ap (reads_as r kind (written k m)) (get-set k j kind v s declared done)
        ∙ reads_as-later r kind (written k m) _ (d.get s k)

    pub id-set_all : (m : Dict Value) (s s' : S) → set_all d m s ≡ (ok tt, s') → d.id s' ≡ d.id s
    unfolding set_all
    id-set_all [] s s' h = sym (ap (λ x. d.id x.1) h)
    id-set_all ((j, v) ∷ m) s s' h =
        let (done, rest) = set_step (d.set_value j v s) (set_all d m) s' h in
        id-set_all m (d.set_value j v s).1 s' rest ∙ laws.id-set_value j v s
