-- ===== src/Common/Orders.antt =====
-- Two orders of the same Go map bind the same keys to the same values.
use mathlib.Core.Path.{◌≡◌, refl, sym, ◌∙◌, subst, subst₂}
use mathlib.Core.Option.{none, some}
use mathlib.Core.List.{◌∷◌, Permᴰ}
use Prim.Native.String.{String}
use native.Mathlib.Omega.{arith}
use text.Mathlib.Text.{◌==◌}
use text.Mathlib.TextEquality.{eq_iff}
use terraform_provider_runde.Common.Tests.{if◌then◌else◌}
use terraform_provider_runde.Common.Dict.{Dict, lookup, NodupKeys}

module _ {ℓ} {V : Type ℓ} where
  lookup-cons :
      (k : String) (a b : String × V) (m n : Dict V)
      → a ≡ b
      → lookup k m ≡ lookup k n
      → lookup k (a ∷ m) ≡ lookup k (b ∷ n)
  unfolding lookup
  lookup-cons k a b m n e h = λ i. if (e i).0 == k then some (e i).1 else h i

  pub record SameBindings (m n : Dict V) : Type ℓ where
    pub nodup : NodupKeys n
    pub same : (k : String) → lookup k m ≡ lookup k n

  SameBindings-trans : {l m n : Dict V} → SameBindings l m → SameBindings m n → SameBindings l n
  SameBindings-trans p q = record { nodup = q.nodup; same = λ k. p.same k ∙ q.same k }

  lookup-swap :
      (k : String) (a b : String × V) (m : Dict V)
      → lookup b.0 (a ∷ m) ≡ none
      → lookup k (b ∷ a ∷ m) ≡ lookup k (a ∷ b ∷ m)
  unfolding lookup
  lookup-swap k a b m h = ground (arith, eq_iff a.0 b.0, eq_iff a.0 k, eq_iff b.0 k)

  swap-NodupKeys : (a b : String × V) (m : Dict V) → NodupKeys (b ∷ a ∷ m) → NodupKeys (a ∷ b ∷ m)
  unfolding lookup
  swap-NodupKeys a b m (fresh, (fresh', u)) = ground (arith, eq_iff a.0 b.0, eq_iff b.0 a.0)

  swap-SameBindings :
      (a b : String × V) (m : Dict V) → NodupKeys (b ∷ a ∷ m) → SameBindings (b ∷ a ∷ m) (a ∷ b ∷ m)
  swap-SameBindings a b m u = record {
    nodup = swap-NodupKeys a b m u;
    same = λ k. lookup-swap k a b m u.0;
  }

  pub Perm-SameBindings : {m n : Dict V} → Permᴰ m n → NodupKeys m → SameBindings m n
  Perm-SameBindings Permᴰ.nil u = record { nodup = tt; same = λ k. refl }
  Perm-SameBindings (Permᴰ.cons {a = a} {b = b} {l₁ = l} {l₂ = m} e p) (fresh, u) =
      let ih = Perm-SameBindings p u in
      record {
        nodup = (
          subst (λ (c : String × V). lookup c.0 m ≡ none) e (sym (ih.same a.0) ∙ fresh),
          ih.nodup,
        );
        same = λ k. lookup-cons k a b l m e (ih.same k);
      }
  Perm-SameBindings (Permᴰ.swap {a = a} {b = b} {l = l} e f) u =
      subst₂ (λ c d. SameBindings (a ∷ b ∷ l) (c ∷ d ∷ l)) f e (swap-SameBindings b a l u)
  Perm-SameBindings (Permᴰ.trans p q) u =
      let first = Perm-SameBindings p u in
      SameBindings-trans first (Perm-SameBindings q first.nodup)
