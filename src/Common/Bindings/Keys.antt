-- ===== src/Common/Bindings/Keys.antt =====
-- What holds of every binding of a list, and of the keys that are bound.
use mathlib.Core.Path.{◌≡◌, refl, subst}
use mathlib.Core.Logic.{◌≢◌, inl, inr}
use mathlib.Core.Bool.{Bool, false}
use mathlib.Core.Option.{none, some}
use mathlib.Core.List.{[], ◌∷◌, ◌++◌, map}
use Prim.Native.String.{String}
use native.Mathlib.Omega.{arith}
use text.Mathlib.Text.{◌==◌}
use text.Mathlib.TextEquality.{eq_iff}
use text.Mathlib.TextPositions.{eq_refl}
use terraform_provider_runde.Common.Tests.{Bool-cases, Option-cases, All}
use terraform_provider_runde.Common.Dict.{Dict, lookup, erase, NodupKeys, lookup-erase}
use terraform_provider_runde.Common.Bindings.{
  last_where, written, last_where-lookup, lookup_more, lookup_first,
}

module _ {ℓ} {V : Type ℓ} where
  abbrev pub AllKeys : (String → Type 0) → Dict V → Type 0
  AllKeys P [] = Unit
  AllKeys P ((k, _) ∷ m) = P k × AllKeys P m

  pub AllKeys-lookup :
      (P : String → Type 0) (k : String) (m : Dict V) → AllKeys P m → lookup k m ≢ none → P k
  unfolding lookup
  AllKeys-lookup P k [] _ h = absurd (h refl)
  AllKeys-lookup P k ((j, v) ∷ m) (p, ps) h = elim (Bool-cases (j == k)) [
    | inl same ↦ subst P ((eq_iff j k).0 same) p
    | inr other ↦ AllKeys-lookup P k m ps (ground arith)
  ]

  pub AllKeys-written :
      (P : String → Type 0) (k : String) (m : Dict V) → AllKeys P m → written k m ≢ none → P k
  AllKeys-written P k [] _ h = absurd (h refl)
  AllKeys-written P k ((j, v) ∷ m) (p, ps) h = elim (Bool-cases (j == k)) [
    | inl same ↦ subst P ((eq_iff j k).0 same) p
    | inr other ↦ AllKeys-written P k m ps (ground arith)
  ]

  pub written-none_of :
      (P : String → Type 0) (k : String) (m : Dict V) → AllKeys P m → (P k → ⊥) → written k m ≡ none
  written-none_of P k m all h = elim (Option-cases (written k m)) [
    | inl e ↦ e
    | inr (v, e) ↦ absurd (h (AllKeys-written P k m all (λ e'. cc)))
  ]

  pub AllKeys-of :
      (P : String → Type 0) (m : Dict V) → ((k : String) → lookup k m ≢ none → P k) → AllKeys P m
  AllKeys-of P [] h = tt
  AllKeys-of P ((j, v) ∷ m) h =
      (h j (lookup_first j v m), AllKeys-of P m (λ k b. h k (lookup_more k j v m b)))

  pub AllKeys-append :
      (P : String → Type 0) (l m : Dict V) → AllKeys P l → AllKeys P m → AllKeys P (l ++ m)
  AllKeys-append P [] m _ h = h
  AllKeys-append P ((k, v) ∷ l) m (p, ps) h = (p, AllKeys-append P l m ps h)

  -- the keys of a list whose keys are changed
  pub AllKeys-map :
      (P Q : String → Type 0) (h : String → String) (m : Dict V)
      → ((k : String) → Q k → P (h k))
      → AllKeys Q m
      → AllKeys P (map (λ e. (h e.0, e.1)) m)
  AllKeys-map P Q h [] step _ = tt
  AllKeys-map P Q h ((k, v) ∷ m) step (q, qs) = (step k q, AllKeys-map P Q h m step qs)

  pub AllKeys-weaken :
      (P Q : String → Type 0) (m : Dict V) → ((k : String) → Q k → P k) → AllKeys Q m → AllKeys P m
  AllKeys-weaken P Q [] step _ = tt
  AllKeys-weaken P Q ((k, v) ∷ m) step (q, qs) = (step k q, AllKeys-weaken P Q m step qs)

  pub written-lookup : (k : String) (m : Dict V) → NodupKeys m → written k m ≡ lookup k m
  written-lookup k m u =
      last_where-lookup (λ j. j == k) k m (eq_refl k) (λ j _ h. (eq_iff j k).0 h) u

  -- tests that agree on the keys
  pub last_where_ext :
      (f g : String → Bool) (m : Dict V)
      → AllKeys (λ k. f k ≡ g k) m
      → last_where f m ≡ last_where g m
  last_where_ext f g [] _ = refl
  last_where_ext f g ((j, v) ∷ m) (h, hs) = rw (h, last_where_ext f g m hs)

  pub last_where-map :
      (f : String → Bool) (h : String → String) (m : Dict V)
      → last_where f (map (λ e. (h e.0, e.1)) m) ≡ last_where (λ k. f (h k)) m
  last_where-map f h [] = refl
  last_where-map f h ((j, v) ∷ m) = rw (last_where-map f h m)

  pub last_where-false :
      (f : String → Bool) (m : Dict V) → AllKeys (λ k. f k ≡ false) m → last_where f m ≡ none
  last_where-false f [] _ = refl
  last_where-false f ((j, v) ∷ m) (h, hs) = rw (h, last_where-false f m hs)

  pub erase-NodupKeys : (k : String) (m : Dict V) → NodupKeys m → NodupKeys (erase k m)
  unfolding erase lookup
  erase-NodupKeys k [] u = tt
  erase-NodupKeys k ((j, v) ∷ m) (fresh, u) =
      ground (arith, lookup-erase k j m, erase-NodupKeys k m u)

  -- what holds of every value that is found
  pub AllValues_of :
      (P : V → Type 0) (m : Dict V)
      → NodupKeys m
      → ((k : String) (v : V) → lookup k m ≡ some v → P v)
      → All (λ (e : String × V). P e.1) m
  unfolding lookup
  AllValues_of P [] u h = tt
  AllValues_of P ((j, v) ∷ m) (fresh, u) h = (
    h j v (rw (eq_refl j) refl),
    AllValues_of P m u (λ k w e. h k w (ground (arith, eq_iff j k))),
  )
