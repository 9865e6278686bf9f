-- ===== src/Common/Bindings.antt =====
-- A sequence of bindings whose later ones take the place of earlier ones, and the last of them whose
-- key meets a test.
pub mod Keys
use mathlib.Core.Path.{◌≡◌, refl, sym, ap, ◌∙◌}
use mathlib.Core.Logic.{◌≢◌, ◌⊎◌, inl, inr}
use mathlib.Core.Bool.{Bool, true, false, ◌||◌}
use mathlib.Core.Option.{Option, none, some}
use mathlib.Core.List.{List, [], ◌∷◌, ◌++◌}
use Prim.Native.String.{String}
use native.Mathlib.Omega.{arith}
use text.Mathlib.Text.{◌==◌}
use text.Mathlib.TextEquality.{eq_iff}
use terraform_provider_runde.Common.Tests.{if◌then◌else◌, Bool-cases, Option-cases}
use terraform_provider_runde.Common.Dict.{
  Dict, lookup, insert, erase, NodupKeys, lookup-insert, insert-NodupKeys,
}
use terraform_provider_runde.Common.Orders.{SameBindings}

pub Bool_ext : (a b : Bool) → (a ≡ true → b ≡ true) → (b ≡ true → a ≡ true) → a ≡ b
Bool_ext true b f g = sym (f refl)
Bool_ext false true f g = cc (g refl)
Bool_ext false false f g = refl

module _ {ℓ} {V : Type ℓ} where
  abbrev pub later : Option V → Option V → Option V
  later (some v) o = some v
  later none o = o

  abbrev pub when : Bool → V → Option V
  when b v = if b then some v else none

  -- the last value whose key meets the test
  abbrev pub last_where : (String → Bool) → Dict V → Option V
  last_where f [] = none
  last_where f ((j, v) ∷ m) = later (last_where f m) (when (f j) v)

  -- the last value of the key
  abbrev pub written : String → Dict V → Option V
  written k m = last_where (λ j. j == k) m

  pub later_assoc : (a b c : Option V) → later (later a b) c ≡ later a (later b c)
  later_assoc none b c = refl
  later_assoc (some v) b c = refl

  pub later-none : (a : Option V) → later a none ≡ a
  later-none none = refl
  later-none (some v) = refl

  pub last_where-append :
      (f : String → Bool) (m n : Dict V)
      → last_where f (m ++ n) ≡ later (last_where f n) (last_where f m)
  last_where-append f [] n = sym (later-none (last_where f n))
  last_where-append f ((j, v) ∷ m) n =
      ap (λ o. later o (when (f j) v)) (last_where-append f m n)
      ∙ later_assoc (last_where f n) (last_where f m) _

  -- these bindings in turn
  unfoldable pub insert_all : Dict V → Dict V → Dict V
  insert_all [] m = m
  insert_all ((k, v) ∷ rest) m = insert_all rest (insert k v m)

  later-when :
      (b : Bool) (v : V) (o p : Option V)
      → later o (if b then some v else p) ≡ later (later o (when b v)) p
  later-when true v none p = refl
  later-when true v (some w) p = refl
  later-when false v none p = refl
  later-when false v (some w) p = refl

  pub lookup-insert_all :
      (k : String) (l m : Dict V) → lookup k (insert_all l m) ≡ later (written k l) (lookup k m)
  unfolding insert_all
  lookup-insert_all k [] m = refl
  lookup-insert_all k ((j, v) ∷ l) m =
      lookup-insert_all k l (insert j v m)
      ∙ ap (later (written k l)) (lookup-insert j k v m)
      ∙ later-when (j == k) v (written k l) (lookup k m)

  pub insert_all-NodupKeys : (l m : Dict V) → NodupKeys m → NodupKeys (insert_all l m)
  unfolding insert_all
  insert_all-NodupKeys [] m u = u
  insert_all-NodupKeys ((k, v) ∷ l) m u =
      insert_all-NodupKeys l (insert k v m) (insert-NodupKeys k v m u)

  pub insert_all-append : (l n m : Dict V) → insert_all (l ++ n) m ≡ insert_all n (insert_all l m)
  unfolding insert_all
  insert_all-append [] n m = refl
  insert_all-append ((k, v) ∷ l) n m = insert_all-append l n (insert k v m)

  pub lookup_more :
      (k j : String) (v : V) (m : Dict V) → lookup k m ≢ none → lookup k ((j, v) ∷ m) ≢ none
  unfolding lookup
  lookup_more k j v m h = ground arith

  pub lookup_first : (k : String) (v : V) (m : Dict V) → lookup k ((k, v) ∷ m) ≢ none
  unfolding lookup
  lookup_first k v m = ground (arith, eq_iff k k)

  -- where one key alone meets the test, its value is the last one
  pub last_where-lookup :
      (f : String → Bool) (key : String) (m : Dict V)
      → f key ≡ true
      → ((k : String) → lookup k m ≢ none → f k ≡ true → k ≡ key)
      → NodupKeys m
      → last_where f m ≡ lookup key m
  unfolding lookup
  last_where-lookup f key [] h only u = refl
  last_where-lookup f key ((j, v) ∷ m) h only (fresh, u) =
      let ih = last_where-lookup f key m h (λ k b g. only k (lookup_more k j v m b) g) u in
      ground (arith, only j (lookup_first j v m), ih, eq_iff j key)

  -- some key meets the test
  abbrev pub any_key : (String → Bool) → Dict V → Bool
  any_key f [] = false
  any_key f ((k, v) ∷ m) = f k || any_key f m

  pub any_key_of :
      (f : String → Bool) (k : String) (m : Dict V)
      → lookup k m ≢ none
      → f k ≡ true
      → any_key f m ≡ true
  unfolding lookup
  any_key_of f k [] h g = absurd (h refl)
  any_key_of f k ((j, v) ∷ m) h g = ground (arith, any_key_of f k m, eq_iff j k)

  abbrev pub Found : (String → Bool) → Dict V → Type ℓ
  Found f m = (k : String) × (lookup k m ≢ none) × (f k ≡ true)

  Found-later :
      (f : String → Bool) (j : String) (v : V) (m : Dict V) → Found f m → Found f ((j, v) ∷ m)
  Found-later f j v m (k, b, h) = (k, lookup_more k j v m b, h)

  pub any_key-Found : (f : String → Bool) (m : Dict V) → any_key f m ≡ true → Found f m
  any_key-Found f [] h = cc
  any_key-Found f ((j, v) ∷ m) h = elim (Bool-cases (f j)) [
    | inl g ↦ (j, lookup_first j v m, g)
    | inr g ↦ Found-later f j v m (any_key-Found f m (ground arith))
  ]

  any_key_transfer :
      (f : String → Bool) (m n : Dict V)
      → ((k : String) → lookup k m ≡ lookup k n)
      → any_key f m ≡ true
      → any_key f n ≡ true
  any_key_transfer f m n same h =
      let (k, b, g) = any_key-Found f m h in any_key_of f k n (rw (← same k) b) g

  pub last_where-none :
      (f : String → Bool) (m : Dict V) → any_key f m ≡ false → last_where f m ≡ none
  last_where-none f [] h = refl
  last_where-none f ((j, v) ∷ m) h = ground (arith, last_where-none f m)

  module _ (f : String → Bool) (m n : Dict V) (same : SameBindings m n) where
    pub any_key_same : any_key f m ≡ any_key f n
    any_key_same =
        Bool_ext (any_key f m) (any_key f n) (any_key_transfer f m n same.same)
          (any_key_transfer f n m (λ k. sym (same.same k)))

    -- What the last value is does not depend on the order, where at most one key meets the test.
    pub last_where_same :
        NodupKeys m
        → ((j k : String) → lookup j m ≢ none → lookup k m ≢ none → f j ≡ true → f k ≡ true → j ≡ k)
        → last_where f m ≡ last_where f n
    last_where_same u only = elim (Bool-cases (any_key f m)) [
      | inl some_key ↦
          let (key, b, g) = any_key-Found f m some_key in
          last_where-lookup f key m g (λ k b' g'. only k key b' b g' g) u
          ∙ same.same key
          ∙ sym (
              last_where-lookup f key n g (λ k b' g'. only k key (rw (same.same k) b') b g' g)
                same.nodup)
      | inr no_key ↦
          last_where-none f m no_key ∙ sym (last_where-none f n (sym any_key_same ∙ no_key))
    ]
