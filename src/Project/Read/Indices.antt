-- ===== src/Project/Read/Indices.antt =====
-- The indices of the sources that `ReadProject` finds, in ascending order: a list that is determined by
-- which indices there are.
use mathlib.Core.Path.{ap₂}
use terraform_provider_runde.Common.{
  Bool, true, false, ◌||◌, Bool-cases, All, none, List, [], ◌∷◌, ◌≡◌, refl, sym, ap, subst, ◌∙◌,
  inl, inr, String, arith,
}
use terraform_provider_runde.Common.Dict.{Dict}
use terraform_provider_runde.Go.{
  ℤ, int_eq, int_le, int_eq_iff, int_le_total, int_le_trans, int_le_antisymm, Value,
}
use terraform_provider_runde.Project.Read.{
  unrelated, unknown_field, type_of, config_of, Part, part_of, Source, SourceMap, change_source,
  source_at, indices, insert_int, sort_ints, Scan, apply_part, visit_all,
}
use terraform_provider_runde.Project.Read.Steps.{is_there}

abbrev pub elem : ℤ → List ℤ → Bool
elem i [] = false
elem i (j ∷ js) = int_eq j i || elem i js

abbrev AllAbove : ℤ → List ℤ → Type 0
AllAbove i js = All (λ j. int_le j i ≡ false) js

abbrev pub Ascending : List ℤ → Type 0
Ascending [] = Unit
Ascending (i ∷ is) = AllAbove i is × Ascending is

elem-insert_int : (i j : ℤ) (l : List ℤ) → elem i (insert_int j l) ≡ (int_eq j i || elem i l)
unfolding insert_int
elem-insert_int i j [] = refl
elem-insert_int i j (k ∷ l) = ground (arith, elem-insert_int i j l)

elem-sort_ints : (i : ℤ) (l : List ℤ) → elem i (sort_ints l) ≡ elem i l
unfolding sort_ints
elem-sort_ints i [] = refl
elem-sort_ints i (j ∷ l) =
    elem-insert_int i j (sort_ints l) ∙ ap (λ b. int_eq j i || b) (elem-sort_ints i l)

AllAbove-trans : (i j : ℤ) (l : List ℤ) → int_le i j ≡ true → AllAbove j l → AllAbove i l
AllAbove-trans i j [] h _ = tt
AllAbove-trans i j (k ∷ l) h (a, all) =
    (ground (arith, int_le_trans k i j), AllAbove-trans i j l h all)

insert_int-AllAbove :
    (i j : ℤ) (l : List ℤ) → int_le i j ≡ false → AllAbove j l → AllAbove j (insert_int i l)
unfolding insert_int
insert_int-AllAbove i j [] h _ = (h, tt)
insert_int-AllAbove i j (k ∷ l) h (a, all) = ground (arith, insert_int-AllAbove i j l h all)

above-head : (i j : ℤ) → int_le i j ≡ true → int_eq j i ≡ false → int_le j i ≡ false
above-head i j h g = ground (arith, int_le_antisymm i j h, int_eq_iff j i)

insert_int-Ascending :
    (i : ℤ) (l : List ℤ) → elem i l ≡ false → Ascending l → Ascending (insert_int i l)
unfolding insert_int
insert_int-Ascending i [] h _ = (tt, tt)
insert_int-Ascending i (j ∷ l) h (above, rest) = elim (Bool-cases (int_le i j)) [
  | inl first ↦
      rw first
        ((above-head i j first (ground arith), AllAbove-trans i j l first above), (above, rest))
  | inr after ↦
      rw after (insert_int-AllAbove i j l after above, insert_int-Ascending i l (ground arith) rest)
]

-- no index has two sources
abbrev pub NodupIndices : SourceMap → Type 0
NodupIndices [] = Unit
NodupIndices ((i, _) ∷ m) = (source_at i m ≡ none) × NodupIndices m

elem-indices : (i : ℤ) (m : SourceMap) → elem i (indices m) ≡ is_there (source_at i m)
unfolding source_at
elem-indices i [] = refl
elem-indices i ((j, _) ∷ m) = ground (arith, elem-indices i m)

pub sort_ints-Ascending : (m : SourceMap) → NodupIndices m → Ascending (sort_ints (indices m))
unfolding sort_ints
sort_ints-Ascending [] _ = tt
sort_ints-Ascending ((i, _) ∷ m) (fresh, u) =
    insert_int-Ascending i (sort_ints (indices m))
      (elem-sort_ints i (indices m) ∙ elem-indices i m ∙ ap is_there fresh)
      (sort_ints-Ascending m u)

pub elem-sort_ints-indices :
    (i : ℤ) (m : SourceMap) → elem i (sort_ints (indices m)) ≡ is_there (source_at i m)
elem-sort_ints-indices i m = elem-sort_ints i (indices m) ∙ elem-indices i m

change_source-fresh :
    (i j : ℤ) (f : Source → Source) (m : SourceMap)
    → int_eq i j ≡ false
    → source_at j m ≡ none
    → source_at j (change_source i f m) ≡ none
unfolding source_at change_source
change_source-fresh i j f [] h _ = rw h
change_source-fresh i j f ((k, _) ∷ m) h g =
    ground (arith, change_source-fresh i j f m h, int_eq_iff k i, int_eq_iff k j, int_eq_iff i j)

change_source-NodupIndices :
    (i : ℤ) (f : Source → Source) (m : SourceMap)
    → NodupIndices m
    → NodupIndices (change_source i f m)
unfolding change_source source_at
change_source-NodupIndices i f [] _ = (refl, tt)
change_source-NodupIndices i f ((j, _) ∷ m) (fresh, u) = ground (
  arith,
  change_source-fresh i j f m,
  change_source-NodupIndices i f m u,
  int_eq_iff i j,
  int_eq_iff j i,
)

apply_part-NodupIndices :
    (p : Part) (key : String) (v : Value) (s : Scan)
    → NodupIndices s.sources
    → NodupIndices (apply_part p key v s).sources
apply_part-NodupIndices unrelated key v s u = u
apply_part-NodupIndices (unknown_field i) key v s u = change_source-NodupIndices i _ s.sources u
apply_part-NodupIndices (type_of i) key v s u = change_source-NodupIndices i _ s.sources u
apply_part-NodupIndices (config_of i k) key v s u = change_source-NodupIndices i _ s.sources u

pub visit_all-NodupIndices :
    (c : Dict Value) (s : Scan) → NodupIndices s.sources → NodupIndices (visit_all c s).sources
unfolding visit_all
visit_all-NodupIndices [] s u = u
visit_all-NodupIndices ((key, v) ∷ c) s u =
    visit_all-NodupIndices c (apply_part (part_of key) key v s)
      (apply_part-NodupIndices (part_of key) key v s u)

AllAbove-elem : (i j : ℤ) (l : List ℤ) → AllAbove i l → int_le j i ≡ true → elem j l ≡ false
AllAbove-elem i j [] _ h = refl
AllAbove-elem i j (k ∷ l) (a, all) h = ground (arith, AllAbove-elem i j l all h, int_eq_iff k j)

heads :
    (i j : ℤ) (l m : List ℤ)
    → AllAbove i l
    → AllAbove j m
    → ((k : ℤ) → elem k (i ∷ l) ≡ elem k (j ∷ m))
    → i ≡ j
heads i j l m a b h = ground (
  arith,
  h i,
  h j,
  AllAbove-elem i j l a,
  AllAbove-elem j i m b,
  int_le_total i j,
  int_eq_iff i i,
  int_eq_iff j j,
  int_eq_iff i j,
  int_eq_iff j i,
)

tails :
    (i : ℤ) (l m : List ℤ)
    → AllAbove i l
    → AllAbove i m
    → ((k : ℤ) → elem k (i ∷ l) ≡ elem k (i ∷ m))
    → (k : ℤ) → elem k l ≡ elem k m
tails i l m a b h k =
    ground
      (arith, h k, AllAbove-elem i i l a, AllAbove-elem i i m b, int_le_total i i, int_eq_iff i k)

-- Ascending lists with the same members are equal.
pub Ascending-ext :
    (l m : List ℤ) → Ascending l → Ascending m → ((i : ℤ) → elem i l ≡ elem i m) → l ≡ m
Ascending-ext [] [] _ _ h = refl
Ascending-ext [] (j ∷ m) _ _ h = absurd (ground (arith, h j, int_eq_iff j j))
Ascending-ext (i ∷ l) [] _ _ h = absurd (ground (arith, h i, int_eq_iff i i))
Ascending-ext (i ∷ l) (j ∷ m) (a, all) (b, others) h =
    let same = heads i j l m a b h in
    let b' : AllAbove i m = subst (λ k. AllAbove k m) (sym same) b in
    ap₂ ◌∷◌ same (
      Ascending-ext l m all others
        (tails i l m a b' (λ k. h k ∙ ap (λ j'. elem k (j' ∷ m)) (sym same))))
