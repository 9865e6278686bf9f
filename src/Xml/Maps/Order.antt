-- ===== src/Xml/Maps/Order.antt =====
-- `sort.Strings` of the Go standard library: the order of strings, and sorting by it. Strings are
-- compared character by character, which for UTF-8 is Go's order by bytes.
use Prim.Native.Char.{Char, code}
use terraform_provider_runde.Common.{
  String, Bool, true, false, if◌then◌else◌, ltb, eqb, List, [], ◌∷◌, ◌≡◌, refl, arith, ap, ◌==◌,
  ◌||◌, ◌∙◌,
}
use text.Mathlib.TextEquality.{Char-path}
use mathlib.Core.Path.{ap₂}
use mathlib.Core.List.{Permᴰ}

unfoldable pub string_le : String → String → Bool
string_le String.[] t = true
string_le (String.◌∷◌ c s) String.[] = false
string_le (String.◌∷◌ c s) (String.◌∷◌ d t) =
    let rest = string_le s t in if eqb (code c) (code d) then rest else ltb (code c) (code d)

unfoldable pub insert_string : String → List String → List String
unfolding string_le
insert_string s [] = s ∷ []
insert_string s (t ∷ ts) =
    let rest = insert_string s ts in if string_le s t then s ∷ t ∷ ts else t ∷ rest

unfoldable pub sort_strings : List String → List String
unfolding insert_string
sort_strings [] = []
sort_strings (s ∷ ss) = insert_string s (sort_strings ss)

string_le_total : (s t : String) → string_le s t ≡ false → string_le t s ≡ true
unfolding string_le
string_le_total String.[] t h = cc
string_le_total (String.◌∷◌ c s) String.[] h = refl
string_le_total (String.◌∷◌ c s) (String.◌∷◌ d t) h = ground (arith, string_le_total s t)

string_le_trans :
    (s t u : String) → string_le s t ≡ true → string_le t u ≡ true → string_le s u ≡ true
unfolding string_le
string_le_trans String.[] t u p q = refl
string_le_trans (String.◌∷◌ c s) String.[] u p q = cc
string_le_trans (String.◌∷◌ c s) (String.◌∷◌ d t) String.[] p q = cc
string_le_trans (String.◌∷◌ c s) (String.◌∷◌ d t) (String.◌∷◌ e u) p q =
    ground (arith, string_le_trans s t u)

cons_eq : (c d : Char) (s t : String) → c ≡ d → s ≡ t → String.◌∷◌ c s ≡ String.◌∷◌ d t
cons_eq c d s t p q = ap₂ String.◌∷◌ p q

string_le_antisymm : (s t : String) → string_le s t ≡ true → string_le t s ≡ true → s ≡ t
unfolding string_le
string_le_antisymm String.[] String.[] p q = refl
string_le_antisymm String.[] (String.◌∷◌ d t) p q = cc
string_le_antisymm (String.◌∷◌ c s) String.[] p q = cc
string_le_antisymm (String.◌∷◌ c s) (String.◌∷◌ d t) p q =
    cons_eq c d s t (Char-path c d (ground arith))
      (string_le_antisymm s t (ground arith) (ground arith))

-- Two insertions commute, whatever the order of the strings.
pub insert_string_comm :
    (s t : String) (l : List String)
    → insert_string s (insert_string t l) ≡ insert_string t (insert_string s l)
unfolding insert_string
insert_string_comm s t [] =
    ground (arith, string_le_total s t, string_le_total t s, string_le_antisymm s t)
insert_string_comm s t (u ∷ l) = ground (
  arith,
  insert_string_comm s t l,
  string_le_total s t,
  string_le_total t s,
  string_le_antisymm s t,
  string_le_trans s t u,
  string_le_trans t s u,
  string_le_total s u,
  string_le_total t u,
)

-- The sorted list does not depend on the order of the given one.
pub sort_strings-Perm : {l m : List String} → Permᴰ l m → sort_strings l ≡ sort_strings m
unfolding sort_strings
sort_strings-Perm Permᴰ.nil = refl
sort_strings-Perm (Permᴰ.cons e p) = ap₂ insert_string e (sort_strings-Perm p)
sort_strings-Perm (Permᴰ.swap {a = a} {b = b} {l = l} e f) =
    insert_string_comm a b (sort_strings l)
    ∙ ap₂ (λ s t. insert_string s (insert_string t (sort_strings l))) f e
sort_strings-Perm (Permᴰ.trans p q) = sort_strings-Perm p ∙ sort_strings-Perm q

unfoldable pub contains : String → List String → Bool
contains k [] = false
contains k (s ∷ ss) = s == k || contains k ss

contains-insert_string :
    (k s : String) (l : List String) → contains k (insert_string s l) ≡ (s == k || contains k l)
unfolding contains insert_string
contains-insert_string k s [] = refl
contains-insert_string k s (t ∷ l) = ground (arith, contains-insert_string k s l)

-- Sorting keeps the elements.
pub contains-sort_strings :
    (k : String) (l : List String) → contains k (sort_strings l) ≡ contains k l
unfolding contains sort_strings
contains-sort_strings k [] = refl
contains-sort_strings k (s ∷ l) =
    contains-insert_string k s (sort_strings l) ∙ ap (λ b. s == k || b) (contains-sort_strings k l)
