-- ===== src/Project/Keys.antt =====
-- The keys that `UpdateProject` makes for resource model sources, as `ReadProject` takes them apart.
pub mod Others
use Prim.Native.Char.{Char}
use text.Mathlib.Text.{starts_with}
use text.Mathlib.TextEquality.{starts_with_iff}
use text.Mathlib.TextLemmas.{append_assoc, cons-append, nil-append}
use terraform_provider_runde.Common.{
  String, ℕ, ◌+◌, ◌<◌, ◌<>◌, if◌then◌else◌, true, List, [], ◌∷◌, ◌≡◌, refl, sym, ap, ◌∙◌, some,
  arith,
}
use terraform_provider_runde.Common.Texts.{split, join, Lacks, split-join}
use terraform_provider_runde.Go.{pos}
use terraform_provider_runde.Go.Decimal.{print, atoi, int_bound}
use terraform_provider_runde.Go.Decimal.RoundTrip.{atoi-print, print-Lacks}
use terraform_provider_runde.Project.Update.{attr_key_prefix, type_key, config_key_prefix}
use terraform_provider_runde.Project.Read.{part_of, type_of, config_of, parts_part}

abbrev pub dotted : String → String → String
dotted s t = s <> String.◌∷◌ "." t

dotted_lem : (s t : String) → dotted s t ≡ (s <> ".") <> t
dotted_lem s t =
    ap (λ u. s <> u) (sym (cons-append "." "" t ∙ ap (λ u. String.◌∷◌ "." u) (nil-append t)))
    ∙ sym (append_assoc s "." t)

prefix_dotted : (t : String) → "resources.source." <> t ≡ dotted "resources" (dotted "source" t)
prefix_dotted t = sym (
    dotted_lem "resources" (dotted "source" t)
    ∙ ap (λ u. "resources." <> u) (dotted_lem "source" t)
    ∙ sym (append_assoc "resources." "source." t))

pub key_dotted :
    (i : ℕ) (t : String)
    → attr_key_prefix i <> t ≡ dotted "resources" (dotted "source" (dotted (print (i + 1)) t))
key_dotted i t =
    append_assoc "resources.source." (print (i + 1) <> ".") t
    ∙ ap (λ u. "resources.source." <> u) (sym (dotted_lem (print (i + 1)) t))
    ∙ prefix_dotted (dotted (print (i + 1)) t)

starts_with_prefix :
    (t : String) → starts_with ("resources.source." <> t) "resources.source." ≡ true
starts_with_prefix t = (starts_with_iff _ _).1 (t, refl)

pub part_of_key :
    (i : ℕ) (t : String)
    → part_of (attr_key_prefix i <> t) ≡ parts_part (split "." (attr_key_prefix i <> t))
unfolding part_of
part_of_key i t = rw (append_assoc, starts_with_prefix)

split-type_key :
    (i : ℕ) → split "." (type_key i) ≡ "resources" ∷ "source" ∷ print (i + 1) ∷ "type" ∷ []
unfolding join
split-type_key i =
    ap (split ".") (key_dotted i "type")
    ∙ split-join "." ("resources" ∷ "source" ∷ print (i + 1) ∷ "type" ∷ []) (λ e. cc)
        (omega arith, (omega arith, (print-Lacks (i + 1), (omega arith, tt))))

pub config_key_lem :
    (i : ℕ) (k : String) → config_key_prefix i <> k ≡ attr_key_prefix i <> dotted "config" k
config_key_lem i k =
    append_assoc (attr_key_prefix i) "config." k
    ∙ ap (λ u. attr_key_prefix i <> u) (sym (dotted_lem "config" k))

split-config_key :
    (i : ℕ) (k : String)
    → Lacks "." k
    → split "." (attr_key_prefix i <> dotted "config" k)
      ≡ "resources" ∷ "source" ∷ print (i + 1) ∷ "config" ∷ k ∷ []
unfolding join
split-config_key i k h =
    ap (split ".") (key_dotted i (dotted "config" k))
    ∙ split-join "." ("resources" ∷ "source" ∷ print (i + 1) ∷ "config" ∷ k ∷ []) (λ e. cc)
        (omega arith, (omega arith, (print-Lacks (i + 1), (omega arith, (h, tt)))))

pub part_of-type_key : (i : ℕ) → i + 1 < int_bound → part_of (type_key i) ≡ type_of (pos (i + 1))
part_of-type_key i h = part_of_key i "type" ∙ rw (split-type_key i, atoi-print (i + 1) h) refl

pub part_of-config_key :
    (i : ℕ) (k : String)
    → i + 1 < int_bound
    → Lacks "." k
    → part_of (config_key_prefix i <> k) ≡ config_of (pos (i + 1)) k
part_of-config_key i k h lacks =
    ap part_of (config_key_lem i k)
    ∙ part_of_key i (dotted "config" k)
    ∙ rw (split-config_key i k lacks, atoi-print (i + 1) h) refl
