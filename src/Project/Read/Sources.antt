-- ===== src/Project/Read/Sources.antt =====
-- What the loop of `ReadProject` over the properties makes of the sources and of the properties: for
-- each index and each key, in terms of the properties that it visits.
use terraform_provider_runde.Common.{
  String, Bool, true, false, ◌||◌, ◌&&◌, if◌then◌else◌, ◌==◌, eq_iff, eq_refl, ◌≢◌, Option, none,
  some, [], ◌∷◌, ◌≡◌, refl, sym, ap, ◌∙◌, arith,
}
use terraform_provider_runde.Common.Dict.{Dict, lookup, lookup-erase}
use terraform_provider_runde.Common.Bindings.{
  later, last_where, any_key, later_assoc, later-none, any_key_of,
}
use terraform_provider_runde.Go.{ℤ, Value}
use terraform_provider_runde.Project.Read.{
  Part, unrelated, unknown_field, type_of, config_of, part_of, source_at, Scan, apply_part,
  visit_all, scan_config,
}
use terraform_provider_runde.Project.Read.Steps.{
  type_in, config_in, is_there, is_type, is_config, makes, is_taken, type_step, config_step,
  there_step,
}

-- the type of a source is the last one that is visited
pub type_in-visit_all :
    (i : ℤ) (c : Dict Value) (s : Scan)
    → type_in (source_at i (visit_all c s).sources)
      ≡ later (last_where (λ key. is_type i (part_of key)) c) (type_in (source_at i s.sources))
unfolding visit_all
type_in-visit_all i [] s = refl
type_in-visit_all i ((key, v) ∷ c) s =
    type_in-visit_all i c (apply_part (part_of key) key v s)
    ∙ ap (later (last_where (λ key. is_type i (part_of key)) c)) (type_step i (part_of key) key v s)
    ∙ sym (later_assoc (last_where (λ key. is_type i (part_of key)) c) _ _)

-- and so is every entry of its configuration
pub config_in-visit_all :
    (i : ℤ) (k : String) (c : Dict Value) (s : Scan)
    → config_in (source_at i (visit_all c s).sources) k
      ≡ later
          (last_where (λ key. is_config i k (part_of key)) c)
          (config_in (source_at i s.sources) k)
unfolding visit_all
config_in-visit_all i k [] s = refl
config_in-visit_all i k ((key, v) ∷ c) s =
    config_in-visit_all i k c (apply_part (part_of key) key v s)
    ∙ ap (later (last_where (λ key. is_config i k (part_of key)) c))
        (config_step i k (part_of key) key v s)
    ∙ sym (later_assoc (last_where (λ key. is_config i k (part_of key)) c) _ _)

or_left : (a b c : Bool) → (b || (a || c)) ≡ ((a || b) || c)
or_left a b c = ground arith

pub is_there-visit_all :
    (i : ℤ) (c : Dict Value) (s : Scan)
    → is_there (source_at i (visit_all c s).sources)
      ≡ (any_key (λ key. makes i (part_of key)) c || is_there (source_at i s.sources))
unfolding visit_all
is_there-visit_all i [] s = refl
is_there-visit_all i ((key, v) ∷ c) s =
    is_there-visit_all i c (apply_part (part_of key) key v s)
    ∙ ap (λ b. any_key (λ key. makes i (part_of key)) c || b) (there_step i (part_of key) key v s)
    ∙ or_left (makes i (part_of key)) (any_key (λ key. makes i (part_of key)) c) _

taken_step :
    (k key : String) (p : Part) (v : Value) (s : Scan)
    → lookup k (apply_part p key v s).config
      ≡ (if is_taken p && (key == k) then none else lookup k s.config)
taken_step k key unrelated v s = refl
taken_step k key (unknown_field j) v s = refl
taken_step k key (type_of j) v s = lookup-erase key k s.config
taken_step k key (config_of j l) v s = lookup-erase key k s.config

-- the properties that are left
pub left-visit_all :
    (k : String) (c : Dict Value) (s : Scan)
    → lookup k (visit_all c s).config
      ≡ (if is_taken (part_of k) && any_key (λ key. key == k) c then none else lookup k s.config)
unfolding visit_all
left-visit_all k [] s = ground arith
left-visit_all k ((key, v) ∷ c) s =
    left-visit_all k c (apply_part (part_of key) key v s)
    ∙ ground (arith, taken_step k key (part_of key) v s, eq_iff key k)

or_false : (b : Bool) → (b || false) ≡ b
or_false b = ground arith

unbound :
    (t b : Bool) (o : Option Value)
    → (o ≢ none → b ≡ true)
    → (if t && b then none else o) ≡ (if t then none else o)
unbound true true o h = refl
unbound true false none h = refl
unbound true false (some v) h = cc (h (λ e. cc))
unbound false b o h = refl

-- the loop from the beginning on
module _ (c : Dict Value) where
  abbrev start : Scan
  start = record { sources = []; config = c }

  pub type_in-scan_config :
      (i : ℤ)
      → type_in (source_at i (scan_config c).sources)
        ≡ last_where (λ key. is_type i (part_of key)) c
  unfolding source_at
  type_in-scan_config i = type_in-visit_all i c start ∙ later-none _

  pub config_in-scan_config :
      (i : ℤ) (k : String)
      → config_in (source_at i (scan_config c).sources) k
        ≡ last_where (λ key. is_config i k (part_of key)) c
  unfolding source_at
  config_in-scan_config i k = config_in-visit_all i k c start ∙ later-none _

  pub is_there-scan_config :
      (i : ℤ)
      → is_there (source_at i (scan_config c).sources) ≡ any_key (λ key. makes i (part_of key)) c
  unfolding source_at
  is_there-scan_config i = is_there-visit_all i c start ∙ or_false _

  pub left-scan_config :
      (k : String)
      → lookup k (scan_config c).config ≡ (if is_taken (part_of k) then none else lookup k c)
  left-scan_config k =
      left-visit_all k c start
      ∙ unbound (is_taken (part_of k)) (any_key (λ key. key == k) c) (lookup k c)
          (λ h. any_key_of (λ key. key == k) k c h (eq_refl k))
