-- ===== src/Project/Read/Steps.antt =====
-- One visit of the loop of `ReadProject` over the properties: what it does to the source of an index, and
-- to a property.
use terraform_provider_runde.Common.{
  String, Bool, true, false, ◌||◌, ◌&&◌, if◌then◌else◌, ◌==◌, Option, none, some, [], ◌∷◌, ◌≡◌,
  refl, arith,
}
use terraform_provider_runde.Common.Dict.{lookup, insert, lookup-insert}
use terraform_provider_runde.Common.Bindings.{later, when}
use terraform_provider_runde.Go.{ℤ, int_eq, int_eq_iff, Value}
use terraform_provider_runde.Project.Read.{
  Part, unrelated, unknown_field, type_of, config_of, Source, new_source, with_type, with_config,
  SourceMap, change_source, source_at, Scan, apply_part,
}

abbrev pub type_in : Option Source → Option Value
type_in none = none
type_in (some source) = source.type

abbrev pub config_in : Option Source → String → Option Value
config_in none k = none
config_in (some source) k = lookup k source.config

abbrev pub is_there : Option Source → Bool
is_there none = false
is_there (some source) = true

abbrev pub is_type : ℤ → Part → Bool
is_type i (type_of j) = int_eq j i
is_type i _ = false

abbrev pub is_config : ℤ → String → Part → Bool
is_config i k (config_of j l) = int_eq j i && (l == k)
is_config i k _ = false

-- the source of this index is made
abbrev pub makes : ℤ → Part → Bool
makes i unrelated = false
makes i (unknown_field j) = int_eq j i
makes i (type_of j) = int_eq j i
makes i (config_of j k) = int_eq j i

-- the key is deleted
abbrev pub is_taken : Part → Bool
is_taken unrelated = false
is_taken (unknown_field j) = false
is_taken (type_of j) = true
is_taken (config_of j k) = true

abbrev pub or_new : Option Source → Source
or_new none = new_source
or_new (some source) = source

pub source_at-change_source :
    (i j : ℤ) (f : Source → Source) (m : SourceMap)
    → source_at i (change_source j f m)
      ≡ (if int_eq j i then some (f (or_new (source_at i m))) else source_at i m)
unfolding source_at change_source
source_at-change_source i j f [] = refl
source_at-change_source i j f ((k, source) ∷ m) =
    ground (arith, source_at-change_source i j f m, int_eq_iff k i, int_eq_iff k j, int_eq_iff j i)

-- an entry after a step
abbrev changed : Bool → (Source → Source) → Option Source → Option Source
changed b f o = if b then some (f (or_new o)) else o

changed_same : (b : Bool) (o : Option Source) → type_in (changed b (λ s. s) o) ≡ type_in o
changed_same true none = refl
changed_same true (some source) = refl
changed_same false o = refl

changed-with_type :
    (b : Bool) (v : Value) (o : Option Source)
    → type_in (changed b (with_type v) o) ≡ later (when b v) (type_in o)
changed-with_type true v o = refl
changed-with_type false v o = refl

changed-with_config :
    (b : Bool) (k : String) (v : Value) (o : Option Source)
    → type_in (changed b (with_config k v) o) ≡ type_in o
changed-with_config true k v none = refl
changed-with_config true k v (some source) = refl
changed-with_config false k v o = refl

pub type_step :
    (i : ℤ) (p : Part) (key : String) (v : Value) (s : Scan)
    → type_in (source_at i (apply_part p key v s).sources)
      ≡ later (when (is_type i p) v) (type_in (source_at i s.sources))
type_step i unrelated key v s = refl
type_step i (unknown_field j) key v s =
    rw source_at-change_source (changed_same (int_eq j i) (source_at i s.sources))
type_step i (type_of j) key v s =
    rw source_at-change_source (changed-with_type (int_eq j i) v (source_at i s.sources))
type_step i (config_of j k) key v s =
    rw source_at-change_source (changed-with_config (int_eq j i) k v (source_at i s.sources))

config_same :
    (b : Bool) (o : Option Source) (k : String) → config_in (changed b (λ s. s) o) k ≡ config_in o k
unfolding lookup
config_same true none k = refl
config_same true (some source) k = refl
config_same false o k = refl

config_with_type :
    (b : Bool) (v : Value) (o : Option Source) (k : String)
    → config_in (changed b (with_type v) o) k ≡ config_in o k
unfolding lookup
config_with_type true v none k = refl
config_with_type true v (some source) k = refl
config_with_type false v o k = refl

config_with_config :
    (b : Bool) (l : String) (v : Value) (o : Option Source) (k : String)
    → config_in (changed b (with_config l v) o) k ≡ later (when (b && (l == k)) v) (config_in o k)
unfolding lookup insert
config_with_config true l v none k = ground arith
config_with_config true l v (some source) k = rw lookup-insert (ground arith)
config_with_config false l v o k = refl

pub config_step :
    (i : ℤ) (k : String) (p : Part) (key : String) (v : Value) (s : Scan)
    → config_in (source_at i (apply_part p key v s).sources) k
      ≡ later (when (is_config i k p) v) (config_in (source_at i s.sources) k)
config_step i k unrelated key v s = refl
config_step i k (unknown_field j) key v s =
    rw source_at-change_source (config_same (int_eq j i) (source_at i s.sources) k)
config_step i k (type_of j) key v s =
    rw source_at-change_source (config_with_type (int_eq j i) v (source_at i s.sources) k)
config_step i k (config_of j l) key v s =
    rw source_at-change_source (config_with_config (int_eq j i) l v (source_at i s.sources) k)

changed_there :
    (b : Bool) (f : Source → Source) (o : Option Source)
    → is_there (changed b f o) ≡ (b || is_there o)
changed_there true f o = refl
changed_there false f o = refl

pub there_step :
    (i : ℤ) (p : Part) (key : String) (v : Value) (s : Scan)
    → is_there (source_at i (apply_part p key v s).sources)
      ≡ (makes i p || is_there (source_at i s.sources))
there_step i unrelated key v s = refl
there_step i (unknown_field j) key v s =
    rw source_at-change_source (changed_there (int_eq j i) (λ s. s) (source_at i s.sources))
there_step i (type_of j) key v s =
    rw source_at-change_source (changed_there (int_eq j i) (with_type v) (source_at i s.sources))
there_step i (config_of j k) key v s =
    rw source_at-change_source
      (changed_there (int_eq j i) (with_config k v) (source_at i s.sources))
