-- ===== src/Project/Read/Configs.antt =====
-- The configuration of a source that `ReadProject` finds has no key twice, as every Go map.
use terraform_provider_runde.Common.{
  String, Bool, true, false, if◌then◌else◌, Option, some, [], ◌∷◌,
}
use terraform_provider_runde.Common.Dict.{Dict, NodupKeys, insert-NodupKeys}
use terraform_provider_runde.Go.{ℤ, int_eq, Value}
use terraform_provider_runde.Project.Read.{
  Part, unrelated, unknown_field, type_of, config_of, part_of, Source, with_type, with_config,
  SourceMap, change_source, source_at, Scan, apply_part, visit_all, scan_config,
}
use terraform_provider_runde.Project.Read.Steps.{or_new, source_at-change_source}

abbrev NodupConfig : Option Source → Type 0
NodupConfig o = NodupKeys (or_new o).config

if-NodupConfig :
    (b : Bool) (f : Source → Source) (o : Option Source)
    → ((source : Source) → NodupKeys source.config → NodupKeys (f source).config)
    → NodupConfig o
    → NodupConfig (if b then some (f (or_new o)) else o)
if-NodupConfig true f o keeps u = keeps (or_new o) u
if-NodupConfig false f o keeps u = u

change_source-NodupConfig :
    (i j : ℤ) (f : Source → Source) (m : SourceMap)
    → ((source : Source) → NodupKeys source.config → NodupKeys (f source).config)
    → NodupConfig (source_at i m)
    → NodupConfig (source_at i (change_source j f m))
change_source-NodupConfig i j f m keeps u =
    rw source_at-change_source (if-NodupConfig (int_eq j i) f (source_at i m) keeps u)

apply_part-NodupConfig :
    (i : ℤ) (q : Part) (key : String) (v : Value) (s : Scan)
    → NodupConfig (source_at i s.sources)
    → NodupConfig (source_at i (apply_part q key v s).sources)
apply_part-NodupConfig i unrelated key v s u = u
apply_part-NodupConfig i (unknown_field j) key v s u =
    change_source-NodupConfig i j (λ source. source) s.sources (λ source u'. u') u
apply_part-NodupConfig i (type_of j) key v s u =
    change_source-NodupConfig i j (with_type v) s.sources (λ source u'. u') u
apply_part-NodupConfig i (config_of j k) key v s u =
    change_source-NodupConfig i j (with_config k v) s.sources
      (λ source u'. insert-NodupKeys k v source.config u') u

visit_all-NodupConfig :
    (i : ℤ) (c : Dict Value) (s : Scan)
    → NodupConfig (source_at i s.sources)
    → NodupConfig (source_at i (visit_all c s).sources)
unfolding visit_all
visit_all-NodupConfig i [] s u = u
visit_all-NodupConfig i ((key, v) ∷ c) s u =
    visit_all-NodupConfig i c (apply_part (part_of key) key v s)
      (apply_part-NodupConfig i (part_of key) key v s u)

pub scan_config-NodupConfig :
    (i : ℤ) (c : Dict Value) → NodupKeys (or_new (source_at i (scan_config c).sources)).config
unfolding source_at
scan_config-NodupConfig i c = visit_all-NodupConfig i c (record { sources = []; config = c }) tt
