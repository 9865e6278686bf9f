-- ===== src/Project/Served/Only.antt =====
-- The key of a type, or of an entry of a configuration, is the only one among the keys of sources that
-- `ReadProject` takes so.
use mathlib.Core.Path.{subst, ap₂}
use terraform_provider_runde.Common.{
  String, ℕ, ◌+◌, ◌<◌, ◌<>◌, true, ◌≡◌, sym, ap, ◌∙◌, inl, inr, arith,
}
use terraform_provider_runde.Common.Texts.{Lacks}
use terraform_provider_runde.Go.{pos}
use terraform_provider_runde.Go.Decimal.{int_bound}
use terraform_provider_runde.Project.Keys.{part_of-type_key, part_of-config_key}
use terraform_provider_runde.Project.Update.{type_key, config_key_prefix}
use terraform_provider_runde.Project.Read.{Part, part_of, type_of, config_of}
use terraform_provider_runde.Project.Read.Order.{type_of_is_type, config_of_is_config}
use terraform_provider_runde.Project.Served.{IsSourceKey}
use terraform_provider_runde.Project.Served.Pairs.{tests_type, tests_config}

pub type_of-place : {i j : ℕ} → type_of (pos (i + 1)) ≡ type_of (pos (j + 1)) → i ≡ j
type_of-place h = omega (arith, ap index_of h)
  where
    index_of : Part → ℕ
    index_of (type_of (pos n)) = n
    index_of _ = 0

config_of-place :
    {i j : ℕ} {k l : String}
    → config_of (pos (i + 1)) k ≡ config_of (pos (j + 1)) l
    → (i ≡ j) × (k ≡ l)
config_of-place {i} {j} {k} {l} h = (omega (arith, ap index_of h), ap key_in h)
  where
    index_of : Part → ℕ
    index_of (config_of (pos n) k) = n
    index_of _ = 0

    key_in : Part → String
    key_in (config_of n k) = k
    key_in _ = ""

-- the only key that is the type of the source at this place
pub only_type :
    (n i : ℕ) (k : String)
    → n < int_bound
    → IsSourceKey n k
    → tests_type i k ≡ true
    → k ≡ type_key i
only_type n i k few (j, lt, inl e) t =
    e
    ∙ ap type_key (
        type_of-place (
          sym (ap part_of e ∙ part_of-type_key j (omega arith))
          ∙ type_of_is_type (pos (i + 1)) _ t))
only_type n i k few (j, lt, inr (l, lacks, e)) t = absurd (
    cc (
      part_of-config_key j l (omega arith) lacks,
      ap part_of e,
      type_of_is_type (pos (i + 1)) (part_of k) t,
    ))

-- the only key that is this entry of its configuration
pub only_config :
    (n i : ℕ) (c k : String)
    → n < int_bound
    → IsSourceKey n k
    → tests_config i c k ≡ true
    → Lacks "." c × (k ≡ config_key_prefix i <> c)
only_config n i c k few (j, lt, inl e) t = absurd (
    cc (
      part_of-type_key j (omega arith),
      ap part_of e,
      config_of_is_config (pos (i + 1)) c (part_of k) t,
    ))
only_config n i c k few (j, lt, inr (l, lacks, e)) t =
    let (place, key) = config_of-place (
      sym (ap part_of e ∙ part_of-config_key j l (omega arith) lacks)
      ∙ config_of_is_config (pos (i + 1)) c _ t) in
    (subst (Lacks ".") key lacks, e ∙ ap₂ (λ i' c'. config_key_prefix i' <> c') place key)
