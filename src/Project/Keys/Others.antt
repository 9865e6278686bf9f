-- ===== src/Project/Keys/Others.antt =====
-- Keys that `ReadProject` does not take for a source, and the indices that it takes from keys.
use terraform_provider_runde.Common.{◌<◌, Option, none, some}
use terraform_provider_runde.Go.{ℤ, pos, negsuc}
use terraform_provider_runde.Go.Decimal.{int_bound}
use terraform_provider_runde.Project.Read.{Part, unrelated, unknown_field, type_of, config_of}

-- an `int` of 64 bits
abbrev pub InRange : ℤ → Type 0
InRange (pos n) = n < int_bound
InRange (negsuc n) = n < int_bound

abbrev Sound : Option ℤ → Type 0
Sound none = Unit
Sound (some i) = InRange i

-- the index of a part is in range
abbrev pub PartInRange : Part → Type 0
PartInRange unrelated = Unit
PartInRange (unknown_field i) = InRange i
PartInRange (type_of i) = InRange i
PartInRange (config_of i k) = InRange i
