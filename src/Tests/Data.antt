-- ===== src/Tests/Data.antt =====
-- Resource data that keep what is set, as the reader of Tests/Reader.antt reads it.
use terraform_provider_runde.Common.{String, refl, ◌==◌, eq_refl, if◌then◌else◌, Option, none, some}
use terraform_provider_runde.Go.{Value}
use terraform_provider_runde.Sdk.{Kind, Attributes, kind_of}
use terraform_provider_runde.Sdk.ResourceData.{ResourceData, IsResourceData}
use terraform_provider_runde.Tests.Reader.{plain_reader}

abbrev pub Kept : Type 0
Kept = String × (String → Value)

abbrev read_as : Option Kind → Value → Value
read_as none v = v
read_as (some kind) v = plain_reader.read kind v

abbrev pub plain_data : Attributes → ResourceData Kept
plain_data attrs = record {
  id = λ s. s.0;
  set_id = λ i s. (i, s.1);
  get = λ s. s.1;
  set_value = λ k v s. (none, (s.0, λ j. if k == j then read_as (kind_of k attrs) v else s.1 j));
}

pub plain_data-IsResourceData :
    (attrs : Attributes) → IsResourceData attrs plain_reader (plain_data attrs)
plain_data-IsResourceData attrs = record {
  id-set_id = λ i s. refl;
  get-set_id = λ i s k. refl;
  id-set_value = λ k v s. refl;
  get-set_value = λ k kind v s declared _. rw (eq_refl k, declared) refl;
  get-set_value_ne = λ j k v s other. rw other refl;
}
