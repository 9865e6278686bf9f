-- ===== src/Project/Operations/Safety.antt =====
-- `ReadProject` does not panic, whatever texts the properties of a project are.
use terraform_provider_runde.Common.{
  String, true, eqb, Bool-cases, All, Option, none, some, Option-cases, [], ◌∷◌, ◌≡◌, ◌≢◌, ◌⊎◌,
  refl, inl, inr, ◌==◌,
}
use terraform_provider_runde.Common.Dict.{Dict, lookup, erase}
use terraform_provider_runde.Go.{
  Outcome, ok, err, panic, IsSafe, Value, string, object, entries, Error, Fields,
}
use terraform_provider_runde.Go.Exec.{Exec, after}
use terraform_provider_runde.Http.{HttpResponse}
use terraform_provider_runde.Sdk.ResourceData.{ResourceData}
use terraform_provider_runde.Project.{project_config_attributes, ProjectClient, ProjectReply}
use terraform_provider_runde.Project.Read.{
  Part, part_of, unrelated, unknown_field, type_of, config_of, Scan, apply_part, visit_all,
  scan_config, extra_config,
}
use terraform_provider_runde.Project.Read.Order.{resource_sources_lem}
use terraform_provider_runde.Project.Operations.{
  read_attributes, read_config, read_project, without,
}

abbrev AllTexts : Dict Value → Type 0
AllTexts c = All (λ (e : String × Value). (text : String) × (e.1 ≡ string text)) c

erase-AllTexts : (k : String) (c : Dict Value) → AllTexts c → AllTexts (erase k c)
unfolding erase
erase-AllTexts k [] _ = tt
erase-AllTexts k ((j, v) ∷ c) (h, hs) = elim (Bool-cases (j == k)) [
  | inl same ↦ rw same (erase-AllTexts k c hs)
  | inr other ↦ rw other ((h, erase-AllTexts k c hs))
]

without-AllTexts :
    (k : String) (o : Option Value) (c : Dict Value) → AllTexts c → AllTexts (without k o c)
without-AllTexts k none c h = h
without-AllTexts k (some v) c h = erase-AllTexts k c h

apply_part-AllTexts :
    (q : Part) (key : String) (v : Value) (s : Scan)
    → AllTexts s.config
    → AllTexts (apply_part q key v s).config
apply_part-AllTexts unrelated key v s h = h
apply_part-AllTexts (unknown_field i) key v s h = h
apply_part-AllTexts (type_of i) key v s h = erase-AllTexts key s.config h
apply_part-AllTexts (config_of i k) key v s h = erase-AllTexts key s.config h

visit_all-AllTexts :
    (c : Dict Value) (s : Scan) → AllTexts s.config → AllTexts (visit_all c s).config
unfolding visit_all
visit_all-AllTexts [] s h = h
visit_all-AllTexts ((key, v) ∷ c) s h =
    visit_all-AllTexts c (apply_part (part_of key) key v s)
      (apply_part-AllTexts (part_of key) key v s h)

extra_config-IsSafe : (c : Dict Value) (m : Dict String) → AllTexts c → IsSafe (extra_config c m)
unfolding extra_config
extra_config-IsSafe [] m _ = tt
extra_config-IsSafe ((k, v) ∷ c) m ((text, e), hs) = rw e (extra_config-IsSafe c _ hs)

module _ {S : Type 0} where
  -- a step that ends without a panic, where the next one does too
  after-IsSafe :
      {A B : Type 0} (f : A → Exec S B) (x : Outcome A × S)
      → IsSafe x.0
      → ((a : A) (s : S) → IsSafe (f a s).0)
      → IsSafe (after f x).0
  after-IsSafe f (ok a, s) h g = g a s
  after-IsSafe f (err e, s) h g = tt
  after-IsSafe f (panic q, s) h g = elim h [ ]

  module _ (d : ResourceData S) where
    -- the loop over the attributes does not fail, and leaves texts
    read_attributes-AllTexts :
        (table : Dict String) (c : Dict Value) (s : S)
        → AllTexts c
        → (c' : Dict Value) × (s' : S) × (read_attributes d table c s ≡ (ok c', s')) × AllTexts c'
    unfolding read_attributes
    read_attributes-AllTexts [] c s h = (c, s, refl, h)
    read_attributes-AllTexts ((j, a) ∷ table) c s h = elim (Option-cases (lookup j c)) [
      | inl absent ↦ rw absent (read_attributes-AllTexts table c _ h)
      | inr (v, bound) ↦
          rw bound (read_attributes-AllTexts table (erase j c) _ (erase-AllTexts j c h))
    ]

    read_config-IsSafe : (c : Dict Value) (s : S) → AllTexts c → IsSafe (read_config d c s).0
    unfolding read_config
    read_config-IsSafe c s h =
        let (c', s', e, texts) = read_attributes-AllTexts project_config_attributes c s h in
        rw (e, resource_sources_lem (scan_config c').sources)
          (after-IsSafe _ (extra_config (scan_config c').config [], _)
            (extra_config-IsSafe (scan_config c').config [] (visit_all-AllTexts c' _ texts))
            (λ extra t. tt))

-- The server's reply is an error, a missing project, or a project whose properties are all texts.
abbrev pub IsAnswer : ProjectReply × Option Error → Type 0
IsAnswer reply =
    (reply.1 ≢ none)
    ⊎ ((response : HttpResponse) × (reply.0.response ≡ some response)
        × ((eqb response.status 404 ≡ true)
            ⊎ ((fields : Fields) × (reply.0.config ≡ object fields) × AllTexts (entries fields))))

module _ {S : Type 0} (d : ResourceData S) (client : ProjectClient S) where
  -- `ReadProject` does not panic where the server's reply is an error, a missing project, or a project
  -- whose properties are all texts.
  pub read_project-IsSafe :
      (s : S) → IsAnswer (client.project_get (d.id s) s).0 → IsSafe (read_project d client s).0
  unfolding read_project
  read_project-IsSafe s h = elim (Option-cases (client.project_get (d.id s) s).0.1) [
    | inr (e, failed) ↦ rw failed tt
    | inl fine ↦ elim h [
      | inl ne ↦ absurd (ne fine)
      | inr (response, replied, inl missing) ↦ rw (fine, replied, missing) tt
      | inr (response, replied, inr (fields, config, texts)) ↦
          elim (Bool-cases (eqb response.status 404)) [
            | inl missing ↦ rw (fine, replied, missing) tt
            | inr there ↦
                rw (fine, replied, there, config)
                  (after-IsSafe _ _
                    (after-IsSafe _ (read_config d (entries fields) _)
                      (read_config-IsSafe d (entries fields) _ texts) (λ _ _. tt))
                    (λ _ _. tt))
          ]
    ]
  ]
