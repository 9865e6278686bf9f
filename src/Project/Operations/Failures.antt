-- ===== src/Project/Operations/Failures.antt =====
-- When `ReadProject` fails, in terms of `ProjectExists`.
use terraform_provider_runde.Common.{
  String, Bool, true, false, eqb, Bool-cases, Option-cases, [], ◌∷◌, ◌≡◌, refl, inl, inr,
}
use terraform_provider_runde.Common.Dict.{Dict, lookup, erase}
use terraform_provider_runde.Go.{
  Outcome, ok, err, panic, Value, nil, bool, int, list, strings, string_map, as_object, ◌>>=◌,
  string, object, entries, as_string,
}
use terraform_provider_runde.Go.Exec.{Exec, after}
use terraform_provider_runde.Sdk.ResourceData.{ResourceData}
use terraform_provider_runde.Project.{project_config_attributes, ProjectClient}
use terraform_provider_runde.Project.Read.{scan_config, extra_config}
use terraform_provider_runde.Project.Read.Order.{resource_sources_lem}
use terraform_provider_runde.Project.Operations.{
  read_attributes, read_config, read_project, project_exists, project_not_found,
}

-- no error is returned
abbrev NoError {ℓ} : {A : Type ℓ} → Outcome A → Type 0
NoError (ok a) = Unit
NoError (panic q) = Unit
NoError (err e) = ⊥

as_string-NoError : (v : Value) → NoError (as_string v)
as_string-NoError (string text) = tt
as_string-NoError nil = tt
as_string-NoError (bool b) = tt
as_string-NoError (int n) = tt
as_string-NoError (list vs) = tt
as_string-NoError (object fs) = tt
as_string-NoError (strings xs) = tt
as_string-NoError (string_map m) = tt

as_object-NoError : (v : Value) → NoError (as_object v)
as_object-NoError (object fs) = tt
as_object-NoError nil = tt
as_object-NoError (bool b) = tt
as_object-NoError (int n) = tt
as_object-NoError (string text) = tt
as_object-NoError (list vs) = tt
as_object-NoError (strings xs) = tt
as_object-NoError (string_map m) = tt

bind-NoError :
    {A B : Type 0} (m : Outcome A) (f : A → Outcome B)
    → NoError m
    → ((a : A) → NoError (f a))
    → NoError (m >>= f)
bind-NoError (ok a) f _ h = h a
bind-NoError (panic q) f _ h = tt
bind-NoError (err e) f g h = elim g [ ]

after-NoError :
    {S A B : Type 0} (f : A → Exec S B) (x : Outcome A × S)
    → NoError x.0
    → ((a : A) (s : S) → NoError (f a s).0)
    → NoError (after f x).0
after-NoError f (ok a, s) h g = g a s
after-NoError f (panic q, s) h g = tt
after-NoError f (err e, s) h g = elim h [ ]

extra_config-NoError : (c : Dict Value) (m : Dict String) → NoError (extra_config c m)
unfolding extra_config
extra_config-NoError [] m = tt
extra_config-NoError ((k, v) ∷ c) m =
    bind-NoError (as_string v) _ (as_string-NoError v) (λ text. extra_config-NoError c _)

module _ {S : Type 0} (d : ResourceData S) where
  read_attributes-ok :
      (table : Dict String) (c : Dict Value) (s : S)
      → (c' : Dict Value) × (s' : S) × (read_attributes d table c s ≡ (ok c', s'))
  unfolding read_attributes
  read_attributes-ok [] c s = (c, s, refl)
  read_attributes-ok ((j, a) ∷ table) c s = elim (Option-cases (lookup j c)) [
    | inl absent ↦ rw absent (read_attributes-ok table c _)
    | inr (v, bound) ↦ rw bound (read_attributes-ok table (erase j c) _)
  ]

read_config-NoError :
    {S : Type 0} (d : ResourceData S) (c : Dict Value) (s : S) → NoError (read_config d c s).0
unfolding read_config
read_config-NoError d c s =
    let (c', s', e) = read_attributes-ok d project_config_attributes c s in
    rw (e, resource_sources_lem (scan_config c').sources)
      (after-NoError _ (extra_config (scan_config c').config [], _)
        (extra_config-NoError (scan_config c').config []) (λ extra t. tt))

-- what `ReadProject` does where `ProjectExists` has this result
abbrev pub Agrees : {S : Type 0} → String → Outcome Bool × S → Outcome (Unit {0}) × S → Type 0
Agrees name (ok true, t) result = NoError result.0
Agrees name (ok false, t) result = result ≡ (err (project_not_found name), t)
Agrees name (err e, t) result = result ≡ (err e, t)
Agrees name (panic q, t) result = result ≡ (panic q, t)

module _ {S : Type 0} (d : ResourceData S) (client : ProjectClient S) where
  -- `ReadProject` returns an error exactly where `ProjectExists` finds no project or returns an error:
  -- it then says that the project was not found, or returns the same error; and it panics where
  -- `ProjectExists` does.
  pub project_exists-Agrees :
      (s : S) → Agrees (d.id s) (project_exists d client s) (read_project d client s)
  unfolding project_exists read_project
  project_exists-Agrees s = elim (Option-cases (client.project_get (d.id s) s).0.1) [
    | inr (e, failed) ↦ rw failed refl
    | inl fine ↦ elim (Option-cases (client.project_get (d.id s) s).0.0.response) [
      | inl nowhere ↦ rw (fine, nowhere) refl
      | inr (response, replied) ↦ elim (Bool-cases (eqb response.status 404)) [
        | inl missing ↦ rw (fine, replied, missing) refl
        | inr there ↦
            rw (fine, replied, there)
              (after-NoError _ (as_object (client.project_get (d.id s) s).0.0.config, _)
                (as_object-NoError _)
                (λ config t.
                  after-NoError _ _
                    (after-NoError _ (read_config d (entries config) t)
                      (read_config-NoError d (entries config) t) (λ _ _. tt))
                    (λ _ _. tt)))
      ]
    ]
  ]
