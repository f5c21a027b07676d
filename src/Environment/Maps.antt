-- ===== src/Environment/Maps.antt =====
-- src/components/Environment/Environment.cpp keeps three maps, each apart from the others.
use haisos.Common.{
  Bool, not, true, false, Option, none, some, ◌≡◌, refl, sym, ap, ◌∙◌, inl, inr, Bytes, bytes_eq,
  bytes_eq_iff, Bool-cases, if◌then◌else◌, Option-cases,
}
use haisos.Common.Dict.{Dict, lookup, insert, lookup-insert, lookup-erase}
use haisos.Environment.{
  LlmIdentifier, Environment, has, emplace, take_out, add_variable, set_variable, remove_variable,
  get_variable, add_secret, set_secret, remove_secret, read_secret_value, add_llm_identifier,
  set_llm_identifier, remove_llm_identifier, get_llm_identifier,
}

-- A finite map as what it answers.
abbrev pub Answers : Type 0 → Type 0
Answers V = Bytes → Option V

-- What a call does to one map, on its answers, and the Boolean that it returns.
pub data Change (V : Type 0) : Type 0 where
  adds sets : Bytes → V → Change V
  removes : Bytes → Change V

module _ {V : Type 0} where
  abbrev is_some : Option V → Bool
  is_some none = false
  is_some (some value) = true

  abbrev kept_or : Option V → V → Option V
  kept_or none value = some value
  kept_or (some old) value = some old

  -- What a name answers afterwards.
  abbrev pub changed : Change V → Answers V → Answers V
  changed (adds name value) before j =
      if bytes_eq name j then kept_or (before name) value else before j
  changed (sets name value) before j = if bytes_eq name j then some value else before j
  changed (removes name) before j = if bytes_eq name j then none else before j

  -- Whether the call says that it changed something; one that sets has no result.
  abbrev pub says : Change V → Answers V → Bool
  says (adds name value) before = not (is_some (before name))
  says (sets name value) before = true
  says (removes name) before = is_some (before name)

  abbrev answers : Dict V → Answers V
  answers entries j = lookup j entries

  -- The call on one map.
  abbrev pub apply : Change V → Dict V → Dict V × Bool
  apply (adds name value) entries = emplace name value entries
  apply (sets name value) entries = (insert name value entries, true)
  apply (removes name) entries = take_out name entries

  apply-changed :
      (c : Change V) (entries : Dict V)
      → ((j : Bytes) → lookup j (apply c entries).0 ≡ changed c (answers entries) j)
        × ((apply c entries).1 ≡ says c (answers entries))
  unfolding emplace take_out has
  apply-changed (adds name value) entries = elim (Option-cases (lookup name entries)) [
    | inl e ↦ (λ j. rw (e, emplace) (lookup-insert name j value entries), rw (e, emplace) refl)
    | inr (old, e) ↦ (
      λ j.
          rw (e, emplace)
            (elim (Bool-cases (bytes_eq name j)) [
              | inl same ↦ rw same (ap (answers entries) (sym ((bytes_eq_iff name j).0 same)) ∙ e)
              | inr other ↦ rw other refl
            ]),
      rw (e, emplace) refl,
    )
  ]
  apply-changed (sets name value) entries = (λ j. lookup-insert name j value entries, refl)
  apply-changed (removes name) entries = (
    λ j. lookup-erase name j entries,
    elim (Option-cases (lookup name entries)) [
      | inl e ↦ rw (e, has) refl
      | inr (old, e) ↦ rw (e, has) refl
    ],
  )

-- The calls that change an environment.
pub data Call : Type 0 where
  on_variables on_secrets : Change Bytes → Call
  on_llm_identifiers : Change LlmIdentifier → Call

abbrev pub run : Call → Environment → Environment × Bool
run (on_variables (adds name value)) e = add_variable name value e
run (on_variables (sets name value)) e = (set_variable name value e, true)
run (on_variables (removes name)) e = remove_variable name e
run (on_secrets (adds name value)) e = add_secret name value e
run (on_secrets (sets name value)) e = (set_secret name value e, true)
run (on_secrets (removes name)) e = remove_secret name e
run (on_llm_identifiers (adds name value)) e = add_llm_identifier name value e
run (on_llm_identifiers (sets name value)) e = (set_llm_identifier name value e, true)
run (on_llm_identifiers (removes name)) e = remove_llm_identifier name e

-- An environment as its three maps.
pub record Store : Type 0 where
  pub variables : Answers Bytes
  pub secrets : Answers Bytes
  pub llm_identifiers : Answers LlmIdentifier

abbrev pub store_of : Environment → Store
store_of e = record {
  variables = λ j. get_variable j e;
  secrets = λ j. read_secret_value j e;
  llm_identifiers = λ j. get_llm_identifier j e;
}

abbrev pub step : Call → Store → Store × Bool
step (on_variables c) s = (record s { variables = changed c s.variables }, says c s.variables)
step (on_secrets c) s = (record s { secrets = changed c s.secrets }, says c s.secrets)
step (on_llm_identifiers c) s =
    (record s { llm_identifiers = changed c s.llm_identifiers }, says c s.llm_identifiers)

-- Two stores with the same answers.
pub record Same (s t : Store) : Type 0 where
  pub variables : (j : Bytes) → s.variables j ≡ t.variables j
  pub secrets : (j : Bytes) → s.secrets j ≡ t.secrets j
  pub llm_identifiers : (j : Bytes) → s.llm_identifiers j ≡ t.llm_identifiers j

variables-Same :
    (e : Environment) (m : Dict Bytes) (a : Answers Bytes)
    → ((j : Bytes) → lookup j m ≡ a j)
    → Same (store_of (record e { variables = m })) (record (store_of e) { variables = a })
variables-Same e m a h = record { variables = h; secrets = λ j. refl; llm_identifiers = λ j. refl }

secrets-Same :
    (e : Environment) (m : Dict Bytes) (a : Answers Bytes)
    → ((j : Bytes) → lookup j m ≡ a j)
    → Same (store_of (record e { secrets = m })) (record (store_of e) { secrets = a })
secrets-Same e m a h = record { variables = λ j. refl; secrets = h; llm_identifiers = λ j. refl }

llm_identifiers-Same :
    (e : Environment) (m : Dict LlmIdentifier) (a : Answers LlmIdentifier)
    → ((j : Bytes) → lookup j m ≡ a j)
    → Same
        (store_of (record e { llm_identifiers = m }))
        (record (store_of e) { llm_identifiers = a })
llm_identifiers-Same e m a h = record {
  variables = λ j. refl;
  secrets = λ j. refl;
  llm_identifiers = h;
}

-- Adding, setting and removing do to the map they are of what they do to a finite map, and nothing to
-- the other two; adding keeps a value that is there, and says so, and removing says whether there was
-- one.
pub run-Same :
    (c : Call) (e : Environment)
    → Same (store_of (run c e).0) (step c (store_of e)).0 × ((run c e).1 ≡ (step c (store_of e)).1)
run-Same (on_variables (adds name value)) e =
    let (m, r) = apply-changed (adds name value) e.variables in (variables-Same e _ _ m, r)
run-Same (on_variables (sets name value)) e =
    let (m, r) = apply-changed (sets name value) e.variables in (variables-Same e _ _ m, r)
run-Same (on_variables (removes name)) e =
    let (m, r) = apply-changed {V = Bytes} (removes name) e.variables in (variables-Same e _ _ m, r)
run-Same (on_secrets (adds name value)) e =
    let (m, r) = apply-changed (adds name value) e.secrets in (secrets-Same e _ _ m, r)
run-Same (on_secrets (sets name value)) e =
    let (m, r) = apply-changed (sets name value) e.secrets in (secrets-Same e _ _ m, r)
run-Same (on_secrets (removes name)) e =
    let (m, r) = apply-changed {V = Bytes} (removes name) e.secrets in (secrets-Same e _ _ m, r)
run-Same (on_llm_identifiers (adds name value)) e =
    let (m, r) = apply-changed (adds name value) e.llm_identifiers in
    (llm_identifiers-Same e _ _ m, r)
run-Same (on_llm_identifiers (sets name value)) e =
    let (m, r) = apply-changed (sets name value) e.llm_identifiers in
    (llm_identifiers-Same e _ _ m, r)
run-Same (on_llm_identifiers (removes name)) e =
    let (m, r) = apply-changed {V = LlmIdentifier} (removes name) e.llm_identifiers in
    (llm_identifiers-Same e _ _ m, r)
