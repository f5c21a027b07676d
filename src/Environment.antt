-- ===== src/Environment.antt =====
-- src/components/Environment/Environment.cpp: the variables, secrets and model identifiers that a
-- process is given. Each function is a call under the mutex.
pub mod Maps
mod Examples
use haisos.Common.{Bool, true, false, Option, none, some, List, [], ◌∷◌, Bytes}
use haisos.Common.Dict.{Dict, lookup, insert, erase}

-- LLMIdentifier of interfaces/IEnvironment.h.
pub record LlmIdentifier : Type 0 where
  pub endpoint : Bytes
  pub model_name : Bytes
  pub api_token : Option Bytes
  pub secret_name : Option Bytes

pub record Environment : Type 0 where
  pub variables : Dict Bytes
  pub secrets : Dict Bytes
  pub llm_identifiers : Dict LlmIdentifier

module _ {V : Type 0} where
  -- NamesOf.
  unfoldable pub names_of : Dict V → List Bytes
  names_of [] = []
  names_of ((name, value) ∷ entries) = name ∷ names_of entries

  -- count(name) > 0.
  unfoldable pub has : Bytes → Dict V → Bool
  has name entries = elim (lookup name entries) [ none ↦ false | some value ↦ true ]

  -- emplace(name, value): the map after it, and its `second`.
  unfoldable pub emplace : Bytes → V → Dict V → Dict V × Bool
  emplace name value entries = elim (lookup name entries) [
    | none ↦ (insert name value entries, true)
    | some old ↦ (entries, false)
  ]

  -- erase(name) and whether it took one away.
  unfoldable pub take_out : Bytes → Dict V → Dict V × Bool
  take_out name entries = (erase name entries, has name entries)

-- CreateEnvironment.
abbrev pub create_environment : Environment
create_environment = record { variables = []; secrets = []; llm_identifiers = [] }

-- Clone.
abbrev pub clone : Environment → Environment
clone e = record {
  variables = e.variables;
  secrets = e.secrets;
  llm_identifiers = e.llm_identifiers;
}

abbrev pub add_variable : Bytes → Bytes → Environment → Environment × Bool
add_variable name value e =
    let (m, added) = emplace name value e.variables in (record e { variables = m }, added)

abbrev pub set_variable : Bytes → Bytes → Environment → Environment
set_variable name value e = record e { variables = insert name value e.variables }

abbrev pub remove_variable : Bytes → Environment → Environment × Bool
remove_variable name e =
    let (m, removed) = take_out name e.variables in (record e { variables = m }, removed)

abbrev pub has_variable : Bytes → Environment → Bool
has_variable name e = has name e.variables

abbrev pub get_variable : Bytes → Environment → Option Bytes
get_variable name e = lookup name e.variables

abbrev pub get_variable_names : Environment → List Bytes
get_variable_names e = names_of e.variables

abbrev pub add_secret : Bytes → Bytes → Environment → Environment × Bool
add_secret name value e =
    let (m, added) = emplace name value e.secrets in (record e { secrets = m }, added)

abbrev pub set_secret : Bytes → Bytes → Environment → Environment
set_secret name value e = record e { secrets = insert name value e.secrets }

abbrev pub remove_secret : Bytes → Environment → Environment × Bool
remove_secret name e =
    let (m, removed) = take_out name e.secrets in (record e { secrets = m }, removed)

abbrev pub has_secret : Bytes → Environment → Bool
has_secret name e = has name e.secrets

abbrev pub get_secret_names : Environment → List Bytes
get_secret_names e = names_of e.secrets

abbrev pub read_secret_value : Bytes → Environment → Option Bytes
read_secret_value name e = lookup name e.secrets

abbrev pub add_llm_identifier : Bytes → LlmIdentifier → Environment → Environment × Bool
add_llm_identifier name identifier e =
    let (m, added) = emplace name identifier e.llm_identifiers in
    (record e { llm_identifiers = m }, added)

abbrev pub set_llm_identifier : Bytes → LlmIdentifier → Environment → Environment
set_llm_identifier name identifier e = record e {
  llm_identifiers = insert name identifier e.llm_identifiers;
}

abbrev pub remove_llm_identifier : Bytes → Environment → Environment × Bool
remove_llm_identifier name e =
    let (m, removed) = take_out name e.llm_identifiers in
    (record e { llm_identifiers = m }, removed)

abbrev pub has_llm_identifier : Bytes → Environment → Bool
has_llm_identifier name e = has name e.llm_identifiers

abbrev pub get_llm_identifier : Bytes → Environment → Option LlmIdentifier
get_llm_identifier name e = lookup name e.llm_identifiers

abbrev pub get_llm_identifier_names : Environment → List Bytes
get_llm_identifier_names e = names_of e.llm_identifiers
