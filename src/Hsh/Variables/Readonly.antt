-- ===== src/Hsh/Variables/Readonly.antt =====
-- What readonly promises in src/components/BuiltinCommands/commands/hsh/HshVariables.cpp.
use haisos.Common.{
  Bool, true, false, Option, some, ◌≡◌, refl, sym, ap, ◌∙◌, inl, inr, Bytes, bytes_eq, bytes_eq_iff,
  bytes_eq_self, false≢true, Bool-cases, Option-cases, if_cases,
}
use haisos.Common.Dict.{Dict, lookup, insert, erase, lookup-insert, lookup-erase}
use haisos.Hsh.Variables.{
  Variable, entry_at, or_fresh, get, set, unset, export_variable, make_readonly,
}

-- What a running shell does to its variables.
pub data Step : Dict Variable → Dict Variable → Type 0 where
  sets :
      (variables : Dict Variable) (name value : Bytes) → Step variables (set name value variables).0
  unsets : (variables : Dict Variable) (name : Bytes) → Step variables (unset name variables).0
  marks_exported :
      (variables : Dict Variable) (name : Bytes) → Step variables (export_variable name variables)
  marks_readonly :
      (variables : Dict Variable) (name : Bytes) → Step variables (make_readonly name variables)

pub data Steps (first : Dict Variable) : Dict Variable → Type 0 where
  here : Steps first first
  next : {second third : Dict Variable} → Steps first second → Step second third → Steps first third

-- A variable is read-only and has a value, or none.
pub record Fixed (name : Bytes) (value : Option Bytes) (variables : Dict Variable) : Type 0 where
  pub entry : Variable
  pub found : lookup name variables ≡ some entry
  pub read_only : entry.is_readonly ≡ true
  pub holds : entry.value ≡ value

-- The entry of a name, changed without its value and never back from read-only.
insert-Fixed :
    (name j : Bytes) (value : Option Bytes) (variables : Dict Variable) (after : Variable)
    → (f : Fixed name value variables)
    → (j ≡ name → (after.is_readonly ≡ true) × (after.value ≡ value))
    → Fixed name value (insert j after variables)
insert-Fixed name j value variables after f keeps = elim (Bool-cases (bytes_eq j name)) [
  | inl e ↦
      let (r, h) = keeps ((bytes_eq_iff j name).0 e) in
      record {
        entry = after;
        found = lookup-insert j name after variables ∙ rw e refl;
        read_only = r;
        holds = h;
      }
  | inr e ↦ record {
    entry = f.entry;
    found = lookup-insert j name after variables ∙ rw e f.found;
    read_only = f.read_only;
    holds = f.holds;
  }
]

entry_at-Fixed :
    (name j : Bytes) (value : Option Bytes) (variables : Dict Variable)
    → (f : Fixed name value variables) → j ≡ name
    → entry_at j variables ≡ f.entry
unfolding entry_at
entry_at-Fixed name j value variables f e =
    ap (λ k. or_fresh (lookup k variables)) e ∙ ap or_fresh f.found

set-Fixed :
    (name j new : Bytes) (value : Option Bytes) (variables : Dict Variable)
    → Fixed name value variables
    → Fixed name value (set j new variables).0
unfolding set
set-Fixed name j new value variables f =
    let entry = entry_at j variables in
    if_cases (λ (after : Dict Variable × Bool). Fixed name value after.0) entry.is_readonly
      (insert j entry variables, false)
      (insert j (record entry { value = some new }) variables, true)
      (λ r. insert-Fixed name j value variables entry f (λ e.
        let same = entry_at-Fixed name j value variables f e in
        (r, ap (λ (v : Variable). v.value) same ∙ f.holds)))
      (λ w.
        insert-Fixed name j value variables (record entry { value = some new }) f
          (λ e.
            let same = entry_at-Fixed name j value variables f e in
            absurd (false≢true (sym w ∙ ap (λ (v : Variable). v.is_readonly) same ∙ f.read_only))))

erase-Fixed :
    (name j : Bytes) (value : Option Bytes) (variables : Dict Variable)
    → Fixed name value variables
    → bytes_eq j name ≡ false
    → Fixed name value (erase j variables)
erase-Fixed name j value variables f apart = record {
  entry = f.entry;
  found = lookup-erase j name variables ∙ rw apart f.found;
  read_only = f.read_only;
  holds = f.holds;
}

unset-Fixed :
    (name j : Bytes) (value : Option Bytes) (variables : Dict Variable)
    → Fixed name value variables
    → Fixed name value (unset j variables).0
unfolding unset
unset-Fixed name j value variables f = elim (Option-cases (lookup j variables)) [
  | inl e ↦ rw (e, unset) f
  | inr (entry, e) ↦
      rw (e, unset)
        (elim (Bool-cases entry.is_readonly) [
          | inl r ↦ rw r f
          | inr w ↦ rw w (elim (Bool-cases (bytes_eq j name)) [
            | inl same ↦
                let there : some entry ≡ some f.entry =
                  sym e ∙ ap (λ k. lookup k variables) ((bytes_eq_iff j name).0 same) ∙ f.found in
                absurd (false≢true (sym w ∙ ap (λ o. (or_fresh o).is_readonly) there ∙ f.read_only))
            | inr apart ↦ erase-Fixed name j value variables f apart
          ])
        ])
]

Step-Fixed :
    (name : Bytes) (value : Option Bytes) {before after : Dict Variable}
    → Step before after
    → Fixed name value before
    → Fixed name value after
unfolding export_variable make_readonly
Step-Fixed name value (sets variables j new) f = set-Fixed name j new value variables f
Step-Fixed name value (unsets variables j) f = unset-Fixed name j value variables f
Step-Fixed name value (marks_exported variables j) f =
    insert-Fixed name j value variables (record (entry_at j variables) { exported = true }) f
      (λ e.
        let same = entry_at-Fixed name j value variables f e in
        (
          ap (λ (v : Variable). v.is_readonly) same ∙ f.read_only,
          ap (λ (v : Variable). v.value) same ∙ f.holds,
        ))
Step-Fixed name value (marks_readonly variables j) f =
    insert-Fixed name j value variables (record (entry_at j variables) { is_readonly = true }) f
      (λ e.
        let same = entry_at-Fixed name j value variables f e in
        (refl, ap (λ (v : Variable). v.value) same ∙ f.holds))

Steps-Fixed :
    (name : Bytes) (value : Option Bytes) {before after : Dict Variable}
    → Steps before after
    → Fixed name value before
    → Fixed name value after
Steps-Fixed name value here f = f
Steps-Fixed name value (next r s) f = Step-Fixed name value s (Steps-Fixed name value r f)

start-Fixed :
    (name : Bytes) (variables : Dict Variable)
    → Fixed name (get name variables) (make_readonly name variables)
unfolding make_readonly get entry_at
start-Fixed name variables =
    let entry = record (entry_at name variables) { is_readonly = true } in
    record {
      entry = entry;
      found = lookup-insert name name entry variables ∙ rw (bytes_eq_self name) refl;
      read_only = refl;
      holds = elim (Option-cases (lookup name variables)) [
        | inl e ↦ rw (e, get) refl
        | inr (old, e) ↦ rw (e, get) refl
      ];
    }

-- A name that is marked read-only keeps the value it has, or stays without one, whatever is set, unset,
-- exported or marked later, and a Set and an Unset of it fail.
pub make_readonly-Steps :
    (name new : Bytes) (variables : Dict Variable) {later : Dict Variable}
    → Steps (make_readonly name variables) later
    → (get name later ≡ get name variables)
      × ((set name new later).1 ≡ false)
      × ((unset name later).1 ≡ false)
unfolding get set unset entry_at
make_readonly-Steps name new variables {later} steps =
    let f = Steps-Fixed name (get name variables) steps (start-Fixed name variables) in
    (
      rw (f.found, get) f.holds,
      rw (f.found, f.read_only) refl,
      rw (f.found, unset) (rw f.read_only refl),
    )
