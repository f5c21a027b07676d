-- ===== src/Hsh/SetBuiltin/Reading.antt =====
-- How the arguments of set are read, apart from the loops of the builtin:
-- src/components/BuiltinCommands/commands/hsh/HshBuiltinSet.cpp.
use haisos.Common.{
  ℕ, Bool, true, false, false≢true, not, ◌≡◌, ◌≢◌, refl, sym, ◌∙◌, inl, inr, none, some, List, [],
  ◌∷◌, ◌++◌, ◌==◌, ==_iff, arith, Bytes, codes, bytes_eq, bytes_eq_iff, if_cases, Bool-cases,
}
use haisos.Hsh.Options.{ShellOptionInfo, find_shell_option, find_named_option}
use haisos.Hsh.SetBuiltin.{
  SetOutcome, finished, failed, out_of_fuel, SetArgument, classify_set_argument, operand, lone_dash,
  double_dash, cluster, set_sign,
}

-- An argument that starts with neither sign, and one that is a sign and letters.
abbrev pub Operand : Bytes → Type 0
Operand arg = ((s : Bytes) → arg ≢ b'-' ∷ s) × ((s : Bytes) → arg ≢ b'+' ∷ s)

pub data Cluster : Bool → Bytes → Bytes → Type 0 where
  turns_on :
      {letters arg : Bytes}
      → arg ≡ b'-' ∷ letters
      → letters ≢ []
      → letters ≢ codes "-"
      → Cluster true letters arg
  turns_off : {letters arg : Bytes} → arg ≡ b'+' ∷ letters → Cluster false letters arg

-- The letters of an argument are all options, with the names that the letter o takes from the
-- arguments behind it; the last index has what is left of these.
pub data Reads : Bytes → List Bytes → List Bytes → Type 0 where
  no_letter : {rest : List Bytes} → Reads [] rest rest
  letter :
      {c : ℕ} {letters : Bytes} {rest left : List Bytes} {info : ShellOptionInfo}
      → c ≢ b'o'
      → find_shell_option c ≡ some info
      → Reads letters rest left
      → Reads (c ∷ letters) rest left
  lists :
      {c : ℕ} {letters : Bytes} {left : List Bytes}
      → c ≡ b'o'
      → Reads letters [] left
      → Reads (c ∷ letters) [] left
  named :
      {c : ℕ} {name letters : Bytes} {rest left : List Bytes} {info : ShellOptionInfo}
      → c ≡ b'o'
      → find_named_option name ≡ some info
      → Reads letters rest left
      → Reads (c ∷ letters) (name ∷ rest) left

-- Behind letters that are options stands one that is not, or a name that is not, which is spelled so.
pub data Stops (on : Bool) : Bytes → List Bytes → Bytes → Type 0 where
  unknown_letter :
      {c : ℕ} {letters : Bytes} {rest : List Bytes}
      → c ≢ b'o'
      → find_shell_option c ≡ none
      → Stops on (c ∷ letters) rest (set_sign on ++ (c ∷ []))
  unknown_name :
      {c : ℕ} {name letters : Bytes} {rest : List Bytes}
      → c ≡ b'o'
      → find_named_option name ≡ none
      → Stops on (c ∷ letters) (name ∷ rest) (codes "-o " ++ name)
  behind_letter :
      {c : ℕ} {letters spelling : Bytes} {rest : List Bytes} {info : ShellOptionInfo}
      → c ≢ b'o'
      → find_shell_option c ≡ some info
      → Stops on letters rest spelling
      → Stops on (c ∷ letters) rest spelling
  behind_list :
      {c : ℕ} {letters spelling : Bytes}
      → c ≡ b'o'
      → Stops on letters [] spelling
      → Stops on (c ∷ letters) [] spelling
  behind_name :
      {c : ℕ} {name letters spelling : Bytes} {rest : List Bytes} {info : ShellOptionInfo}
      → c ≡ b'o'
      → find_named_option name ≡ some info
      → Stops on letters rest spelling
      → Stops on (c ∷ letters) (name ∷ rest) spelling

-- What the positional parameters are set to by a list of arguments, from what they were.
pub data SetTo (kept : List Bytes) : List Bytes → List Bytes → Type 0 where
  only_options : SetTo kept [] kept
  operands : {arg : Bytes} {rest : List Bytes} → Operand arg → SetTo kept (arg ∷ rest) (arg ∷ rest)
  dash_alone : {dash : Bytes} → dash ≡ codes "-" → SetTo kept (dash ∷ []) kept
  behind_dash :
      {dash arg : Bytes} {rest : List Bytes}
      → dash ≡ codes "-"
      → SetTo kept (dash ∷ arg ∷ rest) (arg ∷ rest)
  behind_dashes :
      {dashes : Bytes} {rest : List Bytes} → dashes ≡ codes "--" → SetTo kept (dashes ∷ rest) rest
  behind_options :
      {on : Bool} {letters arg : Bytes} {rest left positional : List Bytes}
      → Cluster on letters arg
      → Reads letters rest left
      → SetTo kept left positional
      → SetTo kept (arg ∷ rest) positional

-- The arguments have an option that there is not, in front of the operands.
pub data Refuses : List Bytes → Bytes → Type 0 where
  here :
      {on : Bool} {letters arg spelling : Bytes} {rest : List Bytes}
      → Cluster on letters arg
      → Stops on letters rest spelling
      → Refuses (arg ∷ rest) spelling
  later :
      {on : Bool} {letters arg spelling : Bytes} {rest left : List Bytes}
      → Cluster on letters arg
      → Reads letters rest left
      → Refuses left spelling
      → Refuses (arg ∷ rest) spelling

-- What an end of the builtin says of its arguments.
abbrev pub Told : List Bytes → List Bytes → SetOutcome → Type 0
Told kept args (finished after) = SetTo kept args after.positional
Told kept args (failed message after) =
    (after.positional ≡ kept)
    × ((spelling : Bytes) × Refuses args spelling
        × (message ≡ codes "set: Illegal option " ++ spelling))
Told kept args out_of_fuel = ⊥

-- What the tests at the head of the loop find.
abbrev pub Found : Bytes → SetArgument → Type 0
Found arg operand = Operand arg
Found arg lone_dash = arg ≡ codes "-"
Found arg double_dash = arg ≡ codes "--"
Found arg (cluster on letters) = Cluster on letters arg

pub classify_set_argument-Found : (arg : Bytes) → Found arg (classify_set_argument arg)
unfolding classify_set_argument
classify_set_argument-Found [] = ((λ s e. cc), (λ s e. cc))
classify_set_argument-Found (c ∷ s) = elim (Bool-cases (c == b'-')) [
  | inl e ↦
      let f = (==_iff c b'-').0 e in
      rw e (
        if_cases (Found (c ∷ s)) (bytes_eq (c ∷ s) (codes "-")) _ _
          (λ h. (bytes_eq_iff (c ∷ s) (codes "-")).0 h)
          (λ one.
            if_cases (Found (c ∷ s)) (bytes_eq (c ∷ s) (codes "--")) _ _
              (λ h. (bytes_eq_iff (c ∷ s) (codes "--")).0 h)
              (λ two.
                turns_on (rw f refl) (λ k. other (codes "-") one (rw (f, k) refl))
                  (λ k. other (codes "--") two (rw (f, k) refl)))))
  | inr e ↦ rw e (
      if_cases (Found (c ∷ s)) (not (c == b'+')) _ _
        (λ h. ((λ t k. ground arith), (λ t k. ground arith))) (λ h. turns_off (ground arith)))
]
  where
    other : (t : Bytes) → bytes_eq (c ∷ s) t ≡ false → c ∷ s ≢ t
    other t h k = false≢true (sym h ∙ (bytes_eq_iff (c ∷ s) t).1 k)
