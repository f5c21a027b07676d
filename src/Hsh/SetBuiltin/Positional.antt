-- ===== src/Hsh/SetBuiltin/Positional.antt =====
-- set ends as its arguments are read, with the positional parameters that they set:
-- src/components/BuiltinCommands/commands/hsh/HshBuiltinSet.cpp.
use haisos.Common.{
  ℕ, zero, suc, ◌<◌, ◌≤◌, Bool, true, false, false≢true, ◌≡◌, ◌≢◌, refl, sym, ◌∙◌, inl, inr, Option,
  none, some, List, [], ◌∷◌, ◌++◌, ◌==◌, ==_iff, arith, Bytes, codes, length, if_cases,
  Option-cases, if◌then◌else◌,
}
use haisos.Common.Dict.{Dict}
use haisos.Hsh.Variables.{Variable}
use haisos.Hsh.Options.{ShellOptionInfo, find_shell_option, find_named_option}
use haisos.Hsh.SetBuiltin.{
  SetState, SetOutcome, finished, failed, out_of_fuel, SetArgument, classify_set_argument, operand,
  lone_dash, double_dash, cluster, set_option, set_named, letters_loop, set_round, set_loop,
  builtin_set, print_option_settings, print_option_recreation,
}
use haisos.Hsh.SetBuiltin.Reading.{
  Cluster, Reads, no_letter, letter, lists, named, Stops, unknown_letter, unknown_name,
  behind_letter, behind_list, behind_name, only_options, operands, dash_alone, behind_dash,
  behind_dashes, behind_options, here, later, Told, Found, classify_set_argument-Found,
}

-- An option that was looked up is not there, and set fails, or it is and the loop goes on.
set_option-cases :
    (P : SetOutcome → Type 0)
    → (on : Bool) → (spelling reported : Bytes) → (found : Option ShellOptionInfo)
    → (state : SetState) → (next : SetState → SetOutcome)
    → (found ≡ none → P (failed (codes "set: Illegal option " ++ spelling) state))
    → ((info : ShellOptionInfo)
        → (after : SetState) → found ≡ some info
        → after.positional ≡ state.positional
        → P (next after))
    → P (set_option on spelling reported found state next)
unfolding set_option
set_option-cases P on spelling reported none state next stop go = stop refl
set_option-cases P on spelling reported (some info) state next stop go =
    elim (Option-cases info.field) [
      | inl e ↦ rw e (go info _ refl refl)
      | inr (field, e) ↦ rw e (go info _ refl refl)
    ]

-- The letters of an argument stop at an option that there is not, or are all read.
letters_loop-cases :
    (P : SetOutcome → Type 0)
    → (on : Bool) → (letters : Bytes) → (rest : List Bytes) → (state : SetState)
    → (next : List Bytes → SetState → SetOutcome)
    → ((spelling : Bytes)
        → (after : SetState) → Stops on letters rest spelling
        → after.positional ≡ state.positional
        → P (failed (codes "set: Illegal option " ++ spelling) after))
    → ((left : List Bytes)
        → (after : SetState) → Reads letters rest left
        → after.positional ≡ state.positional
        → P (next left after))
    → P (letters_loop on letters rest state next)
unfolding letters_loop set_named print_option_settings print_option_recreation
letters_loop-cases P on [] rest state next stop go = go rest state no_letter refl
letters_loop-cases P on (c ∷ letters) [] state next stop go =
    if_cases P (c == b'o') _ _
      (λ e.
        let is_o = (==_iff c b'o').0 e in
        letters_loop-cases P on letters [] _ next
          (λ spelling after s k. stop spelling after (behind_list is_o s) (k ∙ listed on))
          (λ left after r k. go left after (lists is_o r) (k ∙ listed on)))
      (λ e.
        let not_o = unlike e in
        set_option-cases P on _ _ (find_shell_option c) state _
          (λ h. stop _ state (unknown_letter not_o h) refl)
          (λ info between h j.
            letters_loop-cases P on letters [] between next
              (λ spelling after s k. stop spelling after (behind_letter not_o h s) (k ∙ j))
              (λ left after r k. go left after (letter not_o h r) (k ∙ j))))
  where
    unlike : c == b'o' ≡ false → c ≢ b'o'
    unlike e k = false≢true (sym e ∙ (==_iff c b'o').1 k)

    listed :
        (on : Bool)
        → (if on then print_option_settings state else print_option_recreation state).positional
          ≡ state.positional
    listed true = refl
    listed false = refl
letters_loop-cases P on (c ∷ letters) (name ∷ rest) state next stop go =
    if_cases P (c == b'o') _ _
      (λ e.
        let is_o = (==_iff c b'o').0 e in
        set_option-cases P on _ _ (find_named_option name) state _
          (λ h. stop _ state (unknown_name is_o h) refl)
          (λ info between h j.
            letters_loop-cases P on letters rest between next
              (λ spelling after s k. stop spelling after (behind_name is_o h s) (k ∙ j))
              (λ left after r k. go left after (named is_o h r) (k ∙ j))))
      (λ e.
        let not_o = unlike e in
        set_option-cases P on _ _ (find_shell_option c) state _
          (λ h. stop _ state (unknown_letter not_o h) refl)
          (λ info between h j.
            letters_loop-cases P on letters (name ∷ rest) between next
              (λ spelling after s k. stop spelling after (behind_letter not_o h s) (k ∙ j))
              (λ left after r k. go left after (letter not_o h r) (k ∙ j))))
  where
    unlike : c == b'o' ≡ false → c ≢ b'o'
    unlike e k = false≢true (sym e ∙ (==_iff c b'o').1 k)

-- The names that letters take are of the arguments behind them.
Reads-shorter :
    {letters : Bytes}
    → {rest left : List Bytes} → Reads letters rest left
    → length left ≤ length rest
Reads-shorter no_letter = omega arith
Reads-shorter (letter _ _ r) = Reads-shorter r
Reads-shorter (lists _ r) = Reads-shorter r
Reads-shorter (named _ _ r) = let k = Reads-shorter r in omega arith

-- An end that the arguments left behind options tell of is one that all the arguments tell of.
Told-behind :
    {on : Bool}
    → {letters arg : Bytes} → {rest left : List Bytes} → (kept : List Bytes)
    → Cluster on letters arg
    → Reads letters rest left
    → (outcome : SetOutcome) → Told kept left outcome
    → Told kept (arg ∷ rest) outcome
Told-behind kept c r (finished after) t = behind_options c r t
Told-behind kept c r (failed message after) (k, (spelling, refused, m)) =
    (k, (spelling, later c r refused, m))
Told-behind kept c r out_of_fuel t = t

-- A round tells of its arguments, when what goes on behind it tells of no more than are behind it.
set_round-Told :
    (arg : Bytes)
    → (rest : List Bytes) → (state : SetState) → (next : List Bytes → SetState → SetOutcome)
    → ((left : List Bytes)
        → (after : SetState) → length left ≤ length rest
        → Told after.positional left (next left after))
    → (argument : SetArgument) → Found arg argument
    → Told state.positional (arg ∷ rest) (set_round argument arg rest state next)
unfolding set_round
set_round-Told arg rest state next go operand found = operands found
set_round-Told arg [] state next go lone_dash found = dash_alone found
set_round-Told arg (_ ∷ _) state next go lone_dash found = behind_dash found
set_round-Told arg [] state next go double_dash found = behind_dashes found
set_round-Told arg (_ ∷ _) state next go double_dash found = behind_dashes found
set_round-Told arg rest state next go (cluster on letters) found =
    letters_loop-cases (Told state.positional (arg ∷ rest)) on letters rest state next
      (λ spelling after s k. (k, (spelling, here found s, refl)))
      (λ left after r k. Told-behind _ found r _ (rw (sym k) (go left after (Reads-shorter r))))

set_loop-Told :
    (f : ℕ)
    → (args : List Bytes) → (state : SetState) → length args < f
    → Told state.positional args (set_loop f args state)
unfolding set_loop
set_loop-Told zero args state below = absurd (omega arith)
set_loop-Told (suc f) [] state below = only_options
set_loop-Told (suc f) (arg ∷ rest) state below =
    set_round-Told arg rest state (set_loop f)
      (λ left after short. set_loop-Told f left after (omega arith)) (classify_set_argument arg)
      (classify_set_argument-Found arg)

-- set ends, for any arguments, and the end tells of them. Where it succeeds, the positional parameters
-- are set as SetTo reads the arguments: they stay without arguments, behind options only, and at a lone
-- "-" that is the last; they become the operands, from the first that does not start with a sign or
-- from the one behind a "-"; and they become all that is behind a "--", also where that is nothing. In
-- front stand only options: signs with letters that each name one, and the names that the letter o
-- takes. Where it fails, there is an option in front of the operands that there is not, the message
-- spells it, and the parameters are as before.
pub builtin_set-Told :
    (variables : Dict Variable)
    → (args : List Bytes) → (state : SetState)
    → Told state.positional args (builtin_set variables args state)
unfolding builtin_set
builtin_set-Told variables [] state = only_options
builtin_set-Told variables (arg ∷ rest) state =
    set_loop-Told (suc (length (arg ∷ rest))) (arg ∷ rest) state (omega arith)
