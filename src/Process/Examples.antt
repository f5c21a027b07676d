-- ===== src/Process/Examples.antt =====
-- Runs of src/components/HaisosOS/ProcessFileIO.cpp, with a number for each open file, and the theorems at concrete
-- tables.
use haisos.Common.{ℕ, ◌≡◌, ◌≢◌, refl, [], ◌∷◌, none, some, arith}
use haisos.Hsh.Number.{pos}
use haisos.Process.{
  Table, slot, next_hole, next_free_slot, add_locked, add_descriptor, dup2, close_descriptor,
  install_standard_streams, create_pipe_slots,
}
use haisos.Process.Descriptors.{Placed, add_descriptor-Placed, dup2-Copies}
use haisos.Process.Reach.{start, installs, closes, copies, Bounded, Reach-Bounded}

-- Standard input is closed.
abbrev two_open : Table ℕ
two_open = none ∷ some 11 ∷ some 12 ∷ []

lowest_first : add_descriptor (some 7) two_open ≡ (some 0, some 7 ∷ some 11 ∷ some 12 ∷ [])
unfolding add_descriptor add_locked next_free_slot next_hole
lowest_first = refl

read_end_first :
    create_pipe_slots (some (5, 6)) two_open
    ≡ (some (0, 3), some 5 ∷ some 11 ∷ some 12 ∷ some 6 ∷ [])
unfolding create_pipe_slots add_locked next_free_slot next_hole
read_end_first = refl

add_descriptor-Placed_example : Placed 7 two_open (add_descriptor (some 7) two_open)
add_descriptor-Placed_example = add_descriptor-Placed 7 two_open

dup2-Copies_example :
    ((dup2 (pos 1) (pos 5) two_open).0 ≡ some 5)
    × (slot 5 (dup2 (pos 1) (pos 5) two_open).1 ≡ some 11)
    × ((m : ℕ) → m ≢ 5 → slot m (dup2 (pos 1) (pos 5) two_open).1 ≡ slot m two_open)
dup2-Copies_example = dup2-Copies 1 5 11 two_open refl (omega arith)

Reach-Bounded_example :
    Bounded {D = ℕ}
      (close_descriptor
        (pos 1)
        (dup2 (pos 0) (pos 900) (install_standard_streams 10 11 12 []).1).1).1
Reach-Bounded_example =
    Reach-Bounded
      (close_descriptor (pos 1)
        (dup2 (pos 0) (pos 900) (install_standard_streams 10 11 12 []).1).1).1
      (closes (copies (installs start 10 11 12) (pos 0) (pos 900)) (pos 1))
