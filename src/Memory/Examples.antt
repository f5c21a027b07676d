-- ===== src/Memory/Examples.antt =====
-- Runs of src/components/Filesystem/InMemoryFileSystem.cpp, and the theorems at concrete calls.
use haisos.Common.{
  ◌+◌, ◌≤◌, ◌-◌, true, false, [], ◌∷◌, ◌++◌, ◌≡◌, refl, some, codes, bytes_eq, bytes_compare,
  starts_with, arith, length,
}
use haisos.Common.Dict.{Dict, lookup, insert}
use haisos.Interfaces.{count, FileDateTime, DirectoryEntryType}
use haisos.Path.{normalize, parent_of, last_segment}
use haisos.Memory.{
  Node, Clock, OpenFlags, create_fs, open_file, read_at, write_at, create_directory,
  remove_directory, read_directory, is_directory_at, touch_directory, failed, put_at, size_max,
}
use haisos.Memory.Tree.{IsTree}
use haisos.Memory.Calls.{start, call, creates_directory, opens, after, Reach-IsTree}
use haisos.Memory.Content.{read_at-write_at, write_at-appends}

abbrev noon : FileDateTime
noon = record { seconds = 43200; nanoseconds = 0 }

abbrev ticks : Clock
ticks k = record noon { nanoseconds = k }

abbrev appending : OpenFlags
appending = record {
  write_only = true;
  read_write = false;
  creates = true;
  truncates = false;
  appends = true;
}

-- A filesystem with "/tmp" and "/tmp/log" in it.
abbrev with_tmp : Dict Node
with_tmp = after (creates_directory (codes "tmp")) ticks (create_fs noon)

abbrev with_log : Dict Node
with_log = after (opens (codes "/tmp/log") appending) ticks with_tmp

create_twice : (create_directory (codes "/tmp") ticks with_tmp).0 ≡ failed
unfolding create_directory normalize lookup bytes_eq bytes_compare insert touch_directory
    is_directory_at parent_of
create_twice = refl

remove_full : (remove_directory (codes "/tmp") ticks with_log).0 ≡ failed
unfolding remove_directory create_directory open_file normalize lookup bytes_eq bytes_compare
    starts_with insert touch_directory is_directory_at parent_of
remove_full = refl

list_tmp :
    read_directory (codes "/tmp/.") with_log
    ≡ record { name = codes "log"; kind = DirectoryEntryType.file } ∷ []
unfolding read_directory create_directory open_file normalize lookup bytes_eq bytes_compare insert
    touch_directory is_directory_at parent_of last_segment
list_tmp = refl

abbrev plain_file : Node
plain_file = record {
  is_directory = false;
  data_bytes = codes "one ";
  access_time = noon;
  modification_time = noon;
  change_time = noon;
}

abbrev one_file : Dict Node
one_file = (codes "/log", plain_file) ∷ create_fs noon

one_file_found : lookup (codes "/log") one_file ≡ some plain_file
unfolding lookup bytes_eq
one_file_found = refl

write_hole :
    (read_at
      (codes "/log")
      0
      9
      ticks
      (write_at (codes "/log") 6 false (codes "x") ticks one_file).2).1
    ≡ codes "one " ++ 0 ∷ 0 ∷ codes "x"
unfolding read_at write_at lookup insert bytes_eq bytes_compare put_at size_max
write_hole = refl

Reach-IsTree_example : IsTree with_log
Reach-IsTree_example = Reach-IsTree noon (
    call (call start (creates_directory (codes "tmp")) ticks) (opens (codes "/tmp/log") appending)
      ticks)

short_enough : length plain_file.data_bytes + 9 ≤ size_max
unfolding size_max
short_enough = omega arith

read_at-write_at_example :
    (let written = write_at (codes "/log") 2 false (codes "two three") ticks one_file in
      let got = read_at (codes "/log") (written.1 - 9) 9 ticks written.2 in
      (written.0 ≡ count 9) × (got.0 ≡ count 9) × (got.1 ≡ codes "two three") × (got.2 ≡ written.1))
read_at-write_at_example =
    read_at-write_at (codes "/log") 2 false (codes "two three") ticks ticks one_file plain_file
      one_file_found (unfold size_max in omega arith)

write_at-appends_example :
    (let second =
        write_at
          (codes "/log")
          1
          true
          (codes "three")
          ticks
          (write_at (codes "/log") 0 true (codes "two ") ticks one_file).2 in
      (last : Node) × (lookup (codes "/log") second.2 ≡ some last)
      × (last.data_bytes ≡ codes "one two three"))
write_at-appends_example =
    write_at-appends (codes "/log") 0 1 (codes "two ") (codes "three") ticks ticks one_file
      plain_file one_file_found short_enough
