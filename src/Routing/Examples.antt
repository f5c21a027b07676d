-- ===== src/Routing/Examples.antt =====
-- Paths and calls through the filesystems of src/components/Filesystem, and the theorems at concrete ones.
use haisos.Common.{true, false, ◌≡◌, refl, [], ◌∷◌, none, some, codes, bytes_eq, List}
use haisos.Common.Dict.{lookup}
use haisos.Interfaces.{DirectoryEntry, FileDateTime, file, dir}
use haisos.Path.{root, normalize, relative_to_base}
use haisos.Memory.{Clock}
use haisos.Routing.{FileSystem, resolve_in_root, read_only_filesystem, in_memory, absolute_path_for}
use haisos.Routing.Mountable
use haisos.Routing.Mountable.{
  Mountable, mountable_filesystem, add_builtin_command, mount_filesystem,
}
use haisos.Routing.Wrapping.{resolve_in_root-below, resolve_in_root-nested}
use haisos.Routing.Untouched.{Inert, read_only_filesystem-Inert, in_memory-Keeps}
use haisos.Routing.Listing.{Listing, read_directory-Listing}
use haisos.Routing.Builtins.{Visible, add_builtin_command-Visible}

resolve_in_root-below_example :
    relative_to_base
      (normalize (codes "/srv/data") root)
      (resolve_in_root (normalize (codes "/srv/data") root) (codes "../../etc/passwd"))
    ≡ some (normalize (codes "../../etc/passwd") root)
resolve_in_root-below_example = resolve_in_root-below (codes "/srv/data") (codes "../../etc/passwd")

resolve_in_root-nested_example :
    resolve_in_root
      (normalize (codes "/srv") root)
      (resolve_in_root (normalize (codes "data") root) (codes "x/../y"))
    ≡ resolve_in_root
        (resolve_in_root (normalize (codes "/srv") root) (codes "data"))
        (codes "x/../y")
resolve_in_root-nested_example =
    resolve_in_root-nested (codes "/srv") (codes "data") (codes "x/../y")

abbrev noon : FileDateTime
noon = record { seconds = 43200; nanoseconds = 0 }

abbrev stopped_clock : Clock
stopped_clock = λ n. noon

abbrev with_ls : {W D : Type 0} → Mountable W D
with_ls = record {
  mounts = [];
  builtins = (codes "/bin/ls", record { name = codes "ls"; placed_time = noon }) ∷ [];
}

read_only_filesystem-Inert_example :
    Inert (mountable_filesystem (read_only_filesystem (in_memory stopped_clock)) with_ls)
read_only_filesystem-Inert_example =
    read_only_filesystem-Inert (in_memory stopped_clock) with_ls (in_memory-Keeps stopped_clock) tt

-- A filesystem that lists a file and "." wherever it is asked.
abbrev two_entries : List DirectoryEntry
two_entries =
    record { name = codes "a"; kind = file } ∷ record { name = codes "."; kind = dir } ∷ []

abbrev fixed : FileSystem Unit Unit
fixed = record {
  open_file = λ path flags mode w. (none, w);
  create_directory = λ path mode w. (false, w);
  remove_directory = λ path w. (false, w);
  remove_file = λ path w. (false, w);
  read_directory = λ path w. (two_entries, w);
  stat = λ path w. (none, w);
  is_builtin_command = λ path w. (none, w);
}

abbrev with_mount : Mountable Unit Unit
with_mount = record with_ls {
  mounts = record { path = codes "/bin"; filesystem = fixed; mounted_at = noon } ∷ [];
}

read_directory-Listing_example :
    Listing ((Mountable.read_directory fixed with_mount (codes "/bin") tt).0)
unfolding bytes_eq
read_directory-Listing_example =
    read_directory-Listing fixed with_mount (codes "/bin") tt (λ path w. (refl, (refl, tt)))
      ((λ path w. (refl, (refl, tt))), tt)

add_builtin_command-Visible_example :
    Visible
      (in_memory stopped_clock)
      (add_builtin_command true
        (codes "bin/ls")
        (codes "ls")
        noon
        (record { mounts = []; builtins = [] })).1
      (codes "bin/ls")
      (record { name = codes "ls"; placed_time = noon })
unfolding add_builtin_command bytes_eq absolute_path_for normalize lookup
add_builtin_command-Visible_example =
    add_builtin_command-Visible (in_memory stopped_clock) true (codes "bin/ls") (codes "ls") noon
      (record { mounts = []; builtins = [] }) refl
