-- ===== src/Fs/Ram/Tests.antt =====
-- The tree that `ramfs_init` makes, and its search after another file.
use vaelen.Prelude.{◌==◌, ◌+◌, ◌*◌, ◌≡◌, refl, [], ◌∷◌, arith, if◌then◌else◌}
use vaelen.Prelude.Text.{bytes, equal}
use vaelen.Mm.Heap.{null}
use vaelen.Fs.Ram.{Ram, root_file, init, find, find_child, create, create_all, new_file}
use vaelen.Fs.Ram.Find.{or_else, find-create}

abbrev no_files : Ram
no_files = record { ramfs_root = null; files = λ p. root_file }

find-home : find 4096 (bytes "home") (init (λ n. 4096 + n * 1000) no_files) ≡ 7096
unfolding find find_child init create_all create new_file
find-home = refl

-- A directory with one file.
abbrev one_file : Ram
one_file = record {
  ramfs_root = 4096;
  files = λ p.
      if p == 4096
      then record root_file { children = 5096 ∷ [] }
      else record root_file { name = bytes "bin" };
}

find-create_example :
    ((create 6096 7096 4096 (bytes "etc") 1 one_file).0 ≡ 6096)
    × (find 4096 (bytes "bin") (create 6096 7096 4096 (bytes "etc") 1 one_file).1
        ≡ or_else
            (find 4096 (bytes "bin") one_file)
            (if equal (bytes "etc") (bytes "bin") then 6096 else null))
find-create_example =
    find-create 6096 7096 4096 (bytes "etc") (bytes "bin") 1 one_file (omega arith) (omega arith)
      (omega arith) ((omega arith, omega arith, omega arith), tt)
