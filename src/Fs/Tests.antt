-- ===== src/Fs/Tests.antt =====
-- The theorems on descriptors at concrete tables, and the nodes that `fs_init` leaves.
use vaelen.Prelude.{◌+◌, ◌*◌, ◌≡◌, ◌≢◌, refl, none, [], length, arith, if◌then◌else◌, ◌==◌}
use vaelen.Prelude.Int.{pos}
use vaelen.Fs.{Files, Memory, init, open_path, traverse}
use vaelen.Fs.Descriptors.{Opened, opened_entry, open_path-Opened}

abbrev before : Files
before = record { fs_root_node = 0; fd_table = []; mount_points = []; nodes = λ p. none }

-- The file system after `fs_init`, with allocations 400 bytes apart.
abbrev booted : Files
unfolding init
booted = init (λ i. 4096 + i * 400) before

-- The strings "/" at 100 and "/etc" at 200.
abbrev paths : Memory
paths p =
    if p == 100
    then 47
    else if p == 200
    then 47
    else if p == 201
    then 101
    else if p == 202
    then 116
    else if p == 203
    then 99
    else 0

length-booted : length booted.fd_table ≡ 256
unfolding booted
length-booted = refl

open_path-Opened_example :
    Opened (opened_entry paths 100 1 booted) booted (open_path paths 100 1 booted)
open_path-Opened_example = open_path-Opened paths 100 1 booted

open_path-root : (open_path paths 100 1 booted).0 ≡ pos 0
unfolding open_path booted
open_path-root = refl

traverse-root : traverse paths 100 booted ≢ 0
unfolding traverse booted
traverse-root = omega arith
