-- ===== src/Fs.antt =====
-- fs/vfs.c and include/fs.h: nodes, the table of open files and the list of mounts.
pub mod Descriptors
pub mod Ram
mod Tests
use vaelen.Prelude.{
  ℕ, zero, suc, ◌+◌, ◌-◌, ◌*◌, ◌^◌, ◌%◌, Bool, true, false, ◌&&◌, ◌||◌, not, Option, none, some,
  List, [], ◌∷◌, ◌==◌, ltb, leb, if◌then◌else◌, length, get_or, get_elem?, set, replicate, update,
}
use vaelen.Prelude.Int.{ℤ, pos, negsuc}
use vaelen.Mm.Heap.{Ptr, null}

-- `fs_node_t`; the six function pointers are addresses too.
pub record Node : Type 0 where
  pub name : List ℕ
  pub mask : ℕ
  pub uid : ℕ
  pub gid : ℕ
  pub flags : ℕ
  pub inode : ℕ
  pub length : ℕ
  pub impl : ℕ
  pub read : Ptr
  pub write : Ptr
  pub open_node : Ptr
  pub close_node : Ptr
  pub readdir : Ptr
  pub finddir : Ptr
  pub ptr : Ptr

-- `fd_entry_t`
pub record FdEntry : Type 0 where
  pub node : Ptr
  pub offset : ℕ
  pub flags : ℕ

-- `fs_mount_t`; `next` is the place in the list. `mountpoint` is the bytes that are written.
pub record Mount : Type 0 where
  pub mountpoint : List ℕ
  pub root : Ptr

-- The static variables of vfs.c, and the nodes behind the pointers.
pub record Files : Type 0 where
  pub fs_root_node : Ptr
  pub fd_table : List FdEntry
  pub mount_points : List Mount
  pub nodes : Ptr → Option Node

-- The bytes of memory, where paths and names are read.
abbrev pub Memory : Type 0
Memory = ℕ → ℕ

abbrev pub fs_directory : ℕ
fs_directory = 2

abbrev pub fs_name_max : ℕ
fs_name_max = 256

abbrev pub fs_path_max : ℕ
fs_path_max = 1024

abbrev pub fs_max_fds : ℕ
fs_max_fds = 256

-- `strncpy` of a string: `n` bytes, the string cut or filled up with zeros.
unfoldable pub copy_string : ℕ → List ℕ → List ℕ
copy_string zero string = []
copy_string (suc n) [] = 0 ∷ copy_string n []
copy_string (suc n) (c ∷ cs) = c ∷ copy_string n cs

-- `fs_create_node`, for the address that `kmalloc` returned.
unfoldable pub create_node : Ptr → List ℕ → ℕ → ℕ → ℕ → ℕ → Ptr → Files → Files
unfolding copy_string
create_node address name type mask uid gid parent s = record s {
  nodes = update s.nodes address (
      some record {
        name = copy_string (fs_name_max - 1) name;
        mask = mask;
        uid = uid;
        gid = gid;
        flags = type;
        inode = address % 2 ^ 32;
        length = 0;
        impl = 0;
        read = null;
        write = null;
        open_node = null;
        close_node = null;
        readdir = null;
        finddir = null;
        ptr = parent;
      });
}

abbrev pub free_entry : FdEntry
free_entry = record { node = null; offset = 0; flags = 0 }

-- The names and masks of the directories that `fs_init` creates below the root.
abbrev pub directories : List (List ℕ × ℕ)
directories =
    (98 ∷ 105 ∷ 110 ∷ [], 493)
    ∷ (101 ∷ 116 ∷ 99 ∷ [], 493)
    ∷ (104 ∷ 111 ∷ 109 ∷ 101 ∷ [], 493)
    ∷ (116 ∷ 109 ∷ 112 ∷ [], 511)
    ∷ (117 ∷ 115 ∷ 114 ∷ [], 493)
    ∷ (118 ∷ 97 ∷ 114 ∷ [], 493)
    ∷ (100 ∷ 101 ∷ 118 ∷ [], 493)
    ∷ (112 ∷ 114 ∷ 111 ∷ 99 ∷ [], 365)
    ∷ (108 ∷ 105 ∷ 98 ∷ [], 493)
    ∷ (111 ∷ 112 ∷ 116 ∷ [], 493)
    ∷ (115 ∷ 98 ∷ 105 ∷ 110 ∷ [], 493)
    ∷ (115 ∷ 121 ∷ 115 ∷ [], 493)
    ∷ (109 ∷ 110 ∷ 116 ∷ [], 493)
    ∷ (114 ∷ 111 ∷ 111 ∷ 116 ∷ [], 448)
    ∷ (98 ∷ 111 ∷ 111 ∷ 116 ∷ [], 493)
    ∷ []

-- The calls of `fs_create_node` for them; allocation number `i` returns `address i`.
unfoldable pub create_directories : (ℕ → Ptr) → ℕ → List (List ℕ × ℕ) → Files → Files
unfolding create_node
create_directories address i [] s = s
create_directories address i ((name, mask) ∷ rest) s =
    create_directories address (i + 1) rest
      (create_node (address i) name fs_directory mask 0 0 s.fs_root_node s)

-- `fs_init`
unfoldable pub init : (ℕ → Ptr) → Files → Files
unfolding create_node create_directories
init address s =
    let cleared = record s { fd_table = replicate fs_max_fds free_entry } in
    let rooted = create_node (address 0) [] fs_directory 493 0 0 null cleared in
    create_directories address 1 directories
      (record rooted { fs_root_node = address 0; mount_points = [] })

-- `fs_root`
abbrev pub get_root : Files → Ptr
get_root s = s.fs_root_node

-- `fs_find_in_dir`
abbrev pub find_in_dir : Ptr → Ptr → Ptr
find_in_dir dir name = null

-- `fs_traverse` of the string at `path`.
unfoldable pub traverse : Memory → Ptr → Files → Ptr
traverse m path s =
    if path == null || m path == 0
    then s.fs_root_node
    else if m path == 47 && m (path + 1) == 0
    then s.fs_root_node
    else null

abbrev pub keep_entry : FdEntry → Option (ℕ × List FdEntry) → Option (ℕ × List FdEntry)
keep_entry e none = none
keep_entry e (some (j, es)) = some (j, e ∷ es)

-- The loop of `fs_open` from descriptor `i` on: the descriptor and the entries after the call, none
-- for the source's -1.
unfoldable pub open_from : FdEntry → ℕ → List FdEntry → Option (ℕ × List FdEntry)
open_from new i [] = none
open_from new i (e ∷ es) =
    let rest = open_from new (i + 1) es in
    if e.node == null then some (i, new ∷ es) else keep_entry e rest

abbrev pub after : Files → Option (ℕ × List FdEntry) → ℤ × Files
after s none = (negsuc 0, s)
after s (some (i, es)) = (pos i, record s { fd_table = es })

-- `fs_open`
unfoldable pub open_path : Memory → Ptr → ℕ → Files → ℤ × Files
unfolding traverse open_from
open_path m path flags s =
    after s
      (open_from (record { node = traverse m path s; offset = 0; flags = flags }) 0 s.fd_table)

-- `fd < 0 || fd >= FS_MAX_FDS`, then `!fd_table[fd].node`.
unfoldable pub is_open : ℤ → Files → Bool
is_open (negsuc n) s = false
is_open (pos fd) s = ltb fd fs_max_fds && not ((get_or s.fd_table fd free_entry).node == null)

abbrev pub free_at : ℤ → Files → Files
free_at (negsuc n) s = s
free_at (pos fd) s = record s {
  fd_table = set s.fd_table fd (record (get_or s.fd_table fd free_entry) { node = null });
}

-- `fs_close`
unfoldable pub close : ℤ → Files → ℤ × Files
unfolding is_open
close fd s = if is_open fd s then (pos 0, free_at fd s) else (negsuc 0, s)

-- `fs_read` and `fs_write`: nothing is transferred.
unfoldable pub read : ℤ → ℕ → ℕ → Ptr → Files → ℕ
unfolding is_open
read fd offset size buffer s = if not (is_open fd s) then 0 else 0

unfoldable pub write : ℤ → ℕ → ℕ → Ptr → Files → ℕ
unfolding is_open
write fd offset size buffer s = if not (is_open fd s) then 0 else 0

abbrev pub mkdir : Ptr → ℕ → ℤ
mkdir path mask = pos 0

abbrev pub unlink : Ptr → ℤ
unlink path = pos 0

abbrev pub rename : Ptr → Ptr → ℤ
rename oldpath newpath = pos 0

abbrev pub readdir : ℤ → ℕ → Ptr
readdir fd index = null

abbrev pub stat : Ptr → Ptr → ℤ
stat path node = pos 0

abbrev pub chdir : Ptr → ℤ
chdir path = pos 0

-- `fs_mount` of the string `path`.
unfoldable pub mount : List ℕ → Ptr → Files → ℤ × Files
unfolding copy_string
mount path root s = (
  pos 0,
  record s {
    mount_points =
        record { mountpoint = copy_string (fs_path_max - 1) path; root = root } ∷ s.mount_points;
  },
)
