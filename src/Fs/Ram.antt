-- ===== src/Fs/Ram.antt =====
-- fs/ramfs.c: a tree of files in memory, as a store from addresses to files.
pub mod Find
mod Tests
use vaelen.Prelude.{
  ℕ, zero, suc, ◌+◌, ◌-◌, ◌*◌, Bool, true, false, leb, ◌==◌, if◌then◌else◌, update, List, [], ◌∷◌,
  ◌++◌, length, take,
}
use vaelen.Prelude.Text.{bytes, equal}
use vaelen.Mm.Frames.{page_size}
use vaelen.Mm.Heap.{Ptr, null}
use vaelen.Fs.{fs_directory, fs_name_max}

abbrev pub max_files : ℕ
max_files = 64

-- `ramfs_file_t`; `child_count` is the length of `children`.
pub record RamFile : Type 0 where
  pub name : List ℕ
  pub contents : Ptr
  pub size : ℕ
  pub capacity : ℕ
  pub type : ℕ
  pub parent : Ptr
  pub children : List Ptr

-- `ramfs_root`, and the file that memory holds at an address.
pub record Ram : Type 0 where
  pub ramfs_root : Ptr
  pub files : Ptr → RamFile

-- The loop of `ramfs_find`.
unfoldable pub find_child : List ℕ → (Ptr → RamFile) → List Ptr → Ptr
find_child name files [] = null
find_child name files (child ∷ rest) =
    if equal (files child).name name then child else find_child name files rest

unfoldable pub find : Ptr → List ℕ → Ram → Ptr
unfolding find_child
find dir name s = find_child name s.files (s.files dir).children

-- The new file of `ramfs_create`; the name is cut by `strncpy`.
unfoldable pub new_file : Ptr → Ptr → List ℕ → ℕ → RamFile
new_file parent page name type = record {
  name = take (fs_name_max - 1) name;
  contents = if type == fs_directory then null else page;
  size = 0;
  capacity = if type == fs_directory then 0 else page_size;
  type = type;
  parent = parent;
  children = [];
}

-- `parent->children[parent->child_count++] = file;`
abbrev pub adopt : Ptr → Ptr → (Ptr → RamFile) → Ptr → RamFile
adopt parent file files =
    update files parent
      (record (files parent) { children = (files parent).children ++ (file ∷ []) })

-- `ramfs_create`, for the addresses that `kmalloc` returns for the file and its page.
unfoldable pub create : Ptr → Ptr → Ptr → List ℕ → ℕ → Ram → Ptr × Ram
unfolding new_file
create file page parent name type s =
    if leb max_files (length (s.files parent).children) then (null, s) else (
      file,
      record s { files = adopt parent file (update s.files file (new_file parent page name type)) },
    )

-- The calls of `ramfs_create` in `ramfs_init`, for the addresses of the files.
unfoldable pub create_all : (ℕ → Ptr) → ℕ → List (List ℕ) → Ram → Ram
unfolding create
create_all alloc n [] s = s
create_all alloc n (name ∷ names) s =
    create_all alloc (n + 1) names (create (alloc n) null s.ramfs_root name fs_directory s).1

abbrev pub root_file : RamFile
root_file = record {
  name = [];
  contents = null;
  size = 0;
  capacity = 0;
  type = fs_directory;
  parent = null;
  children = [];
}

unfoldable pub init : (ℕ → Ptr) → Ram → Ram
unfolding create_all
init alloc s =
    create_all alloc 1
      (bytes "bin"
        ∷ bytes "etc"
        ∷ bytes "home"
        ∷ bytes "tmp"
        ∷ bytes "usr"
        ∷ bytes "var"
        ∷ bytes "dev"
        ∷ bytes "proc"
        ∷ bytes "lib"
        ∷ [])
      (record { ramfs_root = alloc 0; files = update s.files (alloc 0) root_file })
