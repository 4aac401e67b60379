-- ===== src/Fs/Ram/Find.antt =====
-- What `ramfs_find` of fs/ramfs.c finds after `ramfs_create`.
use vaelen.Prelude.{
  ==_same, ==_differ, ℕ, zero, suc, ◌<◌, ◌≤◌, ◌≡◌, ◌≢◌, refl, ap, sym, ◌∙◌, Bool, true, false, leb,
  ◌==◌, if◌then◌else◌, update, List, [], ◌∷◌, ◌++◌, length, take, All, arith,
}
use vaelen.Prelude.Text.{equal}
use vaelen.Mm.Heap.{Ptr, null}
use vaelen.Fs.Ram.{RamFile, Ram, max_files, find_child, find, new_file, adopt, create}

-- A child that is a file of its own: not null, not the new file, and not the directory itself.
abbrev pub Apart : Ptr → Ptr → Ptr → Type 0
Apart file parent child = (child ≢ null) × (child ≢ file) × (child ≢ parent)

take_all : (n : ℕ) (cs : List ℕ) → length cs ≤ n → take n cs ≡ cs
take_all zero [] h = refl
take_all zero (c ∷ cs) h = absurd (omega arith)
take_all (suc n) [] h = refl
take_all (suc n) (c ∷ cs) h = ap (λ rest. c ∷ rest) (take_all n cs (omega arith))

-- What was found, or what is found where nothing was.
abbrev pub or_else : Ptr → Ptr → Ptr
or_else found other = if found == null then other else found

or_else-if :
    (b : Bool) (child x found other : Ptr)
    → child ≢ null
    → x ≡ or_else found other
    → (if b then child else x) ≡ or_else (if b then child else found) other
or_else-if true child x found other some_child e = ground arith
or_else-if false child x found other some_child e = e

-- The search over children whose names are the same in two stores, and over one more child.
find_child-append :
    (name : List ℕ) (before after : Ptr → RamFile) (file : Ptr) (children : List Ptr)
    → All (λ child. (child ≢ null) × ((after child).name ≡ (before child).name)) children
    → find_child name after (children ++ (file ∷ []))
      ≡ or_else
          (find_child name before children)
          (if equal (after file).name name then file else null)
unfolding find_child
find_child-append name before after file [] kept = refl
find_child-append name before after file (child ∷ rest) ((some_child, same), kept) =
    ap (λ word. if equal word name then child else find_child name after (rest ++ (file ∷ []))) same
    ∙ or_else-if (equal (before child).name name) child _ (find_child name before rest) _ some_child
        (find_child-append name before after file rest kept)

module _ (files : Ptr → RamFile) (parent file : Ptr) (new : RamFile) (apart : file ≢ parent) where
  store : Ptr → RamFile
  store = adopt parent file (update files file new)

  store-parent : (store parent).children ≡ (files parent).children ++ (file ∷ [])
  unfolding store
  store-parent =
      ap
        (λ (b : Bool).
          (if b
            then record (update files file new parent) {
              children = (update files file new parent).children ++ (file ∷ []);
            }
            else update files file new parent).children)
        (==_same parent parent refl)
      ∙ ap (λ (b : Bool). (if b then new else files parent).children ++ (file ∷ []))
          (==_differ file parent apart)

  store-child : (child : Ptr) → Apart file parent child → store child ≡ files child
  unfolding store
  store-child child (some_child, other, below) =
      ap
        (λ (b : Bool).
          if b
          then record (update files file new parent) {
            children = (update files file new parent).children ++ (file ∷ []);
          }
          else update files file new child)
        (==_differ parent child (λ e. below (sym e)))
      ∙ ap (λ (b : Bool). if b then new else files child)
          (==_differ file child (λ e. other (sym e)))

  store-file : store file ≡ new
  unfolding store
  store-file =
      ap
        (λ (b : Bool).
          if b
          then record (update files file new parent) {
            children = (update files file new parent).children ++ (file ∷ []);
          }
          else update files file new file)
        (==_differ parent file (λ e. apart (sym e)))
      ∙ ap (λ (b : Bool). if b then new else files file) (==_same file file refl)

  store-names :
      (children : List Ptr)
      → All (Apart file parent) children
      → All (λ child. (child ≢ null) × ((store child).name ≡ (files child).name)) children
  store-names [] all = tt
  store-names (child ∷ rest) (here, all) =
      ((here.0, ap (λ (f : RamFile). f.name) (store-child child here)), store-names rest all)

  find-store :
      (other : List ℕ)
      → All (Apart file parent) (files parent).children
      → find_child other store (store parent).children
        ≡ or_else
            (find_child other files (files parent).children)
            (if equal new.name other then file else null)
  find-store other all =
      ap (find_child other store) store-parent
      ∙ find_child-append other files store file (files parent).children
          (store-names (files parent).children all)
      ∙ ap
          (λ (f : RamFile).
            or_else (find_child other files (files parent).children)
              (if equal f.name other then file else null))
          store-file

create-room :
    (file page parent : Ptr) (name : List ℕ) (type : ℕ) (s : Ram)
    → length (s.files parent).children < max_files
    → create file page parent name type s ≡ (
      file,
      record s { files = adopt parent file (update s.files file (new_file parent page name type)) },
    )
unfolding create
create-room file page parent name type s room =
    ap
      (λ (full : Bool). if full then (null, s) else (
        file,
        record s {
          files = adopt parent file (update s.files file (new_file parent page name type));
        },
      ))
      (not_full _ room)
  where
    not_full : (n : ℕ) → n < max_files → leb max_files n ≡ false
    not_full n h = ground arith

name-new_file :
    (parent page : Ptr) (name : List ℕ) (type : ℕ)
    → length name ≤ 255
    → (new_file parent page name type).name ≡ name
unfolding new_file
name-new_file parent page name type short = take_all 255 name short

-- In a directory with room for another file, where every child is a file of its own, `ramfs_create`
-- of a name of at most 255 bytes returns the new file. From then on `ramfs_find` finds what it found
-- before; where it found nothing, it finds the new file for that name, and nothing for any other.
pub find-create :
    (file page parent : Ptr) (name other : List ℕ) (type : ℕ) (s : Ram)
    → length (s.files parent).children < max_files
    → length name ≤ 255
    → file ≢ parent
    → All (Apart file parent) (s.files parent).children
    → ((create file page parent name type s).0 ≡ file)
      × (find parent other (create file page parent name type s).1
          ≡ or_else (find parent other s) (if equal name other then file else null))
unfolding find store
find-create file page parent name other type s room short apart children = (
  ap (λ (r : Ptr × Ram). r.0) (create-room file page parent name type s room),
  ap (λ (r : Ptr × Ram). find parent other r.1) (create-room file page parent name type s room)
      ∙ find-store s.files parent file (new_file parent page name type) apart other children
      ∙ ap
          (λ (word : List ℕ).
            or_else (find parent other s) (if equal word other then file else null))
          (name-new_file parent page name type short),
)
