-- ===== src/Fs/Descriptors.antt =====
-- `fs_open` and `fs_close` of fs/vfs.c: which descriptor is taken and which entries change.
use vaelen.Prelude.{
  ==_differ, ℕ, zero, suc, ◌+◌, ◌<◌, ◌≡◌, ◌≢◌, refl, ap, sym, subst, ◌∙◌, Option, none, some, List,
  [], ◌∷◌, ◌==◌, ltb, length, get_or, set, All, arith, ℕ_discrete, lt→ltb, set-set, ◌⊎◌, inl, inr,
  Bool-cases, length-set, get_or-set_self, get_or-set_ne,
}
use vaelen.Prelude.Int.{ℤ, pos, negsuc, pos_part, neg_part}
use vaelen.Mm.Heap.{Ptr, null}
use vaelen.Fs.{
  Files, FdEntry, Memory, free_entry, keep_entry, open_from, open_path, close, traverse, after,
  fs_max_fds,
}

abbrev pub entry : Files → ℕ → FdEntry
entry s fd = get_or s.fd_table fd free_entry

-- What the loop finds: no free entry, or the first one, which gets the new contents.
abbrev Found : FdEntry → ℕ → List FdEntry → Option (ℕ × List FdEntry) → Type 0
Found new i es none = All (λ e. e.node ≢ null) es
Found new i es (some (fd, es')) =
    (d : ℕ) × (fd ≡ i + d)
    × (d < length es)
    × (es' ≡ set es d new)
    × ((get_or es d free_entry).node ≡ null)
    × ((k : ℕ) → k < d → (get_or es k free_entry).node ≢ null)

Found-keep :
    (new e : FdEntry) (i : ℕ) (es : List FdEntry) (o : Option (ℕ × List FdEntry))
    → e.node ≢ null
    → Found new (i + 1) es o
    → Found new i (e ∷ es) (keep_entry e o)
Found-keep new e i es none used all = (used, all)
Found-keep new e i es (some (fd, es')) used (d, place, bound, changed, free, below) =
    (suc d, omega arith, omega arith, ap (λ (rest : List FdEntry). e ∷ rest) changed, free, earlier)
  where
    earlier : (k : ℕ) → k < suc d → (get_or (e ∷ es) k free_entry).node ≢ null
    earlier zero h = used
    earlier (suc k) h = below k (omega arith)

open_from-Found : (new : FdEntry) (i : ℕ) (es : List FdEntry) → Found new i es (open_from new i es)
unfolding open_from
open_from-Found new i [] = tt
open_from-Found new i (e ∷ es) = elim (Bool-cases (e.node == null)) [
  | inl free ↦
      rw free (0, omega arith, omega arith, refl, ground arith, λ k h. absurd (omega arith))
  | inr used ↦ rw used (Found-keep new e i es _ (ground arith) (open_from-Found new (i + 1) es))
]

-- What a call of `fs_open` does with an entry to write: its result and the new state.
abbrev pub Opened : FdEntry → Files → ℤ × Files → Type 0
Opened new s (result, s') =
    ((result ≡ negsuc 0) × (s' ≡ s) × All (λ e. e.node ≢ null) s.fd_table)
    ⊎ ((fd : ℕ) × (result ≡ pos fd)
        × (fd < length s.fd_table)
        × ((entry s fd).node ≡ null)
        × ((k : ℕ) → k < fd → (entry s k).node ≢ null)
        × (s' ≡ record s { fd_table = set s.fd_table fd new }))

after-Opened :
    (new : FdEntry) (s : Files) (o : Option (ℕ × List FdEntry))
    → Found new 0 s.fd_table o
    → Opened new s (after s o)
after-Opened new s none all = inl (refl, refl, all)
after-Opened new s (some (fd, es)) (d, place, bound, changed, free, below) = inr (
  d,
  ap pos (omega arith),
  bound,
  free,
  below,
  ap (λ (table : List FdEntry). record s { fd_table = table }) changed,
)

abbrev pub opened_entry : Memory → Ptr → ℕ → Files → FdEntry
opened_entry m path flags s = record { node = traverse m path s; offset = 0; flags = flags }

-- `fs_open` returns -1 and changes nothing when every entry of the table is in use; otherwise it
-- returns the least descriptor that is free and writes only its entry.
pub open_path-Opened :
    (m : Memory) (path : Ptr) (flags : ℕ) (s : Files)
    → Opened (opened_entry m path flags s) s (open_path m path flags s)
unfolding open_path
open_path-Opened m path flags s = after-Opened _ s _ (open_from-Found _ 0 s.fd_table)

open_from-first :
    (new : FdEntry) (i d : ℕ) (es : List FdEntry)
    → d < length es
    → (get_or es d free_entry).node ≡ null
    → ((k : ℕ) → k < d → (get_or es k free_entry).node ≢ null)
    → open_from new i es ≡ some (i + d, set es d new)
unfolding open_from
open_from-first new i d [] h free below = absurd (omega arith)
open_from-first new i zero (e ∷ es) h free below =
    rw free (ap (λ (j : ℕ). some (j, new ∷ es)) (omega arith))
open_from-first new i (suc d) (e ∷ es) h free below =
    rw (==_differ e.node null (below 0 (omega arith))) rw
      (open_from-first new (i + 1) d es (omega arith) free (λ k lt. below (suc k) (omega arith)))
      (ap (λ (j : ℕ). some (j, e ∷ set es d new)) (omega arith))

same_node :
    (es : List FdEntry) (d k : ℕ) (new : FdEntry)
    → new.node ≡ (get_or es d free_entry).node
    → d < length es
    → (get_or (set es d new) k free_entry).node ≡ (get_or es k free_entry).node
same_node es d k new e h = elim (ℕ_discrete d k) [
  | yes p ↦
      ap (λ (x : FdEntry). x.node)
        (subst (λ j. get_or (set es d new) j free_entry ≡ new) p
          (get_or-set_self es d new free_entry h))
      ∙ e
      ∙ ap (λ (j : ℕ). (get_or es j free_entry).node) p
  | no p ↦ ap (λ (x : FdEntry). x.node) (get_or-set_ne es new free_entry p)
]

-- The table after `fs_open` has written the entry of descriptor `fd`.
abbrev opened : FdEntry → ℕ → Files → Files
opened new fd s = record s { fd_table = set s.fd_table fd new }

close-opened :
    (new : FdEntry) (fd : ℕ) (s : Files)
    → length s.fd_table ≡ 256
    → fd < length s.fd_table
    → (entry s fd).node ≡ null
    → new.node ≢ null
    → ((close (pos fd) (opened new fd s)).0 ≡ pos 0)
      × ((k : ℕ) → (entry (close (pos fd) (opened new fd s)).1 k).node ≡ (entry s k).node)
unfolding close
close-opened new fd s full bound free used =
    rw (get_or-set_self s.fd_table fd new free_entry bound) rw (==_differ new.node null used) rw
      (lt→ltb fd 256 (omega arith)) rw (set-set s.fd_table fd new (record new { node = null }))
      (refl, λ k. same_node s.fd_table fd k (record new { node = null }) (sym free) bound)

close-missing :
    (new : FdEntry) (fd : ℕ) (s : Files)
    → fd < length s.fd_table
    → new.node ≡ null
    → (close (pos fd) (opened new fd s)).0 ≡ negsuc 0
unfolding close
close-missing new fd s bound empty =
    rw (get_or-set_self s.fd_table fd new free_entry bound) rw empty
      elim (Bool-cases (ltb fd 256)) [ inl e ↦ rw e refl | inr e ↦ rw e refl ]

reopen :
    (new other : FdEntry) (fd : ℕ) (s : Files)
    → fd < length s.fd_table
    → (entry s fd).node ≡ null
    → ((k : ℕ) → k < fd → (entry s k).node ≢ null)
    → new.node ≡ null
    → (after (opened new fd s) (open_from other 0 (opened new fd s).fd_table)).0 ≡ pos fd
reopen new other fd s bound free below empty =
    ap (λ (o : Option (ℕ × List FdEntry)). (after (opened new fd s) o).0)
      (open_from-first other 0 fd (set s.fd_table fd new)
        (omega (arith, bound, length-set s.fd_table fd new))
        (ap (λ (e : FdEntry). e.node) (get_or-set_self s.fd_table fd new free_entry bound) ∙ empty)
        (λ k lt e. below k lt (
          ap (λ (x : FdEntry). x.node)
            (sym (get_or-set_ne s.fd_table {i = fd} {j = k} new free_entry (omega arith)))
          ∙ e)))
    ∙ ap pos (omega arith)

-- A call of `fs_open` that returned descriptor `fd` wrote the first free entry.
Returned : FdEntry → ℕ → Files → Files → Type 0
Returned new fd s s' =
    (s' ≡ opened new fd s)
    × (fd < length s.fd_table)
    × ((entry s fd).node ≡ null)
    × ((k : ℕ) → k < fd → (entry s k).node ≢ null)

Returned-Opened :
    (new : FdEntry) (fd : ℕ) (s : Files) (r : ℤ × Files)
    → r.0 ≡ pos fd
    → Opened new s r
    → Returned new fd s r.1
unfolding Returned
Returned-Opened new fd s r e (inl (failed, same, all)) =
    absurd (omega (arith, ap neg_part (sym failed ∙ e)))
Returned-Opened new fd s r e (inr (fd', result, bound, free, below, changed)) =
    subst (λ j. Returned new j s r.1) (ap pos_part (sym result ∙ e)) (changed, bound, free, below)

-- With a table of 256 entries and a path that leads to a node, closing the descriptor that `fs_open`
-- returned succeeds, and every descriptor then has the node that it had before.
pub close-open_path :
    (m : Memory) (path : Ptr) (flags : ℕ) (s : Files) (fd : ℕ)
    → length s.fd_table ≡ fs_max_fds
    → traverse m path s ≢ null
    → (open_path m path flags s).0 ≡ pos fd
    → ((close (pos fd) (open_path m path flags s).1).0 ≡ pos 0)
      × ((k : ℕ)
          → (entry (close (pos fd) (open_path m path flags s).1).1 k).node ≡ (entry s k).node)
unfolding Returned
close-open_path m path flags s fd full found returned =
    let (changed, bound, free, below) =
      Returned-Opened _ fd s _ returned (open_path-Opened m path flags s) in
    rw changed (close-opened (opened_entry m path flags s) fd s full bound free found)

-- A path that leads to no node is opened all the same: the descriptor that `fs_open` returns cannot
-- be closed, and the next `fs_open`, of any path, returns it again.
pub open_path-missing :
    (m : Memory) (path : Ptr) (flags : ℕ) (s : Files) (fd : ℕ)
    → traverse m path s ≡ null
    → (open_path m path flags s).0 ≡ pos fd
    → ((close (pos fd) (open_path m path flags s).1).0 ≡ negsuc 0)
      × ((m' : Memory) (path' : Ptr) (flags' : ℕ)
          → (open_path m' path' flags' (open_path m path flags s).1).0 ≡ pos fd)
unfolding Returned open_path
open_path-missing m path flags s fd missing returned =
    let (changed, bound, free, below) =
      Returned-Opened _ fd s _ returned (open_path-Opened m path flags s) in
    rw changed (
      close-missing (opened_entry m path flags s) fd s bound missing,
      λ m' path' flags'. reopen (opened_entry m path flags s) _ fd s bound free below missing,
    )
