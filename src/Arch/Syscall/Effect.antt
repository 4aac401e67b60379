-- ===== src/Arch/Syscall/Effect.antt =====
-- What a system call of arch/x86_64/syscall.c can do to the kernel, and what stays true of it.
use vaelen.Prelude.{
  ℕ, ◌+◌, ◌^◌, ◌<◌, ◌≡◌, ◌≢◌, refl, ap, sym, subst, ◌∙◌, Bool, true, false, ◌||◌, ◌==◌,
  if◌then◌else◌, List, [], ◌∷◌, length, length-set, Bool-cases, inl, inr,
}
use vaelen.Prelude.Int.{ℤ, pos, negsuc}
use vaelen.Mm.Heap.{Ptr, null}
use vaelen.Task
use vaelen.Task.{Task, Tasks, Fresh, Outcome, runs, halts}
use vaelen.Task.Steps.{Step, forked, exited}
use vaelen.Task.Single.{OnlyCurrentRuns, Step-OnlyCurrentRuns, assign-OnlyCurrentRuns}
use vaelen.Task.Pids.{IsNumbered, Step-IsNumbered, set_brk-IsNumbered}
use vaelen.Fs
use vaelen.Fs.{Memory}
use vaelen.Fs.Descriptors.{Opened, open_path-Opened, opened_entry}
use vaelen.Drivers.Vga
use vaelen.Drivers.Vga.{Console}
use vaelen.Drivers.Vga.Cursor.{OnScreen, putchar-OnScreen}
use vaelen.Arch.Syscall.{
  Kernel, Result, returned, halted, int_of, set_brk, sys_write, sys_read, sys_open, sys_close,
  sys_mkdir, sys_unlink, sys_brk, sys_fork, sys_exit, after_exit, syscall_handler,
}

-- What one system call does, at most one of these.
pub data Effect (k : Kernel) (k' : Kernel) : Type 0 where
  nothing : k' ≡ k → Effect k k'
  wrote : (cs : List ℕ) → k' ≡ record k { console = Vga.write cs k.console } → Effect k k'
  opened :
      (m : Memory) (path : Ptr) (flags : ℕ)
      → k' ≡ record k { files = (Fs.open_path m path flags k.files).1 }
      → Effect k k'
  closed : (fd : ℤ) → k' ≡ record k { files = (Fs.close fd k.files).1 } → Effect k k'
  moved_brk : (addr : ℕ) → k' ≡ record k { tasks = set_brk addr k.tasks } → Effect k k'
  stepped : (s : Tasks) → Step k.tasks s → k' ≡ record k { tasks = s } → Effect k k'

pub Effects : Kernel → Result → Type 0
Effects k (returned r k') = Effect k k'
Effects k (halted k') = (k'.files ≡ k.files) × (k'.console ≡ k.console)

Effects-if :
    (k : Kernel) (b : Bool) (r s : Result)
    → Effects k r
    → Effects k s
    → Effects k (if b then r else s)
Effects-if k true r s first second = first
Effects-if k false r s first second = second

sys_write-Effects :
    (m : Memory) (fd : ℤ) (buf : Ptr) (len : ℕ) (k : Kernel) → Effects k (sys_write m fd buf len k)
unfolding sys_write Effects
sys_write-Effects m (negsuc n) buf len k = nothing refl
sys_write-Effects m (pos fd) buf len k =
    Effects-if k (fd == 1 || fd == 2) _ _ (wrote _ refl) (nothing refl)

sys_brk-Effects : (addr : ℕ) (k : Kernel) → Effects k (sys_brk addr k)
unfolding sys_brk Effects
sys_brk-Effects addr k = Effects-if k (k.tasks.current_task == null) _ _ (nothing refl) (
    either (addr == 0) k (record k { tasks = set_brk addr k.tasks }) (nothing refl)
      (moved_brk addr refl))
  where
    either :
        (b : Bool) (k1 k2 : Kernel) → Effect k k1 → Effect k k2 → Effect k (if b then k1 else k2)
    either true k1 k2 first second = first
    either false k1 k2 first second = second

after_exit-Effects :
    (code : ℤ) (k : Kernel) (o : Outcome) → Task.exit code k.tasks ≡ o → Effects k (after_exit k o)
unfolding Effects
after_exit-Effects code k (halts s) e = (refl, refl)
after_exit-Effects code k (runs s) e = stepped s (exited code e) refl

syscall_handler-Effects :
    (m : Memory) (new : Fresh) (eax ebx ecx edx : ℕ) (k : Kernel)
    → new.task ≢ null
    → k.tasks.next_pid + 1 < 2 ^ 32
    → Effects k (syscall_handler m new eax ebx ecx edx k)
unfolding syscall_handler sys_read sys_open sys_close sys_mkdir sys_unlink sys_fork sys_exit Effects
syscall_handler-Effects m new eax ebx ecx edx k placed room =
    Effects-if k (eax == 4) _ _ (sys_write-Effects m (int_of ebx) ecx edx k) (
      Effects-if k (eax == 3) _ _ (nothing refl) (
        Effects-if k (eax == 5) _ _ (opened m ebx ecx refl) (
          Effects-if k (eax == 6) _ _ (closed (int_of ebx) refl) (
            Effects-if k (eax == 39) _ _ (nothing refl) (
              Effects-if k (eax == 10) _ _ (nothing refl) (
                Effects-if k (eax == 20) _ _ (nothing refl) (
                  Effects-if k (eax == 45) _ _ (sys_brk-Effects ebx k) (
                    Effects-if k (eax == 2) _ _ (stepped _ (forked new placed room refl) refl) (
                      Effects-if k (eax == 1) _ _ (after_exit-Effects (int_of ebx) k _ refl) (
                        Effects-if k (eax == 13) _ _ (nothing refl)
                          (Effects-if k (eax == 37) _ _ (nothing refl) (nothing refl))))))))))))

-- The invariants of the parts: the tasks', the console's and the size of the table of open files.
pub record IsSound (k : Kernel) : Type 0 where
  pub single : OnlyCurrentRuns k.tasks
  pub numbered : IsNumbered k.tasks
  pub on_screen : OnScreen k.console
  pub table : length k.files.fd_table ≡ 256

write-OnScreen : (cs : List ℕ) (v : Console) → OnScreen v → OnScreen (Vga.write cs v)
unfolding Vga.write
write-OnScreen [] v on = on
write-OnScreen (c ∷ cs) v on = write-OnScreen cs (Vga.putchar c v) (putchar-OnScreen c v on).0

length-Opened :
    (new : Fs.FdEntry) (s : Fs.Files) (r : ℤ × Fs.Files)
    → Opened new s r
    → length r.1.fd_table ≡ length s.fd_table
length-Opened new s r (inl (failed, same, all)) = ap (λ files. length files.fd_table) same
length-Opened new s r (inr (fd, result, bound, free, below, changed)) =
    ap (λ files. length files.fd_table) changed ∙ length-set s.fd_table fd new

length-close : (fd : ℤ) (s : Fs.Files) → length (Fs.close fd s).1.fd_table ≡ length s.fd_table
unfolding Fs.close Fs.is_open
length-close (negsuc n) s = refl
length-close (pos fd) s = elim (Bool-cases (Fs.is_open (pos fd) s)) [
  | inl e ↦ rw e (length-set s.fd_table fd _)
  | inr e ↦ rw e refl
]

Effect-IsSound : (k k' : Kernel) → Effect k k' → IsSound k → IsSound k'
Effect-IsSound k k' (nothing e) ok = subst IsSound (sym e) ok
Effect-IsSound k k' (wrote cs e) ok = subst IsSound (sym e) (record {
  single = ok.single;
  numbered = ok.numbered;
  on_screen = write-OnScreen cs k.console ok.on_screen;
  table = ok.table;
})
Effect-IsSound k k' (opened m path flags e) ok = subst IsSound (sym e) (record {
  single = ok.single;
  numbered = ok.numbered;
  on_screen = ok.on_screen;
  table =
      length-Opened (opened_entry m path flags k.files) k.files _
        (open_path-Opened m path flags k.files)
      ∙ ok.table;
})
Effect-IsSound k k' (closed fd e) ok = subst IsSound (sym e) (record {
  single = ok.single;
  numbered = ok.numbered;
  on_screen = ok.on_screen;
  table = length-close fd k.files ∙ ok.table;
})
Effect-IsSound k k' (moved_brk addr e) ok = subst IsSound (sym e) (record {
  single =
      assign-OnlyCurrentRuns k.tasks k.tasks.current_task (λ t. record t { brk = addr })
        (λ t. (refl, λ q. q)) ok.single;
  numbered = set_brk-IsNumbered k.tasks k.tasks.current_task addr ok.numbered;
  on_screen = ok.on_screen;
  table = ok.table;
})
Effect-IsSound k k' (stepped s step e) ok = subst IsSound (sym e) (record {
  single = Step-OnlyCurrentRuns k.tasks s step ok.single;
  numbered = Step-IsNumbered k.tasks s step ok.numbered;
  on_screen = ok.on_screen;
  table = ok.table;
})

-- Whatever the registers hold, a system call that returns keeps the invariants of the parts: only
-- the current task is marked as running and no task lies at the null address, pids fall along the
-- task list and tasks are counted, the cursor is on the screen, and the table of open files has 256
-- entries. A new task is not placed at the null address, and pids have not run out.
pub syscall_handler-IsSound :
    (m : Memory) (new : Fresh) (eax ebx ecx edx : ℕ) (k k' : Kernel) (result : ℤ)
    → new.task ≢ null
    → k.tasks.next_pid + 1 < 2 ^ 32
    → syscall_handler m new eax ebx ecx edx k ≡ returned result k'
    → IsSound k
    → IsSound k'
unfolding Effects
syscall_handler-IsSound m new eax ebx ecx edx k k' result placed room e ok =
    Effect-IsSound k k'
      (subst (Effects k) e (syscall_handler-Effects m new eax ebx ecx edx k placed room)) ok
