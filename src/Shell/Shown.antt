-- ===== src/Shell/Shown.antt =====
-- What the calls of kernel/shell.c do to the screen: of `printf`, of `vga_clear`, `vga_putchar` and
-- `vga_setcolor`; `outb` and `timer_sleep` leave it alone.
pub mod Commands
pub mod Session
use vaelen.Prelude.{
  ℕ, ◌^◌, ◌≡◌, refl, Bool, true, false, ◌&&◌, ltb, ◌==◌, if◌then◌else◌, Option, none, some, List,
  [], ◌∷◌, ◌++◌, arith, Bool-cases, inl, inr,
}
use vaelen.Strings.{Bytes}
use vaelen.Drivers.Vga
use vaelen.Drivers.Vga.{Console, write}
use vaelen.Printf.{Arg, word, text, printf}
use vaelen.Printf.Typed.{Kind, number, string, kinds, Fits}
use vaelen.Printf.Typed.Run.{printf-Prints}
use vaelen.Shell.Calls.{Call, print, clear, outb, sleep, putchar, set_color}

-- One call; none where `printf` reads what it was not given.
unfoldable pub show_call : Bytes → Call → Console → Option Console
show_call stack (print format args) v = elim (printf stack format args) [
  | none ↦ none
  | some out ↦ some (write out v)
]
show_call stack clear v = some (Vga.clear v)
show_call stack (outb port value) v = some v
show_call stack (sleep ms) v = some v
show_call stack (putchar c) v = some (Vga.putchar c v)
show_call stack (set_color color) v = some (Vga.set_color color v)

-- The calls in order.
unfoldable pub show : Bytes → List Call → Console → Option Console
unfolding show_call
show stack [] v = some v
show stack (call ∷ calls) v = elim (show_call stack call v) [
  | none ↦ none
  | some v' ↦ show stack calls v'
]

-- Whether arguments are of these kinds.
abbrev pub fits : List Kind → List Arg → Bool
fits [] args = true
fits (k ∷ ks) [] = false
fits (number ∷ ks) (word n ∷ args) = ltb n (2 ^ 32) && fits ks args
fits (number ∷ ks) (text s ∷ args) = false
fits (string ∷ ks) (word n ∷ args) = n == 0 && fits ks args
fits (string ∷ ks) (text s ∷ args) = fits ks args

fits_sound : (ks : List Kind) (args : List Arg) → fits ks args ≡ true → Fits ks args
fits_sound [] args e = tt
fits_sound (k ∷ ks) [] e = absurd cc
fits_sound (number ∷ ks) (word n ∷ args) e = (ground arith, fits_sound ks args (ground arith))
fits_sound (number ∷ ks) (text s ∷ args) e = absurd cc
fits_sound (string ∷ ks) (word n ∷ args) e = (ground arith, fits_sound ks args (ground arith))
fits_sound (string ∷ ks) (text s ∷ args) e = fits_sound ks args e

abbrev pub fits_kinds : Option (List Kind) → List Arg → Bool
fits_kinds none args = false
fits_kinds (some ks) args = fits ks args

-- Whether a call of `printf` gives the arguments that its format takes.
abbrev pub is_typed : Call → Bool
is_typed (print format args) = fits_kinds (kinds false format) args
is_typed _ = true

abbrev pub all_typed : List Call → Bool
all_typed [] = true
all_typed (call ∷ calls) = is_typed call && all_typed calls

abbrev pub Shown : Option Console → Type 0
Shown o = (v : Console) × (o ≡ some v)

show_call-Shown :
    (stack : Bytes) (call : Call) (v : Console)
    → is_typed call ≡ true
    → Shown (show_call stack call v)
unfolding show_call
show_call-Shown stack (print format args) v e = go (kinds false format) refl e
  where
    go :
        (o : Option (List Kind))
        → kinds false format ≡ o
        → fits_kinds o args ≡ true
        → Shown (show_call stack (print format args) v)
    go none known e = absurd cc
    go (some ks) known e =
        let (out, printed) = printf-Prints stack format args ks known (fits_sound ks args e) in
        rw (printed, show_call) (write out v, refl)
show_call-Shown stack clear v e = (_, refl)
show_call-Shown stack (outb port value) v e = (_, refl)
show_call-Shown stack (sleep ms) v e = (_, refl)
show_call-Shown stack (putchar c) v e = (_, refl)
show_call-Shown stack (set_color color) v e = (_, refl)

pub show-Shown :
    (stack : Bytes) (calls : List Call) (v : Console)
    → all_typed calls ≡ true
    → Shown (show stack calls v)
unfolding show
show-Shown stack [] v e = (v, refl)
show-Shown stack (call ∷ calls) v e =
    let (v', shown) = show_call-Shown stack call v (ground arith) in
    rw (shown, show) (show-Shown stack calls v' (ground arith))

pub all_typed-++ :
    (xs ys : List Call) → all_typed xs ≡ true → all_typed ys ≡ true → all_typed (xs ++ ys) ≡ true
all_typed-++ [] ys e e' = e'
all_typed-++ (x ∷ xs) ys e e' = ground (arith, all_typed-++ xs ys (ground arith) e')
