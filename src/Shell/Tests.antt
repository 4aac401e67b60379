-- ===== src/Shell/Tests.antt =====
-- Sessions of the shell, and its theorems at concrete lines.
use vaelen.Prelude.{ℕ, ◌-◌, ◌≡◌, refl, true, List, [], ◌∷◌, ◌++◌, map, take, arith}
use vaelen.Prelude.Int.{pos, ltb_ℤ}
use vaelen.Prelude.Text.{bytes}
use vaelen.Mm.Frames.{Frames}
use vaelen.Printf.{text}
use vaelen.Shell.Calls.{say, putchar}
use vaelen.Shell.Dispatch.{History, run_named, call}
use vaelen.Shell.Basic.{cmd_echo, echo_from}
use vaelen.Shell.Stubs.{cmd_exit}
use vaelen.Shell.Line.{max_args, max_line, get_line, edit, drop_last, split, scan}
use vaelen.Shell.Line.Edit.{Reads, get_line-Reads}
use vaelen.Shell.Line.Words.{Piece, word, spread, split-spread}
use vaelen.Shell.Run.{execute, rounds, run_args, after_line, after_command, prompt, returned}
use vaelen.Drivers.Vga.{
  Console, write, cell, putchar as vga_putchar, place, wrap_line, wrap_screen, move_cursor,
}
use vaelen.Shell.Shown.{Shown, show}
use vaelen.Shell.Shown.Session.{calls_of, shell_run-Shown}
use vaelen.Shell.Line.Recall.{remember_all, numbered, cmd_history_cmd-numbered}
use vaelen.Shell.Run.{shell_run}
use vaelen.Shell.Dispatch.{cmd_history_cmd}
use vaelen.Shell.Run.Exit.{first_is_exit, execute-exit}

abbrev blank : Console
blank = record { vga_color = 7; vga_buffer = λ p. 0; cursor_x = 0; cursor_y = 0; ports = [] }

abbrev no_lines : History
no_lines = record { history = λ i. []; hist_count = 0; hist_idx = 0 }

abbrev no_frames : Frames
no_frames = record { bitmap = λ i. 0; total_memory = 0; total_blocks = 0; used_blocks = 0 }

-- An a is typed, erased, and typed again with an ignored control character; then a newline.
abbrev keys : List ℕ
keys = b'a' ∷ 8 ∷ b'a' ∷ 27 ∷ b'\n' ∷ b'b' ∷ []

get_line-Reads_example : Reads (max_line - 1) [] keys (get_line max_line keys no_lines)
get_line-Reads_example = get_line-Reads keys no_lines refl

-- A line that has wrapped: the last character of the upper row, taken back from the start of the
-- next row, stays on the screen.
erased_stays : (write (b'a' ∷ 8 ∷ []) (record blank { cursor_x = 79 })).vga_buffer 79 ≡ cell b'a' 7
unfolding write cell vga_putchar place wrap_line wrap_screen move_cursor
erased_stays = refl

abbrev echo_piece : Piece
echo_piece = record { gap = []; initial = b'e'; remaining = bytes "cho" }

abbrev hi_piece : Piece
hi_piece = record { gap = b' ' ∷ b'\t' ∷ []; initial = b'h'; remaining = bytes "i" }

split-spread_example :
    split (spread (echo_piece ∷ hi_piece ∷ []) (b' ' ∷ []))
    ≡ take (max_args - 1) (map word (echo_piece ∷ hi_piece ∷ []))
split-spread_example =
    split-spread echo_piece (hi_piece ∷ []) (b' ' ∷ []) (tt, refl, (refl, (refl, (refl, tt))))
      ((omega arith, ((refl, (refl, tt)), refl, (refl, tt))), tt) (refl, tt)

execute-exit_example :
    ltb_ℤ (execute (bytes " exit now") no_frames no_lines).0 (pos 0)
    ≡ first_is_exit (split (bytes " exit now"))
execute-exit_example = execute-exit (bytes " exit now") no_frames no_lines

first_is_exit-split : first_is_exit (split (bytes " exit now")) ≡ true
unfolding first_is_exit split scan
first_is_exit-split = refl

echo_line : execute (bytes "echo a  b") no_frames no_lines ≡ (
  pos 0,
  say "%s%s" (text (bytes "a") ∷ text (bytes " ") ∷ [])
      ∷ say "%s%s" (text (bytes "b") ∷ text [] ∷ [])
      ∷ say "\n" []
      ∷ [],
)
unfolding execute run_args split scan run_named call cmd_echo echo_from
echo_line = refl

exit_session :
    rounds 2 no_frames (bytes "exit\n") no_lines
    ≡ returned (
        prompt
        ∷ (map putchar (bytes "exit\n")
            ++ (say "logout\n" [] ∷ say "\nVaelen Linux shell terminated.\n" [] ∷ [])))
unfolding rounds get_line edit drop_last after_line after_command execute run_args split scan
    run_named call cmd_exit
exit_session = refl

-- Two sessions: the lines echo and an unknown name are typed.
shell_run-Shown_example :
    Shown
      (show (λ a. 0) (calls_of (shell_run 3 no_frames (bytes "echo a b\nnone\n") no_lines)) blank)
shell_run-Shown_example =
    shell_run-Shown (λ a. 0) 3 no_frames (bytes "echo a b\nnone\n") no_lines blank (omega arith)

-- Two lines, and slots that held something before.
cmd_history_cmd-numbered_example :
    cmd_history_cmd
      (remember_all
        (bytes "ls" ∷ bytes "pwd" ∷ [])
        (record { history = λ i. bytes "x"; hist_count = 0; hist_idx = 0 }))
      (bytes "history" ∷ [])
    ≡ (pos 0, numbered 1 (bytes "ls" ∷ bytes "pwd" ∷ []))
cmd_history_cmd-numbered_example =
    cmd_history_cmd-numbered (bytes "ls" ∷ bytes "pwd" ∷ [])
      (record { history = λ i. bytes "x"; hist_count = 0; hist_idx = 0 }) (bytes "history" ∷ [])
      refl ((λ e. cc), ((λ e. cc), tt)) (omega arith)
