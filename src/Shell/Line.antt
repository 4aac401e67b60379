-- ===== src/Shell/Line.antt =====
-- kernel/shell.c: `shell_getline` and the splitting of a line in `shell_execute`.
pub mod Edit
pub mod Words
pub mod Recall
use vaelen.Prelude.{
  ℕ, zero, suc, ◌+◌, ◌-◌, ◌%◌, Bool, true, false, ◌&&◌, ◌||◌, ltb, leb, ◌==◌, if◌then◌else◌, update,
  List, [], ◌∷◌, ◌++◌, length, Option, none, some,
}
use vaelen.Shell.Dispatch.{History, max_history}

abbrev pub max_line : ℕ
max_line = 512

abbrev pub max_args : ℕ
max_args = 32

-- What `shell_getline` leaves: the line, the keys that it has not read, the characters that it has
-- echoed, in order, and the history.
pub record Read : Type 0 where
  pub line : List ℕ
  pub unread : List ℕ
  pub echoed : List ℕ
  pub shell : History

-- The line without its last character.
unfoldable pub drop_last : List ℕ → List ℕ
drop_last [] = []
drop_last (c ∷ []) = []
drop_last (c ∷ d ∷ cs) = c ∷ drop_last (d ∷ cs)

-- The history with a line of at least one character.
abbrev pub remember : List ℕ → History → History
remember [] h = h
remember (c ∷ cs) h = record h {
  history = update h.history (h.hist_count % max_history) (c ∷ cs);
  hist_count = h.hist_count + 1;
  hist_idx = h.hist_count + 1;
}

-- The loop of `shell_getline`, for the keys that will be typed; `buf` is the characters in the
-- buffer so far, and none means that the loop waits for a key that does not come.
unfoldable pub edit : ℕ → List ℕ → List ℕ → List ℕ → History → Option Read
unfolding drop_last
edit limit [] buf echoed h =
    if ltb (length buf) limit
    then none
    else some (record { line = buf; unread = []; echoed = echoed; shell = h })
edit limit (c ∷ keys) buf echoed h =
    let erased = edit limit keys (drop_last buf) (echoed ++ (8 ∷ [])) h in
    let ignored = edit limit keys buf echoed h in
    let typed = edit limit keys (buf ++ (c ∷ [])) (echoed ++ (c ∷ [])) h in
    if ltb (length buf) limit
    then (if c == b'\n'
        then some (record {
          line = buf;
          unread = keys;
          echoed = echoed ++ (b'\n' ∷ []);
          shell = remember buf h;
        })
        else if c == 8
        then (if ltb 0 (length buf) then erased else ignored)
        else if leb b' ' c && leb c b'~'
        then typed
        else ignored)
    else some (record { line = buf; unread = c ∷ keys; echoed = echoed; shell = h })

unfoldable pub get_line : ℕ → List ℕ → History → Option Read
unfolding edit
get_line maxlen keys h = edit (maxlen - 1) keys [] [] h

abbrev pub is_blank : ℕ → Bool
is_blank c = c == b' ' || c == b'\t'

-- Where the loop of `shell_execute` stands: between words, or in a word with what was read of it.
pub data Place : Type 0 where
  between : Place
  within : List ℕ → Place

-- The loop, with room for `n` more arguments: the words from here on. The source writes a
-- terminator over the blank behind each.
unfoldable pub scan : List ℕ → Place → ℕ → List (List ℕ)
scan [] between n = []
scan [] (within word) n = word ∷ []
scan (c ∷ cs) between zero = []
scan (c ∷ cs) between (suc n) = elim (is_blank c) [
  | true ↦ scan cs between (suc n)
  | false ↦ scan cs (within (c ∷ [])) n
]
scan (c ∷ cs) (within word) n = elim (is_blank c) [
  | true ↦ word ∷ scan cs between n
  | false ↦ scan cs (within (word ++ (c ∷ []))) n
]

unfoldable pub split : List ℕ → List (List ℕ)
unfolding scan
split line = scan line between (max_args - 1)
