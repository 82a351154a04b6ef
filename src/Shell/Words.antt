-- ===== src/Shell/Words.antt =====
-- How a POSIX shell splits a command into words, for the characters that need no expansion. This is
-- written from the shell's rules, apart from the program's code.
use vmdockerv.Base.{
  Bool, List, Option, Text, [], if◌then◌else◌, none, some, ℕ, ◌++◌, ◌==◌, ◌||◌, ◌∷◌,
}
use vmdockerv.Shell.{double_quote, quote}
use mathlib.Core.Option

pub data Mode : Type 0 where
  between in_word in_single in_double : Mode

-- Blanks and tabs separate words.
abbrev is_blank_char : ℕ → Bool
is_blank_char c = c == b' ' || c == 9

-- Outside quotes these have meanings of their own, so that the text is no plain list of words.
has_meaning : ℕ → Bool
has_meaning c =
    c == 10
    || c == 92
    || c == b'$'
    || c == b'`'
    || c == b'|'
    || c == b'&'
    || c == b';'
    || c == b'<'
    || c == b'>'
    || c == b'('
    || c == b')'
    || c == b'*'
    || c == b'?'
    || c == b'['
    || c == b'#'
    || c == b'~'

-- In double quotes.
has_meaning_quoted : ℕ → Bool
has_meaning_quoted c = c == 92 || c == b'$' || c == b'`'

-- The words of a text, from a mode and the word that is being read; `none` where the text is not a
-- plain list of words.
unfoldable pub words_from : Mode → Text → Text → Option (List Text)
unfolding has_meaning has_meaning_quoted
words_from between word [] = some []
words_from in_word word [] = some (word ∷ [])
words_from in_single word [] = none
words_from in_double word [] = none
words_from between word (c ∷ s) =
    let blank = words_from between [] s in
    let single = words_from in_single [] s in
    let double = words_from in_double [] s in
    let plain = words_from in_word (c ∷ []) s in
    if is_blank_char c
    then blank
    else if c == quote
    then single
    else if c == double_quote
    then double
    else if has_meaning c
    then none
    else plain
words_from in_word word (c ∷ s) =
    let blank = Option.map (λ ws. word ∷ ws) (words_from between [] s) in
    let single = words_from in_single word s in
    let double = words_from in_double word s in
    let plain = words_from in_word (word ++ c ∷ []) s in
    if is_blank_char c
    then blank
    else if c == quote
    then single
    else if c == double_quote
    then double
    else if has_meaning c
    then none
    else plain
words_from in_single word (c ∷ s) =
    let closed = words_from in_word word s in
    let plain = words_from in_single (word ++ c ∷ []) s in if c == quote then closed else plain
words_from in_double word (c ∷ s) =
    let closed = words_from in_word word s in
    let plain = words_from in_double (word ++ c ∷ []) s in
    if c == double_quote then closed else if has_meaning_quoted c then none else plain

unfoldable pub shell_words : Text → Option (List Text)
shell_words s = words_from between [] s
