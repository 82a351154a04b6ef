-- ===== src/Shell/Escape.antt =====
-- A shell reads an escaped text back as one word, whatever the text holds.
use vmdockerv.Base.{
  ==_iff, Bool-cases, List, Text, [], ap, append-nil, append_assoc, codes, inl, inr, join, map,
  refl, some, sym, ◌++◌, ◌==◌, ◌∙◌, ◌∷◌, ◌≡◌,
}
use vmdockerv.Shell.{quote, replace_quotes, shell_escape, shell_escape_command}
use vmdockerv.Shell.Words.{between, in_single, in_word, shell_words, words_from}
use mathlib.Core.Option

words_from-replace_quotes :
    (v word rest : Text)
    → words_from in_single word (replace_quotes v ++ quote ∷ rest)
      ≡ words_from in_word (word ++ v) rest
unfolding words_from replace_quotes
words_from-replace_quotes [] word rest = rw append-nil
words_from-replace_quotes (c ∷ v) word rest = elim (Bool-cases (c == quote)) [
  | inl e ↦ rw e (
      words_from-replace_quotes v (word ++ quote ∷ []) rest
      ∙ ap (λ w. words_from in_word w rest) (append_assoc word (quote ∷ []) v)
      ∙ ap (λ d. words_from in_word (word ++ d ∷ v) rest) (sym ((==_iff c quote).0 e)))
  | inr e ↦
      rw (e, e)
        (words_from-replace_quotes v (word ++ c ∷ []) rest
          ∙ ap (λ w. words_from in_word w rest) (append_assoc word (c ∷ []) v))
]

words_from-shell_escape :
    (v rest : Text) → words_from between [] (shell_escape v ++ rest) ≡ words_from in_word v rest
unfolding words_from shell_escape
words_from-shell_escape [] rest = refl
words_from-shell_escape (c ∷ v) rest =
    ap (λ s. words_from in_single [] s) (append_assoc (replace_quotes (c ∷ v)) (quote ∷ []) rest)
    ∙ words_from-replace_quotes (c ∷ v) [] rest

words_from-join :
    (args : List Text)
    → words_from between [] (join (map shell_escape args) (codes " ")) ≡ some args
unfolding join words_from
words_from-join [] = refl
words_from-join (v ∷ []) =
    ap (words_from between []) (sym (append-nil (shell_escape v))) ∙ words_from-shell_escape v []
words_from-join (v ∷ w ∷ args) =
    words_from-shell_escape v (b' ' ∷ join (map shell_escape (w ∷ args)) (codes " "))
    ∙ ap (Option.map (λ ws. v ∷ ws)) (words_from-join (w ∷ args))

-- Each argument of an escaped command is read back as one word: quotes, blanks, newlines and the
-- shell's special characters in it change nothing.
pub shell_words-shell_escape_command :
    (args : List Text) → shell_words (shell_escape_command args) ≡ some args
unfolding shell_words shell_escape_command
shell_words-shell_escape_command args = words_from-join args
