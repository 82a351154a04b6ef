-- ===== src/Shell/Samples.antt =====
-- Commands and replies.
use vmdockerv.Base.{
  List, Text, [], arith, codes, err, errorf, join, ok, refl, some, status_marker_missing,
  trim_space, ◌++◌, ◌∷◌, ◌≡◌,
}
use vmdockerv.Shell.{
  parse_sandbox_curl_output, positive, replace_quotes, shell_escape, shell_escape_command,
  split_last, status_marker,
}
use vmdockerv.Shell.Escape.{shell_words-shell_escape_command}
use vmdockerv.Shell.Reply.{parse_sandbox_curl_output-reply, parse_sandbox_curl_output_blank}
use vmdockerv.Shell.Words.{shell_words}

abbrev awkward : List Text
awkward = codes "it's" ∷ [] ∷ codes "a b; rm -rf $HOME" ∷ []

escapes : shell_escape_command awkward ≡ codes "'it'\"'\"'s' '' 'a b; rm -rf $HOME'"
unfolding shell_escape_command shell_escape replace_quotes join
escapes = refl

shell_words-shell_escape_command_example : shell_words (shell_escape_command awkward) ≡ some awkward
shell_words-shell_escape_command_example = shell_words-shell_escape_command awkward

no_status : parse_sandbox_curl_output (codes "{}") ≡ err (errorf status_marker_missing)
unfolding parse_sandbox_curl_output split_last
no_status = refl

-- The body ends in a marker of its own.
parse_sandbox_curl_output-reply_example :
    parse_sandbox_curl_output (codes "a\n__STATUS__:500" ++ (status_marker ++ codes "200"))
    ≡ ok (positive 200, codes "a\n__STATUS__:500")
parse_sandbox_curl_output-reply_example =
    parse_sandbox_curl_output-reply (codes "a\n__STATUS__:500") 2 0 0 (omega arith) (omega arith)
      (omega arith)

-- A healthy runtime that answers with an empty body.
parse_sandbox_curl_output_blank_example :
    parse_sandbox_curl_output (trim_space (status_marker ++ codes "200"))
    ≡ err (errorf status_marker_missing)
parse_sandbox_curl_output_blank_example =
    parse_sandbox_curl_output_blank [] 2 0 0 refl (omega arith) (omega arith) (omega arith)
