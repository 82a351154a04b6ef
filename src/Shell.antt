-- ===== src/Shell.antt =====
-- vmdocker/vmdocker.go and vmdocker/runtimemanager/sandbox.go: the shell commands that the program
-- writes for a sandbox, and the reply of curl that it reads back.
pub mod Words
pub mod Escape
pub mod Reply
mod Samples
use vmdockerv.Base.{
  Bool, List, Option, Result, Text, [], codes, drop_text, err, errorf, false, has_prefix,
  if◌then◌else◌, join, leb, map, no_launch_command, none, number_out_of_range, number_syntax, ok,
  parse_status_failed, some, status_marker_missing, trim_space, true, wrapf, ℕ, ◌&&◌, ◌*◌, ◌++◌,
  ◌+◌, ◌-◌, ◌==◌, ◌^◌, ◌∷◌,
}

abbrev pub quote : ℕ
quote = 39

abbrev pub double_quote : ℕ
double_quote = 34

-- '"'"'
abbrev pub quoted_quote : Text
quoted_quote = quote ∷ double_quote ∷ quote ∷ double_quote ∷ quote ∷ []

-- strings.ReplaceAll(value, "'", "'\"'\"'")
unfoldable pub replace_quotes : Text → Text
replace_quotes [] = []
replace_quotes (c ∷ s) =
    let rest = replace_quotes s in if c == quote then quoted_quote ++ rest else c ∷ rest

-- `shellEscape`, and `shellEscapeArg` of the sandbox manager.
unfoldable pub shell_escape : Text → Text
shell_escape [] = quote ∷ quote ∷ []
shell_escape (c ∷ value) = quote ∷ (replace_quotes (c ∷ value) ++ quote ∷ [])

unfoldable pub shell_escape_command : List Text → Text
shell_escape_command args = join (map shell_escape args) (codes " ")

abbrev runtime_url : Text → Text
runtime_url path = codes "http://127.0.0.1:8080" ++ path

abbrev status_format : Text
status_format = codes "'\\n__STATUS__:%{http_code}'"

abbrev content_type : Text
content_type = codes "Content-Type: application/json"

unfoldable pub build_sandbox_curl_command : Text → Text → Text
unfolding shell_escape
build_sandbox_curl_command path payload =
    codes "curl -sS -X POST -H "
    ++ (shell_escape content_type
        ++ (codes " --data-raw "
            ++ (shell_escape payload
                ++ (codes " "
                    ++ (shell_escape (runtime_url path) ++ (codes " -w " ++ status_format))))))

unfoldable pub build_sandbox_curl_command_from_file : Text → Text → Text
unfolding shell_escape
build_sandbox_curl_command_from_file path payload_path =
    codes "curl -sS -X POST -H "
    ++ (shell_escape content_type
        ++ (codes " --data-binary @"
            ++ (shell_escape payload_path
                ++ (codes " "
                    ++ (shell_escape (runtime_url path) ++ (codes " -w " ++ status_format))))))

-- The image's ENTRYPOINT and CMD, in the background.
unfoldable pub build_sandbox_launch_command : List Text → List Text → Result Text
unfolding shell_escape_command
build_sandbox_launch_command entrypoint cmd = elim (entrypoint ++ cmd) [
  | [] ↦ err (errorf no_launch_command)
  | arg ∷ args ↦ ok (
      codes "mkdir -p \"${TMPDIR:-/tmp}\" && "
      ++ (shell_escape_command (arg ∷ args)
          ++ codes " >\"${TMPDIR:-/tmp}/vmdocker-agent.log\" 2>&1 &"))
]

abbrev pub status_marker : Text
status_marker = codes "\n__STATUS__:"

-- What stands before and behind the last occurrence of a text: strings.LastIndex.
unfoldable pub split_last : Text → Text → Option (Text × Text)
split_last marker [] = if has_prefix [] marker then some ([], drop_text [] marker) else none
split_last marker (c ∷ s) = elim (split_last marker s) [
  | some (before, behind) ↦ some (c ∷ before, behind)
  | none ↦ if has_prefix (c ∷ s) marker then some ([], drop_text (c ∷ s) marker) else none
]

-- strconv.Atoi on a 64-bit system; `negative n` is -n.
pub data ℤ : Type 0 where
  positive : ℕ → ℤ
  negative : ℕ → ℤ

abbrev is_digit : ℕ → Bool
is_digit c = leb b'0' c && leb c b'9'

unfoldable pub digits_value : ℕ → Text → Option ℕ
digits_value n [] = some n
digits_value n (c ∷ s) =
    let rest = digits_value (10 * n + (c - b'0')) s in if is_digit c then rest else none

abbrev decimal : Text → Option ℕ
decimal [] = none
decimal (c ∷ s) = digits_value 0 (c ∷ s)

abbrev within : ℕ → ℤ → ℕ → Result ℤ
within limit i n = if leb n limit then ok i else err (errorf number_out_of_range)

abbrev signed : Bool → Option ℕ → Result ℤ
signed minus none = err (errorf number_syntax)
signed true (some n) = within (2 ^ 63) (negative n) n
signed false (some n) = within (2 ^ 63 - 1) (positive n) n

unfoldable pub atoi : Text → Result ℤ
unfolding digits_value
atoi [] = err (errorf number_syntax)
atoi (c ∷ s) =
    if c == b'-'
    then signed true (decimal s)
    else if c == b'+'
    then signed false (decimal s)
    else signed false (decimal (c ∷ s))

abbrev pub with_body : Text → Result ℤ → Result (ℤ × Text)
with_body body (ok status) = ok (status, body)
with_body body (err e) = err (wrapf parse_status_failed e)

abbrev pub parse_parts : Option (Text × Text) → Result (ℤ × Text)
parse_parts none = err (errorf status_marker_missing)
parse_parts (some (body, status)) = with_body body (atoi (trim_space status))

-- The status that curl writes behind the marker, and the body before it.
unfoldable pub parse_sandbox_curl_output : Text → Result (ℤ × Text)
parse_sandbox_curl_output output = parse_parts (split_last status_marker output)
