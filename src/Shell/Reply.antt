-- ===== src/Shell/Reply.antt =====
-- The reply of curl is read back as it was written.
use vmdockerv.Base.{
  Bool, Text, [], ap, append-nil, ap₂, arith, codes, drop_text-append, err, errorf, false,
  has_prefix-append, is_space, lacks, none, ok, refl, reverse, some, status_marker_missing,
  trim_left_func, trim_space, true, ℕ, ◌&&◌, ◌*◌, ◌++◌, ◌+◌, ◌<◌, ◌∙◌, ◌∷◌, ◌≡◌,
}
use vmdockerv.Shell.{
  atoi, parse_parts, parse_sandbox_curl_output, positive, split_last, status_marker, with_body,
}

split_last_absent : (m s : Text) (d : ℕ) → lacks d s ≡ true → split_last (d ∷ m) s ≡ none
unfolding split_last
split_last_absent m [] d h = refl
split_last_absent m (c ∷ s) d h = ground (arith, split_last_absent m s d)

-- A text that is found at its start and not later.
split_last_start :
    (m t : Text) (d : ℕ)
    → lacks d (m ++ t) ≡ true
    → split_last (d ∷ m) ((d ∷ m) ++ t) ≡ some ([], t)
unfolding split_last
split_last_start m t d h =
    rw (split_last_absent m (m ++ t) d h)
      (ground (arith, has_prefix-append m t, drop_text-append m t))

split_last-append :
    (m s t before behind : Text)
    → split_last m t ≡ some (before, behind)
    → split_last m (s ++ t) ≡ some (s ++ before, behind)
unfolding split_last
split_last-append m [] t before behind h = h
split_last-append m (c ∷ s) t before behind h =
    ground (arith, split_last-append m s t before behind h)

-- A three-digit status, as curl writes `%{http_code}`.
abbrev three_digits : ℕ → ℕ → ℕ → Text
three_digits a b c = (a + b'0') ∷ (b + b'0') ∷ (c + b'0') ∷ []

digit-is_space : (a : ℕ) → a < 10 → is_space (a + b'0') ≡ false
unfolding is_space
digit-is_space a h = ground arith

trim_space-three_digits :
    (a b c : ℕ) → a < 10 → b < 10 → c < 10 → trim_space (three_digits a b c) ≡ three_digits a b c
unfolding trim_space
trim_space-three_digits a b c ha hb hc = rw (digit-is_space a ha) (rw (digit-is_space c hc) refl)

atoi-three_digits :
    (a b c : ℕ)
    → a < 10
    → b < 10
    → c < 10
    → atoi (three_digits a b c) ≡ ok (positive (100 * a + 10 * b + c))
unfolding atoi
atoi-three_digits a b c ha hb hc = ground arith

-- Whatever the body holds, the marker itself included, the reply that curl writes gives back the body
-- and the status.
pub parse_sandbox_curl_output-reply :
    (body : Text) (a b c : ℕ)
    → a < 10
    → b < 10
    → c < 10
    → parse_sandbox_curl_output (body ++ (status_marker ++ three_digits a b c))
      ≡ ok (positive (100 * a + 10 * b + c), body)
unfolding parse_sandbox_curl_output
parse_sandbox_curl_output-reply body a b c ha hb hc =
    ap parse_parts (
      split_last-append status_marker body (status_marker ++ three_digits a b c) []
        (three_digits a b c)
        (split_last_start (codes "__STATUS__:") (three_digits a b c) 10 (ground arith)))
    ∙ ap₂ with_body (append-nil body)
        (ap atoi (trim_space-three_digits a b c ha hb hc) ∙ atoi-three_digits a b c ha hb hc)

abbrev pub all_space : Text → Bool
all_space [] = true
all_space (c ∷ s) = is_space c && all_space s

trim_left_func-all_space :
    (s t : Text) → all_space s ≡ true → trim_left_func is_space (s ++ t) ≡ trim_left_func is_space t
unfolding trim_left_func
trim_left_func-all_space [] t h = refl
trim_left_func-all_space (c ∷ s) t h = ground (arith, trim_left_func-all_space s t)

trim_left_func-reply :
    (a b c : ℕ)
    → trim_left_func is_space (status_marker ++ three_digits a b c)
      ≡ codes "__STATUS__:" ++ three_digits a b c
unfolding trim_left_func is_space
trim_left_func-reply a b c = refl

trim_space_lem :
    (s : Text)
    → trim_space s ≡ reverse (trim_left_func is_space (reverse (trim_left_func is_space s)))
unfolding trim_space
trim_space_lem s = refl

reverse_trimmed :
    (a b c : ℕ)
    → c < 10
    → reverse (trim_left_func is_space (reverse (codes "__STATUS__:" ++ three_digits a b c)))
      ≡ codes "__STATUS__:" ++ three_digits a b c
unfolding trim_left_func
reverse_trimmed a b c hc = rw (digit-is_space c hc) refl

-- The manager hands the reply on trimmed of white space at its ends. Then the reply to a request
-- whose body is empty or blank has lost the line break of its marker, and is refused.
pub parse_sandbox_curl_output_blank :
    (body : Text) (a b c : ℕ)
    → all_space body ≡ true
    → a < 10
    → b < 10
    → c < 10
    → parse_sandbox_curl_output (trim_space (body ++ (status_marker ++ three_digits a b c)))
      ≡ err (errorf status_marker_missing)
unfolding parse_sandbox_curl_output
parse_sandbox_curl_output_blank body a b c blank ha hb hc =
    ap (λ s. parse_parts (split_last status_marker s))
      (trim_space_lem (body ++ (status_marker ++ three_digits a b c))
        ∙ ap (λ s. reverse (trim_left_func is_space (reverse s)))
            (trim_left_func-all_space body (status_marker ++ three_digits a b c) blank
              ∙ trim_left_func-reply a b c)
        ∙ reverse_trimmed a b c hc)
    ∙ ap parse_parts (
        split_last_absent (codes "__STATUS__:") (codes "__STATUS__:" ++ three_digits a b c) 10
          (ground arith))
