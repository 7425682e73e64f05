-- ===== src/Authenticate/Oci/Challenge.antt =====
-- `parseWWWAuthenticate` of authenticate/oci/oauth.go. `strconv.QuotedPrefix` with `Unquote` is a
-- parameter: the unquoted text at the front of the input, and the input behind it.
pub mod Ends
use credential_helper.Base.{
  ℕ, zero, suc, ◌+◌, String, Bool, ◌||◌, Option, none, some, [], ◌∷◌, if◌then◌else◌, ◌==◌, length,
}
use credential_helper.Text.{Text, lit, is_empty, trim_space}
use credential_helper.Text.Affix.{cut_prefix, has_prefix}
use credential_helper.Text.Parts.{split_first}
use credential_helper.Dict.{Dict, insert}
use credential_helper.Errors.{Result, ok, err, failure}

abbrev pub Unquote : Type 0
Unquote = Text → Option (Text × Text)

unfoldable pub consume_key : Text → Text × Text
consume_key input = elim (split_first b'=' input) [
  | none ↦ (input, [])
  | some (key, rest) ↦ (trim_space key, rest)
]

-- one of ", \t\r\n"
abbrev pub ends_token : ℕ → Bool
ends_token c = c == b',' || c == b' ' || c == b'\t' || c == b'\r' || c == b'\n'

-- the text before the first byte that ends a token, and the text behind that byte
unfoldable pub split_token : Text → Text × Text
split_token [] = ([], [])
split_token (c ∷ input) =
    let (before, after) = split_token input in
    if ends_token c then ([], input) else (c ∷ before, after)

unfoldable pub consume_token : Text → Text × Text
consume_token input = let (before, after) = split_token input in (trim_space before, after)

module _ (unquote : Unquote) where
  unfoldable pub consume_quoted : Text → Text × Text
  consume_quoted input = elim (unquote input) [ none ↦ ([], input) | some found ↦ found ]

  unfoldable pub consume_token_or_quoted : Text → Text × Text
  consume_token_or_quoted input =
      if has_prefix input (b'"' ∷ []) then consume_quoted input else consume_token input

  -- the key, the value and the input that is left
  unfoldable pub consume_kv : Text → Text × Text × Text
  consume_kv input =
      let (key, rest) = consume_key input in
      let (value, rest') = consume_token_or_quoted rest in
      if is_empty key then ([], [], rest) else (key, value, rest')

  -- the loop, on fuel; a `none` belongs to the model only
  unfoldable pub challenge_loop : ℕ → Text → Dict Text → Option (Dict Text)
  challenge_loop zero header result = none
  challenge_loop (suc f) header result = elim (cut_prefix header (b',' ∷ [])) [
    | none ↦ some result
    | some input ↦
        let (key, value, rest) = consume_kv input in challenge_loop f rest (insert key value result)
  ]

  -- `none` is a loop that does not end in its fuel
  unfoldable pub parse_www_authenticate : Text → Result (Option (Dict Text))
  parse_www_authenticate header = elim (cut_prefix header (lit "Bearer ")) [
    | none ↦ err (failure "unexpected auth type")
    | some values ↦ ok (challenge_loop (length values + 2) (b',' ∷ values) [])
  ]
