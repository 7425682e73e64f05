-- ===== src/Authenticate/Oci/Challenge/Ends.antt =====
-- Reading a challenge ends within its fuel.
use credential_helper.Base.{
  ℕ, zero, suc, ◌+◌, ◌≡◌, ◌≤◌, ◌<◌, some, [], ◌∷◌, arith, length, ◌⊎◌, Option-cases, inl, inr, true,
  false,
}
use credential_helper.Text.{Text, lit}
use credential_helper.Text.Affix.{cut_prefix, cut_prefix_sound, has_prefix}
use credential_helper.Text.Parts.{split_first}
use credential_helper.Dict.{Dict, insert}
use credential_helper.Errors.{ok, err, failure}
use credential_helper.Authenticate.Oci.Challenge.{
  Unquote, consume_key, split_token, consume_token, consume_quoted, consume_token_or_quoted,
  consume_kv, challenge_loop, parse_www_authenticate,
}

-- What is left behind a quoted prefix is no longer than the input.
abbrev pub IsShortening : Unquote → Type 0
IsShortening unquote =
    (input value rest : Text) → unquote input ≡ some (value, rest) → length rest ≤ length input

length-split_first :
    (sep : ℕ) (s before after : Text)
    → split_first sep s ≡ some (before, after)
    → length after ≤ length s
unfolding split_first
length-split_first sep [] before after h = absurd (ground arith)
length-split_first sep (c ∷ s) before after h = elim (Option-cases (split_first sep s)) [
  | inl missing ↦ ground arith
  | inr ((a, b), found) ↦ ground (arith, length-split_first sep s a b found)
]

length-split_token : (s : Text) → length (split_token s).1 ≤ length s
unfolding split_token
length-split_token [] = omega arith
length-split_token (c ∷ s) = ground (arith, length-split_token s)

length-consume_key : (s : Text) → length (consume_key s).1 ≤ length s
unfolding consume_key
length-consume_key s = elim (Option-cases (split_first b'=' s)) [
  | inl missing ↦ rw (missing, consume_key) (omega arith)
  | inr ((a, b), found) ↦ rw (found, consume_key) (length-split_first b'=' s a b found)
]

module _ (unquote : Unquote) (shortens : IsShortening unquote) where
  length-consume_token_or_quoted :
      (s : Text) → length (consume_token_or_quoted unquote s).1 ≤ length s
  unfolding consume_token_or_quoted consume_token consume_quoted
  length-consume_token_or_quoted s = elim (Option-cases (unquote s)) [
    | inl missing ↦ ground (arith, length-split_token s)
    | inr ((a, b), found) ↦ ground (arith, length-split_token s, shortens s a b found)
  ]

  length-consume_kv : (s : Text) → length (consume_kv unquote s).2 ≤ length s
  unfolding consume_kv
  length-consume_kv s =
      ground (arith, length-consume_key s, length-consume_token_or_quoted (consume_key s).1)

  challenge_loop_ends :
      (f : ℕ) (header : Text) (result : Dict Text)
      → length header < f
      → (d : Dict Text) × (challenge_loop unquote f header result ≡ some d)
  unfolding challenge_loop
  challenge_loop_ends zero header result h = absurd (omega arith)
  challenge_loop_ends (suc f) header result h =
      elim (Option-cases (cut_prefix header (b',' ∷ []))) [
        | inl stops ↦ (result, rw (stops, challenge_loop))
        | inr (input, found) ↦
            let (key, value, rest) = consume_kv unquote input in
            let shorter : length rest < f =
              ground (arith, length-consume_kv input, cut_prefix_sound header (b',' ∷ []) found) in
            let (d, e) = challenge_loop_ends f rest (insert key value result) shorter in
            (d, rw (found, challenge_loop) e)
      ]

  -- `parseWWWAuthenticate` returns for every header: with parameters if it begins with "Bearer ",
  -- and with an error otherwise, if unquoting never lengthens its input.
  pub parse_www_authenticate_ends :
      (header : Text)
      → ((has_prefix header (lit "Bearer ") ≡ true)
          × ((d : Dict Text) × (parse_www_authenticate unquote header ≡ ok (some d))))
        ⊎ ((has_prefix header (lit "Bearer ") ≡ false)
            × (parse_www_authenticate unquote header ≡ err (failure "unexpected auth type")))
  unfolding parse_www_authenticate has_prefix
  parse_www_authenticate_ends header = elim (Option-cases (cut_prefix header (lit "Bearer "))) [
    | inl other ↦ inr (ground arith, ground arith)
    | inr (values, found) ↦
        let (d, e) = challenge_loop_ends (length values + 2) (b',' ∷ values) [] (omega arith) in
        inl (ground arith, (d, rw (found, parse_www_authenticate, e)))
  ]
