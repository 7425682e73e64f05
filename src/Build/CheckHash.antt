-- ===== src/Build/CheckHash.antt =====
-- examples/testing/check_file_hash/check_file_hash.go, over `sha256`, with the error of reading a
-- file, and its sum in hexadecimal.
use credential_helper.Base.{
  ℕ, suc, ◌+◌, ◌*◌, ◌%◌, ◌≡◌, ◌≢◌, ◌↔◌, refl, ap, subst, ◌∙◌, Bool, true, false, ◌||◌, List, [],
  ◌∷◌, arith, All, length, ltb, ◌==◌, if◌then◌else◌, inl, inr,
}
use credential_helper.Text.{Text, text_eq, text_eq_iff}
use credential_helper.Errors.{Result, ok, err, failure, restate, ◌>>=◌, guard, Result-cases, >>=-ok}
use credential_helper.Build.Files.{Files, Calls, open_file}

unless-ok :
    (usage : Bool) (checked : Result (Unit {0}))
    → (if usage then err (failure "Usage") else checked) ≡ ok tt
    → checked ≡ ok tt
unless-ok true checked h = absurd (ground arith)
unless-ok false checked h = h

module _ (calls : Calls) (sha256_hex : Text → Result Text) (files : Files) where
  -- `checkExpectedHash`
  unfoldable pub check_expected_hash : Text → Text → Result (Unit {0})
  check_expected_hash path expected = do
    i ← restate "opening file" (open_file calls path files)
    got ← restate "hashing file" (sha256_hex (files.contents i))
    guard (text_eq got expected) (failure "hash of file does not match expected hash")

  -- the loop of `main`; an index out of range is a panic
  unfoldable pub check_all : List Text → Result (Unit {0})
  unfolding check_expected_hash
  check_all [] = ok tt
  check_all (filename ∷ []) = err (failure "index out of range")
  check_all (filename ∷ expected ∷ args) =
      let rest = check_all args in check_expected_hash filename expected >>= λ _. rest

  -- `main`, with `os.Args`
  unfoldable pub main : List Text → Result (Unit {0})
  unfolding check_all
  main [] = err (failure "Usage")
  main (program ∷ args) =
      let len = length args + 1 in
      let checked = check_all args in
      if len % 2 == 0 || ltb len 3 then err (failure "Usage") else checked

  -- The file can be read and has that hash.
  abbrev pub HasHash : Text × Text → Type 0
  HasHash (path, expected) =
      (i : ℕ) × (open_file calls path files ≡ ok i) × (sha256_hex (files.contents i) ≡ ok expected)

  check_expected_hash_iff :
      (path expected : Text)
      → (check_expected_hash path expected ≡ ok tt) ↔ HasHash (path, expected)
  unfolding check_expected_hash
  check_expected_hash_iff path expected = (
    λ h. elim (Result-cases (open_file calls path files)) [
      | inr (e, fails) ↦ absurd (ground (arith, fails))
      | inl (i, opens) ↦ elim (Result-cases (sha256_hex (files.contents i))) [
        | inr (e, fails) ↦ absurd (ground (arith, opens, fails))
        | inl (got, sums) ↦ (i, opens, ground (arith, opens, sums, text_eq_iff got expected))
      ]
    ],
    λ (i, opens, sums). ground (arith, opens, sums, text_eq_iff expected expected),
  )

  abbrev pub flattened : List (Text × Text) → List Text
  flattened [] = []
  flattened ((path, expected) ∷ pairs) = path ∷ expected ∷ flattened pairs

  length-flattened : (pairs : List (Text × Text)) → length (flattened pairs) ≡ 2 * length pairs
  length-flattened [] = omega arith
  length-flattened (pair ∷ pairs) = omega (arith, length-flattened pairs)

  check_all_sound :
      (args : List Text)
      → check_all args ≡ ok tt
      → (pairs : List (Text × Text)) × (args ≡ flattened pairs) × All HasHash pairs
  unfolding check_all
  check_all_sound [] h = ([], refl, tt)
  check_all_sound (filename ∷ []) h = absurd (ground arith)
  check_all_sound (filename ∷ expected ∷ args) h =
      let (_, first, rest) =
        >>=-ok (check_expected_hash filename expected) (λ _. check_all args) h in
      let (pairs, parts, all) = check_all_sound args rest in
      (
        (filename, expected) ∷ pairs,
        ap (λ t. filename ∷ expected ∷ t) parts,
        ((check_expected_hash_iff filename expected).0 first, all),
      )

  check_all_complete :
      (pairs : List (Text × Text)) → All HasHash pairs → check_all (flattened pairs) ≡ ok tt
  unfolding check_all
  check_all_complete [] h = refl
  check_all_complete ((path, expected) ∷ pairs) (h, hs) =
      ground (arith, (check_expected_hash_iff path expected).1 h, check_all_complete pairs hs)

  main-nil : (program : Text) → main (program ∷ []) ≢ ok tt
  unfolding main
  main-nil program = ground arith

  is_used : (len n : ℕ) → len ≡ 2 * suc n → ((len + 1) % 2 == 0 || ltb (len + 1) 3) ≡ false
  is_used len n h = ground arith

  -- The program ends well exactly if its arguments are pairs of a file and a hash, at least one,
  -- and each file has its hash.
  pub main-HasHash_iff :
      (program : Text) (args : List Text)
      → (main (program ∷ args) ≡ ok tt) ↔ (
          (pairs : List (Text × Text)) × (pairs ≢ [])
          × (args ≡ flattened pairs)
          × All HasHash pairs)
  unfolding main
  main-HasHash_iff program args = (
    λ h.
        let (pairs, parts, all) = check_all_sound args (unless-ok _ (check_all args) h) in
        (
          pairs,
          λ empty.
              main-nil program
                (subst (λ rest. main (program ∷ rest) ≡ ok tt) (parts ∙ ap flattened empty) h),
          parts,
          all,
        ),
    λ (pairs, filled, parts, all).
        let (n, count) = positive pairs filled in
        let even =
          is_used (length args) n
            (ap length parts ∙ (length-flattened pairs ∙ ap (λ k. 2 * k) count)) in
        rw even (ap check_all parts ∙ check_all_complete pairs all),
  )
    where
      positive : (pairs : List (Text × Text)) → pairs ≢ [] → (n : ℕ) × (length pairs ≡ suc n)
      positive [] h = absurd (h refl)
      positive (pair ∷ pairs) h = (length pairs, refl)
