-- ===== src/Cache/Sqlite/Laws.antt =====
-- What the cache in a database does with an entry: it is read until a prune that takes it for valid,
-- and it is lost without an error where the database is busy.
use credential_helper.Base.{
  ℕ, zero, suc, ◌+◌, ◌<◌, ◌≡◌, ◌≢◌, ◌⊎◌, refl, sym, ap, subst, ◌∙◌, true, false, none, some, List,
  [], ◌∷◌, ◌++◌, arith, if◌then◌else◌, inl, inr, length,
}
use native.Mathlib.Decide.{dec_lt}
use credential_helper.Text.{Text, lit, text_eq_refl}
use credential_helper.Text.Order.{text_leb}
use credential_helper.Text.Affix.{contains}
use credential_helper.Errors.{ok, err, cache_miss}
use credential_helper.Api.{CachableGetCredentialsResponse, Codec, IsLossless}
use credential_helper.Cache.Sqlite.{
  Row, Driver, max_retries, select, without, delete_from, retrieve, attempts, store, prune,
}

-- No statement fails.
pub record Works (driver : Driver) : Type 0 where
  pub query : driver.query ≡ none
  pub scan : driver.scan ≡ none
  pub prepare : driver.prepare ≡ none
  pub insert : driver.insert 0 ≡ none
  pub delete : driver.delete ≡ none

module _ {Raw : Type 0} where
  select-without : (key : Text) (rows : List (Row Raw)) → select key (without key rows) ≡ []
  unfolding select without
  select-without key [] = refl
  select-without key (row ∷ rows) = ground (arith, select-without key rows)

  select-delete_from :
      (bound : Text) (key : Text) (rows : List (Row Raw))
      → select key rows ≡ []
      → select key (delete_from bound rows) ≡ []
  unfolding select delete_from
  select-delete_from bound key [] h = refl
  select-delete_from bound key (row ∷ rows) h = ground (arith, select-delete_from bound key rows)

-- A time as the driver writes it has a blank behind the day, one of RFC 3339 has a "T": between them
-- the days decide, and on the same day the blank comes first.
text_leb_days :
    (day day' clock clock' : Text)
    → length day ≡ length day'
    → text_leb (day ++ b' ' ∷ clock) (day' ++ b'T' ∷ clock') ≡ text_leb day day'
unfolding text_leb
text_leb_days [] [] clock clock' same = refl
text_leb_days [] (d ∷ day') clock clock' same = absurd (omega arith)
text_leb_days (c ∷ day) [] clock clock' same = absurd (omega arith)
text_leb_days (c ∷ day) (d ∷ day') clock clock' same =
    ground (arith, text_leb_days day day' clock clock' (omega arith))

stamp-ne-nil : (day clock : Text) → day ++ b'T' ∷ clock ≢ []
stamp-ne-nil [] clock e = ground arith
stamp-ne-nil (d ∷ day) clock e = ground arith

-- At the first place where they differ, the one has the smaller byte.
abbrev pub IsBefore : Text → Text → Type 0
IsBefore s t =
    (common : Text) × (a : ℕ) × (b : ℕ) × (s' : Text) × (t' : Text) × (s ≡ common ++ a ∷ s')
    × (t ≡ common ++ b ∷ t')
    × (a < b)

IsBefore-cons : (c : ℕ) {s t : Text} → IsBefore s t → IsBefore (c ∷ s) (c ∷ t)
IsBefore-cons c (common, a, b, s', t', is, is', lt) =
    (c ∷ common, a, b, s', t', ap (λ u. c ∷ u) is, ap (λ u. c ∷ u) is', lt)

text_leb-cases :
    (s t : Text)
    → length s ≡ length t
    → (((s ≡ t) ⊎ IsBefore s t) × (text_leb s t ≡ true)) ⊎ (IsBefore t s × (text_leb s t ≡ false))
unfolding text_leb
text_leb-cases [] [] same = inl (inl refl, refl)
text_leb-cases [] (y ∷ t) same = absurd (omega arith)
text_leb-cases (x ∷ s) [] same = absurd (omega arith)
text_leb-cases (x ∷ s) (y ∷ t) same = elim (dec_lt x y) [
  | yes lt ↦ inl (inr ([], x, y, s, t, refl, refl, lt), ground arith)
  | no ge ↦ elim (dec_lt y x) [
    | yes gt ↦ inr (([], y, x, t, s, refl, refl, gt), ground arith)
    | no le ↦
        let is : x ≡ y = omega (arith, ge, le) in
        elim (text_leb-cases s t (omega arith)) [
          | inl (inl equal, leb) ↦ inl (inl (ground arith), ground arith)
          | inl (inr before, leb) ↦ inl (
            inr (subst (λ z. IsBefore (x ∷ s) (z ∷ t)) is (IsBefore-cons x before)),
            ground arith,
          )
          | inr (before, leb) ↦
              inr (subst (λ z. IsBefore (z ∷ t) (x ∷ s)) is (IsBefore-cons x before), ground arith)
        ]
  ]
]

module _ {Raw : Type 0} (json : Codec CachableGetCredentialsResponse Raw)
    (lossless : IsLossless json) (driver : Driver) where
  pruned :
      (now : Text) (value : CachableGetCredentialsResponse) (rows : List (Row Raw))
      → Works driver
      → value.cache_key ≢ []
      → value.response.expires ≢ []
      → retrieve json driver value.cache_key
          (prune json driver now (store json driver value rows).1).1
        ≡ (if text_leb now value.response.expires then err cache_miss else ok value.response)
  unfolding retrieve store attempts prune select delete_from
  pruned now value rows w k e =
      let (raw, written, read) = lossless value in
      ground (
        arith,
        w.query,
        w.scan,
        w.prepare,
        w.insert,
        w.delete,
        written,
        read,
        text_eq_refl value.cache_key,
        select-delete_from now value.cache_key (without value.cache_key rows)
            (select-without value.cache_key rows),
      )

  -- Where the database carries out every statement, the JSON codec is lossless and the driver writes
  -- the time of a prune as a day, a blank and a clock time, an entry with a key and an expiry time of
  -- RFC 3339 that `Store` took, whose day is written at the same length, is missed after the prune if
  -- it expires on that day or a later one, and is read if it expired on an earlier day.
  pub retrieve-prune_store :
      (day clock expiry_day expiry_clock : Text) (value : CachableGetCredentialsResponse)
      (rows : List (Row Raw))
      → Works driver
      → value.cache_key ≢ []
      → value.response.expires ≡ expiry_day ++ b'T' ∷ expiry_clock
      → length day ≡ length expiry_day
      → let result =
          retrieve json driver value.cache_key
            (prune json driver (day ++ b' ' ∷ clock) (store json driver value rows).1).1 in
        (((day ≡ expiry_day) ⊎ IsBefore day expiry_day) × (result ≡ err cache_miss))
        ⊎ (IsBefore expiry_day day × (result ≡ ok value.response))
  retrieve-prune_store day clock expiry_day expiry_clock value rows w k e same =
      let now = day ++ b' ' ∷ clock in
      let at : text_leb now value.response.expires ≡ text_leb day expiry_day =
        ap (text_leb now) e ∙ text_leb_days day expiry_day clock expiry_clock same in
      let law =
        pruned now value rows w k
          (λ missing. stamp-ne-nil expiry_day expiry_clock (sym e ∙ missing)) in
      elim (text_leb-cases day expiry_day same) [
        | inl (later, leb) ↦ inl (later, ground (arith, law, at, leb))
        | inr (earlier, leb) ↦ inr (earlier, ground (arith, law, at, leb))
      ]

  attempts_busy :
      (row : Row Raw) (rows : List (Row Raw)) (n i : ℕ)
      → ((j : ℕ)
          → j < i + n
          → (text : Text) × (driver.insert j ≡ some text)
            × (contains text (lit "SQLITE_BUSY") ≡ true))
      → attempts json driver row rows n i ≡ (ok tt, rows)
  unfolding attempts
  attempts_busy row rows zero i busy = refl
  attempts_busy row rows (suc n) i busy =
      let (text, failed, matches) = busy i (omega arith) in
      ground (
        arith,
        failed,
        matches,
        attempts_busy row rows n (i + 1) (λ j l. busy j (omega (arith, l))),
      )

  -- Where the statement is prepared, the database is busy at every attempt and the JSON codec is
  -- lossless, `Store` returns no error and leaves the table as it is.
  pub store_busy :
      (value : CachableGetCredentialsResponse) (rows : List (Row Raw))
      → driver.prepare ≡ none
      → ((j : ℕ)
          → j < max_retries
          → (text : Text) × (driver.insert j ≡ some text)
            × (contains text (lit "SQLITE_BUSY") ≡ true))
      → store json driver value rows ≡ (ok tt, rows)
  unfolding store
  store_busy value rows prepared busy =
      let (raw, written, read) = lossless value in
      ground (
        arith,
        prepared,
        written,
        attempts_busy
            (record {
              cache_key = value.cache_key;
              get_credentials_response = raw;
              expires = value.response.expires;
            })
            rows max_retries 0 (λ j l. busy j (omega (arith, l))),
      )
