-- ===== src/Cache/Sqlite.antt =====
-- examples/customized/helper/cache/sqlitecache.go. A statement of SQL is the function on the rows
-- that it stands for; what the database answers to it is a parameter. The waits between attempts
-- are left out.
pub mod Laws
use credential_helper.Base.{
  ℕ, zero, suc, ◌+◌, Bool, true, false, not, ◌||◌, Option, none, some, List, [], ◌∷◌, if◌then◌else◌,
}
use credential_helper.Text.{Text, lit, text_eq, is_empty}
use credential_helper.Text.Affix.{contains}
use credential_helper.Text.Order.{text_leb}
use credential_helper.Text.Path.{join_path}
use credential_helper.Dict.{Dict}
use credential_helper.Errors.{Error, Result, ok, err, external, failure, cache_miss, ◌>>=◌, ◌>>◌}
use credential_helper.Api.{GetCredentialsResponse, CachableGetCredentialsResponse, Codec, Cache}
use credential_helper.Agent.Locate.{Machine, lookup_path_env}

-- `MaxRetries`
abbrev pub max_retries : ℕ
max_retries = 5

pub record Row (Raw : Type 0) : Type 0 where
  pub cache_key : Text
  pub get_credentials_response : Raw
  pub expires : Text

-- What the driver answers: an error with its text, or nothing.
pub record Driver : Type 0 where
  pub query : Option Text
  pub scan : Option Text
  pub prepare : Option Text
  -- the attempts of `stmt.Exec` in `Store`, from 0
  pub insert : ℕ → Option Text
  pub delete : Option Text

abbrev answered : Option Text → Result (Unit {0})
answered none = ok tt
answered (some text) = err (external text)

module _ {Raw : Type 0} where
  -- `SELECT get_credentials_response FROM credentials WHERE cache_key = ?`
  unfoldable pub select : Text → List (Row Raw) → List Raw
  select key [] = []
  select key (row ∷ rows) =
      let rest = select key rows in
      if text_eq row.cache_key key then row.get_credentials_response ∷ rest else rest

  unfoldable pub without : Text → List (Row Raw) → List (Row Raw)
  without key [] = []
  without key (row ∷ rows) =
      let rest = without key rows in if text_eq row.cache_key key then rest else row ∷ rest

  -- `INSERT OR REPLACE INTO credentials`, whose primary key is the cache key
  abbrev pub insert_or_replace : Row Raw → List (Row Raw) → List (Row Raw)
  insert_or_replace row rows = row ∷ without row.cache_key rows

  -- `DELETE FROM credentials WHERE expires >= ?`: the column keeps texts, and texts are compared by
  -- their bytes
  unfoldable pub delete_from : Text → List (Row Raw) → List (Row Raw)
  delete_from bound [] = []
  delete_from bound (row ∷ rows) =
      let rest = delete_from bound rows in if text_leb bound row.expires then rest else row ∷ rest

module _ {Raw : Type 0} (json : Codec CachableGetCredentialsResponse Raw) (driver : Driver) where
  -- the loop over the rows with what is behind it
  scanned : List Raw → Result GetCredentialsResponse
  scanned [] = err cache_miss
  scanned (raw ∷ []) = do
    answered driver.scan
    cached ← json.unmarshal (some raw)
    ok cached.response
  scanned (raw ∷ more ∷ rest) = do
    answered driver.scan
    err (failure "database returned more than one result for cache key")

  unfoldable pub retrieve : Text → List (Row Raw) → Result GetCredentialsResponse
  unfolding scanned
  retrieve key rows = do answered driver.query; scanned (select key rows)

  -- the loop of `Store`, with the attempts that are left and the number of the next one
  unfoldable pub attempts : Row Raw → List (Row Raw) → ℕ → ℕ → Result (Unit {0}) × List (Row Raw)
  attempts row rows zero i = (ok tt, rows)
  attempts row rows (suc n) i =
      let rest = attempts row rows n (i + 1) in
      elim (driver.insert i) [
        | none ↦ (ok tt, insert_or_replace row rows)
        | some text ↦
            if contains text (lit "SQLITE_BUSY") then rest else (err (external text), rows)
      ]

  unfoldable pub store :
      CachableGetCredentialsResponse → List (Row Raw) → Result (Unit {0}) × List (Row Raw)
  store value rows =
      if is_empty value.cache_key || is_empty value.response.expires
      then (ok tt, rows)
      else elim (json.marshal value) [
        | err e ↦ (err e, rows)
        | ok raw ↦ elim (answered driver.prepare) [
          | err e ↦ (err e, rows)
          | ok _ ↦
              let row : Row Raw = record {
                cache_key = value.cache_key;
                get_credentials_response = raw;
                expires = value.response.expires;
              } in
              attempts row rows max_retries 0
        ]
      ]

  -- `Prune`, with the text that the driver makes of `time.Now()`
  unfoldable pub prune : Text → List (Row Raw) → Result (Unit {0}) × List (Row Raw)
  prune now rows = elim (answered driver.prepare) [
    | err e ↦ (err e, rows)
    | ok _ ↦ elim (answered driver.delete) [
      | err e ↦ (err e, rows)
      | ok _ ↦ (ok tt, delete_from now rows)
    ]
  ]

-- `dbPath`
abbrev pub db_path : Machine → Dict Text → Text
db_path m env =
    lookup_path_env m env (lit "CREDENTIAL_HELPER_DB_PATH")
      (join_path (lit "%workdir%" ∷ lit "var" ∷ lit "database.sqlite" ∷ [])) false

-- `NewSqliteCache` with the errors of opening the file and of making the table; they end the
-- process. Told is, too, if the directory of the file is made. A table that is there stays.
unfoldable pub new_sqlite_cache :
    {Raw : Type 0}
    → Option Text
    → Option Text
    → Text
    → List (Row Raw)
    → Bool × Result (List (Row Raw))
new_sqlite_cache opened created db_file_path rows =
    (not (text_eq db_file_path (lit ":memory:")), do answered opened; answered created; ok rows)
