-- ===== src/Errors.antt =====
-- Go's `error` values, as far as the program looks into them, and functions that may return one.
-- The arguments that a format string interpolates are left out of the message.
use credential_helper.Base.{String, ◌≡◌, refl, arith, Bool, true, false, ◌||◌, ◌⊎◌, inl, inr}
use credential_helper.Text.{Text}

mutual
  pub data Error : Type 0 where
    -- `api.CacheMiss`
    cache_miss : Error
    -- `config.ErrConfigNotFound`
    config_not_found : Error
    -- `*lookupchain.NotFoundErr` with its reason
    not_found : String → Error
    -- `errors.New`, `fmt.Errorf` with no `%w`
    failure : String → Error
    -- an error of the operating system, the network or a library
    external : Text → Error
    -- `fmt.Errorf` with `%w`
    wrapped : String → Error → Error
    -- `errors.Join`
    joined : Errors → Error

  pub data Errors : Type 0 where
    none : Errors
    more : Error → Errors → Errors

unfoldable mutual
  -- `errors.Is(err, api.CacheMiss)`
  pub is_cache_miss : Error → Bool
  is_cache_miss cache_miss = true
  is_cache_miss (wrapped what e) = is_cache_miss e
  is_cache_miss (joined es) = any_cache_miss es
  is_cache_miss _ = false

  pub any_cache_miss : Errors → Bool
  any_cache_miss none = false
  any_cache_miss (more e es) = is_cache_miss e || any_cache_miss es

unfoldable mutual
  -- `IsNotFoundErr`
  pub is_not_found_err : Error → Bool
  is_not_found_err (not_found reason) = true
  is_not_found_err (wrapped what e) = is_not_found_err e
  is_not_found_err (joined es) = any_not_found_err es
  is_not_found_err _ = false

  pub any_not_found_err : Errors → Bool
  any_not_found_err none = false
  any_not_found_err (more e es) = is_not_found_err e || any_not_found_err es

pub data Result {ℓ} (A : Type ℓ) : Type ℓ where
  ok : A → Result A
  err : Error → Result A

-- an early `return` of an error
abbrev pub guard : Bool → Error → Result (Unit {0})
guard false e = err e
guard true e = ok tt

-- `fmt.Errorf("what: %w", err)`
abbrev pub wrap {ℓ} : {A : Type ℓ} → String → Result A → Result A
wrap what (ok a) = ok a
wrap what (err e) = err (wrapped what e)

-- `fmt.Errorf("what: %v", err)`
abbrev pub restate {ℓ} : {A : Type ℓ} → String → Result A → Result A
restate what (ok a) = ok a
restate what (err e) = err (failure what)

-- `if err != nil { return err }`, and the rest of the function
infixl 5 ◌>>=◌
abbrev pub ◌>>=◌ {ℓ κ} : {A : Type ℓ} {B : Type κ} → Result A → (A → Result B) → Result B
err e >>= rest = err e
ok value >>= rest = rest value

infixl 5 ◌>>◌
abbrev pub ◌>>◌ {κ} : {B : Type κ} → Result (Unit {0}) → Result B → Result B
first >> rest = first >>= λ done. rest

-- the same for functions that change a state
infixl 5 ◌>>>◌
abbrev pub ◌>>>◌ {ℓ κ} :
    {A : Type ℓ} {B : Type κ} {S : Type 0} → Result A × S → (A → S → Result B × S) → Result B × S
(result, state) >>> rest = elim result [ err e ↦ (err e, state) | ok value ↦ rest value state ]

pub Result-cases {ℓ} :
    {A : Type ℓ} (r : Result A) → ((a : A) × (r ≡ ok a)) ⊎ ((e : Error) × (r ≡ err e))
Result-cases (ok a) = inl (a, refl)
Result-cases (err e) = inr (e, refl)

-- A chain that ends well has gone through.
pub >>=-ok {ℓ κ} :
    {A : Type ℓ} {B : Type κ} (r : Result A) (f : A → Result B) {b : B}
    → (r >>= f) ≡ ok b
    → (a : A) × (r ≡ ok a) × (f a ≡ ok b)
>>=-ok (ok a) f h = (a, refl, h)
>>=-ok (err e) f h = absurd (ground arith)

-- A result that is no error.
abbrev pub Succeeds {ℓ} : {A : Type ℓ} → Result A → Type ℓ
Succeeds {A = A} r = (a : A) × (r ≡ ok a)
