-- ===== src/Client/Setup.antt =====
-- `URIProcess` of cmd/setup/uri.go, from the helper on.
use credential_helper.Base.{◌≡◌, refl, Option, none, some}
use credential_helper.Text.{Text}
use credential_helper.Errors.{Error, Result, ok, err, wrapped}

-- `api.URISetupper`, if a value implements it
abbrev pub Setupper : Type 0
Setupper = Option (Text → Text)

pub data SetupOutcome : Type 0 where
  printed : Text → SetupOutcome
  no_instructions : SetupOutcome
  fatal : Error → SetupOutcome

-- The authenticator as a `URISetupper`, and its resolver as one. The `ok` of the inner `if` is a
-- variable of its own, so the outer one stays false.
unfoldable pub uri_process : Setupper → Result Setupper → Text → SetupOutcome
uri_process (some instructions) resolver uri = printed (instructions uri)
uri_process none (err e) uri = fatal (wrapped "instantiating resolver" e)
uri_process none (ok instruction_giver) uri = no_instructions

-- The instructions of a resolver are never printed: a helper that has none of its own gets the
-- message that there are none, whatever its resolver offers.
pub resolver_instructions_unused :
    (a b : Setupper) (uri : Text) → uri_process none (ok a) uri ≡ uri_process none (ok b) uri
unfolding uri_process
resolver_instructions_unused a b uri = refl
