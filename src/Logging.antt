-- ===== src/Logging.antt =====
-- logging/logging.go. What is written to the standard error is the list of its lines.
pub mod Syslog
use credential_helper.Base.{
  ℕ, ◌≡◌, refl, Bool, true, false, Option, none, some, List, [], ◌∷◌, ◌++◌, if◌then◌else◌, ◌==◌,
  ltb,
}
use credential_helper.Base.Int.{ℤ}
use credential_helper.Text.{Text, lit, text_eq, to_lower}
use credential_helper.Text.Affix.{has_suffix}

pub data LogLevel : Type 0 where
  log_level_off log_level_basic log_level_debug : LogLevel

-- `level >= bound`
abbrev pub reaches : LogLevel → LogLevel → Bool
reaches level log_level_off = true
reaches log_level_off log_level_basic = false
reaches level log_level_basic = true
reaches log_level_debug log_level_debug = true
reaches level log_level_debug = false

abbrev numbered : ℕ → LogLevel
numbered n = if n == 0 then log_level_off else if n == 1 then log_level_basic else log_level_debug

unfoldable pub bounded_log_level : ℤ → LogLevel
bounded_log_level (ℤ.negsuc n) = log_level_off
bounded_log_level (ℤ.pos n) = if ltb 2 n then log_level_debug else numbered n

-- `FromString`, with `strconv.Atoi` as a parameter
unfoldable pub from_string : (Text → Option ℤ) → Text → LogLevel
from_string atoi s = elim (atoi s) [
  | some numeric ↦ bounded_log_level numeric
  | none ↦
      if text_eq (to_lower s) (lit "off")
      then log_level_off
      else if text_eq (to_lower s) (lit "basic")
      then log_level_basic
      else if text_eq (to_lower s) (lit "debug")
      then log_level_debug
      else log_level_off
]

unfoldable pub fmt_with_newline : Text → Text
fmt_with_newline format = if has_suffix format (lit "\n") then format else format ++ lit "\n"

-- `fmt.Fprintf` is a parameter.
module _ {Arg : Type 0} (sprintf : Text → List Arg → Text) where
  abbrev f_print_out : Text → List Arg → List Text → List Text
  f_print_out format args stderr = stderr ++ sprintf (fmt_with_newline format) args ∷ []

  unfoldable pub debugf : LogLevel → Text → List Arg → List Text → List Text
  debugf level format args stderr =
      if reaches level log_level_debug then f_print_out format args stderr else stderr

  unfoldable pub basicf : LogLevel → Text → List Arg → List Text → List Text
  basicf level format args stderr =
      if reaches level log_level_basic then f_print_out format args stderr else stderr

  abbrev pub errorf : Text → List Arg → List Text → List Text
  errorf format args stderr = f_print_out format args stderr

  -- `Fatalf`, which ends the process with the status beside what it wrote
  abbrev pub fatalf : Text → List Arg → List Text → ℕ × List Text
  fatalf format args stderr = (1, f_print_out format args stderr)

abbrev no_number : Text → Option ℤ
no_number s = none

from_string_test :
    (from_string no_number (lit "DEBUG") ≡ log_level_debug)
    × (from_string no_number (lit "loud") ≡ log_level_off)
    × (bounded_log_level (ℤ.pos 7) ≡ log_level_debug)
unfolding from_string bounded_log_level lit to_lower text_eq
from_string_test = (refl, refl, refl)
