-- ===== src/Base/Numbers.antt =====
-- Go's strconv.Atoi, which is strconv.ParseInt(s, 10, 64) where an int has 64 bits, and
-- strconv.ParseBool.
use Prim.Native.Nat.{ℕ, zero, suc, ◌+◌, ◌-◌, ◌*◌}
use mathlib.Core.Bool.{Bool, true, false, ◌&&◌, ◌||◌}
use mathlib.Core.List.{[], ◌∷◌}
use mathlib.Core.Option.{Option, none, some}
use Prim.Native.String.{String}
use text.Mathlib.Text.{◌==◌ as str_eq}
use merge_bot.Base.Tests.{ltb, leb, ◌==◌, if◌then◌else◌}
use merge_bot.Base.Strings.{Text}
use merge_bot.Base.Int.{ℤ, pos, negsuc, int64_half}

abbrev pub is_digit : ℕ → Bool
is_digit c = leb 48 c && leb c 57

-- The value of the digits behind those that were read; `none` if anything else stands there.
unfoldable pub digits_value : ℕ → Text → Option ℕ
digits_value acc [] = some acc
digits_value acc (c ∷ s) =
    let rest = digits_value (acc * 10 + (c - 48)) s in if is_digit c then rest else none

-- One digit at least.
unfoldable pub parse_digits : Text → Option ℕ
unfolding digits_value
parse_digits [] = none
parse_digits (c ∷ s) = digits_value 0 (c ∷ s)

-- A magnitude behind its sign, if it is in range.
abbrev pub positive : Option ℕ → Option ℤ
positive none = none
positive (some n) = if ltb n int64_half then some (pos n) else none

abbrev pub negate : ℕ → ℤ
negate zero = pos 0
negate (suc n) = negsuc n

abbrev pub negative : Option ℕ → Option ℤ
negative none = none
negative (some n) = if leb n int64_half then some (negate n) else none

unfoldable pub parse_int : Text → Option ℤ
unfolding parse_digits
parse_int [] = none
parse_int (c ∷ s) =
    if c == 43
    then positive (parse_digits s)
    else if c == 45
    then negative (parse_digits s)
    else positive (parse_digits (c ∷ s))

unfoldable pub parse_bool : String → Option Bool
parse_bool s =
    if str_eq s "1"
      || str_eq s "t"
      || str_eq s "T"
      || str_eq s "TRUE"
      || str_eq s "true"
      || str_eq s "True"
    then some true
    else if str_eq s "0"
        || str_eq s "f"
        || str_eq s "F"
        || str_eq s "FALSE"
        || str_eq s "false"
        || str_eq s "False"
    then some false
    else none
