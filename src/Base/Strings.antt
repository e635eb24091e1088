-- ===== src/Base/Strings.antt =====
-- Free text (messages, comment bodies) as the list of its code points.
use Prim.Native.Nat.{ℕ, zero, suc, ◌+◌, ◌/◌, ◌%◌}
use Prim.Native.Char.{code}
use Prim.Native.String.{String}
use mathlib.Core.Bool.{◌||◌}
use mathlib.Core.List.{List, [], ◌∷◌, ◌++◌}
use merge_bot.Base.Tests.{ltb, ◌==◌, if◌then◌else◌}

abbrev pub Text : Type 0
Text = List ℕ

abbrev pub codes : String → Text
codes String.[] = []
codes (String.◌∷◌ c s) = code c ∷ codes s

-- The decimal digits of a number, on fuel: a number has fewer digits than its successor.
digits : ℕ → ℕ → Text → Text
digits zero n acc = acc
digits (suc fuel) n acc =
    let rest = digits fuel (n / 10) ((48 + n % 10) ∷ acc) in
    if ltb n 10 then (48 + n % 10) ∷ acc else rest

-- `%d` of a number that is not negative.
unfoldable pub show : ℕ → Text
unfolding digits
show n = digits (suc n) n []

abbrev hex_digit : ℕ → ℕ
hex_digit d = if ltb d 10 then 48 + d else 87 + d

-- A character between quotes, as `%q` writes it. Characters past 127 count as printable.
quoted_char : ℕ → Text
quoted_char c =
    if c == b'"'
    then codes "\\\""
    else if c == 92
    then codes "\\\\"
    else if c == 7
    then codes "\\a"
    else if c == 8
    then codes "\\b"
    else if c == 9
    then codes "\\t"
    else if c == 10
    then codes "\\n"
    else if c == 11
    then codes "\\v"
    else if c == 12
    then codes "\\f"
    else if c == 13
    then codes "\\r"
    else if ltb c 32 || c == 127
    then codes "\\x" ++ hex_digit (c / 16) ∷ hex_digit (c % 16) ∷ []
    else c ∷ []

quoted_chars : Text → Text
unfolding quoted_char
quoted_chars [] = []
quoted_chars (c ∷ s) = quoted_char c ++ quoted_chars s

-- `%q` of a string.
unfoldable pub quote : String → Text
unfolding quoted_chars
quote s = b'"' ∷ (quoted_chars (codes s) ++ b'"' ∷ [])
