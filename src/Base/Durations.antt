-- ===== src/Base/Durations.antt =====
-- Go's time.Duration, not negative and in nanoseconds, and its text.
use Prim.Native.Nat.{ℕ, zero, suc, ◌+◌, ◌*◌, ◌/◌, ◌%◌}
use mathlib.Core.List.{[], ◌∷◌, ◌++◌}
use merge_bot.Base.Tests.{ltb, ◌==◌, if◌then◌else◌}
use merge_bot.Base.Strings.{Text, codes, show}

abbrev pub second : ℕ
second = 1_000_000_000

-- The last `n` decimal digits.
last_digits : ℕ → ℕ → Text
last_digits zero v = []
last_digits (suc n) v = last_digits n (v / 10) ++ (48 + v % 10) ∷ []

trim_zeros : Text → Text
trim_zeros [] = []
trim_zeros (d ∷ ds) =
    let rest = trim_zeros ds in
    elim rest [ [] ↦ if d == 48 then [] else d ∷ [] | z ∷ zs ↦ d ∷ z ∷ zs ]

-- The fraction `v / 10^n` with its point, or nothing if it is zero.
fraction : ℕ → ℕ → Text
unfolding last_digits trim_zeros
fraction n v = elim (trim_zeros (last_digits n v)) [ [] ↦ [] | d ∷ ds ↦ b'.' ∷ d ∷ ds ]

-- Duration.String
unfoldable pub duration_text : ℕ → Text
unfolding fraction
duration_text d =
    if d == 0
    then codes "0s"
    else if ltb d 1_000
    then show d ++ codes "ns"
    else if ltb d 1_000_000
    then show (d / 1_000) ++ fraction 3 d ++ codes "µs"
    else if ltb d second
    then show (d / 1_000_000) ++ fraction 6 d ++ codes "ms"
    else (let secs = d / second in
        (if ltb secs 3600 then [] else show (secs / 3600) ++ codes "h")
        ++ (if ltb secs 60 then [] else show (secs / 60 % 60) ++ codes "m")
        ++ show (secs % 60)
        ++ fraction 9 d
        ++ codes "s")

-- Duration.Round(time.Second): to the nearest second, halves up.
unfoldable pub round_second : ℕ → ℕ
round_second d = (d + second / 2) / second * second
