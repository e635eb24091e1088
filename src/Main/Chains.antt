-- ===== src/Main/Chains.antt =====
-- The steps of main.go's commands, of which each may fail.
use merge_bot.Base.{◌≡◌, refl, Bool, true, false, Option, none, some, arith, Text}
use merge_bot.Merge.Errors.{Error, Result, ok, err}
use merge_bot.Main.Commands.{◌>>=◌, guard, demand}

-- A chain of steps succeeds only if each of them does.
pub bind-ok :
    {A B : Type 0} (m : Result A) (f : A → Result B) (b : B)
    → m >>= f ≡ ok b
    → (a : A) × (m ≡ ok a) × (f a ≡ ok b)
bind-ok (ok a) f b h = (a, refl, h)
bind-ok (err e) f b h = absurd (ground (arith, h))

pub guard-ok : (e : Option Error) (u : Unit {0}) → guard e ≡ ok u → e ≡ none
guard-ok none u h = refl
guard-ok (some e) u h = absurd (ground (arith, h))

pub demand-ok : (b : Bool) (text : Text) (u : Unit {0}) → demand b text ≡ ok u → b ≡ true
demand-ok true text u h = refl
demand-ok false text u h = absurd (ground (arith, h))

pub ok_eq : {A : Type 0} (a b : A) → ok a ≡ ok b → a ≡ b
ok_eq a b h = cc h
