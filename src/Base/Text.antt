-- ===== src/Base/Text.antt =====
-- A JavaScript string is the list of its UTF-16 code units.
use Prim.Native.Nat.{ℕ, zero, suc, ◌+◌, ◌/◌, ◌%◌}
use Prim.Native.Char.{code}
use Prim.Native.String.{String}
use mathlib.Core.Path.{◌≡◌, refl, ap}
use mathlib.Core.Logic.{◌↔◌}
use mathlib.Core.Bool.{Bool, true, false, ◌&&◌}
use mathlib.Core.List.{List, [], ◌∷◌, ◌++◌}
use mathlib.Core.Option.{Option, none, some}
use native.Mathlib.Omega.{arith}
use nidora_ai_inference.Base.Tests.{ltb, ◌==◌, if◌then◌else◌}

abbrev pub Str : Type 0
Str = List ℕ

-- The code units of a literal of the source (all of them in the basic plane).
unfoldable pub text : String → Str
text String.[] = []
text (String.◌∷◌ c s) = code c ∷ text s

-- `a === b` on strings.
unfoldable pub str_eq : Str → Str → Bool
str_eq [] [] = true
str_eq [] (y ∷ ys) = false
str_eq (x ∷ xs) [] = false
str_eq (x ∷ xs) (y ∷ ys) = x == y && str_eq xs ys

pub str_eq_refl : (s : Str) → str_eq s s ≡ true
unfolding str_eq
str_eq_refl [] = refl
str_eq_refl (x ∷ xs) = ground (arith, str_eq_refl xs)

pub str_eq_sound : (s t : Str) → str_eq s t ≡ true → s ≡ t
unfolding str_eq
str_eq_sound [] [] h = refl
str_eq_sound [] (y ∷ ys) h = cc
str_eq_sound (x ∷ xs) [] h = cc
str_eq_sound (x ∷ xs) (y ∷ ys) h = ground (arith, str_eq_sound xs ys)

pub str_eq_iff : (s t : Str) → (str_eq s t ≡ true) ↔ (s ≡ t)
str_eq_iff s t = (str_eq_sound s t, λ e. rw e (str_eq_refl t))

pub str_eq_comm : (s t : Str) → str_eq s t ≡ str_eq t s
unfolding str_eq
str_eq_comm [] [] = refl
str_eq_comm [] (y ∷ ys) = refl
str_eq_comm (x ∷ xs) [] = refl
str_eq_comm (x ∷ xs) (y ∷ ys) = ground (arith, str_eq_comm xs ys)

-- The truth value of a string, and of a string or null.
abbrev pub truthy : Str → Bool
truthy [] = false
truthy (x ∷ xs) = true

abbrev pub truthy_null : Option Str → Bool
truthy_null none = false
truthy_null (some s) = truthy s

-- `column = ?` in SQL: false on NULL.
abbrev pub column_is : Option Str → Str → Bool
column_is none s = false
column_is (some t) s = str_eq t s

pub column_is_sound : (o : Option Str) (s : Str) → column_is o s ≡ true → o ≡ some s
column_is_sound none s h = cc
column_is_sound (some t) s h = ap some (str_eq_sound t s h)

-- `String(n)` of a natural number, on as much fuel as the number.
digits_fuel : ℕ → ℕ → Str
digits_fuel zero n = []
digits_fuel (suc f) n =
    let more = digits_fuel f (n / 10) in
    if ltb n 10 then (48 + n) ∷ [] else more ++ (48 + n % 10) ∷ []

unfoldable pub decimal : ℕ → Str
unfolding digits_fuel
decimal n = digits_fuel (suc n) n

decimal_example : decimal 1280 ≡ text "1280"
unfolding decimal text
decimal_example = refl
