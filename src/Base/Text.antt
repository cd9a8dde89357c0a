-- ===== src/Base/Text.antt =====
-- JavaScript string functions over native texts. A length counts UTF-16 code units: a character
-- outside the basic plane counts two, and a cut in the middle of such a character drops it.
use Prim.Native.Nat.{ℕ, zero, suc, ◌+◌, ◌-◌}
use Prim.Native.Char.{Char, code}
use Prim.Native.String.{String, ◌++◌}
use mathlib.Core.Bool.{Bool, true, ◌&&◌, ◌||◌}
use mathlib.Core.List.{List, [], ◌∷◌}
use text.Mathlib.Text.{find?}
use secure_claw.Base.Tests.{if◌then◌else◌, is_some, leb, nat_eq}

abbrev units : Char → ℕ
units c = if leb 65536 (code c) then 2 else 1

abbrev pub is_space : ℕ → Bool
is_space c =
    (leb 9 c && leb c 13)
    || nat_eq c 32
    || nat_eq c 160
    || nat_eq c 5760
    || (leb 8192 c && leb c 8202)
    || (leb 8232 c && leb c 8233)
    || nat_eq c 8239
    || nat_eq c 8287
    || nat_eq c 12288
    || nat_eq c 65279

-- `s.slice(0, n)`
unfoldable pub slice_to : ℕ → String → String
slice_to n String.[] = String.[]
slice_to n (String.◌∷◌ c s) =
    let rest = slice_to (n - units c) s in if leb (units c) n then String.◌∷◌ c rest else String.[]

-- `s.slice(n)`
unfoldable pub slice_from : ℕ → String → String
slice_from n String.[] = String.[]
slice_from n (String.◌∷◌ c s) =
    let rest = slice_from (n - units c) s in elim n [ zero ↦ String.◌∷◌ c s | suc _ ↦ rest ]

-- `s.length`
unfoldable pub length_of : String → ℕ
length_of String.[] = 0
length_of (String.◌∷◌ c s) = units c + length_of s

-- `s.trim().length === 0`: every character is white space or a line terminator.
unfoldable pub is_blank : String → Bool
is_blank String.[] = true
is_blank (String.◌∷◌ c s) = is_space (code c) && is_blank s

-- `s.includes(t)`
unfoldable pub includes : String → String → Bool
includes s t = is_some (find? s t)

-- `xs.join(sep)`
unfoldable pub join : String → List String → String
join sep [] = ""
join sep (x ∷ []) = x
join sep (x ∷ y ∷ xs) = x ++ sep ++ join sep (y ∷ xs)
