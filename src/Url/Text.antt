-- ===== src/Url/Text.antt =====
-- The string functions and regular expressions of url-safety.ts, over native texts.
use Prim.Native.Nat.{ℕ}
use Prim.Native.Char.{code}
use Prim.Native.String.{String}
use secure_claw.Base.{
  Bool, true, false, not, ◌&&◌, ◌||◌, List, [], ◌∷◌, map, if◌then◌else◌, nat_eq, leb, ◌==◌, any,
  keep,
}
use secure_claw.Base.Text.{is_space, is_blank, length_of}

-- `s.startsWith(t)`
unfoldable pub starts_with : (t s : String) → Bool
starts_with String.[] s = true
starts_with (String.◌∷◌ c t) String.[] = false
starts_with (String.◌∷◌ c t) (String.◌∷◌ d s) =
    let rest = starts_with t s in nat_eq (code c) (code d) && rest

-- `s.endsWith(t)`
unfoldable pub ends_with : (t s : String) → Bool
ends_with t String.[] = String.[] == t
ends_with t (String.◌∷◌ c s) = (String.◌∷◌ c s == t) || ends_with t s

unfoldable pub drop_last : String → String
drop_last String.[] = String.[]
drop_last (String.◌∷◌ c String.[]) = String.[]
drop_last (String.◌∷◌ c (String.◌∷◌ d s)) = String.◌∷◌ c (drop_last (String.◌∷◌ d s))

abbrev drop_first : String → String
drop_first String.[] = String.[]
drop_first (String.◌∷◌ c s) = s

-- `stripBrackets`; a text that starts with one bracket and ends with the other has two characters
unfoldable pub strip_brackets : String → String
unfolding starts_with ends_with drop_last
strip_brackets host =
    if starts_with "[" host && ends_with "]" host then drop_last (drop_first host) else host

unfoldable pub trim_end : String → String
unfolding is_blank
trim_end String.[] = String.[]
trim_end (String.◌∷◌ c s) =
    let rest = trim_end s in if is_blank (String.◌∷◌ c s) then String.[] else String.◌∷◌ c rest

unfoldable pub trim_start : String → String
trim_start String.[] = String.[]
trim_start (String.◌∷◌ c s) =
    let rest = trim_start s in if is_space (code c) then rest else String.◌∷◌ c s

-- a character before the first part, or a separator
abbrev add_char : Bool → (String → String) → List String → List String
add_char separates add [] = add String.[] ∷ []
add_char true add (t ∷ ts) = String.[] ∷ t ∷ ts
add_char false add (t ∷ ts) = add t ∷ ts

-- `s.split(d)` for a separator of one character
unfoldable pub split_at : ℕ → String → List String
split_at d String.[] = String.[] ∷ []
split_at d (String.◌∷◌ c s) = add_char (nat_eq (code c) d) (String.◌∷◌ c) (split_at d s)

abbrev is_digit : ℕ → Bool
is_digit c = leb 48 c && leb c 57

abbrev pub is_hex : ℕ → Bool
is_hex c = is_digit c || (leb 97 c && leb c 102) || (leb 65 c && leb c 70)

unfoldable pub all_chars : (ℕ → Bool) → String → Bool
all_chars p String.[] = true
all_chars p (String.◌∷◌ c s) = p (code c) && all_chars p s

-- `\d{1,3}`
unfoldable pub is_octet : String → Bool
unfolding all_chars length_of
is_octet s = leb 1 (length_of s) && leb (length_of s) 3 && all_chars is_digit s

-- two digits from 16 to 31
abbrev is_16_to_31 : String → Bool
is_16_to_31 s =
    (starts_with "1" s && any (λ t. t == s) ("16" ∷ "17" ∷ "18" ∷ "19" ∷ []))
    || (starts_with "2" s && leb (length_of s) 2 && leb 2 (length_of s))
    || (s == "30")
    || (s == "31")

-- four octets between dots
abbrev is_quad : List String → Bool
is_quad (a ∷ b ∷ c ∷ d ∷ []) = is_octet a && is_octet b && is_octet c && is_octet d
is_quad _ = false

abbrev in_private_range : List String → Bool
in_private_range (a ∷ b ∷ rest) =
    (a == "10")
    || ((a == "172") && is_16_to_31 b)
    || ((a == "192") && (b == "168"))
    || (a == "127")
    || (a == "0")
in_private_range _ = false

-- `PRIVATE_IPV4_RE`
unfoldable pub is_private_ipv4 : String → Bool
unfolding split_at is_octet starts_with length_of
is_private_ipv4 s = is_quad (split_at 46 s) && in_private_range (split_at 46 s)

-- two hexadecimal digits and a colon
abbrev is_hex_group : String → Bool
is_hex_group (String.◌∷◌ c (String.◌∷◌ d (String.◌∷◌ e s))) =
    is_hex (code c) && is_hex (code d) && nat_eq (code e) 58
is_hex_group _ = false

-- `PRIVATE_IPV6_RE` on a text in lower case. The expression has no end, so that it tests how the
-- text begins.
unfoldable pub is_private_ipv6 : String → Bool
unfolding starts_with
is_private_ipv6 s =
    starts_with "::1" s
    || starts_with "::ffff:" s
    || starts_with "fe80:" s
    || (starts_with "fd" s && is_hex_group (drop_first (drop_first s)))

-- `/^\d{1,3}(?:\.\d{1,3}){3}$/`
unfoldable pub is_ipv4_literal : String → Bool
unfolding split_at is_octet
is_ipv4_literal s = is_quad (split_at 46 s)

-- `/^[0-9a-f:]+$/i`
unfoldable pub is_ipv6_literal : String → Bool
unfolding all_chars
is_ipv6_literal s = not (s == "") && all_chars (λ c. is_hex c || nat_eq c 58) s

-- `list.split(",").map((d) => d.trim().toLowerCase()).filter(Boolean)`
unfoldable pub domains_of : (String → String) → String → List String
unfolding split_at trim_end trim_start
domains_of to_lower_case list =
    keep (λ d. not (d == ""))
      (map (λ d. to_lower_case (trim_end (trim_start d))) (split_at 44 list))
