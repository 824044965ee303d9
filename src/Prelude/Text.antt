-- ===== src/Prelude/Text.antt =====
-- Go strings as lists of bytes, with the functions of package strings that the code calls.
use Prim.Native.Nat.{ℕ, ◌+◌, ◌-◌}
use Prim.Native.Char.{code}
use Prim.Native.String.{String}
use mathlib.Core.Path.{◌≡◌, refl}
use mathlib.Core.Logic.{◌↔◌}
use mathlib.Core.Bool.{Bool, true, false, not, ◌&&◌, ◌||◌}
use mathlib.Core.List.{List, [], ◌∷◌, map, reverse}
use native.Mathlib.Omega.{arith}
use auditchain_gateway_backe.Prelude.Tests.{leb, ◌==◌, if◌then◌else◌}

abbrev pub Text : Type 0
Text = List ℕ

-- A literal of the source.
abbrev pub codes : String → Text
codes String.[] = []
codes (String.◌∷◌ c s) = code c ∷ codes s

-- `s == t` on strings
unfoldable pub text_eq : Text → Text → Bool
text_eq [] [] = true
text_eq [] (_ ∷ _) = false
text_eq (_ ∷ _) [] = false
text_eq (a ∷ s) (b ∷ t) = a == b && text_eq s t

pub text_eq_iff : (s t : Text) → (text_eq s t ≡ true) ↔ (s ≡ t)
unfolding text_eq
text_eq_iff [] [] = ground arith
text_eq_iff [] (_ ∷ _) = ground arith
text_eq_iff (_ ∷ _) [] = ground arith
text_eq_iff (a ∷ s) (b ∷ t) = ground (arith, text_eq_iff s t)

pub text_eq_refl : (s : Text) → text_eq s s ≡ true
text_eq_refl s = (text_eq_iff s s).1 refl

-- `s == ""`
abbrev pub is_empty : Text → Bool
is_empty [] = true
is_empty (_ ∷ _) = false

-- The white space of unicode.IsSpace: ASCII, and what UTF-8 writes in two or three bytes.
abbrev pub ascii_space : ℕ → Bool
ascii_space a = (leb 9 a && leb a 13) || a == 32

abbrev pub wide_space2 : ℕ → ℕ → Bool
wide_space2 a b = a == 194 && (b == 133 || b == 160)

abbrev pub wide_space3 : ℕ → ℕ → ℕ → Bool
wide_space3 a b c =
    (a == 225 && b == 154 && c == 128)
    || (a == 226 && b == 128 && (leb 128 c && leb c 138 || c == 168 || c == 169 || c == 175))
    || (a == 226 && b == 129 && c == 159)
    || (a == 227 && b == 128 && c == 128)

unfoldable pub trim_left : Text → Text
trim_left [] = []
trim_left (a ∷ []) = if ascii_space a then [] else a ∷ []
trim_left (a ∷ b ∷ []) =
    let next = trim_left (b ∷ []) in
    if ascii_space a then next else if wide_space2 a b then [] else a ∷ b ∷ []
trim_left (a ∷ b ∷ c ∷ s) =
    let one = trim_left (b ∷ c ∷ s) in
    let two = trim_left (c ∷ s) in
    let three = trim_left s in
    if ascii_space a
    then one
    else if wide_space2 a b
    then two
    else if wide_space3 a b c
    then three
    else a ∷ b ∷ c ∷ s

-- the same from the other end, on the reversed text
unfoldable pub trim_last : Text → Text
trim_last [] = []
trim_last (a ∷ []) = if ascii_space a then [] else a ∷ []
trim_last (b ∷ a ∷ []) =
    let next = trim_last (a ∷ []) in
    if ascii_space b then next else if wide_space2 a b then [] else b ∷ a ∷ []
trim_last (c ∷ b ∷ a ∷ s) =
    let one = trim_last (b ∷ a ∷ s) in
    let two = trim_last (a ∷ s) in
    let three = trim_last s in
    if ascii_space c
    then one
    else if wide_space2 b c
    then two
    else if wide_space3 a b c
    then three
    else c ∷ b ∷ a ∷ s

-- strings.TrimSpace
unfoldable pub trim_space : Text → Text
unfolding trim_left trim_last
trim_space s = reverse (trim_last (reverse (trim_left s)))

-- `strings.TrimSpace(s) == ""`: what is left begins with no white space, so it is blank only if
-- nothing is left.
unfoldable pub is_blank : Text → Bool
unfolding trim_left
is_blank s = is_empty (trim_left s)

-- strings.HasPrefix
unfoldable pub has_prefix : Text → Text → Bool
has_prefix s [] = true
has_prefix [] (_ ∷ _) = false
has_prefix (a ∷ s) (b ∷ t) = a == b && has_prefix s t

-- strings.Contains
unfoldable pub contains : Text → Text → Bool
unfolding has_prefix
contains [] t = is_empty t
contains (c ∷ s) t = has_prefix (c ∷ s) t || contains s t

-- The ASCII part of unicode.ToLower and unicode.ToUpper.
unfoldable pub lower : ℕ → ℕ
lower c = if leb 65 c && leb c 90 then c + 32 else c

unfoldable pub upper : ℕ → ℕ
upper c = if leb 97 c && leb c 122 then c - 32 else c

-- strings.ToLower: byte by byte where the text is ASCII; else rune by rune, which is `wide`
unfoldable pub is_ascii : Text → Bool
is_ascii [] = true
is_ascii (c ∷ s) = leb c 127 && is_ascii s

unfoldable pub to_lower : (Text → Text) → Text → Text
unfolding is_ascii lower
to_lower wide s = if is_ascii s then map lower s else wide s

-- Simple case folding onto ASCII. Two letters outside ASCII fold to one inside: the long s (two
-- bytes) and the Kelvin sign (three bytes).
unfoldable pub fold : Text → Text
unfolding lower
fold [] = []
fold (a ∷ []) = lower a ∷ []
fold (a ∷ b ∷ []) = if a == 197 && b == 191 then 115 ∷ [] else lower a ∷ fold (b ∷ [])
fold (a ∷ b ∷ c ∷ s) =
    let one = fold (b ∷ c ∷ s) in
    let two = fold (c ∷ s) in
    let three = fold s in
    if a == 197 && b == 191
    then 115 ∷ two
    else if a == 226 && b == 132 && c == 170
    then 107 ∷ three
    else lower a ∷ one

-- strings.EqualFold, where one side is ASCII
unfoldable pub equal_fold : Text → Text → Bool
unfolding fold text_eq
equal_fold s t = text_eq (fold s) (fold t)

-- strings.HasSuffix
unfoldable pub has_suffix : Text → Text → Bool
unfolding has_prefix
has_suffix s t = has_prefix (reverse s) (reverse t)

-- `s <= t` on strings
unfoldable pub text_le : Text → Text → Bool
text_le [] t = true
text_le (_ ∷ _) [] = false
text_le (a ∷ s) (b ∷ t) = leb a b && (not (a == b) || text_le s t)
