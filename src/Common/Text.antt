-- ===== src/Common/Text.antt =====
-- What the program uses of Rust's `str` and `String`: comparison, `trim`, and integers printed by
-- `format!`.
use Prim.Native.Nat.{ℕ, zero, suc, ◌-◌, ◌/◌, ◌%◌}
use Prim.Native.Char.{code}
use Prim.Native.String.{String, [], ◌∷◌, ◌++◌}
use mathlib.Core.Path.{◌≡◌, refl}
use mathlib.Core.Bool.{Bool, true, false, ◌&&◌, ◌||◌}
use kms_platform.Common.Tests.{ltb, leb, ◌==◌, if◌then◌else◌}
pub use text.Mathlib.Text.{◌==◌ as str_eq}
pub use text.Mathlib.TextEquality.{eq_iff}
pub use text.Mathlib.TextPositions.{eq_refl}

-- The code points with the Unicode property White_Space, by which `str::trim` goes.
is_whitespace : ℕ → Bool
is_whitespace c =
    leb 9 c && leb c 13
    || c == 32
    || c == 0x85
    || c == 0xa0
    || c == 0x1680
    || leb 0x2000 c && leb c 0x200a
    || c == 0x2028
    || c == 0x2029
    || c == 0x202f
    || c == 0x205f
    || c == 0x3000

unfoldable pub trim_start : String → String
unfolding is_whitespace
trim_start [] = []
trim_start (c ∷ s) = let rest = trim_start s in if is_whitespace (code c) then rest else c ∷ s

is_blank : String → Bool
is_blank [] = true
is_blank (c ∷ s) = is_whitespace (code c) && is_blank s

unfoldable pub trim_end : String → String
unfolding is_whitespace is_blank
trim_end [] = []
trim_end (c ∷ s) = if is_blank (c ∷ s) then [] else c ∷ trim_end s

-- `str::trim`
unfoldable pub trim : String → String
unfolding trim_start trim_end
trim s = trim_end (trim_start s)

digit : ℕ → String
digit n =
    if n == 0
    then "0"
    else if n == 1
    then "1"
    else if n == 2
    then "2"
    else if n == 3
    then "3"
    else if n == 4
    then "4"
    else if n == 5
    then "5"
    else if n == 6
    then "6"
    else if n == 7
    then "7"
    else if n == 8
    then "8"
    else "9"

digits : ℕ → ℕ → String
digits zero n = digit (n % 10)
digits (suc fuel) n =
    let more = digits fuel (n / 10) ++ digit (n % 10) in if ltb n 10 then digit n else more

-- `{}` of an unsigned integer; a number has fewer digits than its own value plus one.
unfoldable pub show : ℕ → String
unfolding digits digit
show n = digits n n

trim_tests : (trim "  AES256GCM " ≡ "AES256GCM") × (trim "a b" ≡ "a b") × (trim " " ≡ "")
unfolding trim
trim_tests = (refl, refl, refl)

show_tests : (show 0 ≡ "0") × (show 507 ≡ "507")
unfolding show
show_tests = (refl, refl)

abbrev pub is_prefix : String → String → Bool
is_prefix [] s = true
is_prefix (c ∷ p) [] = false
is_prefix (c ∷ p) (d ∷ s) = code c == code d && is_prefix p s

abbrev chars : String → ℕ
chars [] = 0
chars (c ∷ s) = suc (chars s)

-- The text after `skip` characters, with its occurrences of `from`, which is not empty, replaced.
replace_after : ℕ → String → String → String → String
replace_after skip from to [] = []
replace_after (suc skip) from to (c ∷ s) = replace_after skip from to s
replace_after zero from to (c ∷ s) =
    let kept = c ∷ replace_after zero from to s in
    let replaced = to ++ replace_after (chars from - 1) from to s in
    if is_prefix from (c ∷ s) then replaced else kept

-- `str::replace`
unfoldable pub replace : String → String → String → String
unfolding replace_after
replace from to s = replace_after 0 from to s
