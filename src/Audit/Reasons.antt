-- ===== src/Audit/Reasons.antt =====
-- `AuditLog::sanitize_reason` of crates/kms-service/src/domain/audit/models.rs. A text is the list of
-- its characters, and a position is counted in them; `to_ascii_lowercase` keeps positions, and every
-- keyword is in lower case.
use Prim.Native.Char.{Char, code}
use Prim.Native.String.{[] as nil, ◌∷◌ as cons}
use kms_platform.Common.{
  ℕ, zero, suc, ◌+◌, ◌==◌, leb, Bool, true, false, ◌&&◌, String, List, [], ◌∷◌, ◌++◌, map, take,
  drop, length, Option, none, some, str_eq, trim, if◌then◌else◌, ◌≡◌, refl,
}
pub mod Termination
pub mod Redacted

abbrev pub Chars : Type 0
Chars = List Char

abbrev pub chars : String → Chars
chars nil = []
chars (cons c s) = c ∷ chars s

abbrev pub from_chars : Chars → String
from_chars [] = nil
from_chars (c ∷ s) = cons c (from_chars s)

-- A character of `to_ascii_lowercase`.
unfoldable pub lower : ℕ → ℕ
lower c = if leb 65 c && leb c 90 then c + 32 else c

unfoldable pub to_ascii_lowercase : Chars → List ℕ
unfolding lower
to_ascii_lowercase s = map (λ c. lower (code c)) s

unfoldable pub starts_with : List ℕ → List ℕ → Bool
starts_with [] s = true
starts_with (c ∷ p) [] = false
starts_with (c ∷ p) (d ∷ s) = c == d && starts_with p s

abbrev pub next : Option ℕ → Option ℕ
next none = none
next (some n) = some (suc n)

-- `str::find`, for a pattern that is not empty.
unfoldable pub find : List ℕ → List ℕ → Option ℕ
unfolding starts_with
find p [] = none
find p (c ∷ s) = let deeper = next (find p s) in if starts_with p (c ∷ s) then some 0 else deeper

unfoldable pub replace_range : ℕ → ℕ → Chars → Chars → Chars
replace_range start end text s = take start s ++ (text ++ drop end s)

abbrev pub redacted : Chars
redacted = chars "[REDACTED]"

-- The codes of a keyword.
abbrev pub pattern : String → List ℕ
pattern keyword = map code (chars keyword)

-- One turn of the inner `loop`: none where it breaks.
unfoldable pub redact_first : List ℕ → Chars → Option Chars
unfolding find to_ascii_lowercase replace_range
redact_first keyword sanitized = elim (find keyword (to_ascii_lowercase sanitized)) [
  | none ↦ none
  | some pos ↦ some (replace_range pos (length keyword + pos) redacted sanitized)
]

-- The inner `loop`, for less than `fuel` turns that replace: none where these are not enough.
unfoldable pub redact_loop : ℕ → List ℕ → Chars → Option Chars
unfolding redact_first
redact_loop zero keyword sanitized = none
redact_loop (suc fuel) keyword sanitized = elim (redact_first keyword sanitized) [
  | none ↦ some sanitized
  | some replaced ↦ redact_loop fuel keyword replaced
]

abbrev pub keywords : List String
keywords =
    "password" ∷ "secret" ∷ "private_key" ∷ "master_key" ∷ "kek" ∷ "dek" ∷ "pin" ∷ "passphrase"
    ∷ "api_key" ∷ "hmac" ∷ "plaintext" ∷ "bootstrap" ∷ []

-- The loop over the keywords, each with as much fuel as the text has characters, and one more: none
-- where an inner loop ran out of fuel.
unfoldable pub redact_all : List (List ℕ) → Chars → Option Chars
unfolding redact_loop
redact_all [] sanitized = some sanitized
redact_all (keyword ∷ others) sanitized =
    elim (redact_loop (suc (length sanitized)) keyword sanitized) [
      | none ↦ none
      | some redacted ↦ redact_all others redacted
    ]

-- What `sanitize_reason` returns of the text that the loops leave. The first alternative is that of
-- too little fuel.
abbrev pub reason_of : Option Chars → Option String
reason_of none = none
reason_of (some []) = none
reason_of (some (c ∷ s)) = some (from_chars (c ∷ s))

unfoldable pub sanitize_reason : Option String → Option String
unfolding redact_all trim
sanitize_reason none = none
sanitize_reason (some reason) =
    if str_eq (trim reason) ""
    then none
    else reason_of (redact_all (map pattern keywords) (chars reason))

sanitize_tests :
    (sanitize_reason (some "Password=x") ≡ some "[REDACTED]=x")
    × (sanitize_reason (some "kekek") ≡ some "[REDACTED]ek")
    × (sanitize_reason (some " ") ≡ none)
unfolding sanitize_reason
sanitize_tests = (refl, refl, refl)
