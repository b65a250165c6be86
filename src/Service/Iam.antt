-- ===== src/Service/Iam.antt =====
-- crates/kms-service/src/config/iam_json.rs: the policy on credentials, without its file.
use Prim.Native.Char.{code}
use Prim.Native.String.{[] as nil, ◌∷◌ as cons}
use kms_platform.Common.{
  ◌==◌, Bool, true, false, not, ◌&&◌, ◌||◌, String, List, [], ◌∷◌, Option, none, some, any, str_eq,
  is_prefix, if◌then◌else◌,
}
pub mod Decision

pub record IamStatement : Type 0 where
  pub sid : String
  pub effect : String
  pub roles : List String
  pub actions : List String
  pub resources : List String

pub record IamCredentialPolicy : Type 0 where
  pub version : String
  pub statements : List IamStatement

abbrev pub is_blank : String → Bool
is_blank nil = true
is_blank (cons c s) = false

-- `strip_suffix('*')`
unfoldable pub strip_star : String → Option String
strip_star nil = none
strip_star (cons c s) = elim (strip_star s) [
  | some rest ↦ some (cons c rest)
  | none ↦ if code c == 42 && is_blank s then some nil else none
]

-- `strip_prefix`
unfoldable pub strip_prefix : String → String → Option String
strip_prefix nil s = some s
strip_prefix (cons c p) nil = none
strip_prefix (cons c p) (cons d s) =
    let rest = strip_prefix p s in if code c == code d then rest else none

-- `suffix.starts_with(':') || suffix.is_empty()`
abbrev pub ends_part : String → Bool
ends_part nil = true
ends_part (cons c s) = code c == 58

-- The last of the four rules of `match_pattern`.
abbrev pub match_wildcard : String → Option String → Bool
match_wildcard pattern none = false
match_wildcard pattern (some prefix) = is_prefix prefix pattern

-- The third.
abbrev pub match_part : String → String → Option String → Bool
match_part pattern candidate (some suffix) = ends_part suffix
match_part pattern candidate none = match_wildcard pattern (strip_star candidate)

-- The second.
abbrev pub match_prefix : String → String → Option String → Bool
match_prefix pattern candidate (some prefix) = is_prefix prefix candidate
match_prefix pattern candidate none = match_part pattern candidate (strip_prefix pattern candidate)

unfoldable pub match_pattern : String → String → Bool
unfolding strip_star strip_prefix
match_pattern pattern candidate =
    if str_eq pattern "*" || str_eq pattern candidate
    then true
    else match_prefix pattern candidate (strip_star pattern)

-- The three guards of the loop's body.
unfoldable pub is_about : String → String → String → IamStatement → Bool
unfolding match_pattern
is_about role action resource stmt =
    any (λ r. str_eq r "*" || str_eq r role) stmt.roles
    && (any (λ a. match_pattern a action) stmt.actions
        && any (λ r. match_pattern r resource) stmt.resources)

-- The loop over the statements, with the two flags.
unfoldable pub scan : String → String → String → List IamStatement → Bool → Bool → Bool × Bool
unfolding is_about
scan role action resource [] matched_allow matched_deny = (matched_allow, matched_deny)
scan role action resource (stmt ∷ statements) matched_allow matched_deny =
    let denied = scan role action resource statements matched_allow true in
    let allowed = scan role action resource statements true matched_deny in
    let passed = scan role action resource statements matched_allow matched_deny in
    if not (is_about role action resource stmt)
    then passed
    else if str_eq stmt.effect "Deny"
    then denied
    else if str_eq stmt.effect "Allow"
    then allowed
    else passed

abbrev pub verdict : Bool × Bool → Bool
verdict (matched_allow, matched_deny) = if matched_deny then false else matched_allow

unfoldable pub is_action_allowed : IamCredentialPolicy → String → String → String → Bool
unfolding scan
is_action_allowed policy role action resource =
    verdict (scan role action resource policy.statements false false)
