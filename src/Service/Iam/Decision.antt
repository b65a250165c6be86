-- ===== src/Service/Iam/Decision.antt =====
-- What the policy decides.
use kms_platform.Common.{
  ◌≡◌, refl, ◌∙◌, Bool, true, false, not, ◌&&◌, ◌||◌, String, List, [], ◌∷◌, any, str_eq, eq_iff,
  arith, Bool-cases, inl, inr,
}
use kms_platform.Service.Iam.{IamStatement, IamCredentialPolicy, is_about, scan, is_action_allowed}

-- A statement on the request with the effect.
abbrev pub has_effect : String → String → String → String → IamStatement → Bool
has_effect effect role action resource stmt =
    is_about role action resource stmt && str_eq stmt.effect effect

deny_is_not_allow : (effect : String) → str_eq effect "Deny" ≡ true → str_eq effect "Allow" ≡ false
deny_is_not_allow effect deny = let e : effect ≡ "Deny" = (eq_iff effect "Deny").0 deny in rw e refl

module _ (role action resource : String) where
  scan-flags :
      (statements : List IamStatement) (allow deny : Bool)
      → scan role action resource statements allow deny ≡ (
        allow || any (has_effect "Allow" role action resource) statements,
        deny || any (has_effect "Deny" role action resource) statements,
      )
  unfolding scan
  scan-flags [] allow deny = ground arith
  scan-flags (stmt ∷ statements) allow deny =
      let passed = scan-flags statements allow deny in
      let denied = scan-flags statements allow true in
      let allowed = scan-flags statements true deny in
      elim (Bool-cases (is_about role action resource stmt)) [
        | inr other ↦ rw other passed
        | inl about ↦ elim (Bool-cases (str_eq stmt.effect "Deny")) [
          | inl deny_it ↦
              rw (about, deny_it, deny_is_not_allow stmt.effect deny_it) (denied ∙ ground arith)
          | inr free ↦ elim (Bool-cases (str_eq stmt.effect "Allow")) [
            | inl allow_it ↦ rw (about, free, allow_it) (allowed ∙ ground arith)
            | inr other ↦ rw (about, free, other) passed
          ]
        ]
      ]

-- A request is allowed if and only if some statement on it allows it and none denies it, in whatever
-- order the statements stand: a denial outweighs every permission, and a statement with another
-- effect does nothing.
pub is_action_allowed-decision :
    (policy : IamCredentialPolicy) (role action resource : String)
    → is_action_allowed policy role action resource ≡ (
        any (has_effect "Allow" role action resource) policy.statements
        && not (any (has_effect "Deny" role action resource) policy.statements))
unfolding is_action_allowed
is_action_allowed-decision policy role action resource =
    let flags = scan-flags role action resource policy.statements false false in
    rw flags (ground arith)
