-- ===== src/Service/Acl/Laws.antt =====
-- The compiled rules decide as the configured ones do.
use kms_platform.Common.{
  ◌≡◌, refl, Bool, ◌||◌, ◌&&◌, String, List, [], ◌∷◌, ◌++◌, map, filter, none, some, any, str_eq,
  eq_iff, arith, Option-cases, Bool-cases, inl, inr,
}
use kms_platform.Common.Assoc.{lookup, insert, lookup-insert}
use kms_platform.Service.Crypto.{KeyAlgorithm, algorithm_eq}
use kms_platform.Service.Acl.{
  KeyAccessLevel, level_eq, AccessRule, ControlAction, ServiceConfig, AclSettings, AccessRuleKey,
  access_eq, CompiledAcl, access_key, preload_key, flatten, compile_from, compile,
  authorize_key_access, authorize_control_action, is_allowed, has_control_action,
}

-- Every service stands under its own identifier, once.
abbrev pub IsConsistent : AclSettings → Type 0
IsConsistent [] = Unit
IsConsistent ((name, cfg) ∷ services) =
    (cfg.service_id ≡ name) × (lookup name services ≡ none) × IsConsistent services

any-append {ℓ} :
    {A : Type ℓ} (p : A → Bool) (xs ys : List A) → any p (xs ++ ys) ≡ any p xs || any p ys
any-append p [] ys = refl
any-append p (x ∷ xs) ys = ground (arith, any-append p xs ys)

-- The rules of one service, among those of all.
any-access_key :
    (cfg : ServiceConfig) (wanted : AccessRuleKey) (rules : List AccessRule)
    → any (λ k. access_eq k wanted) (map (access_key cfg) rules) ≡ (
        str_eq cfg.service_id wanted.caller
        && any
            (λ rule.
              str_eq rule.target_service wanted.target
              && (algorithm_eq rule.algorithm wanted.algorithm
                  && level_eq rule.access_level wanted.access_level))
            rules)
any-access_key cfg wanted [] = ground arith
any-access_key cfg wanted (rule ∷ rules) = ground (arith, any-access_key cfg wanted rules)

module _ (caller target : String) (algorithm : KeyAlgorithm) (level : KeyAccessLevel) where
  allows-compile_from :
      (services : AclSettings) (acl : CompiledAcl)
      → IsConsistent services
      → authorize_key_access (compile_from services acl) caller target algorithm level
        ≡ is_allowed services caller target algorithm level
          || authorize_key_access acl caller target algorithm level
  unfolding compile_from authorize_key_access is_allowed lookup
  allows-compile_from [] acl consistent = refl
  allows-compile_from ((name, cfg) ∷ services) acl (same, once, more) =
      let wanted : AccessRuleKey = record {
        caller = caller;
        target = target;
        algorithm = algorithm;
        access_level = level;
      } in
      let next : CompiledAcl = record {
        access = map (access_key cfg) cfg.allowed_access ++ acl.access;
        preload = map preload_key (filter (λ rule. rule.preload) cfg.allowed_access) ++ acl.preload;
        actions = insert cfg.service_id (flatten cfg.allowed_actions) acl.actions;
      } in
      let added =
        any-append (λ k. access_eq k wanted) (map (access_key cfg) cfg.allowed_access) acl.access in
      let own = any-access_key cfg wanted cfg.allowed_access in
      let rest = allows-compile_from services next more in
      elim (Bool-cases (str_eq name caller)) [
        | inl mine ↦ ground (arith, mine, added, own, rest, same, once, eq_iff name caller)
        | inr other ↦ ground (arith, other, added, own, rest, same)
      ]

module _ (caller : String) where
  actions-compile_from :
      (services : AclSettings) (acl : CompiledAcl)
      → IsConsistent services
      → lookup caller (compile_from services acl).actions ≡ (elim (lookup caller services) [
        | none ↦ lookup caller acl.actions
        | some cfg ↦ some (flatten cfg.allowed_actions)
      ])
  unfolding compile_from lookup
  actions-compile_from [] acl consistent = refl
  actions-compile_from ((name, cfg) ∷ services) acl (same, once, more) =
      let next : CompiledAcl = record {
        access = map (access_key cfg) cfg.allowed_access ++ acl.access;
        preload = map preload_key (filter (λ rule. rule.preload) cfg.allowed_access) ++ acl.preload;
        actions = insert cfg.service_id (flatten cfg.allowed_actions) acl.actions;
      } in
      let put = lookup-insert cfg.service_id caller (flatten cfg.allowed_actions) acl.actions in
      let rest = actions-compile_from services next more in
      elim (Bool-cases (str_eq name caller)) [
        | inl mine ↦ ground (arith, mine, put, rest, same, once, eq_iff name caller)
        | inr other ↦ ground (arith, other, put, rest, same)
      ]

-- Where every service stands once and under its own identifier, the compiled rules allow a key
-- access, and a control action, exactly when the configured ones do.
pub compile_decides_alike :
    (services : AclSettings) (caller target : String) (algorithm : KeyAlgorithm)
    (level : KeyAccessLevel) (action : ControlAction)
    → IsConsistent services
    → (authorize_key_access (compile services) caller target algorithm level
        ≡ is_allowed services caller target algorithm level)
      × (authorize_control_action (compile services) caller action
          ≡ has_control_action services caller action)
unfolding compile authorize_key_access authorize_control_action has_control_action lookup
compile_decides_alike services caller target algorithm level action consistent =
    let empty : CompiledAcl = record { access = []; preload = []; actions = [] } in
    let access = allows-compile_from caller target algorithm level services empty consistent in
    let actions = actions-compile_from caller services empty consistent in
    (
      ground (arith, access),
      elim (Option-cases (lookup caller services)) [
        | inl unknown ↦ ground (arith, actions, unknown)
        | inr (cfg, known) ↦ ground (arith, actions, known)
      ],
    )
