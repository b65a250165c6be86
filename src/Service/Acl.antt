-- ===== src/Service/Acl.antt =====
-- crates/kms-service/src/config/acl.rs: the access rules, as they are configured and as they are
-- compiled when the service starts. A set is the list of its elements.
use kms_platform.Common.{
  ℕ, ◌==◌, Bool, true, false, ◌&&◌, String, List, [], ◌∷◌, ◌++◌, map, Option, none, some, any,
  filter, str_eq, if◌then◌else◌,
}
use kms_platform.Common.Assoc.{Assoc, lookup, insert}
use kms_platform.Service.Crypto.{KeyAlgorithm, algorithm_eq}
pub mod Laws

pub data KeyAccessLevel : Type 0 where
  private_key : KeyAccessLevel
  public_key : KeyAccessLevel
  symmetric_key : KeyAccessLevel
  generate_data_key : KeyAccessLevel

abbrev level_index : KeyAccessLevel → ℕ
level_index private_key = 0
level_index public_key = 1
level_index symmetric_key = 2
level_index generate_data_key = 3

abbrev pub level_eq : KeyAccessLevel → KeyAccessLevel → Bool
level_eq a b = level_index a == level_index b

pub record AccessRule : Type 0 where
  pub target_service : String
  pub algorithm : KeyAlgorithm
  pub access_level : KeyAccessLevel
  pub preload : Bool

pub data ControlAction : Type 0 where
  generate_keys : ControlAction
  rotate_own_keys : ControlAction
  rotate_all_keys : ControlAction
  revoke_keys : ControlAction
  audit_verify : ControlAction
  audit_read : ControlAction
  bootstrap_import : ControlAction
  ca_sign_intermediate : ControlAction

abbrev action_index : ControlAction → ℕ
action_index generate_keys = 0
action_index rotate_own_keys = 1
action_index rotate_all_keys = 2
action_index revoke_keys = 3
action_index audit_verify = 4
action_index audit_read = 5
action_index bootstrap_import = 6
action_index ca_sign_intermediate = 7

abbrev pub action_eq : ControlAction → ControlAction → Bool
action_eq a b = action_index a == action_index b

-- The secret stands with the settings of the request check.
pub record ServiceConfig : Type 0 where
  pub service_id : String
  pub allowed_access : List AccessRule
  pub allowed_actions : Option (List ControlAction)

-- `AclSettings.services`, in the order in which `values` goes through it.
abbrev pub AclSettings : Type 0
AclSettings = Assoc ServiceConfig

pub record AccessRuleKey : Type 0 where
  pub caller : String
  pub target : String
  pub algorithm : KeyAlgorithm
  pub access_level : KeyAccessLevel

abbrev pub access_eq : AccessRuleKey → AccessRuleKey → Bool
access_eq a b =
    str_eq a.caller b.caller
    && (str_eq a.target b.target
        && (algorithm_eq a.algorithm b.algorithm && level_eq a.access_level b.access_level))

pub record PreloadKey : Type 0 where
  pub target : String
  pub algorithm : KeyAlgorithm

abbrev pub preload_eq : PreloadKey → PreloadKey → Bool
preload_eq a b = str_eq a.target b.target && algorithm_eq a.algorithm b.algorithm

pub record CompiledAcl : Type 0 where
  pub access : List AccessRuleKey
  pub preload : List PreloadKey
  pub actions : Assoc (List ControlAction)

abbrev pub access_key : ServiceConfig → AccessRule → AccessRuleKey
access_key cfg rule = record {
  caller = cfg.service_id;
  target = rule.target_service;
  algorithm = rule.algorithm;
  access_level = rule.access_level;
}

abbrev pub preload_key : AccessRule → PreloadKey
preload_key rule = record { target = rule.target_service; algorithm = rule.algorithm }

-- `allowed_actions.iter().flatten()`
abbrev pub flatten : Option (List ControlAction) → List ControlAction
flatten none = []
flatten (some actions) = actions

-- The loop of `compile`: what the services put into the three collections.
unfoldable pub compile_from : AclSettings → CompiledAcl → CompiledAcl
unfolding insert
compile_from [] acl = acl
compile_from ((name, service_cfg) ∷ services) acl = compile_from services (record {
  access = map (access_key service_cfg) service_cfg.allowed_access ++ acl.access;
  preload =
      map preload_key (filter (λ rule. rule.preload) service_cfg.allowed_access) ++ acl.preload;
  actions = insert service_cfg.service_id (flatten service_cfg.allowed_actions) acl.actions;
})

unfoldable pub compile : AclSettings → CompiledAcl
unfolding compile_from
compile services = compile_from services (record { access = []; preload = []; actions = [] })

-- `CompiledAcl::is_allowed`, which `authorize_key_access` calls.
unfoldable pub authorize_key_access :
    CompiledAcl → String → String → KeyAlgorithm → KeyAccessLevel → Bool
authorize_key_access acl caller target algorithm requested_access =
    any
      (λ k. access_eq k (record {
        caller = caller;
        target = target;
        algorithm = algorithm;
        access_level = requested_access;
      }))
      acl.access

-- `CompiledAcl::has_control_action`, which `authorize_control_action` calls.
unfoldable pub authorize_control_action : CompiledAcl → String → ControlAction → Bool
authorize_control_action acl caller action = elim (lookup caller acl.actions) [
  | none ↦ false
  | some actions ↦ any (λ a. action_eq a action) actions
]

-- `AclSettings::is_allowed`
unfoldable pub is_allowed : AclSettings → String → String → KeyAlgorithm → KeyAccessLevel → Bool
is_allowed services caller target algorithm requested_access = elim (lookup caller services) [
  | none ↦ false
  | some service_cfg ↦
      any
        (λ rule.
          str_eq rule.target_service target
          && (algorithm_eq rule.algorithm algorithm && level_eq rule.access_level requested_access))
        service_cfg.allowed_access
]

-- `AclSettings::has_control_action`
unfoldable pub has_control_action : AclSettings → String → ControlAction → Bool
has_control_action services caller action = elim (lookup caller services) [
  | none ↦ false
  | some service_cfg ↦ any (λ a. action_eq a action) (flatten service_cfg.allowed_actions)
]
