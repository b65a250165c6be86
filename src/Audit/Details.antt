-- ===== src/Audit/Details.antt =====
-- `CanonicalAuditEntry::canonicalize_value` of crates/kms-service/src/domain/audit/models.rs: the
-- details of an entry with the values under a secret's name replaced. A JSON number is its text; an
-- object is listed in the order of its keys, as a `BTreeMap` gives it, which is by code points.
use Prim.Native.Char.{code}
use Prim.Native.String.{[] as nil, ◌∷◌ as cons, ◌++◌}
use kms_platform.Common.{
  ltb, ◌==◌, Bool, true, false, ◌&&◌, ◌||◌, String, Option, none, some, str_eq, if◌then◌else◌,
}
use kms_platform.Audit.Reasons.{chars, pattern, find, to_ascii_lowercase}
pub mod Secrets

mutual
  pub data Members : Type 0 where
    no_members : Members
    member : String → Value → Members → Members

  pub data Values : Type 0 where
    no_values : Values
    value_and : Value → Values → Values

  pub data Value : Type 0 where
    null : Value
    boolean : Bool → Value
    number : String → Value
    string : String → Value
    array : Values → Value
    object : Members → Value

-- `<` of two strings.
abbrev pub str_less : String → String → Bool
str_less s nil = false
str_less nil (cons d t) = true
str_less (cons c s) (cons d t) = ltb (code c) (code d) || (code c == code d && str_less s t)

-- `BTreeMap::insert`
unfoldable pub insert_field : String → Value → Members → Members
insert_field key value no_members = member key value no_members
insert_field key value (member name inner fields) =
    let rest = insert_field key value fields in
    if str_eq name key
    then member key value fields
    else if str_less key name
    then member key value (member name inner fields)
    else member name inner rest

-- `format!("{parent}.{key}")`, or the key where there is no parent.
abbrev pub redacted_key : Option String → String → String
redacted_key none key = key
redacted_key (some parent) key = parent ++ ("." ++ key)

abbrev pub found : {A : Type 0} → Option A → Bool
found none = false
found (some _) = true

-- `key.to_ascii_lowercase().contains("secret")`
unfoldable pub is_secret : String → Bool
unfolding find to_ascii_lowercase
is_secret key = found (find (pattern "secret") (to_ascii_lowercase (chars key)))

abbrev pub names_secret : Option String → Bool
names_secret none = false
names_secret (some key) = is_secret key

abbrev pub scalar : Option String → Value → Value
scalar parent_key value = if names_secret parent_key then string "[REDACTED]" else value

-- The loop over an object inserts its fields from the first to the last.
unfoldable mutual
  unfolding insert_field is_secret

  pub canonicalize_value : Option String → Value → Value
  canonicalize_value parent_key null = scalar parent_key null
  canonicalize_value parent_key (boolean b) = scalar parent_key (boolean b)
  canonicalize_value parent_key (number n) = scalar parent_key (number n)
  canonicalize_value parent_key (string s) = scalar parent_key (string s)
  canonicalize_value parent_key (array items) = array (canonicalize_items parent_key items)
  canonicalize_value parent_key (object fields) =
      object (canonicalize_fields parent_key fields no_members)

  pub canonicalize_items : Option String → Values → Values
  canonicalize_items parent_key no_values = no_values
  canonicalize_items parent_key (value_and value items) =
      value_and (canonicalize_value parent_key value) (canonicalize_items parent_key items)

  pub canonicalize_fields : Option String → Members → Members → Members
  canonicalize_fields parent_key no_members ordered = ordered
  canonicalize_fields parent_key (member key inner fields) ordered =
      canonicalize_fields parent_key fields
        (insert_field key (canonicalize_value (some (redacted_key parent_key key)) inner) ordered)

-- `sanitize_details`
unfoldable pub sanitize_details : Option Value → Option Value
unfolding canonicalize_value
sanitize_details none = none
sanitize_details (some value) = some (canonicalize_value none value)
