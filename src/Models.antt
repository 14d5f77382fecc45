-- ===== src/Models.antt =====
-- models.py, conf.py: the rows of the audit tables, users and profiles.
use django_mcp_sql.Prelude.{ℕ, String, Bool, Option, List}
use django_mcp_sql.Raise.{Try}

-- What the package reads of the project's user model.
pub record User : Type 0 where
  pub pk : ℕ
  pub username : String
  pub is_active : Bool
  pub is_staff : Bool

-- A key of what a SESSION_CONTEXT hook returns: a `str`, or another value by its `repr`.
pub data Key : Type 0 where
  name : String → Key
  other_key : String → Key

-- What such a hook returns: `None`, a mapping (values by their `str`), or something else, by the
-- name of its type.
pub data HookResult : Type 0 where
  no_context : HookResult
  mapping : List (Key × String) → HookResult
  not_mapping : String → HookResult

-- `conf.Profile`. The hook is called with the user and this profile, which it is made for.
pub record Profile : Type 0 where
  pub name : String
  pub role : String
  pub codename : String
  pub group_name : String
  pub allowed_models : List String
  pub session_context : Option (User → Try HookResult)

pub data Decision : Type 0 where
  allowed rejected : Decision

-- `MCPQueryLog.DECISION_ALLOWED` and `DECISION_REJECTED`.
abbrev pub decision_value : Decision → String
decision_value allowed = "allowed"
decision_value rejected = "rejected"

-- A row of `MCPQueryLog`, which is what `_audit_safely` is given.
pub record AuditFields : Type 0 where
  pub user : User
  pub profile : String
  pub token_id : String
  pub decision : Decision
  pub rejection_reason : String
  pub raw_sql : String
  pub started_at : ℕ
  pub client_ip : Option String
  pub client_redirect : String
  pub error : String
  pub normalized_sql : String
  pub wrapped_sql : String
  pub duration_ms : Option ℕ
  pub result_bytes : Option ℕ
  pub row_count : Option ℕ
  pub truncated : Bool
  pub tool : String

-- A row of `MCPAuthRejectionLog`.
pub record RejectionRow : Type 0 where
  pub user : User
  pub token_pk : String
  pub application_name : String
  pub client_redirect : String
  pub reason : String
  pub error : String
  pub client_ip : Option String
  pub started_at : ℕ
