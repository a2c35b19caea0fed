-- ===== src/Store/Model.antt =====
-- The rows of the store's tables (internal/store/models.go, internal/store/migrations) and the
-- database that holds them. A table is the list of its rows in the order of the primary key, which
-- is the order of insertion where the key is AUTOINCREMENT. Statuses are the enumerations that the
-- tables' CHECK clauses allow; times are Unix seconds.
use sub2api5hlimit.Base.{ℕ, Bool, true, false, ◌&&◌, not, Option, List, String, ltb}

-- The code points of a text.
abbrev pub Text : Type 0
Text = List ℕ

pub data Role : Type 0 where
  admin user : Role

pub data UserStatus : Type 0 where
  active disabled deleted : UserStatus

pub data JobStatus : Type 0 where
  queued running completed : JobStatus

pub data ItemStatus : Type 0 where
  pending running succeeded failed unknown skipped : ItemStatus

-- A float64: what is finite is (-1)^negative * mantissa * 2^exponent / 2^1074.
pub data Float64 : Type 0 where
  nan : Float64
  infinite : Bool → Float64
  finite : Bool → ℕ → ℕ → Float64

-- x > 0
abbrev pub is_positive : Float64 → Bool
is_positive nan = false
is_positive (infinite negative) = not negative
is_positive (finite true m e) = false
is_positive (finite false m e) = ltb 0 m

pub record User : Type 0 where
  pub id : ℕ
  pub username : Text
  pub display_name : Text
  pub password_hash : Text
  pub role : Role
  pub status : UserStatus
  pub last_login_at : Option ℕ
  pub deleted_at : Option ℕ
  pub created_at : ℕ
  pub updated_at : ℕ

pub record SessionRow : Type 0 where
  pub token_hash : Text
  pub csrf_hash : Text
  pub user_id : ℕ
  pub created_at : ℕ
  pub last_seen_at : ℕ
  pub idle_expires_at : ℕ
  pub absolute_expires_at : ℕ

pub data BindingState : Type 0 where
  invalid_limits upstream_inactive healthy missing : BindingState

pub record KeyBinding : Type 0 where
  pub user_id : ℕ
  pub upstream_key_id : ℕ
  pub key_name : Text
  pub key_mask : Text
  pub upstream_status : Text
  pub binding_state : BindingState
  pub rate_limit_5h : Float64
  pub usage_5h : Float64
  pub reset_5h_at : Option ℕ
  pub rate_limit_7d : Float64
  pub usage_7d : Float64
  pub reset_7d_at : Option ℕ
  pub source_updated_at : Option ℕ
  pub last_success_at : Option ℕ
  pub last_error_code : Text
  pub created_at : ℕ
  pub updated_at : ℕ

pub record KeySnapshot : Type 0 where
  pub upstream_key_id : ℕ
  pub name : Text
  pub mask : Text
  pub status : Text
  pub rate_limit_5h : Float64
  pub usage_5h : Float64
  pub reset_5h_at : Option ℕ
  pub rate_limit_7d : Float64
  pub usage_7d : Float64
  pub reset_7d_at : Option ℕ
  pub source_updated_at : Option ℕ

abbrev pub compliant : KeySnapshot → Bool
compliant k = is_positive k.rate_limit_5h && is_positive k.rate_limit_7d

pub record Counters : Type 0 where
  pub total : ℕ
  pub pending : ℕ
  pub running : ℕ
  pub succeeded : ℕ
  pub failed : ℕ
  pub unknown : ℕ
  pub skipped : ℕ

pub record QuotaResetJob : Type 0 where
  pub id : ℕ
  pub status : JobStatus
  pub counters : Counters
  pub requested_by_user_id : Option ℕ
  pub created_at : ℕ
  pub started_at : Option ℕ
  pub completed_at : Option ℕ
  pub updated_at : ℕ

pub record QuotaResetJobItem : Type 0 where
  pub id : ℕ
  pub job_id : ℕ
  pub user_id : ℕ
  pub username : Text
  pub display_name : Text
  pub user_status : UserStatus
  pub upstream_key_id : Option ℕ
  pub key_mask : Text
  pub status : ItemStatus
  pub error_code : Text
  pub created_at : ℕ
  pub updated_at : ℕ
  pub started_at : Option ℕ
  pub completed_at : Option ℕ

-- What the audit events carry as JSON: nothing, or the value that is given to `json.Marshal`.
pub data Metadata : Type 0 where
  empty : Metadata
  total_count : ℕ → Metadata
  counters_of_job : Counters → Metadata
  counters_and_code : Counters → Text → Metadata
  single_reset : ℕ → ItemStatus → Text → Metadata
  limits : ℕ → Float64 → Float64 → Metadata

pub record AuditEvent : Type 0 where
  pub actor_user_id : Option ℕ
  pub action : String
  pub target_type : String
  pub target_id : ℕ
  pub metadata : Metadata
  pub created_at : ℕ

-- The last_* fields are the AUTOINCREMENT sequences.
pub record Db : Type 0 where
  pub users : List User
  pub sessions : List SessionRow
  pub key_bindings : List KeyBinding
  pub quota_reset_jobs : List QuotaResetJob
  pub quota_reset_job_items : List QuotaResetJobItem
  pub audit_events : List AuditEvent
  pub last_user_id : ℕ
  pub last_job_id : ℕ
  pub last_item_id : ℕ

abbrev pub is_user : Role → Bool
is_user user = true
is_user admin = false

abbrev pub is_deleted : UserStatus → Bool
is_deleted deleted = true
is_deleted _ = false

abbrev pub is_active : UserStatus → Bool
is_active active = true
is_active _ = false
