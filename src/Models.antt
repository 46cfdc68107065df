-- ===== src/Models.antt =====
-- internal/models/models.go: the domain types. Times that only order or display rows (`CreatedAt`,
-- `UpdatedAt`, `LastLoginAt`) are left out: tables keep the newest row first.
use gocontrolpanel.Base.{ℕ, Bool, true, false, Option, List, leb}
use gocontrolpanel.Go.Strings.{Text}

-- A UUID; 0 is `uuid.Nil`.
abbrev pub Uuid : Type 0
Uuid = ℕ

-- `Role` is a string in the source: `other` is any that is none of the three constants.
pub data Role : Type 0 where
  admin reseller user : Role
  other : Text → Role

unfoldable pub role_valid : Role → Bool
role_valid (other name) = false
role_valid r = true

unfoldable pub rank : Role → ℕ
rank user = 1
rank reseller = 2
rank admin = 3
rank (other name) = 0

unfoldable pub at_least : Role → Role → Bool
unfolding rank
at_least r min = leb (rank min) (rank r)

unfoldable pub is_admin : Role → Bool
is_admin admin = true
is_admin r = false

unfoldable pub is_reseller : Role → Bool
is_reseller reseller = true
is_reseller r = false

-- `cpu_limit` counts hundredths of a core, as the column NUMERIC(4,2) does.
pub record Plan : Type 0 where
  pub id : Uuid
  pub name : Text
  pub description : Text
  pub disk_quota_mb : ℕ
  pub bandwidth_quota_mb : ℕ
  pub max_sites : ℕ
  pub max_databases : ℕ
  pub max_ftp_accounts : ℕ
  pub max_cron_jobs : ℕ
  pub max_domains : ℕ
  pub max_mailboxes : ℕ
  pub cpu_limit : ℕ
  pub memory_limit_mb : ℕ
  pub php_versions : List Text
  pub is_default : Bool

pub record User : Type 0 where
  pub id : Uuid
  pub username : Text
  pub email : Text
  pub password_hash : Text
  pub full_name : Text
  pub role : Role
  pub parent_id : Option Uuid
  pub is_active : Bool
  pub totp_secret : Option Text
  pub totp_enabled : Bool
  pub totp_last_step : ℕ
  pub must_change_password : Bool

pub data AccountStatus : Type 0 where
  active suspended terminated : AccountStatus

pub record Account : Type 0 where
  pub id : Uuid
  pub owner_id : Uuid
  pub plan_id : Uuid
  pub system_user : Text
  pub primary_domain : Text
  pub status : AccountStatus
  pub suspend_reason : Text
  pub disk_used_mb : ℕ
  pub bandwidth_used_mb : ℕ
  pub bandwidth_reset_at : ℕ
  pub notes : Text

pub data SiteStatus : Type 0 where
  provisioning running stopped error deleting : SiteStatus

pub record Site : Type 0 where
  pub id : Uuid
  pub account_id : Uuid
  pub name : Text
  pub php_version : Text
  pub document_root : Text
  pub host_path : Text
  pub container_id : Text
  pub container_name : Text
  pub upstream_host : Text
  pub worker_script : Text
  pub worker_count : ℕ
  pub env_vars : List (Text × Text)
  pub status : SiteStatus
  pub last_error : Text
  -- The baselines of the traffic, in bytes.
  pub net_rx_mb : ℕ
  pub net_tx_mb : ℕ

pub data DomainKind : Type 0 where
  primary addon subdomain alias : DomainKind

pub record Domain : Type 0 where
  pub id : Uuid
  pub site_id : Uuid
  pub fqdn : Text
  pub kind : DomainKind
  pub redirect_to : Text
  pub tls_mode : Text
  pub force_https : Bool

pub record SystemSettings : Type 0 where
  pub waf_enabled : Bool
  pub rate_limit_per_minute : ℕ
  pub backup_retention_days : ℕ
