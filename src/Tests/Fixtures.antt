-- ===== src/Tests/Fixtures.antt =====
-- Concrete parameters and rows for the tests.
use gocontrolpanel.Base.{
  ℕ, zero, suc, ◌≡◌, refl, Bool, true, false, Option, none, some, List, [], ◌∷◌, ◌++◌,
  if◌then◌else◌, length,
}
use gocontrolpanel.Go.Strings.{Text, codes, text_eq}
use gocontrolpanel.Go.Strings.Laws.{text_eq_refl}
use gocontrolpanel.Models.{
  Uuid, Role, admin, reseller, user, other, User, Account, Plan, Site, Domain, active, running,
  primary,
}
use gocontrolpanel.Panel.{Db, World}
use gocontrolpanel.Provision.Edge.{Settings}
use gocontrolpanel.Auth.Tokens.{Claims, Jwt, TokenIssuer, in_force}
use gocontrolpanel.Auth.Totp.{Hotp}
use gocontrolpanel.Api.Access.{Identity}
use gocontrolpanel.Api.Login.{Crypto}

-- A text with its length in front.
put : Text → Text → Text
put t rest = length t ∷ t ++ rest

split_off : ℕ → Text → Option (Text × Text)
split_off zero s = some ([], s)
split_off (suc n) [] = none
split_off (suc n) (c ∷ s) = prepend (split_off n s)
  where
    prepend : Option (Text × Text) → Option (Text × Text)
    prepend none = none
    prepend (some (t, rest)) = some (c ∷ t, rest)

get : Text → Option (Text × Text)
unfolding split_off
get [] = none
get (n ∷ s) = split_off n s

split_off-append : (t rest : Text) → split_off (length t) (t ++ rest) ≡ some (t, rest)
unfolding split_off
split_off-append [] rest = refl
split_off-append (c ∷ t) rest = rw (split_off-append t rest) refl

get-put : (t rest : Text) → get (put t rest) ≡ some (t, rest)
unfolding get put
get-put t rest = split_off-append t rest

role_text : Role → Text
role_text admin = 0 ∷ []
role_text reseller = 1 ∷ []
role_text user = 2 ∷ []
role_text (other name) = 3 ∷ name

role_of : Text → Role
role_of (zero ∷ name) = admin
role_of (suc zero ∷ name) = reseller
role_of (suc (suc zero) ∷ name) = user
role_of (suc (suc (suc n)) ∷ name) = other name
role_of [] = other []

role_of-role_text : (r : Role) → role_of (role_text r) ≡ r
unfolding role_text role_of
role_of-role_text admin = refl
role_of-role_text reseller = refl
role_of-role_text user = refl
role_of-role_text (other name) = refl

-- A token: the secret and the fields.
pub encode : Text → Claims → Text
unfolding put role_text
encode secret c = put secret (
    put c.username (
      put (role_text c.role)
        (put c.purpose (put c.issuer (c.user_id ∷ c.not_before ∷ c.expires_at ∷ c.token_id ∷ [])))))

abbrev bind_text : {A : Type 0} → Option (Text × Text) → (Text → Text → Option A) → Option A
bind_text none f = none
bind_text (some (t, rest)) f = f t rest

last_fields : Text → Text → Text → Text → Text → Text → Option (Text × Claims)
unfolding role_of
last_fields secret username role purpose issuer (i ∷ nbf ∷ exp ∷ id ∷ []) = some (
  secret,
  record {
    user_id = i;
    username = username;
    role = role_of role;
    purpose = purpose;
    issuer = issuer;
    not_before = nbf;
    expires_at = exp;
    token_id = id;
  },
)
last_fields secret username role purpose issuer _ = none

pub decode : Text → Option (Text × Claims)
unfolding get last_fields
decode s = bind_text (get s) (λ secret s1. bind_text (get s1) (λ username s2.
    bind_text (get s2) (λ role s3. bind_text (get s3) (λ purpose s4.
      bind_text (get s4) (λ issuer s5. last_fields secret username role purpose issuer s5)))))

pub decode-encode : (secret : Text) (c : Claims) → decode (encode secret c) ≡ some (secret, c)
unfolding decode encode last_fields
decode-encode secret c =
    rw
      (
        get-put secret _,
        get-put c.username _,
        get-put (role_text c.role) _,
        get-put c.purpose _,
        get-put c.issuer _,
        role_of-role_text c.role,
      )
      refl

checked : Text → Text → ℕ → Option (Text × Claims) → Option Claims
checked secret issuer now none = none
checked secret issuer now (some (key, c)) =
    if text_eq key secret then (if in_force issuer now c then some c else none) else none

unfoldable pub jwt : Jwt
unfolding encode decode checked
jwt = record {
  sign = encode;
  verify = λ secret issuer now token. checked secret issuer now (decode token);
  verify-sign = λ secret issuer now c. rw (decode-encode secret c, text_eq_refl secret) refl;
}

-- Twenty bytes, so that every code is "000000".
abbrev zeros : List ℕ
zeros = 0 ∷ 0 ∷ 0 ∷ 0 ∷ 0 ∷ 0 ∷ 0 ∷ 0 ∷ 0 ∷ 0 ∷ 0 ∷ 0 ∷ 0 ∷ 0 ∷ 0 ∷ 0 ∷ 0 ∷ 0 ∷ 0 ∷ 0 ∷ []

abbrev pub hotp : Hotp
hotp = record { decode = λ s. some s; hmac = λ key msg. zeros; length-hmac = λ key msg. refl }

abbrev pub issuer : TokenIssuer
issuer = record { secret = codes "k"; access_ttl = 900; refresh_ttl = 5000; issuer = codes "p" }

abbrev pub crypto : Crypto
crypto = record {
  jwt = jwt;
  hotp = hotp;
  issuer = issuer;
  verify_password = λ hash password. text_eq hash password;
  random = λ n. n ∷ [];
  hash_refresh = λ t. 9 ∷ t;
  new_secret = λ n. n ∷ [];
}

abbrev pub someone : Uuid → Text → Role → Option Uuid → Bool → User
someone id name role parent totp = record {
  id = id;
  username = name;
  email = name ++ codes "@x";
  password_hash = codes "pw";
  full_name = [];
  role = role;
  parent_id = parent;
  is_active = true;
  totp_secret = some (codes "s");
  totp_enabled = totp;
  totp_last_step = 0;
  must_change_password = false;
}

-- A reseller, its child without and its child with a second factor.
abbrev pub ana : User
ana = someone 2 (codes "ana") reseller none false

abbrev pub ben : User
ben = someone 3 (codes "ben") user (some 2) false

abbrev pub eva : User
eva = someone 4 (codes "eva") user (some 2) true

abbrev pub bens : Account
bens = record {
  id = 10;
  owner_id = 3;
  plan_id = 1;
  system_user = codes "ben";
  primary_domain = codes "b.io";
  status = active;
  suspend_reason = [];
  disk_used_mb = 0;
  bandwidth_used_mb = 0;
  bandwidth_reset_at = 0;
  notes = [];
}

abbrev pub blog : Site
blog = record {
  id = 20;
  account_id = 10;
  name = codes "blog";
  php_version = codes "8.3";
  document_root = codes "public";
  host_path = codes "/s/blog";
  container_id = codes "c1";
  container_name = codes "gcp-blog";
  upstream_host = codes "gcp-blog:80";
  worker_script = [];
  worker_count = 0;
  env_vars = [];
  status = running;
  last_error = [];
  net_rx_mb = 0;
  net_tx_mb = 0;
}

abbrev pub b_io : Domain
b_io = record {
  id = 30;
  site_id = 20;
  fqdn = codes "b.io";
  kind = primary;
  redirect_to = [];
  tls_mode = codes "auto";
  force_https = true;
}

abbrev pub cfg : Settings
cfg = record {
  listen_addr = codes ":8080";
  public_url = codes "https://p.io";
  caddy_email = codes "a@p.io";
  coraza_directives = [];
  mail_enabled = false;
  mail_webmail_upstream = [];
  mail_hostname = none;
  sites_root = codes "/s";
  container_prefix = codes "gcp-";
  site_image_prefix = codes "php:";
  site_image_default = codes "php:8.3";
}

abbrev basic : Plan
basic = record {
  id = 1;
  name = codes "basic";
  description = [];
  disk_quota_mb = 0;
  bandwidth_quota_mb = 0;
  max_sites = 2;
  max_databases = 1;
  max_ftp_accounts = 1;
  max_cron_jobs = 1;
  max_domains = 3;
  max_mailboxes = 1;
  cpu_limit = 100;
  memory_limit_mb = 256;
  php_versions = codes "8.4" ∷ [];
  is_default = true;
}

abbrev pub rows : Db
rows = record {
  users = ana ∷ ben ∷ eva ∷ [];
  plans = basic ∷ [];
  accounts = bens ∷ [];
  sites = blog ∷ [];
  domains = b_io ∷ [];
  sessions =
      record { user_id = 3; refresh_hash = 9 ∷ 7 ∷ []; expires_at = 500; is_revoked = false } ∷ [];
  settings = record { waf_enabled = false; rate_limit_per_minute = 0; backup_retention_days = 7 };
}

-- No call fails.
abbrev pub calm : World
calm = record { db = rows; edge = none; calls = []; faults = []; next_id = 100; clock = 100 }

abbrev pub as_ana : Identity
as_ana = record { user_id = 2; username = codes "ana"; role = reseller }
