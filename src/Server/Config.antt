-- ===== src/Server/Config.antt =====
-- bin/server/src/config.rs and constants.rs, and the configuration of the retries in
-- crates/storage/src/database.rs.
use verifiable_storage.Prelude.{
  ℕ, ◌^◌, ◌<◌, ◌≡◌, refl, subst, Option, none, some, ◌++◌, ◌==◌, if◌then◌else◌, arith,
}
use verifiable_storage.Prelude.Result.{Result, ok, err, ◌>>=◌, ok_or, ok_or-ok, ok_inj, >>=-eq-ok}
use verifiable_storage.Prelude.Text.{Str, text}
use verifiable_storage.Prelude.Decimal.{
  parse_unsigned, to_string, parse_unsigned-lt, parse_unsigned-to_string,
}
use verifiable_storage.Storage.Connect.{DatabaseRetryConfig}

abbrev default_data_dir : Str
default_data_dir = text "server_data"

abbrev default_host : Str
default_host = text "0.0.0.0"

abbrev default_port : Str
default_port = text "8080"

abbrev storage_type_database : Str
storage_type_database = text "db"

abbrev storage_type_filesystem : Str
storage_type_filesystem = text "fs"

pub data StorageType : Type 0 where
  filesystem database : StorageType

pub data ConfigError : Type 0 where
  invalid_storage_type database_url_required invalid_port : ConfigError

-- The values that clap has found on the command line.
pub record Args : Type 0 where
  pub storage : Option Str
  pub data_dir : Option Str
  pub database_url : Option Str
  pub port : Option Str
  pub host : Option Str

pub record ServerConfig : Type 0 where
  pub storage_type : StorageType
  pub host : Str
  pub port : ℕ
  pub data_dir : Str
  pub database_url : Option Str
  pub database_retry_config : DatabaseRetryConfig

module _ {A : Type 0} where
  abbrev unwrap_or : Option A → A → A
  unwrap_or none d = d
  unwrap_or (some a) d = a

  -- `or`, `or_else`
  abbrev or_else : Option A → Option A → Option A
  or_else none o = o
  or_else (some a) o = some a

  -- `and_then`
  abbrev and_then : {B : Type 0} → Option B → (B → Option A) → Option A
  and_then none f = none
  and_then (some b) f = f b

unfoldable pub parse_storage_type : Str → Result ConfigError StorageType
parse_storage_type s =
    if s == storage_type_database
    then ok database
    else if s == storage_type_filesystem
    then ok filesystem
    else err invalid_storage_type

-- The environment gives the value of a variable that is set and valid Unicode.
unfoldable pub database_url_for :
    StorageType → Args → (Str → Option Str) → Result ConfigError (Option Str)
database_url_for filesystem args var = ok none
database_url_for database args var = do
  url ← ok_or database_url_required (or_else args.database_url (var (text "DATABASE_URL")))
  ok (some url)

-- `DatabaseRetryConfig::from_env`: values that are no numbers count as none.
unfoldable pub from_env : (Str → Option Str) → DatabaseRetryConfig
from_env var = record {
  max_attempts =
      unwrap_or (and_then (var (text "DB_RETRY_MAX_ATTEMPTS")) (parse_unsigned (2 ^ 32))) 5;
  initial_delay_seconds =
      unwrap_or (and_then (var (text "DB_RETRY_INITIAL_DELAY_SECONDS")) (parse_unsigned (2 ^ 64)))
        1;
}

unfoldable pub load : Args → (Str → Option Str) → Result ConfigError ServerConfig
load args var = do
  storage_type ← parse_storage_type (unwrap_or args.storage storage_type_filesystem)
  database_url ← database_url_for storage_type args var
  port ← ok_or invalid_port (
      parse_unsigned (2 ^ 16)
        (unwrap_or (or_else args.port (var (text "SERVER_PORT"))) default_port))
  ok (record {
    storage_type = storage_type;
    host = unwrap_or (or_else args.host (var (text "SERVER_HOST"))) default_host;
    port = port;
    data_dir = unwrap_or args.data_dir default_data_dir;
    database_url = database_url;
    database_retry_config = from_env var;
  })

unfoldable pub bind_address : ServerConfig → Str
bind_address c = c.host ++ (text ":" ++ to_string c.port)

-- What `main` relies on: a port that fits in 16 bits, a URL for the database where it takes one, and
-- numbers of the retries that fit in their types.
pub record IsUsable (c : ServerConfig) : Type 0 where
  pub port_lt : c.port < 2 ^ 16
  pub has_url : c.storage_type ≡ database → (url : Str) × (c.database_url ≡ some url)
  pub attempts_lt : c.database_retry_config.max_attempts < 2 ^ 32
  pub delay_lt : c.database_retry_config.initial_delay_seconds < 2 ^ 64

database_url_for-some :
    (t : StorageType) (args : Args) (var : Str → Option Str) (o : Option Str)
    → database_url_for t args var ≡ ok o
    → t ≡ database
    → (url : Str) × (o ≡ some url)
unfolding database_url_for
database_url_for-some filesystem args var o h e = absurd (cc)
database_url_for-some database args var o h e =
    let (url, found, same) =
      >>=-eq-ok
        (ok_or database_url_required (or_else args.database_url (var (text "DATABASE_URL")))) _ h in
    (url, cc)

parsed_or-lt :
    (bound d : ℕ) (o : Option Str)
    → d < bound
    → unwrap_or (and_then o (parse_unsigned bound)) d < bound
parsed_or-lt bound d none lt = lt
parsed_or-lt bound d (some s) lt = below (parse_unsigned bound s) (parse_unsigned-lt bound s)
  where
    below : (o : Option ℕ) → ((n : ℕ) → 0 < bound → o ≡ some n → n < bound) → unwrap_or o d < bound
    below none h = lt
    below (some n) h = h n (omega arith) refl

-- Every configuration that is loaded, from any command line and environment, is usable.
pub load-IsUsable :
    (args : Args) (var : Str → Option Str) (c : ServerConfig) → load args var ≡ ok c → IsUsable c
unfolding load from_env
load-IsUsable args var c h =
    let (t, typed, h₁) =
      >>=-eq-ok (parse_storage_type (unwrap_or args.storage storage_type_filesystem)) _ h in
    let (url, has, h₂) = >>=-eq-ok (database_url_for t args var) _ h₁ in
    let (port, parsed, h₃) =
      >>=-eq-ok
        (ok_or invalid_port (
          parse_unsigned (2 ^ 16)
            (unwrap_or (or_else args.port (var (text "SERVER_PORT"))) default_port)))
        _ h₂ in
    subst IsUsable (ok_inj h₃) (record {
      port_lt =
          parse_unsigned-lt (2 ^ 16) _ port (omega arith) (ok_or-ok invalid_port _ port parsed);
      has_url = database_url_for-some t args var url has;
      attempts_lt = parsed_or-lt (2 ^ 32) 5 (var (text "DB_RETRY_MAX_ATTEMPTS")) (omega arith);
      delay_lt =
          parsed_or-lt (2 ^ 64) 1 (var (text "DB_RETRY_INITIAL_DELAY_SECONDS")) (omega arith);
    })

-- A host and a port below 2¹⁶ that stand on the command line are the address that the server binds to,
-- whatever the environment says, if the rest of the command line is accepted.
pub bind_address-load :
    (args : Args) (var : Str → Option Str) (host : Str) (n : ℕ)
    → n < 2 ^ 16
    → args.host ≡ some host
    → args.port ≡ some (to_string n)
    → (t : StorageType) (url : Option Str)
    → parse_storage_type (unwrap_or args.storage storage_type_filesystem) ≡ ok t
    → database_url_for t args var ≡ ok url
    → (c : ServerConfig) × (load args var ≡ ok c)
      × (bind_address c ≡ host ++ (text ":" ++ to_string n))
unfolding load bind_address
bind_address-load args var host n lt h p t url typed has = (
  record {
    storage_type = t;
    host = host;
    port = n;
    data_dir = unwrap_or args.data_dir default_data_dir;
    database_url = url;
    database_retry_config = from_env var;
  },
  rw (typed, has, h, p, parse_unsigned-to_string (2 ^ 16) n lt) refl,
  refl,
)
