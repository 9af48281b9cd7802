-- ===== src/Tests/Configs.antt =====
-- The configuration and the start of the server, and the keys on the client's disk.
use verifiable_storage.Prelude.{◌⊎◌, ◌&&◌, ◌++◌}
use verifiable_storage.Server.Start.Laws.{Overflows}
use verifiable_storage.Prelude.{
  ℕ, zero, suc, ◌≢◌, ◌<◌, true, ◌≡◌, refl, Option, none, some, List, [], ◌∷◌, false, arith, ◌==◌,
  All,
}
use verifiable_storage.Prelude.Result.{ok, err, panic}
use verifiable_storage.Prelude.Text.{Bytes, Str, text, as_bytes}
use verifiable_storage.Prelude.Decimal.{parse_unsigned}
use verifiable_storage.Prelude.Dict.{str_eq, lookup}
use verifiable_storage.Disk.{Outcome, works, fails, Disk}
use verifiable_storage.Disk.Laws.{sound}
use verifiable_storage.Crypto.{compute_client_id}
use verifiable_storage.Common.FilePath.{join}
use verifiable_storage.Storage.Connect.{
  Attempt, connected, connect_failed, default_config, retry_overflows,
}
use verifiable_storage.Storage.Schema.{Catalog, Setup}
use verifiable_storage.Storage.Schema.Laws.{Grown}
use verifiable_storage.Storage.Schema.Complete.{IsComplete, completed, calm_setup}
use verifiable_storage.Server.Config.{
  Args, ServerConfig, database, parse_storage_type, database_url_for, from_env, load, bind_address,
  IsUsable, load-IsUsable,
}
use verifiable_storage.Server.Start.{database_storage, start}
use verifiable_storage.Server.Start.Ready.{start_lem, start-completed}
use verifiable_storage.Client.{ClientError}
use verifiable_storage.Client.Config.{client_id_file, get_key_file_path}
use verifiable_storage.Client.Keypair.{generate_keypair, get_or_create_keypair}
use verifiable_storage.Client.Keypair.Laws.{
  generate_keypair-keeps, get_or_create_keypair-generate_keypair,
}
use verifiable_storage.Tests.ToyCrates.{toy_crates, toy_crates-IsLawful, digest, zeros, to_hex}

-- A database on the command line, and nothing in the environment.
abbrev args : Args
args = record {
  storage = some (text "db");
  data_dir = none;
  database_url = some (text "postgres://db");
  port = some (text "9000");
  host = some (text "127.0.0.1");
}

abbrev var : Str → Option Str
var _ = none

abbrev config : ServerConfig
config = record {
  storage_type = database;
  host = text "127.0.0.1";
  port = 9000;
  data_dir = text "server_data";
  database_url = some (text "postgres://db");
  database_retry_config = default_config;
}

loaded : load args var ≡ ok config
unfolding load parse_storage_type database_url_for from_env parse_unsigned ◌==◌
loaded = refl

load-IsUsable_example : IsUsable config
load-IsUsable_example = load-IsUsable args var config loaded

-- The second attempt connects.
abbrev tries : Str → ℕ → Attempt
tries url zero = connect_failed
tries url (suc i) = connected

-- A database with the table of the clients, and one row in it.
abbrev catalog : Catalog
catalog = record {
  clients = some ((text "c1", 7 ∷ []) ∷ []);
  batches = none;
  files = none;
  merkle_trees = none;
  batches_index = false;
  files_index = false;
}

abbrev empty_disk : Disk
empty_disk = record { files = []; outcomes = [] }

-- The third statement fails.
abbrev interrupted : Setup
interrupted = record { catalog = catalog; outages = false ∷ false ∷ true ∷ [] }

start_lem_example :
    Grown catalog (start tries true false args var (interrupted, empty_disk)).1.0.catalog
    × (((start tries true false args var (interrupted, empty_disk)).0 ≢ panic)
        ⊎ Overflows tries true args var)
    × ((url address : Str)
        → (start tries true false args var (interrupted, empty_disk)).0
          ≡ ok (database_storage url, address)
        → IsComplete (start tries true false args var (interrupted, empty_disk)).1.0.catalog)
start_lem_example = start_lem tries true false args var interrupted empty_disk

no_overflow :
    (true && retry_overflows (tries (text "postgres://db")) config.database_retry_config) ≡ false
unfolding retry_overflows
no_overflow = refl

start-completed_example : start tries true false args var (calm_setup catalog, empty_disk) ≡ (
  ok (database_storage (text "postgres://db"), bind_address config),
  (calm_setup (completed catalog), empty_disk),
)
start-completed_example =
    start-completed tries true false args var config (text "postgres://db") 1 catalog empty_disk
      loaded refl refl (omega arith) refl no_overflow

abbrev dir : Str
dir = text "client_data"

abbrev random : Bytes
random = zeros 32

random_bytes : All (λ x. x < 256) random
random_bytes = ground arith

abbrev one_key : List (Str × Bytes)
one_key = (get_key_file_path dir, 7 ∷ []) ∷ []

generate_keypair-keeps_example :
    ((first : Outcome) (rest : List Outcome)
      → (e : ClientError) × (d' : Disk) × (generate_keypair dir random false
            (record { files = one_key; outcomes = first ∷ works ∷ rest })
          ≡ (err e, d'))
        × (d'.files ≡ one_key))
    × ((d' : Disk) × (generate_keypair dir random false
            (record { files = one_key; outcomes = works ∷ fails ∷ [] })
          ≡ (ok tt, d'))
        × (lookup (get_key_file_path dir) d'.files
            ≡ some (as_bytes (to_hex (random ++ digest random)))))
generate_keypair-keeps_example =
    generate_keypair-keeps dir random one_key (7 ∷ [])
      (unfold lookup get_key_file_path join ◌==◌ in refl)

get_or_create_keypair-generate_keypair_example :
    (files' : List (Str × Bytes)) × (generate_keypair dir random false (sound [])
      ≡ (ok tt, sound files'))
    × (get_or_create_keypair dir (digest []) (sound files')
        ≡ (ok (random, compute_client_id (digest random)), sound files'))
    × (lookup (join dir client_id_file) files'
        ≡ some (as_bytes (compute_client_id (digest random))))
get_or_create_keypair-generate_keypair_example =
    get_or_create_keypair-generate_keypair toy_crates-IsLawful dir random (digest []) false [] refl
      random_bytes (unfold lookup in refl)

-- The 65th attempt waits for 2 ^ 64 seconds, which `u64` does not hold.
long_retry :
    retry_overflows (λ _. connect_failed) (record { max_attempts = 66; initial_delay_seconds = 1 })
    ≡ true
unfolding retry_overflows
long_retry = refl
