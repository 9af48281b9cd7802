-- ===== src/Client/Config.antt =====
-- bin/client/src/config.rs and constants.rs: where the server and the client's data are.
use verifiable_storage.Prelude.{Option, none, some}
use verifiable_storage.Prelude.Text.{Str, text}
use verifiable_storage.Common.FilePath.{join}

abbrev pub key_file : Str
key_file = text "keypair.txt"

abbrev pub client_id_file : Str
client_id_file = text "client_id.txt"

abbrev pub root_hash_file : Str
root_hash_file = text "root_hash.txt"

abbrev pub filenames_file : Str
filenames_file = text "filenames.json"

abbrev pub downloaded_dir : Str
downloaded_dir = text "downloaded"

abbrev pub upload_endpoint : Str
upload_endpoint = text "/upload"

abbrev pub download_endpoint : Str
download_endpoint = text "/download"

abbrev client_data_dir : Str
client_data_dir = text "client_data"

abbrev default_server_url : Str
default_server_url = text "http://127.0.0.1:8080"

abbrev pub unwrap_or : Option Str → Str → Str
unwrap_or none s = s
unwrap_or (some t) s = t

pub record ClientConfig : Type 0 where
  pub server_url : Str
  pub data_dir : Str

-- The environment gives the value of a variable that is set and valid Unicode.
unfoldable pub load : (Str → Option Str) → ClientConfig
load var = record {
  server_url = unwrap_or (var (text "CLIENT_SERVER_URL")) default_server_url;
  data_dir = unwrap_or (var (text "CLIENT_DATA_DIR")) client_data_dir;
}

unfoldable pub get_server_url : ClientConfig → Option Str → Str
get_server_url config provided_url = unwrap_or provided_url config.server_url

unfoldable pub get_key_file_path : Str → Str
get_key_file_path data_dir = join data_dir key_file
