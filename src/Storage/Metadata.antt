-- ===== src/Storage/Metadata.antt =====
-- crates/storage/src/filesystem/metadata.rs: the list of the filenames of a batch, as JSON.
use mathlib.Core.Option
use verifiable_storage.Prelude.{
  ◌≡◌, Bool, false, ◌||◌, Option, none, some, List, [], ◌∷◌, ◌++◌, if◌then◌else◌, ◌==◌, All,
}
use verifiable_storage.Prelude.Result.{Result, ok_or}
use verifiable_storage.Prelude.Text.{Str, text, as_bytes}
use verifiable_storage.Prelude.Utf8.{IsScalar}
use verifiable_storage.Prelude.Sort.{str_leb, sort}
use verifiable_storage.Prelude.Dict.{str_eq, lookup, insert}
use verifiable_storage.Prelude.Exec.{Exec, ◌>>=◌, ◌>>◌, lift}
use verifiable_storage.Disk.{Disk, read_to_string, create, write_all, sync_all}
use verifiable_storage.Merkle.{MerkleTree}
use verifiable_storage.Storage.{
  StorageError, storage_io, invalid_metadata, decode_failed, serialize_failed,
}

-- `Value` of serde_json: arrays with their items, where strings are told from the other values.
pub data Item : Type 0 where
  string : Str → Item
  other_item : Item

pub data Value : Type 0 where
  array : List Item → Value
  other : Value

abbrev pub Map : Type 0
Map = List (Str × Value)

-- `to_string_pretty` and `from_str` of serde_json, for the two types that are stored.
pub record Json : Type 0 where
  pub map_to_string : Map → Option Str
  pub map_from_str : Str → Option Map
  pub tree_to_string : MerkleTree → Option Str
  pub tree_from_str : Str → Option MerkleTree

-- A value has a text, of Unicode scalar values as each Rust string, which gives the value back.
pub record HasText {A : Type 0} (to_string : A → Option Str) (from_str : Str → Option A) (a : A)
    : Type 0 where
  pub json : Str
  pub printed : to_string a ≡ some json
  pub scalar : All IsScalar json
  pub parsed : from_str json ≡ some a

-- What serde_json documents for these types.
pub record IsFaithful (J : Json) : Type 0 where
  pub map_text : (m : Map) → HasText J.map_to_string J.map_from_str m
  pub tree_text : (t : MerkleTree) → HasText J.tree_to_string J.tree_from_str t

unfoldable pub as_str : Item → Option Str
as_str (string s) = some s
as_str other_item = none

unfoldable pub as_array : Option Value → Option (List Item)
as_array (some (array items)) = some items
as_array (some other) = none
as_array none = none

abbrev unwrap_or_empty : Option Str → Str
unwrap_or_empty none = []
unwrap_or_empty (some s) = s

-- The order of the keys of `sort_unstable_by_key`. Items with one key are no strings or empty, and their
-- order, which the sort leaves open, is here the one before.
unfoldable pub item_leb : Item → Item → Bool
unfolding as_str
item_leb a b = str_leb (unwrap_or_empty (as_str a)) (unwrap_or_empty (as_str b))

abbrev is_string : Item → Str → Bool
is_string (string s) name = s == name
is_string other_item name = false

-- `arr.contains(&Value::String(name))`
unfoldable pub has_item : List Item → Str → Bool
has_item [] name = false
has_item (i ∷ items) name = is_string i name || has_item items name

-- `entry(…).or_insert_with(…)`
unfoldable pub or_empty : Option Value → Value
or_empty none = array []
or_empty (some v) = v

unfoldable pub push_name : Str → Value → Value
unfolding has_item
push_name name (array items) =
    if has_item items name then array items else array (sort item_leb (items ++ (string name ∷ [])))
push_name name other = other

unfoldable pub insert_filename : Map → Str → Map
unfolding push_name or_empty
insert_filename metadata filename =
    insert (text "filenames") (push_name filename (or_empty (lookup (text "filenames") metadata)))
      metadata

-- `filter_map(|v| v.as_str()…)`
abbrev cons_some : Option Str → List Str → List Str
cons_some none names = names
cons_some (some s) names = s ∷ names

unfoldable pub strings_of : List Item → List Str
unfolding as_str
strings_of [] = []
strings_of (i ∷ items) = cons_some (as_str i) (strings_of items)

unfoldable pub extract_filenames : Map → Result StorageError (List Str)
unfolding as_array strings_of
extract_filenames metadata =
    ok_or invalid_metadata (Option.map strings_of (as_array (lookup (text "filenames") metadata)))

module _ ⦃J : Json⦄ where
  unfoldable pub load : Str → Exec StorageError Disk Map
  load metadata_file = do
    content ← read_to_string metadata_file
    lift (ok_or decode_failed (J.map_from_str content))

  unfoldable pub load_filenames : Str → Exec StorageError Disk (List Str)
  unfolding extract_filenames
  load_filenames metadata_file = do metadata ← load metadata_file; lift (extract_filenames metadata)

  unfoldable pub save_atomic : Str → Map → Exec StorageError Disk (Unit {0})
  save_atomic metadata_file metadata = do
    metadata_json ← lift (ok_or serialize_failed (J.map_to_string metadata))
    create metadata_file
    write_all metadata_file (as_bytes metadata_json)
    sync_all metadata_file
