-- ===== src/Tests/ToyJson.antt =====
-- A stand-in for serde_json whose texts give the values back.
use verifiable_storage.Prelude.{ℕ, zero, suc, ◌≡◌, refl, Option, some, List, []}
use verifiable_storage.Prelude.Text.{Bytes, Str}
use verifiable_storage.Merkle.{MerkleTree}
use verifiable_storage.Storage.Metadata.{
  Item, string, other_item, Value, array, other, Map, Json, IsFaithful,
}
use verifiable_storage.Tests.Codec.{
  Codec, IsCodec, bind, ones, count, enc_nat, dec_nat, enc_all, dec_all, nat_codec, nat_codec_lem,
  list_codec, list_codec_lem, pair_codec, pair_codec_lem, by_codec, by_codec_lem, print, parse,
  parse-HasText,
}

abbrev str_codec : Codec Str
str_codec = list_codec nat_codec

str_codec_lem : IsCodec str_codec
str_codec_lem = list_codec_lem nat_codec nat_codec_lem

abbrev to_item : ℕ × Str → Option Item
to_item (zero, s) = some (string s)
to_item (suc n, s) = some other_item

abbrev of_item : Item → ℕ × Str
of_item (string s) = (0, s)
of_item other_item = (1, [])

to_item-of_item : (i : Item) → to_item (of_item i) ≡ some i
to_item-of_item (string s) = refl
to_item-of_item other_item = refl

abbrev item_codec : Codec Item
item_codec = by_codec (pair_codec nat_codec str_codec) to_item of_item

item_codec_lem : IsCodec item_codec
item_codec_lem =
    by_codec_lem (pair_codec nat_codec str_codec) to_item of_item
      (pair_codec_lem nat_codec str_codec nat_codec_lem str_codec_lem) to_item-of_item

abbrev to_value : ℕ × List Item → Option Value
to_value (zero, items) = some (array items)
to_value (suc n, items) = some other

abbrev of_value : Value → ℕ × List Item
of_value (array items) = (0, items)
of_value other = (1, [])

to_value-of_value : (v : Value) → to_value (of_value v) ≡ some v
to_value-of_value (array items) = refl
to_value-of_value other = refl

abbrev value_codec : Codec Value
value_codec = by_codec (pair_codec nat_codec (list_codec item_codec)) to_value of_value

value_codec_lem : IsCodec value_codec
value_codec_lem =
    by_codec_lem (pair_codec nat_codec (list_codec item_codec)) to_value of_value
      (pair_codec_lem nat_codec (list_codec item_codec) nat_codec_lem
        (list_codec_lem item_codec item_codec_lem))
      to_value-of_value

abbrev map_codec : Codec Map
map_codec = list_codec (pair_codec str_codec value_codec)

abbrev level_codec : Codec (List Bytes)
level_codec = list_codec str_codec

level_codec_lem : IsCodec level_codec
level_codec_lem = list_codec_lem str_codec str_codec_lem

abbrev Parts : Type 0
Parts = Bytes × (List Bytes × List (List Bytes))

abbrev parts_codec : Codec Parts
parts_codec = pair_codec str_codec (pair_codec level_codec (list_codec level_codec))

abbrev to_tree : Parts → Option MerkleTree
to_tree p = some (record { root = p.0; leaves = p.1.0; levels = p.1.1 })

abbrev of_tree : MerkleTree → Parts
of_tree t = (t.root, (t.leaves, t.levels))

abbrev tree_codec : Codec MerkleTree
tree_codec = by_codec parts_codec to_tree of_tree

unfoldable pub print_map : Map → Option Str
unfolding bind ones count enc_nat dec_nat enc_all dec_all
print_map = print map_codec

unfoldable pub parse_map : Str → Option Map
unfolding bind ones count enc_nat dec_nat enc_all dec_all
parse_map = parse map_codec

unfoldable pub print_tree : MerkleTree → Option Str
unfolding bind ones count enc_nat dec_nat enc_all dec_all
print_tree = print tree_codec

unfoldable pub parse_tree : Str → Option MerkleTree
unfolding bind ones count enc_nat dec_nat enc_all dec_all
parse_tree = parse tree_codec

instance abbrev pub toy_json : Json
toy_json = record {
  map_to_string = print_map;
  map_from_str = parse_map;
  tree_to_string = print_tree;
  tree_from_str = parse_tree;
}

pub toy_json-IsFaithful : IsFaithful toy_json
unfolding print_map parse_map print_tree parse_tree
toy_json-IsFaithful = record {
  map_text = parse-HasText map_codec (
      list_codec_lem (pair_codec str_codec value_codec)
        (pair_codec_lem str_codec value_codec str_codec_lem value_codec_lem));
  tree_text = parse-HasText tree_codec (
      by_codec_lem parts_codec to_tree of_tree
        (pair_codec_lem str_codec (pair_codec level_codec (list_codec level_codec)) str_codec_lem (
          pair_codec_lem level_codec (list_codec level_codec) level_codec_lem
            (list_codec_lem level_codec level_codec_lem)))
        (λ t. refl));
}
