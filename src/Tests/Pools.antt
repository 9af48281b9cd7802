-- ===== src/Tests/Pools.antt =====
-- Uploads to two batches whose parts interleave.
use verifiable_storage.Prelude.{◌<◌, ◌≡◌, refl, true, [], ◌∷◌, ◌==◌, arith, inr, length}
use verifiable_storage.Prelude.Text.{text}
use verifiable_storage.Prelude.Sort.{str_leb}
use verifiable_storage.Prelude.Dict.{str_eq, pair_eq, lookup, insert}
use verifiable_storage.Storage.Tables
use verifiable_storage.Storage.Tables.{Tables, BatchKey, fits, names_of}
use verifiable_storage.Storage.Store.{IsAllowed, with_file, first_transaction, second_transaction}
use verifiable_storage.Storage.Race.{
  File, started, stored, hashed, put, read, update, Read, Read-calm,
}
use verifiable_storage.Storage.Pool.{
  key_of, idle, running, Pool, pool, set_status, Turns, stay, turn, begin, advance,
}
use verifiable_storage.Storage.Pool.Phases.{IsSettled}
use verifiable_storage.Storage.Pool.Settled.{Turns-IsSettled}
use verifiable_storage.Storage.Pool.Finish.{CanFinish, Turns-CanFinish}
use verifiable_storage.Tests.ToyCrates.{toy_crates}

abbrev registered : Tables
registered = record {
  batches = [];
  files = [];
  clients = (text "c1", 7 ∷ []) ∷ [];
  merkle_trees = [];
}

abbrev first : File
first = record {
  client_id = text "c1";
  batch_id = text "b1";
  filename = text "a.txt";
  content = 1 ∷ 2 ∷ [];
}

abbrev second : File
second = record first { batch_id = text "b2" }

-- The tables with the first file, and with both.
abbrev with_first : Tables
with_first = with_file registered (key_of first) first.filename first.content

abbrev with_both : Tables
with_both = with_file with_first (key_of second) second.filename second.content

allowed : IsAllowed registered first.client_id first.batch_id first.filename
unfolding fits lookup Tables.is_some ◌==◌
allowed = record { registered = refl; client_fits = refl; batch_fits = refl; name_fits = refl }

IsAllowed-then : IsAllowed with_first second.client_id second.batch_id second.filename
unfolding fits lookup Tables.is_some ◌==◌
IsAllowed-then = record {
  registered = refl;
  client_fits = refl;
  batch_fits = refl;
  name_fits = refl;
}

some_name : 0 < length (names_of (key_of first) with_both.files)
unfolding names_of insert lookup Tables.is_some ◌==◌
some_name = omega arith

has_row : Tables.is_some (lookup (key_of first) with_both.batches) ≡ true
unfolding insert lookup Tables.is_some ◌==◌
has_row = refl

abbrev leaves : Read str_leb with_both first.client_id first.batch_id
leaves = Read-calm str_leb with_both first.client_id first.batch_id some_name

-- The first upload has ended, the second has stored its file.
abbrev now : Pool
now =
    pool
      (record with_both { merkle_trees = insert (key_of first) leaves.tree with_both.merkle_trees })
      (set_status (key_of first) idle (
        set_status (key_of first) (running true first (hashed leaves.hashes)) (
          set_status (key_of second) (running true second stored) (
            set_status (key_of second) (running true second started) (
              set_status (key_of first) (running true first stored)
                (set_status (key_of first) (running true first started) (λ _. idle)))))))

interleaved : Turns str_leb (pool registered (λ _. idle)) now
unfolding ◌==◌
interleaved =
    turn
      (turn
        (turn
          (turn
            (turn (turn stay (begin true first allowed refl)) (
              advance true first refl (
                put (
                  first_transaction registered first.client_id first.batch_id first.filename
                    first.content allowed))))
            (begin true second IsAllowed-then refl))
          (advance true second refl (
            put (
              first_transaction with_first second.client_id second.batch_id second.filename
                second.content IsAllowed-then))))
        (advance true first refl (read leaves.result)))
      (advance true first refl (
        update leaves.made
          (second_transaction with_both first.client_id first.batch_id leaves.tree has_row)))

nothing_there : (d : BatchKey) → IsSettled str_leb registered d
unfolding lookup names_of
nothing_there d = inr (refl, refl)

settled : now.status (key_of first) ≡ idle
unfolding ◌==◌
settled = refl

still_running : now.status (key_of second) ≡ running true second stored
unfolding ◌==◌
still_running = refl

Turns-IsSettled_example : IsSettled str_leb now.tables (key_of first)
Turns-IsSettled_example =
    Turns-IsSettled str_leb registered now (key_of first) nothing_there interleaved settled

Turns-CanFinish_example : CanFinish str_leb second stored now.tables
Turns-CanFinish_example =
    Turns-CanFinish str_leb second registered now true stored nothing_there interleaved
      still_running
