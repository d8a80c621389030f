-- ===== src/Raft/Snapshot/Examples.antt =====
-- Concrete runs of the theorems on snapshots, with a plain encoding in the place of bincode.
use byoridb.Base.{
  ℕ, ◌==◌, ◌≡◌, ◌<◌, ◌*◌, ◌^◌, refl, Bool, true, false, List, [], ◌∷◌, Option, none, some, length,
  arith,
}
use byoridb.Raft.Types.{Bytes}
use byoridb.Kv.{MemoryKvStore, new}
use byoridb.Raft.Storage.{Codec}
use byoridb.Raft.Snapshot.{
  SnapshotMeta, SnapshotChunk, SnapshotWriter, ok, new_writer, write, finish, load_all_data,
  iter_kvs, chunk_count_of,
}
use byoridb.Raft.Snapshot.Pairs.{write_all, write_all-iter_kvs}
use byoridb.Raft.Snapshot.Chunks.{load_all_data-finish}
use byoridb.Raft.Snapshot.Installer.{
  SnapshotInstaller, nones, begin, fill, receive_chunk, join, install,
}
use byoridb.Raft.Snapshot.Received.{begun, install_ready}

abbrev meta_bytes : SnapshotMeta → Option Bytes
meta_bytes m =
    some (m.last_included_index ∷ m.last_included_term ∷ m.size ∷ m.chunk_count ∷ m.created_at ∷ [])

abbrev meta_of : Bytes → Option SnapshotMeta
meta_of (a ∷ b ∷ c ∷ d ∷ e ∷ []) = some (record {
  last_included_index = a;
  last_included_term = b;
  size = c;
  chunk_count = d;
  created_at = e;
})
meta_of bytes = none

abbrev metas : Codec SnapshotMeta
metas = record { serialize = meta_bytes; deserialize = meta_of; read_back = λ m. (_, refl, refl) }

abbrev flag : Bool → ℕ
flag true = 1
flag false = 0

abbrev chunk_bytes : SnapshotChunk → Option Bytes
chunk_bytes c = some (flag c.is_last ∷ c.index ∷ c.offset ∷ c.bytes)

abbrev chunk_of : Bytes → Option SnapshotChunk
chunk_of (f ∷ i ∷ o ∷ b) = some (record { index = i; offset = o; bytes = b; is_last = f == 1 })
chunk_of bytes = none

flag_lem : (b : Bool) → (flag b == 1) ≡ b
flag_lem true = refl
flag_lem false = refl

abbrev parts : Codec SnapshotChunk
parts = record {
  serialize = chunk_bytes;
  deserialize = chunk_of;
  read_back = λ c. (_, refl, rw (flag_lem c.is_last) refl);
}

abbrev writer : SnapshotWriter
writer = new_writer 1 2 10 3

writer_empty : writer.bytes ≡ []
unfolding new_writer
writer_empty = refl

abbrev pairs : List (Bytes × Bytes)
pairs = (1 ∷ 2 ∷ [], 3 ∷ []) ∷ ([], 4 ∷ []) ∷ []

write_all-iter_kvs_example : iter_kvs (ok (some (write_all writer pairs).bytes)) ≡ ok pairs
write_all-iter_kvs_example = write_all-iter_kvs writer pairs writer_empty (omega arith)

abbrev full : SnapshotWriter
full = write writer (1 ∷ 2 ∷ 3 ∷ [])

full_size : length full.bytes < 2 ^ 47
unfolding new_writer write
full_size = omega arith

full_chunk_size : full.chunk_size ≡ 64 * 1024
unfolding new_writer write
full_chunk_size = refl

load_all_data-finish_example :
    (t : MemoryKvStore) × (meta : SnapshotMeta) × (finish metas parts full 77 new ≡ ok (t, meta))
    × (load_all_data metas parts full.space_id full.part_id t ≡ ok (some full.bytes))
load_all_data-finish_example =
    load_all_data-finish metas parts full 77 new full_chunk_size full_size

abbrev idle : SnapshotInstaller
idle = record {
  space_id = 1;
  part_id = 2;
  pending_meta = none;
  pending_chunks = [];
  received_chunks = 0;
}

abbrev waiting : SnapshotInstaller
waiting = begin idle 10 3 2 77

abbrev complete : SnapshotInstaller
complete = record waiting { pending_chunks = some (8 ∷ 9 ∷ []) ∷ []; received_chunks = 1 }

last_chunk : receive_chunk waiting 0 (8 ∷ 9 ∷ []) true ≡ ok (complete, true)
unfolding receive_chunk fill begin nones chunk_count_of
last_chunk = refl

install_ready_example :
    (joined_bytes : Bytes) × (join 0 complete.pending_chunks ≡ ok joined_bytes)
    × ((t : MemoryKvStore) × (saved : SnapshotMeta) × ((install metas parts complete 78 new).1
          ≡ ok (t, saved))
        × (load_all_data metas parts complete.space_id complete.part_id t ≡ ok (some joined_bytes)))
install_ready_example =
    install_ready metas parts waiting complete 0 (8 ∷ 9 ∷ []) true 78 new (begun idle 10 3 2 77)
      last_chunk (omega arith)
