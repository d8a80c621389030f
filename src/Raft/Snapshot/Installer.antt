-- ===== src/Raft/Snapshot/Installer.antt =====
-- byoridb-storage/src/raft/snapshot.rs: `SnapshotInstaller`, which collects the chunks that a leader sends and
-- saves the snapshot.
use byoridb.Base.{
  ℕ, zero, suc, ◌+◌, ◌/◌, ◌%◌, ◌^◌, Bool, true, false, List, [], ◌∷◌, ◌++◌, Option, none, some,
  length, leb, if◌then◌else◌,
}
use byoridb.Raft.Types.{Bytes}
use byoridb.Kv.{MemoryKvStore}
use byoridb.Raft.Storage.{Codec}
use byoridb.Raft.Snapshot.{
  SnapshotMeta, SnapshotChunk, SnapshotResult, ok, err, missing_chunk, out_of_range,
  no_pending_snapshot, ◌>>=◌, snapshot_chunk_size, chunk_count_of, new_writer, write, finish,
}

pub record SnapshotInstaller : Type 0 where
  pub space_id : ℕ
  pub part_id : ℕ
  pub pending_meta : Option SnapshotMeta
  pub pending_chunks : List (Option Bytes)
  pub received_chunks : ℕ

-- `vec![None; n]`
unfoldable pub nones : ℕ → List (Option Bytes)
nones zero = []
nones (suc n) = none ∷ nones n

unfoldable pub begin : SnapshotInstaller → ℕ → ℕ → ℕ → ℕ → SnapshotInstaller
unfolding nones
begin i last_included_index last_included_term total_size now =
    let count = chunk_count_of total_size snapshot_chunk_size in
    record i {
      pending_meta = some (record {
        last_included_index = last_included_index;
        last_included_term = last_included_term;
        size = total_size;
        chunk_count = count;
        created_at = now;
      });
      pending_chunks = nones count;
      received_chunks = 0;
    }

-- The first chunk that came for a place is kept; the Boolean says that the place was free.
unfoldable pub fill : List (Option Bytes) → ℕ → Bytes → List (Option Bytes) × Bool
fill [] n bytes = ([], false)
fill (none ∷ cs) zero bytes = (some bytes ∷ cs, true)
fill (some c ∷ cs) zero bytes = (some c ∷ cs, false)
fill (c ∷ cs) (suc n) bytes = let rest = fill cs n bytes in (c ∷ rest.0, rest.1)

unfoldable pub receive_chunk :
    SnapshotInstaller → ℕ → Bytes → Bool → SnapshotResult (SnapshotInstaller × Bool)
unfolding fill
receive_chunk i offset bytes done =
    let n = offset / snapshot_chunk_size in
    if leb (length i.pending_chunks) n
    then err (out_of_range n)
    else (let (cs, free) = fill i.pending_chunks n bytes in
        let received : ℕ = if free then i.received_chunks + 1 else i.received_chunks in
        ok (
          record i { pending_chunks = cs; received_chunks = received },
          if done then leb (length cs % 2 ^ 32) received else false,
        ))

-- The loop that joins the chunks, from the one with index `n` on.
unfoldable pub join : ℕ → List (Option Bytes) → SnapshotResult Bytes
join n [] = ok []
join n (none ∷ cs) = err (missing_chunk n)
join n (some c ∷ cs) = let rest = join (suc n) cs in rest >>= λ bytes. ok (c ++ bytes)

-- The snapshot is saved under the installer's ids; the meta is taken and the chunks are drained.
unfoldable pub install :
    Codec SnapshotMeta
    → Codec SnapshotChunk
    → SnapshotInstaller
    → ℕ
    → MemoryKvStore
    → SnapshotInstaller × SnapshotResult (MemoryKvStore × SnapshotMeta)
unfolding join new_writer write finish
install metas parts i now s =
    let drained : SnapshotInstaller = record i { pending_meta = none; pending_chunks = [] } in
    elim i.pending_meta [
      | none ↦ (i, err no_pending_snapshot)
      | some meta ↦
          let done = join 0 i.pending_chunks >>= λ bytes.
          finish metas parts
            (write
              (new_writer i.space_id i.part_id meta.last_included_index meta.last_included_term)
              bytes)
            now s in
          elim done [
            | err e ↦ (drained, err e)
            | ok r ↦ (record drained { received_chunks = 0 }, ok r)
          ]
    ]

unfoldable pub cancel : SnapshotInstaller → SnapshotInstaller
cancel i = record i { pending_meta = none; pending_chunks = []; received_chunks = 0 }
