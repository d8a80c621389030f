-- ===== src/Raft/Snapshot/Received.antt =====
-- byoridb-storage/src/raft/snapshot.rs: the count of the chunks received, and the installation of all of them.
use byoridb.Base.{
  ℕ, zero, suc, ◌+◌, ◌/◌, ◌^◌, ◌≤◌, ◌<◌, ◌≡◌, refl, ◌∙◌, Bool, true, List, [], ◌∷◌, ◌++◌, Option,
  none, some, length, length-append, if◌then◌else◌, arith,
}
use byoridb.Raft.Types.{Bytes}
use byoridb.Kv.{MemoryKvStore}
use byoridb.Raft.Storage.{Codec}
use byoridb.Raft.Snapshot.{
  SnapshotMeta, SnapshotChunk, ok, snapshot_chunk_size, chunk_count_of, new_writer, write,
  load_all_data,
}
use byoridb.Raft.Snapshot.Chunks.{load_all_data-finish}
use byoridb.Raft.Snapshot.Installer.{
  SnapshotInstaller, nones, begin, fill, receive_chunk, join, install,
}

-- The chunks that are there.
abbrev pub filled : List (Option Bytes) → ℕ
filled [] = 0
filled (none ∷ cs) = filled cs
filled (some c ∷ cs) = suc (filled cs)

filled-le : (cs : List (Option Bytes)) → filled cs ≤ length cs
filled-le [] = omega arith
filled-le (none ∷ cs) = omega (arith, filled-le cs)
filled-le (some c ∷ cs) = omega (arith, filled-le cs)

filled-nones : (n : ℕ) → (filled (nones n) ≡ 0) × (length (nones n) ≡ n)
unfolding nones
filled-nones zero = (refl, refl)
filled-nones (suc n) = let ih = filled-nones n in omega (arith, ih)

filled-fill :
    (cs : List (Option Bytes)) (n : ℕ) (bytes : Bytes)
    → (filled (fill cs n bytes).0 ≡ (if (fill cs n bytes).1 then suc (filled cs) else filled cs))
      × (length (fill cs n bytes).0 ≡ length cs)
unfolding fill
filled-fill [] n bytes = (refl, refl)
filled-fill (none ∷ cs) zero bytes = (refl, refl)
filled-fill (some c ∷ cs) zero bytes = (refl, refl)
filled-fill (none ∷ cs) (suc n) bytes = ground (arith, filled-fill cs n bytes)
filled-fill (some c ∷ cs) (suc n) bytes = ground (arith, filled-fill cs n bytes)

-- The bytes of the chunks that are there.
abbrev pub held : List (Option Bytes) → ℕ
held [] = 0
held (none ∷ cs) = held cs
held (some c ∷ cs) = length c + held cs

join-full :
    (n : ℕ) (cs : List (Option Bytes))
    → length cs ≤ filled cs
    → (bytes : Bytes) × (join n cs ≡ ok bytes) × (length bytes ≡ held cs)
unfolding join
join-full n [] h = ([], refl, refl)
join-full n (none ∷ cs) h = absurd (omega (arith, filled-le cs))
join-full n (some c ∷ cs) h =
    let (bytes, e, l) = join-full (suc n) cs (omega arith) in
    (c ++ bytes, rw e refl, omega (arith, length-append c bytes, l))

-- The states of an installer from a `begin` on, while it takes chunks.
pub data Receiving : SnapshotInstaller → Type 0 where
  begun :
      (i : SnapshotInstaller) (last_included_index last_included_term total_size now : ℕ)
      → Receiving (begin i last_included_index last_included_term total_size now)
  received :
      (i j : SnapshotInstaller) (offset : ℕ) (bytes : Bytes) (done ready : Bool)
      → Receiving i
      → receive_chunk i offset bytes done ≡ ok (j, ready)
      → Receiving j

abbrev HasCount : SnapshotInstaller → Type 0
HasCount i =
    (filled i.pending_chunks ≡ i.received_chunks)
    × (length i.pending_chunks < 2 ^ 32)
    × ((meta : SnapshotMeta) × (i.pending_meta ≡ some meta))

begin-HasCount : (i : SnapshotInstaller) (a b n t : ℕ) → HasCount (begin i a b n t)
unfolding begin chunk_count_of
begin-HasCount i a b n t =
    let f = filled-nones (chunk_count_of n snapshot_chunk_size) in
    (f.0, ground (arith, f), (_, refl))

receive_chunk-HasCount :
    (i j : SnapshotInstaller) (offset : ℕ) (bytes : Bytes) (done ready : Bool)
    → HasCount i
    → receive_chunk i offset bytes done ≡ ok (j, ready)
    → HasCount j × (ready ≡ true → length j.pending_chunks ≤ filled j.pending_chunks)
unfolding receive_chunk
receive_chunk-HasCount i j offset bytes done ready (f, l, m) e =
    let q = filled-fill i.pending_chunks (offset / snapshot_chunk_size) bytes in
    let kept : j.pending_meta ≡ i.pending_meta = ground (arith, e) in
    let counted : (filled j.pending_chunks ≡ j.received_chunks)
        × (length j.pending_chunks ≡ length i.pending_chunks) =
      ground (arith, f, e, q) in
    let all : ready ≡ true → length j.pending_chunks ≤ filled j.pending_chunks =
      ground (arith, f, l, e, q) in
    ((counted.0, omega (arith, counted, l), (m.0, kept ∙ m.1)), all)

Receiving-HasCount : (i : SnapshotInstaller) → Receiving i → HasCount i
Receiving-HasCount i (begun i' a b n t) = begin-HasCount i' a b n t
Receiving-HasCount j (received i j' offset bytes done ready r e) =
    (receive_chunk-HasCount i j offset bytes done ready (Receiving-HasCount i r) e).0

install-joined :
    (metas : Codec SnapshotMeta) (parts : Codec SnapshotChunk) (i : SnapshotInstaller) (now : ℕ)
    (s : MemoryKvStore) (meta : SnapshotMeta) (joined_bytes : Bytes)
    → i.pending_meta ≡ some meta
    → join 0 i.pending_chunks ≡ ok joined_bytes
    → length joined_bytes < 2 ^ 47
    → (t : MemoryKvStore) × (saved : SnapshotMeta) × ((install metas parts i now s).1
        ≡ ok (t, saved))
      × (load_all_data metas parts i.space_id i.part_id t ≡ ok (some joined_bytes))
unfolding install new_writer write
install-joined metas parts i now s meta joined_bytes m e h =
    let w =
      write (new_writer i.space_id i.part_id meta.last_included_index meta.last_included_term)
        joined_bytes in
    let (t, saved, done, back) = load_all_data-finish metas parts w now s refl h in
    (t, saved, ground (arith, m, e, done), back)

-- When an installer that has taken chunks since a `begin` reports that it is ready, and its
-- chunks have fewer than 2^47 bytes, no chunk is missing, the installation succeeds, and the
-- snapshot that it saved is loaded with the joined bytes of the chunks.
pub install_ready :
    (metas : Codec SnapshotMeta) (parts : Codec SnapshotChunk) (i j : SnapshotInstaller)
    (offset : ℕ) (bytes : Bytes) (done : Bool) (now : ℕ) (s : MemoryKvStore)
    → Receiving i
    → receive_chunk i offset bytes done ≡ ok (j, true)
    → held j.pending_chunks < 2 ^ 47
    → (joined_bytes : Bytes) × (join 0 j.pending_chunks ≡ ok joined_bytes)
      × ((t : MemoryKvStore) × (saved : SnapshotMeta) × ((install metas parts j now s).1
            ≡ ok (t, saved))
          × (load_all_data metas parts j.space_id j.part_id t ≡ ok (some joined_bytes)))
install_ready metas parts i j offset bytes done now s r e h =
    let ((f, l, (meta, m)), all) =
      receive_chunk-HasCount i j offset bytes done true (Receiving-HasCount i r) e in
    let (joined_bytes, joined, n) = join-full 0 j.pending_chunks (all refl) in
    (
      joined_bytes,
      joined,
      install-joined metas parts j now s meta joined_bytes m joined (omega (arith, n, h)),
    )
