-- ===== src/Raft/Snapshot/Chunks.antt =====
-- byoridb-storage/src/raft/snapshot.rs: the data of a snapshot, saved in chunks, is loaded again.
use byoridb.Base.{
  ℕ, suc, ◌+◌, ◌-◌, ◌*◌, ◌%◌, ◌^◌, ◌<◌, ◌≡◌, inl, inr, refl, sym, ap, ◌∙◌, false, List, [], ◌∷◌,
  ◌++◌, some, length, chunks, length-chunks, concat, concat-chunks, ◌==◌, arith, Bool-cases,
}
use byoridb.Base.Ordered.{same}
use byoridb.Base.Lex.{lex_ltb}
use byoridb.Raft.Types.{Bytes}
use byoridb.Keys.BigEndian.{be_bytes_injective, write_u32}
use byoridb.Kv.{MemoryKvStore, get, put}
use byoridb.Kv.Scans.{same_eq, get-put}
use byoridb.Raft.Storage.{Codec}
use byoridb.Raft.Storage.Keys.{same_self}
use byoridb.Raft.Snapshot.{
  SnapshotMeta, SnapshotChunk, SnapshotWriter, ok, data_tag, meta_key, chunk_key,
  snapshot_chunk_size, chunk_count_of, save_chunks, finish, load_meta, load_chunk, load_chunks,
  load_all_data,
}

same-append : (p a b : Bytes) → same lex_ltb (p ++ a) (p ++ b) ≡ same lex_ltb a b
unfolding lex_ltb
same-append [] a b = refl
same-append (x ∷ p) a b = ground (arith, same-append p a b)

same-write_u32 :
    (i j : ℕ) → i < 2 ^ 32 → j < 2 ^ 32 → same lex_ltb (write_u32 i) (write_u32 j) ≡ (i == j)
same-write_u32 i j h k = elim (Bool-cases (same lex_ltb (write_u32 i) (write_u32 j))) [
  | inl e ↦
      let q =
        be_bytes_injective 4 i j (omega arith) (omega arith)
          (same_eq (write_u32 i) (write_u32 j) e) in
      ground (arith, e, q)
  | inr n ↦ elim (Bool-cases (i == j)) [
    | inl y ↦ let q : i ≡ j = ground (arith, y) in rw q (same_self (write_u32 j) ∙ ground arith)
    | inr z ↦ n ∙ sym z
  ]
]

same-chunk_key :
    (sp pt i j : ℕ)
    → i < 2 ^ 32
    → j < 2 ^ 32
    → same lex_ltb (chunk_key sp pt i) (chunk_key sp pt j) ≡ (i == j)
unfolding chunk_key
same-chunk_key sp pt i j h k =
    same-append data_tag _ _
    ∙ same-append (write_u32 sp) _ _
    ∙ same-append (write_u32 pt) _ _
    ∙ same-append (58 ∷ []) _ _
    ∙ same-write_u32 i j h k

meta-chunk-apart : (sp pt j : ℕ) → same lex_ltb (meta_key sp pt) (chunk_key sp pt j) ≡ false
unfolding meta_key chunk_key lex_ltb
meta-chunk-apart sp pt j = refl

module _ (metas : Codec SnapshotMeta) (parts : Codec SnapshotChunk) (sp pt : ℕ) where
  chunk-found :
      (s : MemoryKvStore) (i : ℕ) (b : Bytes) (c : SnapshotChunk)
      → get s (chunk_key sp pt i) ≡ some b
      → parts.deserialize b ≡ some c
      → load_chunk metas parts sp pt s i ≡ ok (some c)
  unfolding load_chunk
  chunk-found s i b c g d = ground (arith, g, d)

  load_chunks-suc :
      (s : MemoryKvStore) (i n : ℕ) (c : SnapshotChunk) (bytes : Bytes)
      → load_chunk metas parts sp pt s i ≡ ok (some c)
      → load_chunks metas parts sp pt s (suc i) n ≡ ok bytes
      → load_chunks metas parts sp pt s i (suc n) ≡ ok (c.bytes ++ bytes)
  unfolding load_chunks
  load_chunks-suc s i n c bytes e f = ground (arith, e, f)

  -- The store holds the chunks, from the index `i` on.
  abbrev Stored : MemoryKvStore → ℕ → List Bytes → Type 0
  Stored s i [] = Unit
  Stored s i (bytes ∷ rest) =
      ((b : Bytes) × (c : SnapshotChunk) × (get s (chunk_key sp pt i) ≡ some b)
        × (parts.deserialize b ≡ some c)
        × (c.bytes ≡ bytes))
      × Stored s (suc i) rest

  Stored-eq :
      (s t : MemoryKvStore) (i : ℕ) (cs : List Bytes)
      → ((j : ℕ) → get t (chunk_key sp pt j) ≡ get s (chunk_key sp pt j))
      → Stored s i cs
      → Stored t i cs
  Stored-eq s t i [] e h = tt
  Stored-eq s t i (bytes ∷ rest) e ((b, c, g, d, q), h) =
      ((b, c, e i ∙ g, d, q), Stored-eq s t (suc i) rest e h)

  load_chunks-Stored :
      (s : MemoryKvStore) (i : ℕ) (cs : List Bytes)
      → Stored s i cs
      → load_chunks metas parts sp pt s i (length cs) ≡ ok (concat cs)
  load_chunks-Stored s i [] h = unfold load_chunks in refl
  load_chunks-Stored s i (bytes ∷ rest) ((b, c, g, d, q), h) =
      load_chunks-suc s i (length rest) c (concat rest) (chunk-found s i b c g d)
        (load_chunks-Stored s (suc i) rest h)
      ∙ rw q refl

  load_all_data-found :
      (s : MemoryKvStore) (b : Bytes) (meta : SnapshotMeta) (bytes : Bytes)
      → get s (meta_key sp pt) ≡ some b
      → metas.deserialize b ≡ some meta
      → load_chunks metas parts sp pt s 0 meta.chunk_count ≡ ok bytes
      → load_all_data metas parts sp pt s ≡ ok (some bytes)
  unfolding load_all_data load_meta
  load_all_data-found s b meta bytes g d l = ground (arith, g, d, l)

chunk_count_lem :
    (w : SnapshotWriter)
    → w.chunk_size ≡ snapshot_chunk_size
    → length w.bytes < 2 ^ 47
    → chunk_count_of (length w.bytes) w.chunk_size ≡ length (chunks w.chunk_size w.bytes)
unfolding chunk_count_of
chunk_count_lem w z h = ground (arith, z, length-chunks w.chunk_size w.bytes z)

module _ (metas : Codec SnapshotMeta) (parts : Codec SnapshotChunk) (w : SnapshotWriter) where
  save_chunks_lem :
      (count i : ℕ) (cs : List Bytes) (s : MemoryKvStore)
      → i + length cs < 2 ^ 32
      → (t : MemoryKvStore) × (save_chunks metas parts w count i cs s ≡ ok t)
        × Stored metas parts w.space_id w.part_id t i cs
        × ((j : ℕ)
            → j < i
            → get t (chunk_key w.space_id w.part_id j) ≡ get s (chunk_key w.space_id w.part_id j))
  unfolding save_chunks
  save_chunks_lem count i [] s h = (s, refl, tt, λ j k. refl)
  save_chunks_lem count i (bytes ∷ rest) s h =
      let small : i % 2 ^ 32 ≡ i = omega arith in
      let chunk : SnapshotChunk = record {
        index = i % 2 ^ 32;
        offset = i * w.chunk_size;
        bytes = bytes;
        is_last = i % 2 ^ 32 == (count + (2 ^ 32 - 1)) % 2 ^ 32;
      } in
      let (b, wrote, back) = parts.read_back chunk in
      let key = chunk_key w.space_id w.part_id in
      let (t, saved, stored, kept) =
        save_chunks_lem count (suc i) rest (put s (key (i % 2 ^ 32)) b) (omega arith) in
      (
        t,
        ground (arith, wrote, saved),
        (
          (
            b,
            chunk,
            kept i (omega arith)
                ∙ get-put s (key (i % 2 ^ 32)) b (key i)
                ∙ rw (small, same_self (key i)) refl,
            back,
            refl,
          ),
          stored,
        ),
        λ j k.
            kept j (omega arith)
            ∙ get-put s (key (i % 2 ^ 32)) b (key j)
            ∙ ground (arith, same-chunk_key w.space_id w.part_id i j, small),
      )

  -- Finishing a writer with the source's chunk size and fewer than 2^47 bytes succeeds, and the
  -- snapshot that it saved is loaded with the same bytes.
  pub load_all_data-finish :
      (now : ℕ) (s : MemoryKvStore)
      → w.chunk_size ≡ snapshot_chunk_size
      → length w.bytes < 2 ^ 47
      → (t : MemoryKvStore) × (meta : SnapshotMeta) × (finish metas parts w now s ≡ ok (t, meta))
        × (load_all_data metas parts w.space_id w.part_id t ≡ ok (some w.bytes))
  unfolding finish
  load_all_data-finish now s z h =
      let count = chunk_count_of (length w.bytes) w.chunk_size in
      let pieces = chunks w.chunk_size w.bytes in
      let n = length-chunks w.chunk_size w.bytes z in
      let meta : SnapshotMeta = record {
        last_included_index = w.last_included_index;
        last_included_term = w.last_included_term;
        size = length w.bytes;
        chunk_count = count;
        created_at = now;
      } in
      let (b, wrote, back) = metas.read_back meta in
      let (t, saved, stored, kept) = save_chunks_lem count 0 pieces s (omega (arith, n)) in
      let key = meta_key w.space_id w.part_id in
      let u = put t key b in
      let same_chunks : (j : ℕ)
          → get u (chunk_key w.space_id w.part_id j) ≡ get t (chunk_key w.space_id w.part_id j) =
        λ j.
          get-put t key b (chunk_key w.space_id w.part_id j)
          ∙ rw (meta-chunk-apart w.space_id w.part_id j) refl in
      let loaded =
        load_chunks-Stored metas parts w.space_id w.part_id u 0 pieces
          (Stored-eq metas parts w.space_id w.part_id t u 0 pieces same_chunks stored)
        ∙ ap ok (concat-chunks w.chunk_size w.bytes (omega (arith, z))) in
      (
        u,
        meta,
        ground (arith, saved, wrote),
        load_all_data-found metas parts w.space_id w.part_id u b meta w.bytes
            (get-put t key b key ∙ rw (same_self key) refl) back
            (ap (load_chunks metas parts w.space_id w.part_id u 0) (chunk_count_lem w z h)
              ∙ loaded),
      )
