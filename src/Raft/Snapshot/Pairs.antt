-- ===== src/Raft/Snapshot/Pairs.antt =====
-- byoridb-storage/src/raft/snapshot.rs: the pairs written into a snapshot are read back.
use mathlib.Core.List.{append_assoc, append-nil}
use byoridb.Base.{
  ℕ, zero, suc, ◌+◌, ◌/◌, ◌^◌, ◌<◌, ◌≡◌, refl, sym, ap, ◌∙◌, Bool, true, false, List, [], ◌∷◌, ◌++◌,
  some, length, take, drop, take_prefix, drop_prefix, length-append, length-drop, All, arith,
}
use byoridb.Raft.Types.{Bytes}
use byoridb.Raft.Snapshot.{
  SnapshotWriter, out_of_fuel, SnapshotResult, ok, err, ◌>>=◌, le_bytes, read_le, write_kv,
  parse_kvs, iter_kvs,
}

length-le_bytes : (k n : ℕ) → length (le_bytes k n) ≡ k
unfolding le_bytes
length-le_bytes zero n = refl
length-le_bytes (suc k) n = ap suc (length-le_bytes k (n / 256))

read_le-le_bytes : (k n : ℕ) → n < 256 ^ k → read_le (le_bytes k n) ≡ n
unfolding le_bytes read_le
read_le-le_bytes zero n h = omega arith
read_le-le_bytes (suc k) n h =
    let ih = read_le-le_bytes k (n / 256) (grind arith) in ground (arith, ih)

-- One pair as `write_kv` lays it out, before the bytes `rest`.
abbrev pub pair_then : Bytes → Bytes → Bytes → Bytes
pair_then k v rest = le_bytes 4 (length k) ++ (k ++ (le_bytes 4 (length v) ++ (v ++ rest)))

abbrev pub wire : List (Bytes × Bytes) → Bytes
wire [] = []
wire ((k, v) ∷ kvs) = pair_then k v (wire kvs)

abbrev pub HasShortPairs : List (Bytes × Bytes) → Type 0
HasShortPairs kvs = All (λ kv. (length kv.0 < 2 ^ 32) × (length kv.1 < 2 ^ 32)) kvs

length-pair_then :
    (k v rest : Bytes)
    → length (pair_then k v rest) ≡ 4 + (length k + (4 + (length v + length rest)))
length-pair_then k v rest = ground (
  arith,
  length-le_bytes 4 (length k),
  length-le_bytes 4 (length v),
  length-append (le_bytes 4 (length k)) (k ++ (le_bytes 4 (length v) ++ (v ++ rest))),
  length-append k (le_bytes 4 (length v) ++ (v ++ rest)),
  length-append (le_bytes 4 (length v)) (v ++ rest),
  length-append v rest,
)

parse_kvs-pair :
    (fuel : ℕ) (k v rest : Bytes)
    → length k < 2 ^ 32
    → length v < 2 ^ 32
    → parse_kvs (suc fuel) (pair_then k v rest) ≡ (parse_kvs fuel rest >>= λ kvs. ok ((k, v) ∷ kvs))
unfolding parse_kvs
parse_kvs-pair fuel k v rest hk hv =
    let lk = length-le_bytes 4 (length k) in
    let lv = length-le_bytes 4 (length v) in
    let tail3 = v ++ rest in
    let tail2 = le_bytes 4 (length v) ++ tail3 in
    let tail1 = k ++ tail2 in
    rw
      (
        take_prefix 4 (le_bytes 4 (length k)) tail1 lk,
        drop_prefix 4 (le_bytes 4 (length k)) tail1 lk,
        read_le-le_bytes 4 (length k) hk,
        drop_prefix (length k) k tail2 refl,
        take_prefix (length k) k tail2 refl,
        take_prefix 4 (le_bytes 4 (length v)) tail3 lv,
        drop_prefix 4 (le_bytes 4 (length v)) tail3 lv,
        read_le-le_bytes 4 (length v) hv,
        drop_prefix (length v) v rest refl,
        take_prefix (length v) v rest refl,
      )
      (ground (
        arith,
        length-pair_then k v rest,
        lk,
        lv,
        length-append (le_bytes 4 (length k)) tail1,
        length-append k tail2,
        length-append (le_bytes 4 (length v)) tail3,
        length-append v rest,
      ))

parse_kvs-wire :
    (fuel : ℕ) (kvs : List (Bytes × Bytes))
    → length (wire kvs) < fuel
    → HasShortPairs kvs
    → parse_kvs fuel (wire kvs) ≡ ok kvs
parse_kvs-wire zero kvs h s = absurd (omega arith)
parse_kvs-wire (suc fuel) [] h s = unfold parse_kvs in refl
parse_kvs-wire (suc fuel) ((k, v) ∷ kvs) h s =
    let n = length-pair_then k v (wire kvs) in
    let ih = parse_kvs-wire fuel kvs (omega (arith, n)) s.1 in
    parse_kvs-pair fuel k v (wire kvs) s.0.0 s.0.1 ∙ rw ih refl

pair_then-append :
    (k v rest : Bytes)
    → (le_bytes 4 (length k) ++ (k ++ (le_bytes 4 (length v) ++ v))) ++ rest ≡ pair_then k v rest
pair_then-append k v rest =
    rw
      (
        append_assoc (le_bytes 4 (length k)) (k ++ (le_bytes 4 (length v) ++ v)) rest,
        append_assoc k (le_bytes 4 (length v) ++ v) rest,
        append_assoc (le_bytes 4 (length v)) v rest,
      )
      refl

abbrev pub write_all : SnapshotWriter → List (Bytes × Bytes) → SnapshotWriter
write_all w [] = w
write_all w ((k, v) ∷ kvs) = write_all (write_kv w k v) kvs

write_all-bytes :
    (w : SnapshotWriter) (kvs : List (Bytes × Bytes))
    → (write_all w kvs).bytes ≡ w.bytes ++ wire kvs
unfolding write_kv
write_all-bytes w [] = sym (append-nil w.bytes)
write_all-bytes w ((k, v) ∷ kvs) =
    write_all-bytes (write_kv w k v) kvs
    ∙ append_assoc w.bytes (le_bytes 4 (length k) ++ (k ++ (le_bytes 4 (length v) ++ v))) (wire kvs)
    ∙ ap (λ bytes. w.bytes ++ bytes) (pair_then-append k v (wire kvs))

-- The pairs written one after the other into an empty snapshot, with keys and values shorter than
-- 2^32 bytes, are the pairs that its bytes are read as, in order.
pub write_all-iter_kvs :
    (w : SnapshotWriter) (kvs : List (Bytes × Bytes))
    → w.bytes ≡ []
    → HasShortPairs kvs
    → iter_kvs (ok (some (write_all w kvs).bytes)) ≡ ok kvs
unfolding iter_kvs
write_all-iter_kvs w kvs e s =
    let b : (write_all w kvs).bytes ≡ wire kvs = write_all-bytes w kvs ∙ rw e refl in
    rw b (parse_kvs-wire (suc (length (wire kvs))) kvs (omega arith) s)

abbrev pub ran_out : SnapshotResult (List (Bytes × Bytes)) → Bool
ran_out (ok kvs) = false
ran_out (err out_of_fuel) = true
ran_out (err e) = false

ran_out-bind :
    (r : SnapshotResult (List (Bytes × Bytes))) (kv : Bytes × Bytes)
    → ran_out (r >>= λ kvs. ok (kv ∷ kvs)) ≡ ran_out r
ran_out-bind (ok kvs) kv = refl
ran_out-bind (err e) kv = refl

parse_kvs_ends : (fuel : ℕ) (d : Bytes) → length d < fuel → ran_out (parse_kvs fuel d) ≡ false
unfolding parse_kvs
parse_kvs_ends zero d h = absurd (omega arith)
parse_kvs_ends (suc fuel) d h =
    let d1 = drop 4 d in
    let d2 = drop (read_le (take 4 d)) d1 in
    let d3 = drop 4 d2 in
    let value_len = read_le (take 4 d2) in
    ground (
      arith,
      length-drop 4 d,
      length-drop (read_le (take 4 d)) d1,
      length-drop 4 d2,
      length-drop value_len d3,
      parse_kvs_ends fuel (drop value_len d3),
      ran_out-bind (parse_kvs fuel (drop value_len d3)),
    )

-- The loop that reads the pairs of a snapshot ends on any bytes, well-formed or not, within one
-- round more than there are bytes.
pub iter_kvs_ends : (bytes : Bytes) → ran_out (iter_kvs (ok (some bytes))) ≡ false
unfolding iter_kvs
iter_kvs_ends bytes = parse_kvs_ends (suc (length bytes)) bytes (omega arith)
