-- ===== src/Index/Pages/Ends.antt =====
-- byoridb-storage/src/index.rs: the run through the pages by their cursors comes to an end without an error.
use byoridb.Base.{
  ℕ, zero, suc, ◌+◌, ◌<◌, ◌≡◌, inl, inr, refl, ◌∙◌, Bool, true, false, List, [], ◌∷◌, ◌++◌, some,
  All, length, length-drop, last?, take, drop, ltb, leb, arith, Bool-cases, u64_mod,
}
use byoridb.Base.Ordered.{IsSorted}
use byoridb.Base.Lex.{lex_ltb}
use byoridb.Raft.Types.{Bytes}
use byoridb.Kv.{MemoryKvStore, Entry}
use byoridb.Raft.Storage.{Codec}
use byoridb.Index.{IndexDef, IndexResult, ok, ◌>>=◌}
use byoridb.Index.Scans.{prefix_successor, collect}
use byoridb.Index.Pages.{
  LookupCursor, Page, cursor_to, validate_key, page_start, next_cursor, page_from,
}
use byoridb.Index.Pages.After.{keys_of, from_to, from_to-push}
use byoridb.Index.Pages.Runs.{effective, scan_range_lem, PageFacts, page_from-PageFacts}
use byoridb.Index.Pages.Complete.{PageRun, last_page, more_pages, page_start-next_cursor}

collect-total :
    {A B : Type 0} (f : A → IndexResult B) (xs : List A)
    → All (λ x. (y : B) × (f x ≡ ok y)) xs
    → (ys : List B) × (collect f xs ≡ ok ys)
unfolding collect
collect-total f [] a = ([], refl)
collect-total f (x ∷ xs) ((y, e), a) =
    let (ys, es) = collect-total f xs a in (y ∷ ys, rw (e, es) refl)

take-All : {A : Type 0} (P : A → Type 0) (n : ℕ) (xs : List A) → All P xs → All P (take n xs)
take-All P zero xs a = tt
take-All P (suc n) [] a = tt
take-All P (suc n) (x ∷ xs) (p, a) = (p, take-All P n xs a)

drop-All : {A : Type 0} (P : A → Type 0) (n : ℕ) (xs : List A) → All P xs → All P (drop n xs)
drop-All P zero xs a = a
drop-All P (suc n) [] a = tt
drop-All P (suc n) (x ∷ xs) (p, a) = drop-All P n xs a

last-some :
    (n : ℕ) (es : List Entry)
    → 0 < n
    → 0 < length es
    → (l : Bytes) × (last? (take n (keys_of es)) ≡ some l)
last-some zero es h k = absurd (omega arith)
last-some (suc n) [] h k = absurd (omega arith)
last-some (suc zero) (e ∷ es) h k = (e.0, refl)
last-some (suc (suc n)) (e ∷ []) h k = (e.0, refl)
last-some (suc (suc n)) (e ∷ f ∷ es) h k = last-some (suc n) (f ∷ es) (omega arith) (omega arith)

module _ (lossy : Bytes → Bytes) (json : Codec LookupCursor) (def : IndexDef) (prefix : Bytes)
    (header_len tail : ℕ) (s : MemoryKvStore) (limit : ℕ) (small : effective limit + 1 < u64_mod)
    (end : Bytes) (e : prefix_successor prefix ≡ some end) where
  abbrev check : Bytes → IndexResult (Unit {0})
  check = validate_key lossy json def prefix header_len tail

  abbrev pub AllValid : List Entry → Type 0
  AllValid es = All (λ (t : Entry). (u : Unit {0}) × (check t.0 ≡ ok u)) es

  next_cursor-total :
      (n : ℕ) (more : Bool) (es : List Entry)
      → 0 < n
      → more ≡ ltb n (length es)
      → (next : Bytes) × (next_cursor lossy json def prefix header_len tail more
            (take n (keys_of es))
          ≡ ok next)
  unfolding next_cursor
  next_cursor-total n false es h m = ([], refl)
  next_cursor-total n true es h m =
      let (l, ended) = last-some n es h (ground arith) in
      let (b, written, parsed) = json.read_back (cursor_to def prefix l) in
      (b, rw ended (rw written refl))

  page_from-total :
      (start : Bytes)
      → AllValid (from_to start end s.current)
      → (keys : List Bytes) × (next : Bytes) × (more : Bool) × (page_from lossy json def prefix
            header_len tail s limit start
          ≡ ok (keys, (next, more)))
  unfolding page_from
  page_from-total start a =
      let n = effective limit in
      let read = take (n + 1) (from_to start end s.current) in
      let (us, checked) = collect-total (λ (t : Entry). check t.0) read (take-All _ (n + 1) _ a) in
      let more = ltb n (length read) in
      let (next, made) = next_cursor-total n more read (ground arith) refl in
      let within : leb u64_mod (n + 1) ≡ false = ground arith in
      (
        take n (keys_of read),
        next,
        more,
        rw (e, within, scan_range_lem s start end (n + 1), checked, made) refl,
      )

  module _ (o : IsSorted lex_ltb s.current)
      (never_empty : (c : LookupCursor) → json.serialize c ≡ some [] → ⊥)
      (read : Bytes → IndexResult Page)
      (reads : (cursor : Bytes)
        → read cursor ≡ (
            page_start lossy json def prefix header_len tail cursor
            >>= page_from lossy json def prefix header_len tail s limit)) where
    run_in :
        (fuel : ℕ) (cursor start : Bytes)
        → page_start lossy json def prefix header_len tail cursor ≡ ok start
        → AllValid (from_to start end s.current)
        → length (from_to start end s.current) < fuel
        → (keys : List Bytes) × PageRun read cursor keys
    run_in zero cursor start b a short = absurd (omega arith)
    run_in (suc fuel) cursor start b a short =
        let n = effective limit in
        let (keys, next, more, h) = page_from-total start a in
        let page : read cursor ≡ ok (keys, (next, more)) = rw (reads cursor, b) h in
        let f =
          page_from-PageFacts lossy json def prefix header_len tail s limit start end keys next more
            e h in
        elim (Bool-cases more) [
          | inl y ↦
              let entries = from_to start end s.current in
              let g : PageFacts lossy json def prefix header_len tail entries limit keys next true =
                rw y at f in
              let (last, ended, begun) =
                page_start-next_cursor lossy json def prefix header_len tail never_empty entries
                  limit keys next g in
              let left : from_to (last ++ 0 ∷ []) end s.current ≡ drop n entries =
                from_to-push start end last n s.current o ended in
              let more_left : n < length entries = ground (arith, g.more_eq) in
              let (rest, run) =
                run_in fuel next (last ++ 0 ∷ []) begun (rw left (drop-All _ n entries a))
                  (rw left (ground (arith, length-drop n entries))) in
              (keys ++ rest, more_pages cursor next keys rest (page ∙ rw y refl) run)
          | inr d ↦ (keys, last_page cursor next keys (page ∙ rw d refl))
        ]

    pub run_ends :
        AllValid (from_to prefix end s.current) → (keys : List Bytes) × PageRun read [] keys
    unfolding page_start
    run_ends a = run_in (suc (length (from_to prefix end s.current))) [] prefix refl a (omega arith)
