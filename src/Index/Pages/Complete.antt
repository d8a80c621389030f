-- ===== src/Index/Pages/Complete.antt =====
-- byoridb-storage/src/index.rs: a run through the pages by their cursors reads every key of the lookup once.
use byoridb.Base.{
  ℕ, zero, suc, ◌+◌, ◌≡◌, refl, sym, ap, ◌∙◌, Bool, true, false, List, [], ◌∷◌, ◌++◌, some,
  some_inj, All, length, last?, is_empty, take, drop, ltb, arith,
}
use byoridb.Base.Ordered.{IsSorted}
use byoridb.Base.Lex.{lex_ltb}
use byoridb.Raft.Types.{Bytes}
use byoridb.Kv.{MemoryKvStore, Entry}
use byoridb.Raft.Storage.{Codec}
use byoridb.Raft.Storage.Keys.{same_self}
use byoridb.Index.{IndexDef, IndexResult, ok, ◌>>=◌, ok_or, panic, storage}
use byoridb.Index.Scans.{prefix_successor, collect}
use byoridb.Index.Pages.{
  LookupCursor, Page, same_fields, matches, cursor_to, validate_key, page_start, next_cursor,
  page_from,
}
use byoridb.Index.Pages.After.{keys_of, from_to, from_to-push, last-All}
use byoridb.Index.Pages.Runs.{bind_ok, found_ok, ok_inj, effective, PageFacts, page_from-PageFacts}

-- A run through the pages: from a cursor, page by page, up to the one that has no more behind it.
pub data PageRun (read : Bytes → IndexResult Page) : Bytes → List Bytes → Type 0 where
  last_page :
      (cursor next : Bytes) (keys : List Bytes)
      → read cursor ≡ ok (keys, (next, false))
      → PageRun read cursor keys
  more_pages :
      (cursor next : Bytes) (keys rest : List Bytes)
      → read cursor ≡ ok (keys, (next, true))
      → PageRun read next rest
      → PageRun read cursor (keys ++ rest)

same_fields_self : (fs : List Bytes) → same_fields fs fs ≡ true
same_fields_self [] = refl
same_fields_self (f ∷ fs) = ground (arith, same_self f, same_fields_self fs)

matches-cursor_to :
    (def : IndexDef) (prefix last : Bytes) → matches (cursor_to def prefix last) def prefix ≡ true
matches-cursor_to def prefix last = ground (
  arith,
  same_self def.index_name,
  same_self def.schema_name,
  same_fields_self def.fields,
  same_self prefix,
)

collect-All :
    {A B : Type 0} (f : A → IndexResult B) (xs : List A) (ys : List B)
    → collect f xs ≡ ok ys
    → All (λ x. (y : B) × (f x ≡ ok y)) xs
unfolding collect
collect-All f [] ys h = tt
collect-All f (x ∷ xs) ys h =
    let (y, e, h) = bind_ok {r = f x} {f = λ y. collect f xs >>= λ ys. ok (y ∷ ys)} h in
    let (rest, k, h) = bind_ok {r = collect f xs} {f = λ ys. ok (y ∷ ys)} h in
    ((y, e), collect-All f xs rest k)

take-take : (n : ℕ) (es : List Entry) → take n (take (suc n) es) ≡ take n es
take-take zero es = refl
take-take (suc n) [] = refl
take-take (suc n) (e ∷ es) = ap (◌∷◌ e) (take-take n es)

keys-drop : (n : ℕ) (es : List Entry) → keys_of (take n es) ++ keys_of (drop n es) ≡ keys_of es
keys-drop zero es = refl
keys-drop (suc n) [] = refl
keys-drop (suc n) (e ∷ es) = ap (◌∷◌ e.0) (keys-drop n es)

keys-all : (n : ℕ) (es : List Entry) → ltb n (length es) ≡ false → keys_of (take n es) ≡ keys_of es
keys-all zero [] h = refl
keys-all zero (e ∷ es) h = absurd (ground arith)
keys-all (suc n) [] h = refl
keys-all (suc n) (e ∷ es) h = ap (◌∷◌ e.0) (keys-all n es (ground arith))

filled-nonempty : (b : Bytes) → (b ≡ [] → ⊥) → is_empty b ≡ false
filled-nonempty [] h = absurd (h refl)
filled-nonempty (x ∷ b) h = refl

module _ (lossy : Bytes → Bytes) (json : Codec LookupCursor) (def : IndexDef) (prefix : Bytes)
    (header_len tail : ℕ) (never_empty : (c : LookupCursor) → json.serialize c ≡ some [] → ⊥) where
  abbrev check : Bytes → IndexResult (Unit {0})
  check = validate_key lossy json def prefix header_len tail

  -- The cursor of a page starts the next one behind the last key of the page.
  pub page_start-next_cursor :
      (entries : List Entry) (limit : ℕ) (keys : List Bytes) (next : Bytes)
      → PageFacts lossy json def prefix header_len tail entries limit keys next true
      → (last : Bytes) × (last? (keys_of (take (effective limit) entries)) ≡ some last)
        × (page_start lossy json def prefix header_len tail next ≡ ok (last ++ 0 ∷ []))
  unfolding next_cursor page_start
  page_start-next_cursor entries limit keys next f =
      let n = effective limit in
      let plus_one : n + 1 ≡ suc n = omega arith in
      let cut : take n (take (n + 1) entries) ≡ take n entries =
        rw plus_one (take-take n entries) in
      let (last, ended, made) =
        bind_ok {r = ok_or panic (last? keys)}
          {f = λ last. ok_or storage (json.serialize (cursor_to def prefix last))} f.next_eq in
      let last_eq : last? (keys_of (take n entries)) ≡ some last =
        ap last? (sym f.keys_eq) ∙ found_ok panic ended in
      let (us, checked) = f.valid in
      let (v, good) =
        last-All (λ k. (u : Unit {0}) × (check k ≡ ok u)) last n (take (n + 1) entries)
          (collect-All _ _ us checked) (ap (λ es. last? (keys_of es)) cut ∙ last_eq) in
      let (b, written, parsed) = json.read_back (cursor_to def prefix last) in
      let next_eq : b ≡ next = some_inj (sym written ∙ found_ok storage made) in
      let filled : is_empty next ≡ false =
        filled-nonempty next
          (λ q. never_empty (cursor_to def prefix last) (found_ok storage made ∙ ap some q)) in
      let read : json.deserialize next ≡ some (cursor_to def prefix last) = rw (← next_eq) parsed in
      (last, last_eq, rw (filled, read, matches-cursor_to def prefix last) (rw good refl))

  module _ (s : MemoryKvStore) (o : IsSorted lex_ltb s.current) (limit : ℕ) (end : Bytes)
      (e : prefix_successor prefix ≡ some end) (read : Bytes → IndexResult Page)
      (reads : (cursor : Bytes) (p : Page)
        → read cursor ≡ ok p
        → (page_start lossy json def prefix header_len tail cursor
            >>= page_from lossy json def prefix header_len tail s limit)
          ≡ ok p) where
    abbrev left : Bytes → List Entry
    left start = from_to start end s.current

    facts :
        (cursor start next : Bytes) (keys : List Bytes) (more : Bool)
        → page_start lossy json def prefix header_len tail cursor ≡ ok start
        → read cursor ≡ ok (keys, (next, more))
        → PageFacts lossy json def prefix header_len tail (left start) limit keys next more
    facts cursor start next keys more b h =
        let (begun, b', from) =
          bind_ok {r = page_start lossy json def prefix header_len tail cursor}
            {f = page_from lossy json def prefix header_len tail s limit} (reads cursor _ h) in
        let begun_eq : begun ≡ start = ok_inj (sym b' ∙ b) in
        page_from-PageFacts lossy json def prefix header_len tail s limit start end keys next more e
          (rw (← begun_eq) from)

    pub run_from :
        (cursor start : Bytes) (keys : List Bytes)
        → PageRun read cursor keys
        → page_start lossy json def prefix header_len tail cursor ≡ ok start
        → keys ≡ keys_of (left start)
    run_from cursor start keys (last_page c next ks h) b =
        let f = facts cursor start next keys false b h in
        f.keys_eq ∙ keys-all (effective limit) (left start) (sym f.more_eq)
    run_from cursor start all (more_pages c next keys rest h run) b =
        let n = effective limit in
        let f = facts cursor start next keys true b h in
        let (last, ended, begun) = page_start-next_cursor (left start) limit keys next f in
        let rest_eq : rest ≡ keys_of (drop n (left start)) =
          run_from next (last ++ 0 ∷ []) rest run begun
          ∙ ap keys_of (from_to-push start end last n s.current o ended) in
        rw (f.keys_eq, rest_eq) (keys-drop n (left start))
