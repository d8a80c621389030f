-- ===== src/Index/Pages/Runs.antt =====
-- byoridb-storage/src/index.rs: what one page holds, and what a run through the pages by their cursors reads.
use byoridb.Base.{
  ℕ, zero, suc, ◌+◌, ◌≡◌, refl, sym, ap, ◌∙◌, Bool, true, false, List, [], ◌∷◌, Option, none, some,
  some_inj, length, length-take, take-nil, take, ltb, leb, ◌==◌, if◌then◌else◌, arith, u64_mod,
}
use byoridb.Base.Ordered as Tree
use byoridb.Base.Ordered.{IsSorted, AllAbove, same}
use byoridb.Base.Lex.{lex_ltb, lex-IsOrder}
use byoridb.Raft.Types.{Bytes}
use byoridb.Kv as Kv
use byoridb.Kv.{MemoryKvStore, Entry}
use byoridb.Raft.Storage.{Codec}
use byoridb.Index.{IndexDef, IndexResult, IndexError, ok, err, ◌>>=◌, ok_or, page_limit_overflow}
use byoridb.Index.Scans.{prefix_successor, collect}
use byoridb.Index.Pages.{LookupCursor, Page, validate_key, next_cursor, page_from}
use byoridb.Index.Pages.After.{keys_of, from_to}

pub nothing_between :
    (start end : Bytes) (m : List Entry) → lex_ltb start end ≡ false → from_to start end m ≡ []
unfolding Tree.range_from
nothing_between start end [] h = refl
nothing_between start end ((k, v) ∷ m) h = ground (
  arith,
  nothing_between start end m h,
  lex-IsOrder.connected start k,
  lex-IsOrder.trans start k end,
)

pub scan_range_lem :
    (s : MemoryKvStore) (start end : Bytes) (n : ℕ)
    → Kv.scan_range s start end (some n) ≡ take n (from_to start end s.current)
unfolding Kv.scan_range
scan_range_lem s start end n =
    ground (arith, nothing_between start end s.current, take-nil {A = Entry} n)

keys-take-suc : (n : ℕ) (es : List Entry) → take n (keys_of (take (suc n) es)) ≡ keys_of (take n es)
keys-take-suc zero es = refl
keys-take-suc (suc n) [] = refl
keys-take-suc (suc n) (e ∷ es) = ap (◌∷◌ e.0) (keys-take-suc n es)

keys-take : (n : ℕ) (es : List Entry) → take n (keys_of (take (n + 1) es)) ≡ keys_of (take n es)
keys-take n es = let e : n + 1 ≡ suc n = omega arith in rw e (keys-take-suc n es)

pub bind_ok :
    {A B : Type 0} {r : IndexResult A} {f : A → IndexResult B} {b : B}
    → (r >>= f) ≡ ok b
    → (a : A) × (r ≡ ok a) × (f a ≡ ok b)
bind_ok {r = ok a} h = (a, refl, h)
bind_ok {r = err e} h = cc

pub found_ok : {A : Type 0} (e : IndexError) {o : Option A} {a : A} → ok_or e o ≡ ok a → o ≡ some a
found_ok e {o = none} h = cc
found_ok e {o = some b} h = cc

pub passed :
    {B : Type 0} (test : Bool) (e : IndexError) {r : IndexResult B} {b : B}
    → (if test then err e else r) ≡ ok b
    → (test ≡ false) × (r ≡ ok b)
passed true e h = cc
passed false e h = (refl, h)

pub ok_inj : {A : Type 0} {a b : A} → ok a ≡ ok b → a ≡ b
ok_inj h = cc

-- The limit in force.
abbrev pub effective : ℕ → ℕ
effective limit = if limit == 0 then 1024 else limit

module _ (lossy : Bytes → Bytes) (json : Codec LookupCursor) (def : IndexDef) (prefix : Bytes)
    (header_len tail : ℕ) where
  -- A page is the first keys of what is left, and the flag says whether there are more.
  pub record PageFacts (entries : List Entry) (limit : ℕ) (keys : List Bytes) (next : Bytes)
      (more : Bool) : Type 0 where
    pub keys_eq : keys ≡ keys_of (take (effective limit) entries)
    pub more_eq : more ≡ ltb (effective limit) (length entries)
    pub next_eq : next_cursor lossy json def prefix header_len tail more keys ≡ ok next
    pub valid :
        (us : List (Unit {0})) × (collect
            (λ (e : Entry). validate_key lossy json def prefix header_len tail e.0)
            (take (effective limit + 1) entries)
          ≡ ok us)

  pub page_from-PageFacts :
      (s : MemoryKvStore) (limit : ℕ) (start end : Bytes) (keys : List Bytes) (next : Bytes)
      (more : Bool)
      → prefix_successor prefix ≡ some end
      → page_from lossy json def prefix header_len tail s limit start ≡ ok (keys, (next, more))
      → PageFacts (from_to start end s.current) limit keys next more
  unfolding page_from
  page_from-PageFacts s limit start end keys next more e h =
      let n = effective limit in
      let entries = from_to start end s.current in
      let (behind, successor, h) = bind_ok h in
      let end_eq : behind ≡ end = some_inj (sym (found_ok _ successor) ∙ e) in
      let read = Kv.scan_range s start behind (some (n + 1)) in
      let read_eq : read ≡ take (n + 1) entries =
        ap (λ b. Kv.scan_range s start b (some (n + 1))) end_eq
        ∙ scan_range_lem s start end (n + 1) in
      let checks =
        collect (λ (e : Entry). validate_key lossy json def prefix header_len tail e.0) read in
      let keys' = take n (keys_of read) in
      let more' = ltb n (length read) in
      let cursors = next_cursor lossy json def prefix header_len tail more' keys' in
      let paged : Bytes → IndexResult Page = λ cursor. ok (keys', (cursor, more')) in
      let (small, h) =
        passed (leb u64_mod (n + 1)) page_limit_overflow {r = checks >>= λ us. cursors >>= paged}
          h in
      let (us, checked, h) = bind_ok {r = checks} {f = λ us. cursors >>= paged} h in
      let (cursor, made, h) = bind_ok {r = cursors} {f = paged} h in
      let page : (take n (keys_of read), (cursor, ltb n (length read))) ≡ (keys, (next, more)) =
        ok_inj h in
      let first : take n (keys_of read) ≡ keys = ap (λ p. p.0) page in
      let flag : ltb n (length read) ≡ more = ap (λ p. p.1.1) page in
      let to_next : cursor ≡ next = ap (λ p. p.1.0) page in
      let next_is = next_cursor lossy json def prefix header_len tail in
      record {
        keys_eq = sym first ∙ rw read_eq (keys-take n entries);
        more_eq = sym flag ∙ rw read_eq (ground (arith, length-take (n + 1) entries));
        next_eq =
            ap (λ f. next_is f keys) (sym flag)
            ∙ ap (next_is (ltb n (length read))) (sym first)
            ∙ made
            ∙ ap ok to_next;
        valid = (us, rw (← read_eq) checked);
      }
