-- ===== src/Raft/Log/Defs.antt =====
-- byoridb-storage/src/raft/log.rs, `RaftLog`. `none` as the result of a slice is Rust's panic on a
-- range that is reversed or out of bounds.
use byoridb.Base.{
  ℕ, zero, suc, ◌-◌, Bool, not, ◌||◌, ◌&&◌, List, [], ◌∷◌, ◌++◌, Option, none, some, length,
  is_empty, get_elem?, take, drop, last?, ltb, leb, ◌==◌, if◌then◌else◌, add64, sub64,
}
use byoridb.Raft.Types.{Command, LogEntry}

pub record RaftLog : Type 0 where
  pub entries : List LogEntry
  pub first_index : ℕ
  pub snapshot_term : ℕ

unfoldable pub new : RaftLog
new = record { entries = []; first_index = 1; snapshot_term = 0 }

unfoldable pub last_index : RaftLog → ℕ
last_index l =
    if is_empty l.entries
    then l.first_index - 1
    else sub64 (add64 l.first_index (length l.entries)) 1

term_or : Option LogEntry → ℕ → ℕ
term_or none d = d
term_or (some e) d = e.term

unfoldable pub last_term : RaftLog → ℕ
unfolding term_or
last_term l = term_or (last? l.entries) l.snapshot_term

unfoldable pub get : RaftLog → ℕ → Option LogEntry
get l index =
    if ltb index l.first_index || ltb (last_index l) index
    then none
    else get_elem? l.entries (sub64 index l.first_index)

abbrev pub term_of : Option LogEntry → Option ℕ
term_of none = none
term_of (some e) = some e.term

unfoldable pub term : RaftLog → ℕ → Option ℕ
term l index =
    if index == 0
    then some 0
    else if ltb index l.first_index
    then (if index == sub64 l.first_index 1 then some l.snapshot_term else none)
    else term_of (get l index)

unfoldable pub append : RaftLog → List LogEntry → RaftLog
append l es = record l { entries = l.entries ++ es }

unfoldable pub append_entry : RaftLog → ℕ → Command → RaftLog × ℕ
append_entry l t command =
    let index = add64 (last_index l) 1 in
    (
      record l {
        entries = l.entries ++ (record { term = t; index = index; command = command }) ∷ [];
      },
      index,
    )

unfoldable pub truncate : RaftLog → ℕ → RaftLog
truncate l from_index =
    if leb from_index l.first_index
    then record l { entries = [] }
    else if leb from_index (last_index l)
    then record l { entries = take (sub64 from_index l.first_index) l.entries }
    else l

-- `v[start..end]`
abbrev pub slice {ℓ} : {A : Type ℓ} → List A → ℕ → ℕ → Option (List A)
slice xs start end =
    if leb start end && leb end (length xs) then some (take (end - start) (drop start xs)) else none

unfoldable pub entries_from : RaftLog → ℕ → Option (List LogEntry)
entries_from l start_index =
    if ltb (last_index l) start_index
    then some []
    else slice l.entries
        (if ltb start_index l.first_index then 0 else sub64 start_index l.first_index)
        (length l.entries)

unfoldable pub entries_range : RaftLog → ℕ → ℕ → Option (List LogEntry)
entries_range l start end =
    if ltb (last_index l) start || leb end start
    then some []
    else slice l.entries (if ltb start l.first_index then 0 else sub64 start l.first_index)
        (if ltb (add64 (last_index l) 1) end then length l.entries else sub64 end l.first_index)

unfoldable pub compact : RaftLog → ℕ → ℕ → RaftLog
compact l up_to_index last_term =
    if ltb up_to_index l.first_index
    then l
    else (let compact_count = add64 (sub64 up_to_index l.first_index) 1 in
        record {
          entries =
              if leb (length l.entries) compact_count then [] else drop compact_count l.entries;
          first_index = add64 up_to_index 1;
          snapshot_term = last_term;
        })

unfoldable pub is_up_to_date : RaftLog → ℕ → ℕ → Bool
is_up_to_date l last_log_index last_log_term =
    if not (last_log_term == last_term l)
    then ltb (last_term l) last_log_term
    else leb (last_index l) last_log_index

-- The `while` of `find_conflict`, at `conflict_index`.
unfoldable pub conflict_start : RaftLog → ℕ → ℕ → ℕ
conflict_start l conflict_term zero = zero
conflict_start l conflict_term (suc before) =
    let rest = conflict_start l conflict_term before in
    if ltb l.first_index (suc before)
    then elim (get l before) [
      | none ↦ suc before
      | some prev ↦ if prev.term == conflict_term then rest else suc before
    ]
    else suc before

unfoldable pub find_conflict : RaftLog → ℕ → ℕ → ℕ × ℕ
find_conflict l index t = elim (get l index) [
  | none ↦ (index, t)
  | some entry ↦
      if entry.term == t then (index, t) else (conflict_start l entry.term index, entry.term)
]

unfoldable pub len : RaftLog → ℕ
len l = length l.entries

unfoldable pub log_is_empty : RaftLog → Bool
log_is_empty l = is_empty l.entries
