-- ===== src/Index/Plain.antt =====
-- Plain encodings of cursors and of definitions of indexes, in the place of serde_json, for concrete runs.
use byoridb.Base.{
  ap, ℕ, zero, suc, ◌≡◌, ◌∙◌, refl, List, [], ◌∷◌, ◌++◌, Option, none, some, length, take, drop,
  take-append, drop-append,
}
use byoridb.Raft.Types.{Bytes}
use byoridb.Raft.Storage.{Codec}
use byoridb.Index.{IndexDef, IndexType, tag, edge}
use byoridb.Index.Pages.{LookupCursor}

abbrev pub with_piece : {A : Type 0} → Bytes → (Bytes → Bytes → Option A) → Option A
with_piece [] f = none
with_piece (n ∷ b) f = f (take n b) (drop n b)

with_piece_lem :
    {A : Type 0} (p r : Bytes) (f : Bytes → Bytes → Option A)
    → with_piece (length p ∷ (p ++ r)) f ≡ f p r
with_piece_lem p r f = rw (take-append p r, drop-append p r) refl

abbrev pub write_pieces : List Bytes → Bytes → Bytes
write_pieces [] rest = rest
write_pieces (p ∷ ps) rest = length p ∷ (p ++ write_pieces ps rest)

abbrev pub read_pieces : {A : Type 0} → ℕ → Bytes → (List Bytes → Bytes → Option A) → Option A
read_pieces zero b f = f [] b
read_pieces (suc n) b f = with_piece b (λ p r. read_pieces n r (λ ps rest. f (p ∷ ps) rest))

read_pieces_lem :
    {A : Type 0} (ps : List Bytes) (rest : Bytes) (f : List Bytes → Bytes → Option A)
    → read_pieces (length ps) (write_pieces ps rest) f ≡ f ps rest
read_pieces_lem [] rest f = refl
read_pieces_lem (p ∷ ps) rest f =
    with_piece_lem p (write_pieces ps rest)
      (λ p r. read_pieces (length ps) r (λ ps rest. f (p ∷ ps) rest))
    ∙ read_pieces_lem ps rest (λ ps rest. f (p ∷ ps) rest)

abbrev pub cursor : ℕ → ℕ → List Bytes → Bytes → Bytes → Bytes → Bytes → LookupCursor
cursor v space fields name schema prefix last = record {
  version = v;
  space_id = space;
  index_name = name;
  schema_name = schema;
  fields = fields;
  prefix = prefix;
  last_key = last;
}

abbrev pub cursor_bytes : LookupCursor → Bytes
cursor_bytes c =
    c.version
    ∷ c.space_id
    ∷ length c.fields
    ∷ write_pieces c.fields (write_pieces (c.index_name ∷ c.schema_name ∷ c.prefix ∷ []) c.last_key)

abbrev pub three : ℕ → ℕ → List Bytes → List Bytes → Bytes → Option LookupCursor
three v space fields (name ∷ schema ∷ prefix ∷ []) last =
    some (cursor v space fields name schema prefix last)
three v space fields others last = none

abbrev pub cursor_of : Bytes → Option LookupCursor
cursor_of (v ∷ space ∷ n ∷ b) = read_pieces n b (λ fields r. read_pieces 3 r (three v space fields))
cursor_of bytes = none

pub cursor_of_lem : (c : LookupCursor) → cursor_of (cursor_bytes c) ≡ some c
cursor_of_lem c =
    let names = c.index_name ∷ c.schema_name ∷ c.prefix ∷ [] in
    read_pieces_lem c.fields (write_pieces names c.last_key)
      (λ fields r. read_pieces 3 r (three c.version c.space_id fields))
    ∙ read_pieces_lem names c.last_key (three c.version c.space_id c.fields)

abbrev pub cursors : Codec LookupCursor
cursors = record {
  serialize = λ c. some (cursor_bytes c);
  deserialize = cursor_of;
  read_back = λ c. (_, refl, cursor_of_lem c);
}

abbrev pub two : ℕ → ℕ → IndexType → ℕ → List Bytes → List Bytes → List ℕ → Option IndexDef
two id space t schema fields (name ∷ schema_name ∷ []) indices = some (record {
  id = id;
  space_id = space;
  index_name = name;
  index_type = t;
  schema_id = schema;
  schema_name = schema_name;
  fields = fields;
  field_indices = indices;
})
two id space t schema fields others indices = none

abbrev pub type_code : IndexType → ℕ
type_code tag = 0
type_code edge = 1

abbrev pub type_of : ℕ → IndexType
type_of zero = tag
type_of (suc n) = edge

type_of_lem : (t : IndexType) → type_of (type_code t) ≡ t
type_of_lem tag = refl
type_of_lem edge = refl

abbrev pub def_bytes : IndexDef → Bytes
def_bytes d =
    d.id
    ∷ d.space_id
    ∷ type_code d.index_type
    ∷ d.schema_id
    ∷ length d.fields
    ∷ write_pieces d.fields (write_pieces (d.index_name ∷ d.schema_name ∷ []) d.field_indices)

abbrev pub def_of : Bytes → Option IndexDef
def_of (id ∷ space ∷ t ∷ schema ∷ n ∷ b) =
    read_pieces n b (λ fields r. read_pieces 2 r (two id space (type_of t) schema fields))
def_of bytes = none

pub def_of_lem : (d : IndexDef) → def_of (def_bytes d) ≡ some d
def_of_lem d =
    let names = d.index_name ∷ d.schema_name ∷ [] in
    let t = type_of (type_code d.index_type) in
    read_pieces_lem d.fields (write_pieces names d.field_indices)
      (λ fields r. read_pieces 2 r (two d.id d.space_id t d.schema_id fields))
    ∙ read_pieces_lem names d.field_indices (two d.id d.space_id t d.schema_id d.fields)
    ∙ ap (λ t. two d.id d.space_id t d.schema_id d.fields names d.field_indices)
        (type_of_lem d.index_type)

abbrev pub defs : Codec IndexDef
defs = record {
  serialize = λ d. some (def_bytes d);
  deserialize = def_of;
  read_back = λ d. (_, refl, def_of_lem d);
}
