-- ===== src/Client/Pending.antt =====
-- client/index.js: the outbox, this replica's ops that the server has not acknowledged.
use lazy_storage.Base.{
  String, str_eq, ℕ, Bool, true, false, not, ◌&&◌, ◌||◌, Option, none, some, List, [], ◌∷◌, ◌++◌,
  ltb, ◌==◌, if◌then◌else◌, length, filter, KeyPath, path_eq, Map, map_get, map_set,
}
use lazy_storage.Doc.Remove.{Change, Op, put, set, del}
use lazy_storage.Shape.{Shape, record_key, full}
use lazy_storage.Paths.{within, any}
pub mod Ascending
pub mod Kept
pub mod Overwritten
pub mod Indexed

-- An op as the outbox has it; its replica is the client's own.
pub record Pending : Type 0 where
  pub seq : ℕ
  pub ts : ℕ
  pub changes : List Change

abbrev pub is_put : Op → Bool
is_put (put v) = true
is_put (set v) = false
is_put del = false

-- The changes of a new op that set or delete.
abbrev pub written : List Change → List Change
written changes = filter (λ ch. not (is_put ch.op)) changes

abbrev pub same_id : Option String → Option String → Bool
same_id none none = true
same_id none (some id) = false
same_id (some id) none = false
same_id (some id) (some other) = str_eq id other

abbrev pub same_record : Change → Change → Bool
same_record ch new = str_eq ch.c new.c && same_id ch.id new.id

-- A change at or beneath a path that a new op writes, in the same record.
unfoldable pub is_superseded : List Change → Change → Bool
is_superseded news ch = any (λ new. same_record ch new && within ch.path new.path) news

abbrev pub is_empty : {A : Type 0} → List A → Bool
is_empty [] = true
is_empty (x ∷ xs) = false

-- The filter of `supersede`: an op with no change left goes.
unfoldable pub strip : List Change → List Pending → List Pending
strip news [] = []
strip news (older ∷ ops) =
    let rest = strip news ops in
    let left = filter (λ ch. not (is_superseded news ch)) older.changes in
    if length left == length older.changes || not (is_empty left)
    then record older { changes = left } ∷ rest
    else rest

unfoldable pub supersede : List Change → List Pending → List Pending
supersede changes outbox =
    let news = written changes in
    let left = strip news outbox in if is_empty news then outbox else left

-- Whether an op stays when the server has acknowledged the ops up to a seq.
abbrev pub is_later : ℕ → Pending → Bool
is_later up_to op = ltb up_to op.seq

abbrev pub changes_of : List Pending → List Change
changes_of [] = []
changes_of (op ∷ ops) = op.changes ++ changes_of ops

-- `acknowledge`: the outbox that is left, and what the ops that went touched.
unfoldable pub acknowledge : ℕ → List Pending → List Pending × List Change
acknowledge up_to outbox =
    (filter (is_later up_to) outbox, changes_of (filter (λ op. not (is_later up_to op)) outbox))

-- `outbox.find(op => op.seq === seq)`
unfoldable pub find_op : ℕ → List Pending → Option Pending
find_op seq [] = none
find_op seq (op ∷ ops) = if op.seq == seq then some op else find_op seq ops

-- The outbox without the op that `find_op` finds.
unfoldable pub remove_op : ℕ → List Pending → List Pending
remove_op seq [] = []
remove_op seq (op ∷ ops) = let rest = remove_op seq ops in if op.seq == seq then ops else op ∷ rest

-- The list of a key, with one more at its end.
abbrev pub changes_or_none : Option (List (Change × ℕ)) → List (Change × ℕ)
changes_or_none none = []
changes_or_none (some changes) = changes

abbrev pub Index : Type 0
Index = Map KeyPath (List (Change × ℕ))

unfoldable pub index_change : Shape → ℕ → Change → Index → Index
index_change sh ts change index =
    let key = record_key sh change.c change.id in
    map_set key (changes_or_none (map_get key index) ++ (change, ts) ∷ []) index

unfoldable pub index_changes : Shape → ℕ → List Change → Index → Index
index_changes sh ts [] index = index
index_changes sh ts (change ∷ changes) index =
    index_changes sh ts changes (index_change sh ts change index)

unfoldable pub index_ops : Shape → List Pending → Index → Index
index_ops sh [] index = index
index_ops sh (op ∷ ops) index = index_ops sh ops (index_changes sh op.ts op.changes index)

-- `pendingFor`: the pending changes of a record, by the index of the whole outbox.
unfoldable pub pending_for : Shape → KeyPath → List Pending → List (Change × ℕ)
pending_for sh key outbox = changes_or_none (map_get key (index_ops sh outbox []))

-- `isPending`, of a path in segments.
unfoldable pub touches : Shape → KeyPath → Change → Bool
touches sh target change =
    let path = full sh change.c change.id change.path in within path target || within target path

unfoldable pub is_pending : Shape → KeyPath → List Pending → Bool
is_pending sh target outbox = any (λ op. any (touches sh target) op.changes) outbox
