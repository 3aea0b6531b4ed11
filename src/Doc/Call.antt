-- ===== src/Doc/Call.antt =====
-- core/doc.js: what one call of `run` is about, and what it asks of the doc. The state of a call is
-- the doc and what it has reported.
use lazy_storage.Base.{String, ℕ, Bool, true, false, not, ◌&&◌, Option, some, KeyPath}
use lazy_storage.Json.{Value, Fields, object, is_object, end}
use lazy_storage.Shape.{Shape, record_key, is_register}
use lazy_storage.Doc.State.{Doc, get}
use lazy_storage.Doc.Remove.{Out, Why, Op, put, Change, lose, set}

pub data Mode : Type 0 where
  judge authority trust replay optimistic : Mode

abbrev pub judging : Mode → Bool
judging judge = true
judging replay = true
judging _ = false

abbrev pub checks : Mode → Bool
checks judge = true
checks _ = false

abbrev pub makes : Mode → Bool
makes authority = true
makes trust = true
makes _ = false

abbrev pub cascades : Mode → Bool
cascades judge = true
cascades authority = true
cascades _ = false

-- What a call of `run` is about: the shape, the mode, the time, and the record.
pub record Call : Type 0 where
  pub sh : Shape
  pub mode : Mode
  pub ts : ℕ
  pub c : String
  pub id : Option String

abbrev pub St : Type 0
St = Doc × Out

abbrev pub key_of : Call → KeyPath
key_of k = record_key k.sh k.c k.id

abbrev pub found : Call → Doc → Option Value
found k d = get k.sh d k.c k.id

abbrev pub losing : Call → KeyPath → Why → St → St
losing k path why (d, out) = (d, lose k.c k.id path why out)

abbrev pub change_at : Call → KeyPath → Op → Change
change_at k path op = record { c = k.c; id = k.id; path = path; op = op }

-- The kind that a value is written as: a put of an object that is no register, or else a set.
unfoldable pub writes_put : Call → KeyPath → Value → Bool
writes_put k path v = is_object v && not (is_register k.sh k.c k.id path)

abbrev pub op_of : Bool → Value → Op
op_of true v = put v
op_of false v = set v

abbrev pub object_there : Option Value → Bool
object_there (some (object fs)) = true
object_there _ = false

-- Where a block ends: the call returns, or the value is merged in field by field.
pub data Step : Type 0 where
  done : St → Step
  merge : St → Step

abbrev pub object_fields : Value → Fields
object_fields (object fs) = fs
object_fields _ = end
