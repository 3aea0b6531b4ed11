-- ===== src/Doc/Blocks.antt =====
-- core/doc.js: every block of `run`, but for the cascade of a deletion, changes only the row and the
-- clock of the record that the call is about.
use lazy_storage.Base.{Bool, Option, none, some, [], ◌∷◌, arith, KeyPath}
use lazy_storage.Json.{Value, object, end}
use lazy_storage.Doc.Call.{Call, key_of, St, found, writes_put}
use lazy_storage.Doc.Touch.{
  Touches, put_value-Touches, Touches-refl, Touches-trans, put_clock-Touches, relink-Touches,
  make_clock-Touches,
}
use lazy_storage.Doc.Enter.{
  Entry, enter_parent, make_record, make_parents, refused, entered, enter, clock_made,
}
use lazy_storage.Doc.State.{Doc, put_clock, relink, clock_at, put_value, make_clock}
use lazy_storage.Doc.Whole.{write_whole, write_record, write_unmerged}
use lazy_storage.Doc.Inside.{
  delete_inside, write_value, reindex, erase_value, put_new, set_there, erase_there, write_inside,
  in_record, after_delete, write_entered, write_path, after_write, delete_path,
}
use lazy_storage.Doc.Remove.{Out}
use lazy_storage.Doc.Clocks.{Clock, stamp_record}
use lazy_storage.Doc.Run.{settled}
use lazy_storage.Paths.{parent_path}

abbrev pub entry_st : Entry → St
entry_st (refused why st) = st
entry_st (entered st) = st

module _ (k : Call) (d : Doc) where
  same : Touches (key_of k) d d
  same = Touches-refl (key_of k) d

  -- A row, a clock and the index written in turn.
  written :
      (t : Clock) (e : Doc)
      → Touches (key_of k) d e
      → Touches (key_of k) d (put_clock (key_of k) t e)
  written t e h =
      Touches-trans (key_of k) d e (put_clock (key_of k) t e) h (put_clock-Touches (key_of k) t e)

  relinked : (e : Doc) → Touches (key_of k) d e → Touches (key_of k) d (relink k.sh k.c k.id e)
  relinked e h =
      Touches-trans (key_of k) d e (relink k.sh k.c k.id e) h
        (relink-Touches (key_of k) k.sh k.c k.id e)

  reindexed :
      (path : KeyPath) (e : Doc) → Touches (key_of k) d e → Touches (key_of k) d (reindex k path e)
  unfolding reindex
  reindexed [] e h = h
  reindexed (seg ∷ []) e h = relinked e h
  reindexed (seg ∷ next ∷ path) e h = h

  write_whole-Touches :
      (v : Value) (is_put : Bool) (out : Out)
      → Touches (key_of k) d (write_whole k v is_put (d, out)).0
  unfolding write_whole
  write_whole-Touches v is_put out =
      relinked _ (written (stamp_record k.ts) _ (put_value-Touches (key_of k) v d))

  write_unmerged-Touches :
      (v : Value) (is_put : Bool) (out : Out)
      → Touches (key_of k) d (write_unmerged k v is_put (d, out)).0
  unfolding write_unmerged
  write_unmerged-Touches v is_put out = ground (arith, same, write_whole-Touches v is_put out)

  pub write_record-Touches :
      (v : Value) (out : Out) → Touches (key_of k) d (settled (write_record k v (d, out))).0
  unfolding write_record
  write_record-Touches v out =
      ground (arith, same, write_unmerged-Touches v (writes_put k [] v) out)

  make_record-Touches : (out : Out) → Touches (key_of k) d (make_record k (d, out)).0
  unfolding make_record
  make_record-Touches out = ground (
    arith,
    same,
    written (record (clock_at d (key_of k)) { at = some k.ts })
        (put_value (key_of k) (object end) d) (put_value-Touches (key_of k) (object end) d),
  )

  make_parents-Touches :
      (path : KeyPath) (out : Out) → Touches (key_of k) d (make_parents k path (d, out)).0
  unfolding make_parents
  make_parents-Touches path out = written _ _ (put_value-Touches (key_of k) _ d)

  enter_parent-Touches :
      (path : KeyPath) (out : Out)
      → Touches (key_of k) d (entry_st (enter_parent k path (d, out))).0
  unfolding enter_parent
  enter_parent-Touches path out = ground (arith, same, make_parents-Touches (parent_path path) out)

  in_record-Touches :
      (f : Value → Value) (o : Option Value) → Touches (key_of k) d (in_record k f o d)
  in_record-Touches f none = Touches-refl (key_of k) d
  in_record-Touches f (some node) = put_value-Touches (key_of k) (f node) d

  write_value-Touches : (path : KeyPath) (v : Value) → Touches (key_of k) d (write_value k path v d)
  unfolding write_value
  write_value-Touches path v = in_record-Touches _ (found k d)

  erase_value-Touches : (path : KeyPath) → Touches (key_of k) d (erase_value k path d)
  unfolding erase_value
  erase_value-Touches path = in_record-Touches _ (found k d)

  put_new-Touches :
      (path : KeyPath) (v : Value) (out : Out) → Touches (key_of k) d (put_new k path v (d, out)).0
  unfolding put_new
  put_new-Touches path v out = reindexed path _ (written _ _ (write_value-Touches path v))

  set_there-Touches :
      (path : KeyPath) (v : Value) (out : Out)
      → Touches (key_of k) d (set_there k path v (d, out)).0
  unfolding set_there
  set_there-Touches path v out = reindexed path _ (written _ _ (write_value-Touches path v))

  erase_there-Touches :
      (path : KeyPath) (out : Out) → Touches (key_of k) d (erase_there k path (d, out)).0
  unfolding erase_there
  erase_there-Touches path out = reindexed path _ (written _ _ (erase_value-Touches path))

  write_inside-Touches :
      (path : KeyPath) (v : Value) (out : Out)
      → Touches (key_of k) d (settled (write_inside k path v (d, out))).0
  unfolding write_inside
  write_inside-Touches path v out =
      ground (arith, same, put_new-Touches path v out, set_there-Touches path v out)

  delete_inside-Touches :
      (path : KeyPath) (out : Out) → Touches (key_of k) d (delete_inside k path (d, out)).0
  unfolding delete_inside
  delete_inside-Touches path out = ground (arith, same, erase_there-Touches path out)

module _ (k : Call) (d : Doc) where
  entered_parent :
      (path : KeyPath) (out : Out)
      → Touches
          (key_of k)
          d
          (entry_st (enter_parent k path (clock_made k (make_record k (d, out))))).0
  entered_parent path out =
      let (d', out') = make_record k (d, out) in
      let d'' = make_clock (key_of k) d' in
      Touches-trans (key_of k) d d' _ (make_record-Touches k d out) (
        Touches-trans (key_of k) d' d'' _ (make_clock-Touches (key_of k) d')
          (enter_parent-Touches k d'' path out'))

  enter-Touches :
      (path : KeyPath) (out : Out) → Touches (key_of k) d (entry_st (enter k path (d, out))).0
  unfolding enter
  enter-Touches path out = ground (arith, Touches-refl (key_of k) d, entered_parent path out)

module _ (k : Call) where
  write_entered-Touches :
      (path : KeyPath) (v : Value) (d : Doc) (out : Out)
      → Touches (key_of k) d (settled (write_entered k path v (d, out))).0
  unfolding write_entered
  write_entered-Touches path v d out =
      ground (arith, Touches-refl (key_of k) d, write_inside-Touches k d path v out)

  after_write-Touches :
      (path : KeyPath) (v : Value) (d : Doc) (e : Entry)
      → Touches (key_of k) d (entry_st e).0
      → Touches (key_of k) d (settled (after_write k path v e)).0
  unfolding after_write
  after_write-Touches path v d (refused why (e, out)) h = h
  after_write-Touches path v d (entered (e, out)) h =
      Touches-trans (key_of k) d e _ h (write_entered-Touches path v e out)

  pub write_path-Touches :
      (path : KeyPath) (v : Value) (d : Doc) (out : Out)
      → Touches (key_of k) d (settled (write_path k path v (d, out))).0
  unfolding write_path
  write_path-Touches path v d out =
      after_write-Touches path v d (enter k path (d, out)) (enter-Touches k d path out)

  after_delete-Touches :
      (path : KeyPath) (d : Doc) (e : Entry)
      → Touches (key_of k) d (entry_st e).0
      → Touches (key_of k) d (after_delete k path e).0
  unfolding after_delete
  after_delete-Touches path d (refused why (e, out)) h = h
  after_delete-Touches path d (entered (e, out)) h =
      Touches-trans (key_of k) d e _ h (delete_inside-Touches k e path out)

  pub delete_path-Touches :
      (path : KeyPath) (d : Doc) (out : Out) → Touches (key_of k) d (delete_path k path (d, out)).0
  unfolding delete_path
  delete_path-Touches path d out =
      after_delete-Touches path d (enter k path (d, out)) (enter-Touches k d path out)
