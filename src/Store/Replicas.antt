-- ===== src/Store/Replicas.antt =====
-- server/store.js, replicas: whose they are, and how many of a user's are remembered. A user is known
-- by its key (`ownerKey`), `none` where the session has no user.
use lazy_storage.Base.{
  String, str_eq, ℕ, ◌-◌, Bool, false, not, ◌||◌, Option, none, some, List, [], ◌∷◌, ◌++◌, leb,
  if◌then◌else◌, is_there, length, take, path_eq, Map, map_get, map_set, map_delete, Result, ok,
  err, string_eq,
}
use lazy_storage.Store.State.{
  Options, StoreState, Commit, owner_beq, Replica, Code, forbidden_op, replica_taken, owner_eq,
}
use lazy_storage.Store.Queue.{commit}

-- Who an op comes from: a session, or a client that a follower speaks for.
pub record Speaker : Type 0 where
  pub user : Option String
  pub speaks_for : Option String
  pub held_until : Option ℕ
  pub is_peer : Bool
  pub writes : Bool

abbrev pub has_id : String → List String → Bool
has_id id [] = false
has_id id (x ∷ xs) = str_eq x id || has_id id xs

-- `set.add(id)` and `set.delete(id)`
unfoldable pub add_id : String → List String → List String
add_id id ids = if has_id id ids then ids else ids ++ id ∷ []

unfoldable pub remove_id : String → List String → List String
remove_id id [] = []
remove_id id (x ∷ xs) = let rest = remove_id id xs in if str_eq x id then rest else x ∷ rest

abbrev pub ids_or_none : Option (List String) → List String
ids_or_none none = []
ids_or_none (some ids) = ids

abbrev pub owner_of : Option Replica → Option String
owner_of none = none
owner_of (some r) = r.owner

abbrev pub seen_of : Option Replica → ℕ
seen_of none = 0
seen_of (some r) = r.seen

abbrev pub speaks_for_other : Option String → String → Bool
speaks_for_other none id = false
speaks_for_other (some other) id = not (str_eq other id)

abbrev pub owned_by_other : Option String → Option String → Bool
owned_by_other none user = false
owned_by_other (some owner) user = not (owner_beq (some owner) user)

-- Whether a user may speak for a replica: `none` where it may.
unfoldable pub claim_replica : Map String Replica → Speaker → String → Option Code
claim_replica replicas speaker id =
    if str_eq id "server"
    then some forbidden_op
    else if speaks_for_other speaker.speaks_for id
    then some forbidden_op
    else if owned_by_other (owner_of (map_get id replicas)) speaker.user
    then some replica_taken
    else none

-- The replicas but one, and but those that are spoken for.
unfoldable pub unspoken : String → List String → List String → List String
unspoken id live [] = []
unspoken id live (x ∷ xs) =
    let rest = unspoken id live xs in if str_eq x id || has_id x live then rest else x ∷ rest

-- The array's `sort` by when each was seen, which keeps the order of equals.
unfoldable pub insert_by_seen : Map String Replica → String → List String → List String
insert_by_seen replicas id [] = id ∷ []
insert_by_seen replicas id (x ∷ xs) =
    let rest = insert_by_seen replicas id xs in
    if leb (seen_of (map_get id replicas)) (seen_of (map_get x replicas))
    then id ∷ x ∷ xs
    else x ∷ rest

unfoldable pub sort_by_seen : Map String Replica → List String → List String
sort_by_seen replicas [] = []
sort_by_seen replicas (x ∷ xs) = insert_by_seen replicas x (sort_by_seen replicas xs)

unfoldable pub delete_all : {V : Type 0} → List String → Map String V → Map String V
delete_all [] m = m
delete_all (id ∷ ids) m = delete_all ids (map_delete id m)

unfoldable pub remove_all : List String → List String → List String
remove_all [] ids = ids
remove_all (x ∷ xs) ids = remove_all xs (remove_id x ids)

abbrev pub empty_commit : Commit
empty_commit = record {
  upserts = [];
  deletes = [];
  replica = none;
  forget_replicas = [];
  log = none;
  log_floor = none;
  version = 0;
  epoch = "";
  schema = 0;
}

abbrev pub seq_of : Option Replica → ℕ
seq_of none = 0
seq_of (some r) = r.seq

abbrev pub seen_or : ℕ → Option Replica → ℕ
seen_or wall none = wall
seen_or wall (some r) = r.seen

module _ {D : Type 0} where
  -- A replica of another owner is taken from that owner's.
  unfoldable pub disown : String → Option Replica → Option String → StoreState D → StoreState D
  disown id none owner s = s
  disown id (some before) owner s = if owner_beq before.owner owner then s else record s {
    replicas_of =
        map_set before.owner (remove_id id (ids_or_none (map_get before.owner s.replicas_of)))
          s.replicas_of;
  }

  -- The entry set, and the id with its owner's.
  unfoldable pub own : String → Replica → StoreState D → StoreState D
  own id entry s = record s {
    replicas = map_set id entry s.replicas;
    replicas_of =
        map_set entry.owner (add_id id (ids_or_none (map_get entry.owner s.replicas_of)))
          s.replicas_of;
  }

  -- The owner's replicas that go: those past the allowance that were not seen for longest.
  unfoldable pub past_allowance : Option ℕ → String → Replica → StoreState D → List String
  past_allowance none id entry s = []
  past_allowance (some most) id entry s =
      let mine = ids_or_none (map_get entry.owner s.replicas_of) in
      take (length mine - most) (sort_by_seen s.replicas (unspoken id s.live mine))

  unfoldable pub forget_all : List String → Option String → StoreState D → StoreState D
  forget_all ids owner s = record s {
    replicas = delete_all ids s.replicas;
    replicas_of =
        map_set owner (remove_all ids (ids_or_none (map_get owner s.replicas_of))) s.replicas_of;
  }

  unfoldable pub keep_allowance :
      Options D → Option String → List String → StoreState D → StoreState D × Result Code Unit
  keep_allowance o owner [] s = (s, ok tt)
  keep_allowance o owner (id ∷ ids) s =
      commit o (record empty_commit { forget_replicas = id ∷ ids }) (forget_all (id ∷ ids) owner s)

  unfoldable pub remember_replica :
      Options D → String → Replica → StoreState D → StoreState D × Result Code Unit
  remember_replica o id entry s =
      let owned = own id entry (disown id (map_get id s.replicas) entry.owner s) in
      keep_allowance o entry.owner (past_allowance o.max_replicas id entry owned) owned

  abbrev pub and_commit :
      Options D → Commit → StoreState D × Result Code Unit → StoreState D × Result Code Unit
  and_commit o change (s, ok done) = commit o change s
  and_commit o change (s, err code) = (s, err code)

  -- A user made the owner of a replica that nobody owns yet.
  unfoldable pub take_replica :
      Options D → ℕ → Option String → String → StoreState D → StoreState D × Result Code Unit
  take_replica o wall none id s = (s, ok tt)
  take_replica o wall (some user) id s =
      let known = map_get id s.replicas in
      let entry : Replica = record {
        seq = seq_of known;
        seen = seen_or wall known;
        owner = some user;
      } in
      if is_there (owner_of known)
      then (s, ok tt)
      else and_commit o (record empty_commit { replica = some (id, entry) })
          (remember_replica o id entry s)
