-- ===== src/Tests/Server.antt =====
-- Runs of server/registry.js and server/store.js on concrete inputs.
use lazy_storage.Base.{
  String, ◌+◌, ◌-◌, ◌*◌, ◌/◌, ◌≡◌, refl, ◌⊎◌, inl, inr, true, false, Option, none, some, List, [],
  ◌∷◌, ◌++◌, arith, leb, if◌then◌else◌, path_eq, map_get, map_set, map_delete, ok, string_eq,
}
use lazy_storage.Rules
use lazy_storage.Store.Reach.{
  received, no_step, and_then, decided, patched, deleted, turned, greeted,
}
use lazy_storage.Clock.{number}
use lazy_storage.Doc.Run.{apply_all}
use lazy_storage.Shape.{is_singleton, record_key}
use lazy_storage.Rules.{by_record, judged, judge_asked, verdicts, after_trial}
use lazy_storage.Registry.{
  Store, Stores, sweep, get, is_store_id, no_stores, id_rest, get_live, made,
}
use lazy_storage.Tests.{todos, doc, doc-IsSettled, changes, rules, is_forbidden, field, object, end}
use lazy_storage.Store.State.{Options, StoreState, Commit}
use lazy_storage.Store.Throttle.{RateLimit, Doubles}
use lazy_storage.Store.Refuse.{IsDecided, apply_op-IsDecided}
use lazy_storage.Store.Apply.{
  WireOp, apply_op, decide, gates, admit, assert_op_shape, weigh, size_of, assert_changes, merged,
  apply_valid, finish_op,
}
use lazy_storage.Registry.Reach.{IsSound, Reachable-IsSound, next, start, got, swept}
use lazy_storage.Store.Replicas.{
  empty_commit, Speaker, claim_replica, remember_replica, own, disown, keep_allowance,
  past_allowance, add_id,
}
use lazy_storage.Registry.Idle.{IsOver, sweep-live, sweep-keeps}
use lazy_storage.Clock.{pos, negsuc, create_clock, timestamp, clamp, time, shifted}
use lazy_storage.Store.Versions.{IsLog, IsDelta, delta_since-IsDelta}
use lazy_storage.Store.Logged.{IsLogged}
use lazy_storage.Store.Stored.{IsStorage, IsStored, IsIn, IsIn-append_left, Part}
use lazy_storage.Store.Log.{delta_since}
use lazy_storage.Store.Replay.{apply_op-again}
use lazy_storage.Store.Land.{landed, landed_changes, commit_progress, logged, landing_commit}
use lazy_storage.Store.Queue.{commit, commit_now, later, stamped_commit}
use lazy_storage.Store.Compact.{
  maybe_compact, compact, compact_within, compact_before, compacted, unheard,
}
use lazy_storage.Doc.Prune.{prune}
use lazy_storage.Store.Writes.{patch_store, delete_at_server}
use lazy_storage.Store.Always.{Leads-IsStored, Leads-IsLogged}
use lazy_storage.Store.CaughtUp.{IsCaughtUp, catch_up-IsCaughtUp}
use lazy_storage.Store.Session.{live_op, catch_up, answer_hello, hello_ops}
use lazy_storage.Storage.{Memory, memory_storage, commit_memory}
use lazy_storage.Storage.Mirror.{commit_memory-mirrors}

abbrev here : Store
here = record { sessions = 0; disposed = false }

abbrev stores : Stores
stores = record {
  live = ("a", here) ∷ ("b", record here { sessions = 2 }) ∷ [];
  idle_since = ("a", 10) ∷ [];
}

sweep-live_example :
    let after = map_get "a" (sweep (some 100) 150 stores).0.live in
    (IsOver 100 150 here (some 10) × (after ≡ none))
    ⊎ ((IsOver 100 150 here (some 10) → ⊥) × (after ≡ some here))
unfolding map_get
sweep-live_example = sweep-live 100 150 stores "a" here (refl, (refl, tt)) refl

abbrev factory : String → Option Store
factory id = some here

sweep-keeps_example :
    map_get "room1" (sweep (some 100) 900 (get factory "room1" stores).0).0.live ≡ some here
unfolding map_get map_set map_delete get is_store_id id_rest get_live made
sweep-keeps_example =
    sweep-keeps factory 100 900 stores "room1" here (omega arith) (refl, (refl, (refl, tt))) refl

Reachable-IsSound_example : IsSound (sweep (some 100) 900 (get factory "room1" no_stores).0).0
Reachable-IsSound_example =
    Reachable-IsSound factory (sweep (some 100) 900 (get factory "room1" no_stores).0).0
      (next (next start (got "room1" no_stores)) (swept (some 100) 900 _))

-- Doubles that are whole, for the runs.
abbrev whole_doubles : Doubles
whole_doubles = record {
  double = λ n. elim n [ pos k ↦ k | negsuc k ↦ 0 ];
  plus = λ a b. a + b;
  minus = λ a b. a - b;
  times = λ a b. a * b;
  over = λ a b. a / b;
  least = λ a b. if leb a b then a else b;
  at_least = λ a b. leb b a;
  ceiling = λ a. a;
}

abbrev limit : RateLimit
limit = record { doubles = whole_doubles; burst = 2; per_second = 1 }

abbrev options : Options (List Commit)
options = record {
  shape = todos;
  rules = rules;
  validate = none;
  is_forbidden = is_forbidden;
  retention = some 1000;
  compact_every = 60;
  delta_log = 2;
  max_changes = 100;
  max_replicas = some 2;
  rate_limit = some limit;
  group_commit = true;
  save = λ batch disk. (disk ++ batch, true);
}

abbrev state : StoreState (List Commit)
state = record {
  doc = doc;
  replicas = [];
  replicas_of = [];
  live = [];
  version = 0;
  epoch = "e";
  schema = 0;
  log = [];
  clock = create_clock;
  buckets = [];
  last_compaction = none;
  changes = [];
  effects = [];
  told = [];
  disposed = false;
  disk = [];
}

abbrev op : WireOp
op = record { replica = "r"; seq = 1; ts = number 8; changes = changes }

abbrev speaker : Speaker
speaker = record {
  user = some "u";
  speaks_for = none;
  held_until = none;
  is_peer = true;
  writes = true;
}

apply_op-IsDecided_example : IsDecided state (apply_op options 50 op speaker state)
apply_op-IsDecided_example = apply_op-IsDecided options 50 op speaker state doc-IsSettled refl

logged_once : StoreState (List Commit)
logged_once = record state { version = 3; log = record { v = 3; ts = 5; changes = [] } ∷ [] }

logged_once-IsLog : IsLog 2 3 (record { v = 3; ts = 5; changes = [] } ∷ [])
logged_once-IsLog = record { runs = (refl, refl); within = omega arith }

Leads-IsLogged_example :
    IsLogged options
      (patch_store options 60
        (field "todos" (object end) end)
        (apply_op options 50 op speaker logged_once).0).0
unfolding logged_once
Leads-IsLogged_example =
    Leads-IsLogged options logged_once _
      (and_then (and_then no_step (decided 50 op speaker _)) (patched 60 _ _)) logged_once-IsLog

delta_since-IsDelta_example :
    IsDelta 2 3
      (record { v = 3; ts = 5; changes = [] } ∷ [])
      (delta_since (some 2) 3 (record { v = 3; ts = 5; changes = [] } ∷ []))
delta_since-IsDelta_example = delta_since-IsDelta 2 2 3 _ logged_once-IsLog

-- A storage that keeps every commit, and began at version 0.
abbrev HasPart : List Commit → Part → Type 0
HasPart disk part = IsIn part (record empty_commit { version = 0 } ∷ disk)

IsIn-append_right :
    (part : Part) (disk batch : List Commit) → IsIn part batch → IsIn part (disk ++ batch)
IsIn-append_right part [] batch h = h
IsIn-append_right part (change ∷ disk) batch h = inr (IsIn-append_right part disk batch h)

list-IsStorage : IsStorage options HasPart
list-IsStorage = record {
  stores = λ batch disk part e h. inr (IsIn-append_right part disk batch h);
  remembers = λ batch disk part h.
      IsIn-append_left part (record empty_commit { version = 0 } ∷ disk) batch h;
}

Leads-IsStored_example :
    IsStored HasPart
      (commit_now options (
        answer_hello 60 false "r" (some 0) "e" (
          hello_ops options 60
            (op ∷ [])
            speaker
            (delete_at_server options 60 "todos"
              (some "a")
              []
              (live_op options 50 op speaker state).0).0))).0
Leads-IsStored_example =
    Leads-IsStored options HasPart state _ list-IsStorage
      (and_then
        (and_then
          (and_then (and_then no_step (received 50 op speaker _))
            (deleted 60 "todos" (some "a") [] _))
          (greeted 60 false (op ∷ []) speaker "r" (some 0) "e" _))
        (turned _))
      (record { told = tt; waiting = tt; version = λ d. inl (inl refl); log = λ d. tt })

-- An op that lands nothing, from a replica that was not heard of, and the op again.
abbrev empty_op : WireOp
empty_op = record op { changes = [] }

abbrev after_op : StoreState (List Commit)
after_op = (apply_op options 50 empty_op speaker state).0

first_answer :
    apply_op options 50 empty_op speaker state
    ≡ (after_op, ok (record { lost = []; duplicate = false }))
unfolding apply_op decide gates admit claim_replica assert_op_shape map_get timestamp weigh size_of
    assert_changes clamp time shifted merged Rules.judge by_record judged judge_asked verdicts
    after_trial apply_valid remember_replica own disown keep_allowance past_allowance add_id map_set
    finish_op landed landed_changes commit_progress commit commit_now later apply_all maybe_compact
    compact compact_within compact_before compacted prune is_singleton record_key unheard
first_answer = refl

apply_op-again_example :
    apply_op options 60 empty_op speaker after_op
    ≡ (after_op, ok (record { lost = []; duplicate = true }))
apply_op-again_example =
    apply_op-again options 50 60 empty_op speaker speaker state after_op after_op
      (record { lost = []; duplicate = false }) tt refl refl refl first_answer (inl refl)

catch_up-IsCaughtUp_example :
    IsCaughtUp
      (live_op options 50 op speaker logged_once).0
      2
      "e"
      (catch_up (live_op options 50 op speaker logged_once).0 "r" (some 2) "e")
unfolding logged_once
catch_up-IsCaughtUp_example =
    catch_up-IsCaughtUp options logged_once _ "r" 2 "e"
      (and_then no_step (received 50 op speaker logged_once)) logged_once-IsLog

-- The memory that keeps the log of `logged_once`.
abbrev memory : Memory
memory = record memory_storage { log = record { v = 3; ts = 5; changes = [] } ∷ [] }

commit_memory-mirrors_example :
    let next : StoreState (List Commit) = logged options 8 changes logged_once in
    ((commit_memory (stamped_commit next (landing_commit options 8 changes none next)) memory).log
      ≡ next.log)
    × ((commit_memory
          (stamped_commit next (landing_commit options 8 changes none next))
          memory).version
        ≡ next.version)
unfolding logged_once
commit_memory-mirrors_example =
    commit_memory-mirrors options 8 changes none logged_once memory (omega arith) logged_once-IsLog
      refl
