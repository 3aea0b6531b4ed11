-- ===== src/Store/State.antt =====
-- server/store.js: what a store keeps, and what it was made with. The storage is a parameter: `D` is
-- what it holds, and `save` stores some commits, as one, and says whether it did.
use lazy_storage.Base.{
  String, eq_iff, str_eq, ℕ, ◌≡◌, refl, ap, ◌↔◌, Bool, true, false, Option, none, some, List, arith,
  Eq, Map,
}
use lazy_storage.Doc.State.{Place, Doc}
use lazy_storage.Doc.Remove.{Change, Lost}
use lazy_storage.Shape.{Shape}
use lazy_storage.Rules.{Rules, Verdict}
use lazy_storage.Clock.{ReplicaClock}
use lazy_storage.Json.{Value}
use lazy_storage.Doc.Clocks.{Clock}
use lazy_storage.Store.Throttle.{Bucket, RateLimit}
use lazy_storage.Doc.Run.{DocError}

-- A replica's progress: its last op, when it was seen, and the user it belongs to, by key.
pub record Replica : Type 0 where
  pub seq : ℕ
  pub seen : ℕ
  pub owner : Option String

-- An entry of the log: what landed at once.
pub record Entry : Type 0 where
  pub v : ℕ
  pub ts : ℕ
  pub changes : List Change

-- A record as it is stored.
pub record Row : Type 0 where
  pub place : Place
  pub content : Value
  pub clock : Clock

-- What one commit writes.
pub record Commit : Type 0 where
  pub upserts : List Row
  pub deletes : List Place
  pub replica : Option (String × Replica)
  pub forget_replicas : List String
  pub log : Option Entry
  pub log_floor : Option ℕ
  pub version : ℕ
  pub epoch : String
  pub schema : ℕ

-- Why an op is refused whole; `unavailable` where the storage could not save.
pub data Code : Type 0 where
  invalid forbidden_op replica_taken too_large expired rate_limited unavailable : Code

-- What the store answers, or throws: a refusal, or what the doc threw, which is no refusal.
pub data Refusal : Type 0 where
  refusal_of : Code → Refusal
  thrown_by : DocError → Refusal

-- What a hello is answered with, of the store: what the session lacks, or all.
pub data CatchUp : Type 0 where
  delta : List Entry → ℕ → ℕ → CatchUp
  snapshot : ℕ → ℕ → CatchUp

-- What is sent to one session: an op's sequence number, the version and the time with what it lost; what
-- it is refused with; how long it has to wait; or what answers a hello.
pub data Message : Type 0 where
  ack : ℕ → ℕ → ℕ → List Lost → Message
  refused_op : Refusal → Message
  wait_ms : ℕ → Message
  catching_up : CatchUp → Message

-- What a store tells: a patch to every session that follows it, a message to one session, or an op to
-- who observes it.
pub data Told : Type 0 where
  patch : Entry → Told
  sent : Message → Told
  op_seen : String → Option ℕ → List Change → List Lost → ℕ → Told

-- `createStore`'s options, the defaults filled in; Infinity is `none`.
pub record Options (D : Type 0) : Type 0 where
  pub shape : Shape
  pub rules : Rules
  pub validate : Option (List Change → Verdict)
  pub is_forbidden : String → Bool
  pub retention : Option ℕ
  pub compact_every : ℕ
  pub delta_log : ℕ
  pub max_changes : ℕ
  pub max_replicas : Option ℕ
  pub rate_limit : Option RateLimit
  pub group_commit : Bool
  pub save : List Commit → D → D × Bool

-- `live` is what `liveReplicas` finds: the replicas that some session speaks for. `told` is all that
-- was sent, and `effects` what waits for a commit.
pub record StoreState (D : Type 0) : Type 0 where
  pub doc : Doc
  pub replicas : Map String Replica
  pub replicas_of : Map (Option String) (List String)
  pub live : List String
  pub version : ℕ
  pub epoch : String
  pub schema : ℕ
  pub log : List Entry
  pub clock : ReplicaClock
  pub buckets : Map String Bucket
  pub last_compaction : Option ℕ
  pub changes : List Commit
  pub effects : List Told
  pub told : List Told
  pub disposed : Bool
  pub disk : D

abbrev pub owner_beq : Option String → Option String → Bool
owner_beq none none = true
owner_beq none (some b) = false
owner_beq (some a) none = false
owner_beq (some a) (some b) = str_eq a b

pub owner_beq_iff : (a b : Option String) → (owner_beq a b ≡ true) ↔ (a ≡ b)
owner_beq_iff none none = (λ _. refl, λ _. refl)
owner_beq_iff none (some b) = (λ h. cc, λ h. cc)
owner_beq_iff (some a) none = (λ h. cc, λ h. cc)
owner_beq_iff (some a) (some b) =
    (λ h. ap some ((eq_iff a b).0 h), λ h. (eq_iff a b).1 (ground arith))

instance abbrev pub owner_eq : Eq (Option String)
owner_eq = record { beq = owner_beq; beq_iff = owner_beq_iff }
