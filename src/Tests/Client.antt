-- ===== src/Tests/Client.antt =====
-- Concrete runs of client/index.js.
use lazy_storage.Paths.{any}
use lazy_storage.Shape.{record_key, is_singleton}
use lazy_storage.Base.{
  String, eq_iff, str_eq, ℕ, ◌+◌, ◌≡◌, refl, ap, ◌⊎◌, inl, inr, Bool, true, false, Option, none,
  some, List, [], ◌∷◌, arith, if◌then◌else◌, All, filter, KeyPath, path_beq,
}
use lazy_storage.Tests.{todos, doc, string, boolean, Doc}
use lazy_storage.Json.{Value, string}
use lazy_storage.Client.Shown.{Watch, replayed}
use lazy_storage.Client.Shown.Fresh.{Shows, Stands, show_all, step-Shows}
use lazy_storage.Clock.{create_clock}
use lazy_storage.Doc.Remove.{Change, set}
use lazy_storage.Client.Pending.{Pending, acknowledge, supersede}
use lazy_storage.Client.Pending.Kept.{Holds}
use lazy_storage.Client.Session.{
  Client, Landing, opened, heard_message, wrote_batch, delta, step, live, hello, hello_with, heard,
  caught_up, all_into_base, into_base, wrote, resent, heard_patch, Event, patch, snapshot, ack,
}
use lazy_storage.Client.Session.Mirror.{
  Landed, doc_at, patch_at, Follows, on, there, IsMirror, Follows-IsMirror,
}
use lazy_storage.Client.Session.Gone.{Settles, step-Holds}
use lazy_storage.Client.Session.Sends.{World, world_step, seqs, has_seq}
use lazy_storage.Client.Session.Reach.{Runs, stays, goes, IsBuilt, no_link, Runs-all_sent}

abbrev titled : String → Change
titled t = record { c = "todos"; id = some "a"; path = "title" ∷ []; op = set (string t) }

abbrev due : Change
due = record { c = "todos"; id = some "a"; path = "due" ∷ []; op = set (boolean true) }

abbrev loaded : List Pending
loaded =
    record { seq = 3; ts = 50; changes = titled "y" ∷ due ∷ [] }
    ∷ record { seq = 4; ts = 60; changes = due ∷ [] }
    ∷ []

-- A client that was restarted with two ops pending.
abbrev start : Client
start = record {
  outbox = loaded;
  seq = 4;
  clock = create_clock;
  base = doc;
  known = record { v = 7; epoch = some "e" };
  linked = false;
  synced = false;
  throttled = false;
  answered = 0;
}

start-IsBuilt : IsBuilt start
start-IsBuilt = record {
  ascending = omega arith;
  unanswered = refl;
  unlinked = refl;
  unsynced = refl;
}

-- A newer title takes over from the title that is pending, and from nothing else.
step-Holds_example :
    Holds 3 due (step todos (wrote_batch 70 (titled "z" ∷ [])) start).0.outbox
    ⊎ Settles (wrote_batch 70 (titled "z" ∷ [])) 3 due
step-Holds_example =
    step-Holds todos (wrote_batch 70 (titled "z" ∷ [])) 3 due start (inl (refl, inr (inl refl)))

abbrev landing : Landing
landing = record { seq = some 3; v = some 7; epoch = some "e"; now = 65 }

-- A link, the answer of its hello, which acknowledges the first op, and a batch.
abbrev w1 : World
w1 = world_step todos opened (start, no_link)

abbrev w2 : World
w2 = world_step todos (heard_message 66 (delta landing [])) w1

abbrev w3 : World
w3 = world_step todos (wrote_batch 70 (titled "z" ∷ [])) w2

session : Runs todos w3 (start, no_link)
unfolding world_step step hello hello_with
session =
    goes (start, no_link) opened tt
      (goes w1 (heard_message 66 (delta landing [])) refl
        (goes w2 (wrote_batch 70 (titled "z" ∷ [])) tt stays))

w3-live : live w3.0 ≡ true
unfolding world_step step hello hello_with heard caught_up all_into_base into_base wrote
w3-live = refl

w3-asked : w3.1.asked ≡ false
unfolding world_step step hello hello_with heard caught_up all_into_base into_base wrote resent
    acknowledge filter supersede
w3-asked = refl

Runs-all_sent_example : All (λ n. has_seq n w3.1.carried ≡ true) (seqs w3.0.outbox)
Runs-all_sent_example = Runs-all_sent todos start w3 start-IsBuilt session w3-live w3-asked

-- A server on which the title of a record changes, and a client that hears of the first version by a
-- snapshot, of the second by its patch, of the fourth by an ack alone, and again by a snapshot.
abbrev server : Landed
server = record { seed = doc; at = λ v. (60 + v, titled "z" ∷ []) }

abbrev first : Client
first = record start { outbox = []; known = record { v = 0; epoch = none } }

abbrev told_of : ℕ → Event
told_of v = heard_message 70 (
    snapshot (record { seq = none; v = some v; epoch = some "e"; now = 65 })
      (doc_at todos server v))

abbrev heard_of : ℕ → Event
heard_of v = heard_message 71 (patch (patch_at server v))

abbrev acked_at : ℕ → Event
acked_at v = heard_message 72 (ack 1 (some v) 66)

abbrev c1 : Client
c1 = (step todos opened first).0

abbrev c2 : Client
c2 = (step todos (told_of 1) c1).0

abbrev c3 : Client
c3 = (step todos (heard_of 2) c2).0

abbrev c4 : Client
c4 = (step todos (acked_at 4) c3).0

abbrev c5 : Client
c5 = (step todos (told_of 4) c4).0

follows : Follows todos server c5 false first false
unfolding step hello hello_with heard caught_up heard_patch into_base
follows = on first false opened tt (
    on c1 false (told_of 1) (1, refl, refl, refl)
      (on c2 false (heard_of 2) (2, refl, λ h. omega arith)
        (on c3 false (acked_at 4) tt (on c4 true (told_of 4) (4, refl, refl, refl) there))))

c3-known : c3.known.v ≡ 2
unfolding step hello hello_with heard caught_up heard_patch into_base
c3-known = refl

Follows-IsMirror_example : IsMirror todos server false c5
Follows-IsMirror_example =
    Follows-IsMirror todos server c5 false first false follows
      (record { base = λ f. refl; dated = λ h. absurd (cc) })

-- A proxy that is a table of its records.
abbrev identical : Option Value → Value → Bool
identical (some (string a)) (string b) = str_eq a b
identical o v = false

identical-eq : (o : Option Value) (v : Value) → identical o v ≡ true → o ≡ some v
identical-eq (some (string a)) (string b) h = ap (λ t. some (string t)) ((eq_iff a b).0 h)
identical-eq o v h = absurd (cc)

abbrev watch : Watch
watch = record {
  State = KeyPath → Option Value;
  shown = λ j s. s j;
  overwrite = λ k v s j. if path_beq k j then some v else s j;
  patch = λ k o s j. if path_beq k j then o else s j;
  identical = identical;
  shown-overwrite = λ k j v s. refl;
  shown-patch = λ k j o s. refl;
  identical-eq = identical-eq;
}

abbrev table : KeyPath → Option Value
table [] = none
table (c ∷ []) = replayed todos doc loaded c none
table (c ∷ id ∷ []) = replayed todos doc loaded c (some id)
table (c ∷ id ∷ seg ∷ path) = none

table-Shows : Shows todos watch doc loaded table
unfolding record_key is_singleton any
table-Shows c none = refl
table-Shows c (some id) = refl

todos-Stands : (base : Doc) (outbox : List Pending) → Stands todos base outbox
unfolding is_singleton any
todos-Stands base outbox c id = refl

abbrev acked : Event
acked = heard_message 66 (ack 3 (some 8) 65)

step-Shows_example :
    Shows todos watch
      (step todos acked start).0.base
      (step todos acked start).0.outbox
      (show_all todos watch (step todos acked start).0 (step todos acked start).1 table)
step-Shows_example = step-Shows todos watch acked start table tt refl (todos-Stands _ _) table-Shows
