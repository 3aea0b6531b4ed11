-- ===== src/Client/Session/Gone.antt =====
-- client/index.js: what becomes of the changes that are pending.
use lazy_storage.Base.{
  ℕ, ◌≤◌, ◌≡◌, refl, ◌⊎◌, inl, inr, Option, none, some, List, [], ◌∷◌, arith, if_intro,
}
use lazy_storage.Shape.{Shape}
use lazy_storage.Client.Pending.Overwritten.{Overwrites, is_superseded-Overwrites}
use lazy_storage.Doc.Remove.{Change}
use lazy_storage.Client.Pending.{Pending, find_op, supersede, is_empty}
use lazy_storage.Client.Pending.Kept.{
  Holds, Holds-append, acknowledge-Holds, remove_op-Holds, supersede-Holds,
}
use lazy_storage.Client.Session.{
  Client, Event, Patch, step, heard, opened, closed, retried, wrote_batch, heard_message, snapshot,
  delta, patch, ack, rate_limited, refused, unavailable, ended, hello, hello_with, heard_patch,
  heard_ack, heard_refusal, caught_up, or_else, wrote, into_base, all_into_base, Effect, without_op,
}

-- Why the change `ch` of the op `n` is pending no longer.
abbrev pub Settles : Event → ℕ → Change → Type 0
Settles (wrote_batch now changes) n ch = Overwrites changes ch
Settles (heard_message now (snapshot landing base)) n ch = n ≤ or_else 0 landing.seq
Settles (heard_message now (delta landing entries)) n ch = n ≤ or_else 0 landing.seq
Settles (heard_message now (ack seq v server_now)) n ch = n ≤ seq
Settles (heard_message now (refused seq)) n ch = n ≡ seq
Settles event n ch = ⊥

pub all_into_base-outbox :
    (sh : Shape) (ps : List Patch) (s : Client) → (all_into_base sh ps s).outbox ≡ s.outbox
unfolding all_into_base into_base
all_into_base-outbox sh [] s = refl
all_into_base-outbox sh (p ∷ ps) s = all_into_base-outbox sh ps (into_base sh p s)

heard_patch-outbox :
    (sh : Shape) (p : Patch) (s : Client) → (heard_patch sh p s).0.outbox ≡ s.outbox
unfolding heard_patch hello hello_with into_base
heard_patch-outbox sh p s = ground arith

without_op-Holds :
    (seq n : ℕ) (ch : Change) (o : Option Pending) (s : Client)
    → Holds n ch s.outbox
    → Holds n ch (without_op seq o s).0.outbox ⊎ (n ≡ seq)
without_op-Holds seq n ch none s h = inl h
without_op-Holds seq n ch (some op) s h = remove_op-Holds seq n ch s.outbox h

wrote-Holds :
    (now n : ℕ) (ch : Change) (changes : List Change) (s : Client)
    → Holds n ch s.outbox
    → Holds n ch (wrote now changes s).0.outbox ⊎ Overwrites changes ch
unfolding wrote
wrote-Holds now n ch changes s h =
    if_intro (λ (r : Client × List Effect). Holds n ch r.0.outbox ⊎ Overwrites changes ch)
      (is_empty changes) (inl h)
      (elim (supersede-Holds changes n ch s.outbox h) [
        | inl k ↦ inl (Holds-append n ch (supersede changes s.outbox) _ k)
        | inr k ↦ inr (is_superseded-Overwrites changes ch k)
      ])

-- Safety: whatever happens, a change that is pending stays pending, in its op, unless a snapshot, a
-- delta or an ack acknowledges its op, the server refuses its op, or a new batch sets or deletes a
-- path at or above the one it writes in the same record.
pub step-Holds :
    (sh : Shape) (event : Event) (n : ℕ) (ch : Change) (s : Client)
    → Holds n ch s.outbox
    → Holds n ch (step sh event s).0.outbox ⊎ Settles event n ch
unfolding step heard caught_up heard_ack heard_refusal hello hello_with
step-Holds sh opened n ch s h = inl h
step-Holds sh closed n ch s h = inl h
step-Holds sh retried n ch s h =
    inl (if_intro (λ (r : Client × List Effect). Holds n ch r.0.outbox) s.linked h h)
step-Holds sh (wrote_batch now changes) n ch s h = wrote-Holds now n ch changes s h
step-Holds sh (heard_message now (snapshot landing base)) n ch s h =
    acknowledge-Holds (or_else 0 landing.seq) n ch s.outbox h
step-Holds sh (heard_message now (delta landing entries)) n ch s h =
    rw (all_into_base-outbox sh entries _)
      (acknowledge-Holds (or_else 0 landing.seq) n ch s.outbox h)
step-Holds sh (heard_message now (patch p)) n ch s h = rw (heard_patch-outbox sh p s) (inl h)
step-Holds sh (heard_message now (ack seq v server_now)) n ch s h =
    acknowledge-Holds seq n ch s.outbox h
step-Holds sh (heard_message now (rate_limited seq)) n ch s h = inl h
step-Holds sh (heard_message now (refused seq)) n ch s h =
    without_op-Holds seq n ch (find_op seq s.outbox) s h
step-Holds sh (heard_message now unavailable) n ch s h = inl h
step-Holds sh (heard_message now ended) n ch s h = inl h
