-- ===== src/Client/Session/Books.antt =====
-- client/index.js: the account of the ops that are pending and of those that went out.
use lazy_storage.Base.{
  ℕ, ◌≤◌, ◌<◌, ◌≡◌, inl, inr, Bool, true, false, not, ◌&&◌, ◌||◌, List, [], ◌∷◌, ◌++◌, arith, leb,
  if◌then◌else◌, Bool-cases, take, drop, All, take-append-drop,
}
use mathlib.Core.Path.{subst}
use lazy_storage.Client.Pending.{Pending}
use lazy_storage.Client.Pending.Ascending.{SeqsIn, SeqsIn-append}
use lazy_storage.Client.Session.{Client, last_seq, resent, hello, hello_with, hello_limit, sent}
use lazy_storage.Client.Session.Fewer.{Fewer}
use lazy_storage.Client.Session.Sends.{
  seqs, has_seq, Traffic, after_effects, All-weaken, All-both, hello-carried, last_seq-bound,
  resent-keeps, resent-carried,
}

abbrev pub is_live : Bool → Bool → Bool → Bool
is_live linked synced throttled = linked && synced && not throttled

-- The seqs ascend, no later than the client's own; what the last hello had up to `answered` was carried;
-- and once that hello has its answer, a live client has sent every op that is pending.
pub record Books (outbox : List Pending) (seq answered : ℕ) (linked synced throttled : Bool)
    (l : Traffic) : Type 0 where
  pub ascending : SeqsIn 0 seq outbox
  pub bounded : answered ≤ seq
  pub in_hello : All (λ n. leb n answered ≡ true → has_seq n l.carried ≡ true) (seqs outbox)
  pub online : synced ≡ true → linked ≡ true
  pub all_sent :
      is_live linked synced throttled ≡ true
      → l.asked ≡ false
      → All (λ n. has_seq n l.carried ≡ true) (seqs outbox)

abbrev pub IsAccounted : Client → Traffic → Type 0
IsAccounted s l = Books s.outbox s.seq s.answered s.linked s.synced s.throttled l

pub hello-IsAccounted :
    (s : Client) (l : Traffic)
    → SeqsIn 0 s.seq s.outbox
    → (s.synced ≡ true → s.linked ≡ true)
    → IsAccounted (hello s).0 (after_effects (hello s).1 l)
unfolding hello hello_with
hello-IsAccounted s l ascending online =
    let whole = take-append-drop hello_limit s.outbox in
    let again : SeqsIn 0 s.seq (take hello_limit s.outbox ++ drop hello_limit s.outbox) =
      rw whole ascending in
    record {
      ascending = ascending;
      bounded =
          last_seq-bound 0 s.seq (take hello_limit s.outbox) (drop hello_limit s.outbox) again;
      in_hello =
          subst
            (λ (ops : List Pending).
              All
                (λ n.
                  leb n (last_seq (take hello_limit s.outbox)) ≡ true
                  → has_seq n (seqs (take hello_limit s.outbox)) ≡ true)
                (seqs ops))
            whole
            (hello-carried 0 s.seq (take hello_limit s.outbox) (drop hello_limit s.outbox) again);
      online = online;
      all_sent = λ h no. absurd (cc);
    }

module _ (outbox : List Pending) (seq answered : ℕ) (linked synced throttled : Bool) (l : Traffic)
    (b : Books outbox seq answered linked synced throttled l) where
  pub Fewer-Books :
      (left : List Pending)
      → Fewer outbox left
      → SeqsIn 0 seq left
      → Books left seq answered linked synced throttled l
  Fewer-Books left f s = record {
    ascending = s;
    bounded = b.bounded;
    in_hello = f (λ n. leb n answered ≡ true → has_seq n l.carried ≡ true) b.in_hello;
    online = b.online;
    all_sent = λ h k. f (λ n. has_seq n l.carried ≡ true) (b.all_sent h k);
  }

  -- The client hears nothing more until a hello is answered.
  pub unsynced-Books : (line : Bool) → Books outbox seq answered line false throttled l
  unsynced-Books line = record {
    ascending = b.ascending;
    bounded = b.bounded;
    in_hello = b.in_hello;
    online = λ h. cc;
    all_sent = λ h k. absurd (ground (arith, h));
  }

  pub throttled-Books :
      (more : Bool) → Books outbox seq answered linked synced (throttled || more) l
  throttled-Books more = record {
    ascending = b.ascending;
    bounded = b.bounded;
    in_hello = b.in_hello;
    online = b.online;
    all_sent = λ h k. b.all_sent (ground (arith, h)) k;
  }

  -- A hello answered: the ops past it go out.
  pub answered-Books :
      linked ≡ true
      → Books outbox seq answered linked true throttled (
          after_effects
            (if is_live linked true throttled then resent answered outbox else [])
            (record l { asked = false }))
  answered-Books on = elim (Bool-cases (is_live linked true throttled)) [
    | inl e ↦ rw e (record {
      ascending = b.ascending;
      bounded = b.bounded;
      in_hello =
          All-weaken (seqs outbox)
            (λ n (k : leb n answered ≡ true → has_seq n l.carried ≡ true) h.
              resent-keeps answered n outbox (record l { asked = false }) (k h))
            b.in_hello;
      online = λ h. on;
      all_sent = λ h k.
          All-both (seqs outbox)
            (λ n (k : leb n answered ≡ true → has_seq n l.carried ≡ true)
                (r : leb n answered ≡ false
                  → has_seq n
                      (after_effects (resent answered outbox) (record l { asked = false })).carried
                    ≡ true).
              elim (Bool-cases (leb n answered)) [
                | inl e ↦ resent-keeps answered n outbox (record l { asked = false }) (k e)
                | inr e ↦ r e
              ])
            b.in_hello (resent-carried answered outbox (record l { asked = false }));
    })
    | inr e ↦ rw e (record {
      ascending = b.ascending;
      bounded = b.bounded;
      in_hello = b.in_hello;
      online = λ h. on;
      all_sent = λ h k. absurd (ground (arith, h, e));
    })
  ]

All-seqs-append :
    (P : ℕ → Type 0) (ops : List Pending) (op : Pending)
    → All P (seqs ops)
    → P op.seq
    → All P (seqs (ops ++ op ∷ []))
All-seqs-append P [] op h k = (k, tt)
All-seqs-append P (older ∷ ops) op h k = (h.0, All-seqs-append P ops op h.1 k)

-- A new op, sent where the client is live.
pub added-Books :
    (outbox : List Pending) (seq answered : ℕ) (linked synced throttled : Bool) (l : Traffic)
    (op : Pending)
    → Books outbox seq answered linked synced throttled l
    → seq < op.seq
    → Books
        (outbox ++ op ∷ [])
        op.seq
        answered
        linked
        synced
        throttled
        (after_effects (if is_live linked synced throttled then sent op ∷ [] else []) l)
added-Books outbox seq answered linked synced throttled l op b past =
    let behind = b.bounded in
    let longer = SeqsIn-append 0 seq outbox op b.ascending past in
    elim (Bool-cases (is_live linked synced throttled)) [
      | inl e ↦ rw e (record {
        ascending = longer;
        bounded = omega arith;
        in_hello =
            All-seqs-append (λ n. leb n answered ≡ true → has_seq n (op.seq ∷ l.carried) ≡ true)
              outbox op
              (All-weaken (seqs outbox)
                (λ n (k : leb n answered ≡ true → has_seq n l.carried ≡ true) h.
                  ground (arith, k h))
                b.in_hello)
              (λ h. ground arith);
        online = b.online;
        all_sent = λ h k.
            All-seqs-append (λ n. has_seq n (op.seq ∷ l.carried) ≡ true) outbox op
              (All-weaken (seqs outbox) (λ n (r : has_seq n l.carried ≡ true). ground (arith, r))
                (b.all_sent e k))
              (ground arith);
      })
      | inr e ↦ rw e (record {
        ascending = longer;
        bounded = omega arith;
        in_hello =
            All-seqs-append (λ n. leb n answered ≡ true → has_seq n l.carried ≡ true) outbox op
              b.in_hello (λ h. absurd (ground (arith, h, behind, past)));
        online = b.online;
        all_sent = λ h k. absurd (ground (arith, h, e));
      })
    ]
