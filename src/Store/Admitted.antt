-- ===== src/Store/Admitted.antt =====
-- server/store.js, `apply`: what the first gates let through.
use lazy_storage.Base.{
  String, str_eq, ℕ, ◌≡◌, refl, ◌∙◌, Bool, true, false, not, Option, none, some, arith, path_eq,
  Map, beq_refl, map_get, >>=-eq-ok, ok, string_eq,
}
use lazy_storage.Store.State.{Code, Replica, forbidden_op}
use lazy_storage.Store.Apply.{WireOp, admit, unless_refused, owner_or, refuse_if, assert_op_shape}
use lazy_storage.Store.Replicas.{owned_by_other, claim_replica, Speaker, speaks_for_other, owner_of}

-- A speaker may write the op, for a replica of its own user or of none.
pub record IsAdmitted (op : WireOp) (speaker : Speaker) (known : Option Replica) (ts : ℕ)
    : Type 0 where
  pub shaped : assert_op_shape op ≡ ok ts
  pub writes : speaker.writes ≡ true
  pub client : str_eq op.replica "server" ≡ false
  pub alone : speaks_for_other speaker.speaks_for op.replica ≡ false
  pub owned : owned_by_other (owner_of known) speaker.user ≡ false

refuse_if-ok : (b : Bool) (code : Code) → refuse_if b code ≡ ok tt → b ≡ false
refuse_if-ok true code h = absurd (cc)
refuse_if-ok false code h = refl

unless_refused-ok : (o : Option Code) → unless_refused o ≡ ok tt → o ≡ none
unless_refused-ok none h = refl
unless_refused-ok (some code) h = absurd (cc)

claim_replica-none :
    (m : Map String Replica) (speaker : Speaker) (id : String)
    → claim_replica m speaker id ≡ none
    → (str_eq id "server" ≡ false)
      × (speaks_for_other speaker.speaks_for id ≡ false)
      × (owned_by_other (owner_of (map_get id m)) speaker.user ≡ false)
unfolding claim_replica
claim_replica-none m speaker id h = ground (arith, h)

pub admit-IsAdmitted :
    (op : WireOp) (speaker : Speaker) (m : Map String Replica) (ts : ℕ)
    → admit op speaker m ≡ ok ts
    → IsAdmitted op speaker (map_get op.replica m) ts
unfolding admit
admit-IsAdmitted op speaker m ts h =
    let (at, shaped, first) = >>=-eq-ok (assert_op_shape op) _ h in
    let (a, writes, second) = >>=-eq-ok (refuse_if (not speaker.writes) forbidden_op) _ first in
    let (b, claimed, third) =
      >>=-eq-ok (unless_refused (claim_replica m speaker op.replica)) _ second in
    let (client, alone, owned) =
      claim_replica-none m speaker op.replica (unless_refused-ok _ claimed) in
    record {
      shaped = shaped ∙ third;
      writes = ground (arith, refuse_if-ok (not speaker.writes) forbidden_op writes);
      client = client;
      alone = alone;
      owned = owned;
    }

pub IsAdmitted-admit :
    (op : WireOp) (speaker : Speaker) (m : Map String Replica) (ts : ℕ)
    → IsAdmitted op speaker (map_get op.replica m) ts
    → admit op speaker m ≡ ok ts
unfolding admit claim_replica
IsAdmitted-admit op speaker m ts h = rw (h.shaped, h.writes, h.client, h.alone, h.owned) refl

pub owned_by_other-owner_or :
    (known user : Option String)
    → owned_by_other known user ≡ false
    → owned_by_other (owner_or known user) user ≡ false
owned_by_other-owner_or none none h = refl
owned_by_other-owner_or none (some x) h = rw (beq_refl x) refl
owned_by_other-owner_or (some owner) user h = h
