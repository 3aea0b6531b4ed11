-- ===== src/Store/Replay.antt =====
-- server/store.js, `apply`: an op that comes again changes nothing.
use lazy_storage.Base.{
  ℕ, ◌≡◌, refl, sym, ◌⊎◌, inl, inr, true, false, [], path_eq, map_get, IsDistinct, ok, string_eq,
}
use lazy_storage.Store.State.{StoreState, Options}
use lazy_storage.Store.Apply.{apply_op, gates, decide, WireOp, Answer}
use lazy_storage.Store.Replicas.{Speaker, speaks_for_other, owned_by_other, owner_of}
use mathlib.Core.Path.{subst}
use lazy_storage.Store.Taken.{AfterAnswer, HasApplied, apply_op-HasApplied, IsTaken}
use lazy_storage.Store.Admitted.{IsAdmitted-admit}

-- On a store whose replicas hold no id twice, an op is answered and comes again: right after, or once
-- anything else has happened, as long as the store knows the replica still, as the same user's, with an op
-- that is as late. From a speaker of the same user that may write and speaks for no other replica it is
-- answered as a duplicate and the store is left as it is.
pub apply_op-again :
    {D : Type 0} (o : Options D) (wall wall' : ℕ) (op : WireOp) (speaker later : Speaker)
    (s t u : StoreState D) (answer : Answer)
    → IsDistinct s.replicas
    → later.user ≡ speaker.user
    → later.writes ≡ true
    → speaks_for_other later.speaks_for op.replica ≡ false
    → apply_op o wall op speaker s ≡ (t, ok answer)
    → (u ≡ t) ⊎ IsTaken op speaker.user u.replicas
    → apply_op o wall' op later u ≡ (u, ok (record { lost = []; duplicate = true }))
unfolding apply_op gates decide
apply_op-again {D} o wall wall' op speaker later s t u answer distinct same writes alone h since =
    let ((ts, shaped), client, first) =
      subst (AfterAnswer (HasApplied o wall op speaker)) h
        (apply_op-HasApplied o wall op speaker s distinct) in
    let taken : IsTaken op speaker.user u.replicas = elim since [
      | inl e ↦ subst (λ (x : StoreState D). IsTaken op speaker.user x.replicas) (sym e) first
      | inr k ↦ k
    ] in
    let owned : owned_by_other (owner_of (map_get op.replica u.replicas)) later.user ≡ false =
      rw (taken.there, same) taken.owned in
    let admitted = IsAdmitted-admit op later u.replicas ts (record {
      shaped = shaped;
      writes = writes;
      client = client;
      alone = alone;
      owned = owned;
    }) in
    rw (admitted, taken.there, taken.has_op) refl
