-- ===== src/Client/Pending/Overwritten.antt =====
-- client/index.js: what `supersede` takes from the outbox, a new change writes over.
use lazy_storage.Base.{
  String, eq_iff, ◌≡◌, refl, ap, inl, inr, true, false, ◌&&◌, Option, none, some, List, [], ◌∷◌,
  ◌++◌, arith, Bool-cases, filter, KeyPath,
}
use lazy_storage.Doc.Remove.{Change}
use lazy_storage.Paths.{within, any}
use lazy_storage.Client.Pending.{is_put, written, same_id, same_record, is_superseded}
use lazy_storage.Client.Pending.Kept.{IsAmong}

-- A set or a deletion of a batch, at or above the path of `ch` in its record.
pub record Overwrites (changes : List Change) (ch : Change) : Type 0 where
  pub new : Change
  pub among : IsAmong new changes
  pub decides : is_put new.op ≡ false
  pub same_top : ch.c ≡ new.c
  pub same_name : ch.id ≡ new.id
  pub rest : KeyPath
  pub above : ch.path ≡ new.path ++ rest

within-append : (a b : KeyPath) → within a b ≡ true → (rest : KeyPath) × (a ≡ b ++ rest)
unfolding within
within-append a [] h = (a, refl)
within-append [] (y ∷ b) h = cc
within-append (x ∷ a) (y ∷ b) h =
    let (rest, e) = within-append a b (ground (arith, h)) in
    let same : x ≡ y = (eq_iff x y).0 (ground (arith, h)) in (rest, rw (same, e) refl)

same_id-eq : (a b : Option String) → same_id a b ≡ true → a ≡ b
same_id-eq none none h = refl
same_id-eq none (some id) h = cc
same_id-eq (some id) none h = cc
same_id-eq (some id) (some new) h = ap some ((eq_iff id new).0 h)

longer-Overwrites :
    (first : Change) (changes : List Change) (ch : Change)
    → Overwrites changes ch
    → Overwrites (first ∷ changes) ch
longer-Overwrites first changes ch o = record {
  new = o.new;
  among = inr o.among;
  decides = o.decides;
  same_top = o.same_top;
  same_name = o.same_name;
  rest = o.rest;
  above = o.above;
}

pub is_superseded-Overwrites :
    (changes : List Change) (ch : Change)
    → is_superseded (written changes) ch ≡ true
    → Overwrites changes ch
unfolding is_superseded any filter
is_superseded-Overwrites [] ch h = cc
is_superseded-Overwrites (new ∷ changes) ch h = elim (Bool-cases (is_put new.op)) [
  | inl p ↦ longer-Overwrites new changes ch (is_superseded-Overwrites changes ch (rw p at h))
  | inr p ↦ elim (Bool-cases (same_record ch new && within ch.path new.path)) [
    | inr not_this ↦
        longer-Overwrites new changes ch
          (is_superseded-Overwrites changes ch (rw (p, any, not_this) at h))
    | inl over ↦
        let (rest, above) = within-append ch.path new.path (ground (arith, over)) in
        record {
          new = new;
          among = inl refl;
          decides = p;
          same_top = (eq_iff ch.c new.c).0 (ground (arith, over));
          same_name = same_id-eq ch.id new.id (ground (arith, over));
          rest = rest;
          above = above;
        }
  ]
]
