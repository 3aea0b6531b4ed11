-- ===== src/Registry/Idle.antt =====
-- server/registry.js: which stores a sweep lets go of.
use lazy_storage.Base.{
  String, eq_iff, str_eq, ℕ, ◌+◌, ◌≤◌, ◌<◌, ◌≡◌, refl, ap, ◌∙◌, ◌⊎◌, inl, inr, Bool, true, false,
  not, ◌&&◌, Option, none, some, List, [], ◌∷◌, arith, ltb, if◌then◌else◌, Bool-cases, Option-cases,
  path_eq, Map, beq_refl, map_get, map_get-map_set, map_get-map_delete, IsDistinct, string_eq,
}
use lazy_storage.Registry.{
  sweep_all, Store, sweep_store, sweep, since_or, Stores, release, end_or_keep, long_idle,
  seen_since, get, get_live, made, is_store_id, touch,
}

-- Whether a store without sessions has been seen so for `idle` or longer.
abbrev pub idles : Option ℕ → ℕ → Option ℕ → Store → Bool
idles idle wall since store =
    not (ltb 0 store.sessions) && long_idle idle wall (since_or wall since)

release-other :
    (id i : String) (stores : Stores)
    → str_eq id i ≡ false
    → (map_get i (release id stores).0.live ≡ map_get i stores.live)
      × (map_get i (release id stores).0.idle_since ≡ map_get i stores.idle_since)
unfolding release
release-other id i stores e = elim (Option-cases (map_get id stores.live)) [
  | inl n ↦ rw n (refl, refl)
  | inr (store, n) ↦ rw n (
    map_get-map_delete id i stores.live ∙ rw e refl,
    map_get-map_delete id i stores.idle_since ∙ rw e refl,
  )
]

release_self : (id : String) (stores : Stores) → map_get id (release id stores).0.live ≡ none
unfolding release
release_self id stores = elim (Option-cases (map_get id stores.live)) [
  | inl n ↦ rw n n
  | inr (store, n) ↦ rw n (map_get-map_delete id id stores.live ∙ rw (beq_refl id) refl)
]

end_or_keep-other :
    (ended : Bool) (id i : String) (stores : Stores) (released : List String)
    → str_eq id i ≡ false
    → (map_get i (end_or_keep ended id (stores, released)).0.live ≡ map_get i stores.live)
      × (map_get i (end_or_keep ended id (stores, released)).0.idle_since
          ≡ map_get i stores.idle_since)
unfolding end_or_keep
end_or_keep-other true id i stores released e = release-other id i stores e
end_or_keep-other false id i stores released e = (refl, refl)

end_or_keep_self :
    (ended : Bool) (id : String) (store : Store) (stores : Stores) (released : List String)
    → map_get id stores.live ≡ some store
    → map_get id (end_or_keep ended id (stores, released)).0.live
      ≡ (if ended then none else some store)
unfolding end_or_keep
end_or_keep_self true id store stores released h = release_self id stores
end_or_keep_self false id store stores released h = h

module _ (idle : Option ℕ) (wall : ℕ) where
  pub other-sweep_store :
      (id i : String) (store : Store) (stores : Stores) (released : List String)
      → str_eq id i ≡ false
      → let after = (sweep_store idle wall id store (stores, released)).0 in
        (map_get i after.live ≡ map_get i stores.live)
        × (map_get i after.idle_since ≡ map_get i stores.idle_since)
  unfolding sweep_store
  other-sweep_store id i store stores released e =
      let since = since_or wall (map_get id stores.idle_since) in
      let ended = long_idle idle wall since in
      elim (Bool-cases (ltb 0 store.sessions)) [
        | inl b ↦ rw b (refl, map_get-map_delete id i stores.idle_since ∙ rw e refl)
        | inr b ↦
            let (p, q) = end_or_keep-other ended id i (seen_since id since stores) released e in
            rw b (p, q ∙ map_get-map_set id i since stores.idle_since ∙ rw e refl)
      ]

  self-sweep_store :
      (id : String) (store : Store) (stores : Stores) (released : List String)
      → map_get id stores.live ≡ some store
      → map_get id (sweep_store idle wall id store (stores, released)).0.live
        ≡ (if idles idle wall (map_get id stores.idle_since) store then none else some store)
  unfolding sweep_store
  self-sweep_store id store stores released h =
      let since = since_or wall (map_get id stores.idle_since) in
      let ended = long_idle idle wall since in
      elim (Bool-cases (ltb 0 store.sessions)) [
        | inl b ↦ rw b h
        | inr b ↦ rw b (end_or_keep_self ended id store (seen_since id since stores) released h)
      ]

  absent-sweep_all :
      (i : String) (m : Map String Store) (st : Stores × List String)
      → map_get i m ≡ none
      → map_get i (sweep_all idle wall m st).0.live ≡ map_get i st.0.live
  unfolding sweep_all map_get
  absent-sweep_all i [] st h = refl
  absent-sweep_all i ((id, store) ∷ m) (stores, released) h = elim (Bool-cases (str_eq id i)) [
    | inl e ↦ absurd (ground arith)
    | inr e ↦
        absent-sweep_all i m (sweep_store idle wall id store (stores, released)) (ground arith)
        ∙ (other-sweep_store id i store stores released e).0
  ]

  present-sweep_all :
      (i : String) (store : Store) (m : Map String Store) (st : Stores × List String)
      → IsDistinct m
      → map_get i m ≡ some store
      → map_get i st.0.live ≡ some store
      → map_get i (sweep_all idle wall m st).0.live
        ≡ (if idles idle wall (map_get i st.0.idle_since) store then none else some store)
  unfolding sweep_all map_get
  present-sweep_all i store [] st distinct h live = absurd (cc)
  present-sweep_all i store ((id, first) ∷ m) (stores, released) distinct h live =
      let after = sweep_store idle wall id first (stores, released) in
      elim (Bool-cases (str_eq id i)) [
        | inl e ↦
            let same : id ≡ i = (eq_iff id i).0 e in
            let it : first ≡ store = ground arith in
            absent-sweep_all i m after (rw (← same) distinct.0)
            ∙ rw (same, it) (self-sweep_store i store stores released live)
        | inr e ↦
            let (p, q) = other-sweep_store id i first stores released e in
            present-sweep_all i store m after distinct.1 (ground arith) (p ∙ live) ∙ rw q refl
      ]

swept-live :
    (idle : Option ℕ) (wall : ℕ) (stores : Stores) (id : String) (store : Store)
    → IsDistinct stores.live
    → map_get id stores.live ≡ some store
    → map_get id (sweep idle wall stores).0.live
      ≡ (if idles idle wall (map_get id stores.idle_since) store then none else some store)
unfolding sweep
swept-live idle wall stores id store distinct h =
    present-sweep_all idle wall id store stores.live (stores, []) distinct h h

-- With an idle time, a store without sessions that was first seen so at a time, or is seen so only now,
-- and as long ago as the idle time.
pub data IsOver (n wall : ℕ) (store : Store) : Option ℕ → Type 0 where
  since_then :
      (since : ℕ) → store.sessions ≡ 0 → since + n ≤ wall → IsOver n wall store (some since)
  only_now : store.sessions ≡ 0 → n ≡ 0 → IsOver n wall store none

idles-IsOver :
    (n wall : ℕ) (store : Store) (since : Option ℕ)
    → idles (some n) wall since store ≡ true
    → IsOver n wall store since
idles-IsOver n wall store none h = only_now (ground (arith, h)) (ground (arith, h))
idles-IsOver n wall store (some since) h = since_then since (ground (arith, h)) (ground (arith, h))

IsOver-idles :
    (n wall : ℕ) (store : Store) (since : Option ℕ)
    → IsOver n wall store since
    → idles (some n) wall since store ≡ true
IsOver-idles n wall store none (only_now e k) = ground (arith, e, k)
IsOver-idles n wall store (some _) (since_then since e k) = ground (arith, e, k)

-- A sweep, of live stores with no id twice, lets go of a live store exactly where it has no session and
-- the idle time passed since it was first seen so, which is now where it never was; any other live store
-- stays as it is.
pub sweep-live :
    (n wall : ℕ) (stores : Stores) (id : String) (store : Store)
    → IsDistinct stores.live
    → map_get id stores.live ≡ some store
    → let since = map_get id stores.idle_since in
      let after = map_get id (sweep (some n) wall stores).0.live in
      (IsOver n wall store since × (after ≡ none))
      ⊎ ((IsOver n wall store since → ⊥) × (after ≡ some store))
sweep-live n wall stores id store distinct h =
    let since = map_get id stores.idle_since in
    let swept = swept-live (some n) wall stores id store distinct h in
    elim (Bool-cases (idles (some n) wall since store)) [
      | inl e ↦ inl (idles-IsOver n wall store since e, swept ∙ rw e refl)
      | inr e ↦
          inr ((λ over. let both = IsOver-idles n wall store since over in cc), swept ∙ rw e refl)
    ]

get_live-here :
    (factory : String → Option Store) (id : String) (store : Option Store) (stores : Stores)
    {found : Store}
    → map_get id stores.live ≡ store
    → (get_live factory id store stores).1 ≡ some found
    → (map_get id (get_live factory id store stores).0.live ≡ some found)
      × ((get_live factory id store stores).0.idle_since ≡ stores.idle_since)
unfolding get_live made
get_live-here factory id none stores here h = elim (Option-cases (factory id)) [
  | inl n ↦ absurd (ground arith)
  | inr (store, n) ↦ ground (arith, map_get-map_set id id store stores.live, beq_refl id)
]
get_live-here factory id (some old) stores here h = elim (Bool-cases old.disposed) [
  | inr e ↦ ground arith
  | inl e ↦ elim (Option-cases (factory id)) [
    | inl n ↦ absurd (ground arith)
    | inr (store, n) ↦ ground (arith, map_get-map_set id id store stores.live, beq_refl id)
  ]
]

get-here :
    (factory : String → Option Store) (id : String) (stores : Stores) {found : Store}
    → (get factory id stores).1 ≡ some found
    → (map_get id (get factory id stores).0.live ≡ some found)
      × (map_get id (get factory id stores).0.idle_since ≡ none)
unfolding get
get-here factory id stores h = elim (Bool-cases (is_store_id id)) [
  | inr e ↦ absurd (ground arith)
  | inl e ↦
      let gone = map_get-map_delete id id stores.idle_since ∙ rw (beq_refl id) refl in
      let (p, q) =
        get_live-here factory id (map_get id stores.live) (touch id stores) refl (rw e at h) in
      rw e (p, ap (λ m. map_get id m) q ∙ gone)
]

-- With an idle time above 0, and no id twice: a store that `get` returned is not let go of by the next
-- sweep, whenever that comes.
pub sweep-keeps :
    (factory : String → Option Store) (n wall : ℕ) (stores : Stores) (id : String) (store : Store)
    → 0 < n
    → IsDistinct (get factory id stores).0.live
    → (get factory id stores).1 ≡ some store
    → map_get id (sweep (some n) wall (get factory id stores).0).0.live ≡ some store
sweep-keeps factory n wall stores id store pos distinct h =
    let (live, since) = get-here factory id stores h in
    swept-live (some n) wall (get factory id stores).0 id store distinct live
    ∙ rw since (ground arith)
