-- ===== src/Registry/Reach.antt =====
-- server/registry.js: what holds of every registry that its operations make.
use mathlib.Core.Path.{subst}
use lazy_storage.Base.{
  String, eq_iff, str_eq, ℕ, ◌≡◌, refl, sym, ◌∙◌, inl, inr, Bool, true, false, Option, none, some,
  List, [], ◌∷◌, arith, ltb, if◌then◌else◌, Bool-cases, Option-cases, if_intro, path_eq, Map,
  map_get, map_set, map_get-map_set, map_get-map_delete, IsDistinct, map_set-IsDistinct,
  map_delete-IsDistinct, string_eq,
}
use lazy_storage.Registry.{
  Store, Stores, no_stores, release, forget, touch, has, get, is_store_id, restore, sweep, dispose,
  end_or_keep, get_live, made, sweep_store, seen_since, sweep_all, restore_in, since_or, long_idle,
  release_all,
}
use lazy_storage.Registry.Idle.{other-sweep_store}

-- A store that the registry holds, changed from outside: a session opens or closes, it unloads itself.
abbrev pub changed : String → Store → Stores → Stores
changed id store stores =
    if has id stores then record stores { live = map_set id store stores.live } else stores

-- One operation, or one change from outside.
pub data Step (factory : String → Option Store) : Stores → Stores → Type 0 where
  got : (id : String) (s : Stores) → Step factory s (get factory id s).0
  let_go : (id : String) (s : Stores) → Step factory s (release id s).0
  restored :
      (is_document : Bool) (id : String) (s : Stores)
      → Step factory s (restore factory is_document id s).0
  swept : (idle : Option ℕ) (wall : ℕ) (s : Stores) → Step factory s (sweep idle wall s).0
  ended : (s : Stores) → Step factory s (dispose s)
  moved : (id : String) (store : Store) (s : Stores) → Step factory s (changed id store s)

pub data Reachable (factory : String → Option Store) : Stores → Type 0 where
  start : Reachable factory no_stores
  next : {s t : Stores} → Reachable factory s → Step factory s t → Reachable factory t

-- Every live store has an id of the alphabet, and only a live store has an idle clock.
pub record IsSound (s : Stores) : Type 0 where
  pub named : (id : String) → is_store_id id ≡ false → map_get id s.live ≡ none
  pub clocked : (id : String) → map_get id s.live ≡ none → map_get id s.idle_since ≡ none
  pub distinct : IsDistinct s.live

no_stores-IsSound : IsSound no_stores
unfolding map_get
no_stores-IsSound = record { named = λ id h. refl; clocked = λ id h. refl; distinct = tt }

touch-IsSound : (id : String) (s : Stores) → IsSound s → IsSound (touch id s)
touch-IsSound id s h = record {
  named = h.named;
  clocked = λ i n.
      map_get-map_delete id i s.idle_since
      ∙ if_intro (λ o. o ≡ none) (str_eq id i) refl (h.clocked i n);
  distinct = h.distinct;
}

set-IsSound :
    (id : String) (store : Store) (s : Stores)
    → is_store_id id ≡ true
    → IsSound s
    → IsSound (record s { live = map_set id store s.live })
set-IsSound id store s valid h = record {
  named = λ i n. ground (arith, map_get-map_set id i store s.live, eq_iff id i, h.named i n);
  clocked = λ i n. ground (arith, map_get-map_set id i store s.live, h.clocked i);
  distinct = map_set-IsDistinct id store s.live h.distinct;
}

forget-IsSound : (id : String) (s : Stores) → IsSound s → IsSound (forget id s)
forget-IsSound id s h = record {
  named = λ i n.
      map_get-map_delete id i s.live ∙ if_intro (λ o. o ≡ none) (str_eq id i) refl (h.named i n);
  clocked = λ i n.
      ground
        (arith, map_get-map_delete id i s.live, map_get-map_delete id i s.idle_since, h.clocked i);
  distinct = map_delete-IsDistinct id s.live h.distinct;
}

release-IsSound : (id : String) (s : Stores) → IsSound s → IsSound (release id s).0
unfolding release
release-IsSound id s h = elim (Option-cases (map_get id s.live)) [
  | inl n ↦ rw n h
  | inr (store, n) ↦ rw n (forget-IsSound id s h)
]

made-IsSound :
    (id : String) (store : Option Store) (s : Stores)
    → is_store_id id ≡ true
    → IsSound s
    → IsSound (made id store s).0
unfolding made
made-IsSound id none s valid h = h
made-IsSound id (some store) s valid h = set-IsSound id store s valid h

get_live-IsSound :
    (factory : String → Option Store) (id : String) (store : Option Store) (s : Stores)
    → is_store_id id ≡ true
    → IsSound s
    → IsSound (get_live factory id store s).0
unfolding get_live
get_live-IsSound factory id none s valid h = made-IsSound id (factory id) s valid h
get_live-IsSound factory id (some store) s valid h = elim (Bool-cases store.disposed) [
  | inl e ↦ rw e (made-IsSound id (factory id) s valid h)
  | inr e ↦ rw e h
]

get-IsSound :
    (factory : String → Option Store) (id : String) (s : Stores)
    → IsSound s
    → IsSound (get factory id s).0
unfolding get
get-IsSound factory id s h = elim (Bool-cases (is_store_id id)) [
  | inl e ↦
      rw e (get_live-IsSound factory id (map_get id s.live) (touch id s) e (touch-IsSound id s h))
  | inr e ↦ rw e h
]

restore_in-IsSound :
    (id : String) (s : Stores) (store : Option Store)
    → IsSound s
    → IsSound (restore_in id (s, store)).0
unfolding restore_in
restore_in-IsSound id s none h = h
restore_in-IsSound id s (some store) h = forget-IsSound id s h

restore-IsSound :
    (factory : String → Option Store) (is_document : Bool) (id : String) (s : Stores)
    → IsSound s
    → IsSound (restore factory is_document id s).0
unfolding restore
restore-IsSound factory true id s h =
    let (t, store) = get factory id s in restore_in-IsSound id t store (get-IsSound factory id s h)
restore-IsSound factory false id s h = h

seen_since-IsSound :
    (id : String) (since : ℕ) (s : Stores)
    → (map_get id s.live ≡ none → ⊥)
    → IsSound s
    → IsSound (seen_since id since s)
seen_since-IsSound id since s live h = record {
  named = h.named;
  clocked = λ i n. elim (Bool-cases (str_eq id i)) [
    | inl e ↦ absurd (live (subst (λ j. map_get j s.live ≡ none) (sym ((eq_iff id i).0 e)) n))
    | inr e ↦ map_get-map_set id i since s.idle_since ∙ rw e (h.clocked i n)
  ];
  distinct = h.distinct;
}

end_or_keep-IsSound :
    (end_it : Bool) (id : String) (s : Stores) (released : List String)
    → IsSound s
    → IsSound (end_or_keep end_it id (s, released)).0
unfolding end_or_keep
end_or_keep-IsSound true id s released h = release-IsSound id s h
end_or_keep-IsSound false id s released h = h

sweep_store-IsSound :
    (idle : Option ℕ) (wall : ℕ) (id : String) (store : Store) (s : Stores) (released : List String)
    → (map_get id s.live ≡ none → ⊥)
    → IsSound s
    → IsSound (sweep_store idle wall id store (s, released)).0
unfolding sweep_store
sweep_store-IsSound idle wall id store s released live h =
    let since = since_or wall (map_get id s.idle_since) in
    elim (Bool-cases (ltb 0 store.sessions)) [
      | inl e ↦ rw e (touch-IsSound id s h)
      | inr e ↦ rw e (
          end_or_keep-IsSound (long_idle idle wall since) id (seen_since id since s) released
            (seen_since-IsSound id since s live h))
    ]

sweep_all-IsSound :
    (idle : Option ℕ) (wall : ℕ) (m : Map String Store) (s : Stores) (released : List String)
    → IsDistinct m
    → ((i : String) → map_get i s.live ≡ none → map_get i m ≡ none)
    → IsSound s
    → IsSound (sweep_all idle wall m (s, released)).0
unfolding sweep_all map_get
sweep_all-IsSound idle wall [] s released distinct covers h = h
sweep_all-IsSound idle wall ((id, store) ∷ m) s released distinct covers h =
    let live : map_get id s.live ≡ none → ⊥ =
      λ n. ground (arith, covers id n, (eq_iff id id).1 refl) in
    let (t, more) = sweep_store idle wall id store (s, released) in
    sweep_all-IsSound idle wall m t more distinct.1
      (λ i n. elim (Bool-cases (str_eq id i)) [
        | inl e ↦ subst (λ j. map_get j m ≡ none) ((eq_iff id i).0 e) distinct.0
        | inr e ↦
            let same = (other-sweep_store idle wall id i store s released e).0 in
            ground (arith, covers i (sym same ∙ n))
      ])
      (sweep_store-IsSound idle wall id store s released live h)

release_all-IsSound : (m : Map String Store) (s : Stores) → IsSound s → IsSound (release_all m s)
unfolding release_all
release_all-IsSound [] s h = h
release_all-IsSound ((id, store) ∷ m) s h =
    release_all-IsSound m (release id s).0 (release-IsSound id s h)

changed-IsSound :
    (id : String) (store : Store) (s : Stores) → IsSound s → IsSound (changed id store s)
changed-IsSound id store s h = elim (Option-cases (map_get id s.live)) [
  | inl n ↦ rw n h
  | inr (old, n) ↦ elim (Bool-cases (is_store_id id)) [
    | inl valid ↦ rw n (set-IsSound id store s valid h)
    | inr e ↦ absurd (ground (arith, h.named id e))
  ]
]

step-IsSound :
    (factory : String → Option Store) (s t : Stores) → Step factory s t → IsSound s → IsSound t
unfolding sweep dispose
step-IsSound factory s t (got id _) h = get-IsSound factory id s h
step-IsSound factory s t (let_go id _) h = release-IsSound id s h
step-IsSound factory s t (restored is_document id _) h = restore-IsSound factory is_document id s h
step-IsSound factory s t (swept idle wall _) h =
    sweep_all-IsSound idle wall s.live s [] h.distinct (λ i n. n) h
step-IsSound factory s t (ended _) h = release_all-IsSound s.live s h
step-IsSound factory s t (moved id store _) h = changed-IsSound id store s h

-- Whatever stores the factory builds: after any operations of a registry, and any changes of its
-- stores from outside, every live store has an id of the alphabet, no id is there twice, and only a
-- live store has an idle clock.
pub Reachable-IsSound :
    (factory : String → Option Store) (s : Stores) → Reachable factory s → IsSound s
Reachable-IsSound factory s start = no_stores-IsSound
Reachable-IsSound factory s (next {s = r} before step) =
    step-IsSound factory r s step (Reachable-IsSound factory r before)
