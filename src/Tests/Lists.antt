-- ===== src/Tests/Lists.antt =====
-- Runs of client/list.js and client/snapshot-fetch.js on concrete inputs.
use lazy_storage.Base.{
  ℕ, ◌≡◌, refl, ap, inl, Option, none, some, List, [], ◌∷◌, arith, length, All, Returns,
}
use lazy_storage.Client.Fetched.{
  Follows, arrive-late, turn_after, hold_all, no_turn, held_back, arrive-whole,
}
use lazy_storage.Client.Order.{Row, after_id, sorted}
use lazy_storage.Positions.Digits.{str_lt, digit_char, digit_index}
use lazy_storage.Client.Slots.{IsSlotted, reconcile_keys, kept_keys, next_kept, slots, IsAboveFloor}
use lazy_storage.Client.Longest.{longest_increasing, search_tails, run_back, scan, put_at, last}
use lazy_storage.Client.Enough.{IsPlace, search_tails-IsPlace, longest_increasing-enough}
use lazy_storage.Client.Placed.{IsPlaced, key_for-IsPlaced, AreKeyed}
use lazy_storage.Client.Order.{key_for}
use lazy_storage.Client.Reconcile.{kept_of, reconcile_keys-IsSlotted}
use lazy_storage.Positions.Keys.{
  is_position_key, key_between, read_digits, assert_digits, assert_key, list_eq, or_range_error,
  key_below, digits_between, assert_bound,
}
use lazy_storage.Positions.Integer.{
  integer_length, integer_part, decrement_digits, decrement_head, decrement_integer,
}
use lazy_storage.Positions.Midpoint.{
  ends_in_zero, midpoint, midpoint_open, midpoint_apart, midpoint_prefix,
}
use lazy_storage.Positions.Promise.{IsBound}
use lazy_storage.Client.Fetch.{
  Message, begin_fetch, arrive, no_snapshot, hold, other_message, cancel, create_fetcher, nothing,
  snapshot_of, patch_to, landed_with,
}

-- 'a0', none, 'a2', 'a1' and 'a3'
abbrev wanted : List (Option (List ℕ))
wanted =
    some (97 ∷ 48 ∷ [])
    ∷ none
    ∷ some (97 ∷ 50 ∷ [])
    ∷ some (97 ∷ 49 ∷ [])
    ∷ some (97 ∷ 51 ∷ [])
    ∷ []

list_program : Unit {0}
unfolding reconcile_keys kept_keys longest_increasing scan search_tails put_at run_back next_kept
    slots is_position_key key_between
list_program = tt

wanted-run : longest_increasing wanted ≡ 4 ∷ 3 ∷ 0 ∷ []
unfolding list_program
wanted-run = refl

wanted-AreKeyed : All IsBound wanted
unfolding digit_char digit_index str_lt integer_length integer_part ends_in_zero read_digits
    assert_digits assert_key is_position_key list_eq
wanted-AreKeyed = (refl, (tt, (refl, (refl, (refl, tt)))))

-- 'Zz' is made below 'a0'.
wanted-IsAboveFloor : IsAboveFloor (next_kept (kept_of wanted))
unfolding next_kept kept_keys longest_increasing scan search_tails put_at run_back digit_char
    digit_index str_lt decrement_digits decrement_head decrement_integer integer_length integer_part
    ends_in_zero midpoint midpoint_open midpoint_apart midpoint_prefix list_eq read_digits
    assert_digits assert_key or_range_error key_below digits_between assert_bound key_between
wanted-IsAboveFloor = λ e. absurd (omega (arith, ap length e))

reconcile_keys-IsSlotted_example :
    Returns (λ r. IsSlotted none (kept_of wanted) r.0) (reconcile_keys wanted)
reconcile_keys-IsSlotted_example =
    reconcile_keys-IsSlotted wanted wanted-AreKeyed wanted-IsAboveFloor

longest_increasing-enough_example :
    longest_increasing wanted
    ≡ run_back 9 (scan wanted 0 wanted ([], [])).1 (last (scan wanted 0 wanted ([], [])).0)
longest_increasing-enough_example = longest_increasing-enough wanted 9 (omega arith)

search_tails-IsPlace_example :
    IsPlace wanted
      (0 ∷ 3 ∷ [])
      (97 ∷ 51 ∷ [])
      2
      (search_tails 2 wanted (0 ∷ 3 ∷ []) (97 ∷ 51 ∷ []) 0 2)
search_tails-IsPlace_example =
    search_tails-IsPlace wanted 2 (0 ∷ 3 ∷ []) (97 ∷ 51 ∷ []) 0 2 (omega arith) (omega arith) tt

abbrev tasks : List Row
tasks =
    record { id = 98 ∷ []; position = some (97 ∷ 49 ∷ []) }
    ∷ record { id = 97 ∷ []; position = some (97 ∷ 48 ∷ []) }
    ∷ []

tasks-AreKeyed : AreKeyed tasks
unfolding digit_char digit_index str_lt integer_length integer_part ends_in_zero read_digits
    assert_digits assert_key is_position_key list_eq
tasks-AreKeyed = (refl, (refl, tt))

key_for-IsPlaced_example :
    IsPlaced
      (after_id (98 ∷ []))
      (sorted (some (97 ∷ [])) tasks)
      (key_for (after_id (98 ∷ [])) (some (97 ∷ [])) tasks)
key_for-IsPlaced_example =
    key_for-IsPlaced (after_id (98 ∷ [])) (some (97 ∷ [])) tasks tasks-AreKeyed

-- A fetch that is cancelled, and a message after that.
arrive-late_example :
    arrive 1 no_snapshot (hold (other_message 4) (cancel (begin_fetch create_fetcher))).0
    ≡ ((hold (other_message 4) (cancel (begin_fetch create_fetcher))).0, nothing)
unfolding begin_fetch
arrive-late_example =
    arrive-late create_fetcher (cancel (begin_fetch create_fetcher)) _ no_snapshot (inl (inl refl))
      (turn_after no_turn (held_back (other_message 4) _))

arrive-whole_example :
    (rest : List Message) × Follows 7 (patch_to (some 7) ∷ patch_to (some 8) ∷ []) rest
    × (arrive 1
          (snapshot_of 7)
          (hold_all (patch_to (some 7) ∷ patch_to (some 8) ∷ []) (begin_fetch create_fetcher))
        ≡ (record create_fetcher { attempt = 1; held = none }, landed_with 7 rest))
unfolding begin_fetch
arrive-whole_example = arrive-whole create_fetcher (patch_to (some 7) ∷ patch_to (some 8) ∷ []) 7
