-- ===== src/Json.antt =====
-- The values that the store keeps: JavaScript values as the code tells them apart. `object` is what
-- Utils.isPlainObject accepts, its fields in the order of Object.keys (a new key last).
use lazy_storage.Base.{
  String, eq_iff, str_eq, ℕ, zero, suc, ◌+◌, ◌-◌, ◌*◌, ◌≡◌, refl, Bool, true, false, ◌&&◌, Option,
  none, some, arith, leb, ◌==◌, if◌then◌else◌,
}
use Prim.Native.Char.{code}

-- A whole number that is not negative, another finite number (named by its bit pattern), or one that
-- JSON cannot carry.
pub data Number : Type 0 where
  whole : ℕ → Number
  fraction : ℕ → Number
  not_finite : Number

-- `other` is a value that is no JSON: a function, a Date, undefined inside an array, and so on.
mutual
  pub data Value : Type 0 where
    null : Value
    boolean : Bool → Value
    number : Number → Value
    string : String → Value
    array : Items → Value
    object : Fields → Value
    other : Value

  pub data Items : Type 0 where
    nil : Items
    cons : Value → Items → Items

  pub data Fields : Type 0 where
    end : Fields
    field : String → Value → Fields → Fields

abbrev pub is_null : Value → Bool
is_null null = true
is_null _ = false

abbrev pub is_object : Value → Bool
is_object (object fs) = true
is_object _ = false

unfoldable pub get_field : String → Fields → Option Value
get_field key end = none
get_field key (field k v fs) = if str_eq k key then some v else get_field key fs

-- `node[key] = value`
unfoldable pub set_field : String → Value → Fields → Fields
set_field key value end = field key value end
set_field key value (field k v fs) =
    if str_eq k key then field k value fs else field k v (set_field key value fs)

-- `delete node[key]`
unfoldable pub delete_field : String → Fields → Fields
delete_field key end = end
delete_field key (field k v fs) =
    let rest = delete_field key fs in if str_eq k key then rest else field k v rest

pub get_field-set_field :
    (k j : String) (v : Value) (fs : Fields)
    → get_field j (set_field k v fs) ≡ (if str_eq k j then some v else get_field j fs)
unfolding get_field set_field
get_field-set_field k j v end = refl
get_field-set_field k j v (field i w fs) =
    ground (arith, eq_iff k j, eq_iff i k, eq_iff i j, get_field-set_field k j v fs)

pub get_field-delete_field :
    (k j : String) (fs : Fields)
    → get_field j (delete_field k fs) ≡ (if str_eq k j then none else get_field j fs)
unfolding get_field delete_field
get_field-delete_field k j end = ground arith
get_field-delete_field k j (field i w fs) =
    ground (arith, eq_iff k j, eq_iff i k, eq_iff i j, get_field-delete_field k j fs)

unfoldable pub get_item : ℕ → Items → Option Value
get_item i nil = none
get_item zero (cons v vs) = some v
get_item (suc i) (cons v vs) = get_item i vs

unfoldable pub set_item : ℕ → Value → Items → Items
set_item i w nil = nil
set_item zero w (cons v vs) = cons w vs
set_item (suc i) w (cons v vs) = cons v (set_item i w vs)

unfoldable pub count_items : Items → ℕ
count_items nil = 0
count_items (cons v vs) = suc (count_items vs)

pub get_item-set_item_self :
    (i : ℕ) (w v : Value) (vs : Items)
    → get_item i vs ≡ some v
    → get_item i (set_item i w vs) ≡ some w
unfolding get_item set_item
get_item-set_item_self i w v nil h = absurd (cc)
get_item-set_item_self zero w v (cons u vs) h = refl
get_item-set_item_self (suc i) w v (cons u vs) h = get_item-set_item_self i w v vs h

-- A decimal numeral, read on from `acc`.
decimal : ℕ → String → Option ℕ
decimal acc String.[] = some acc
decimal acc (String.◌∷◌ c cs) =
    let rest = decimal (acc * 10 + (code c - 48)) cs in
    if leb 48 (code c) && leb (code c) 57 then rest else none

-- An array's own property of this name is an index in its canonical spelling.
unfoldable pub array_index : String → Option ℕ
unfolding decimal
array_index String.[] = none
array_index (String.◌∷◌ c String.[]) = decimal 0 (String.◌∷◌ c String.[])
array_index (String.◌∷◌ c (String.◌∷◌ d cs)) =
    if code c == 48 then none else decimal 0 (String.◌∷◌ c (String.◌∷◌ d cs))
