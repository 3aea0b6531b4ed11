-- ===== src/Base/Maps.antt =====
-- The source's `Map`, over keys with a Boolean equality: insertion order, a key set again in place.
use mathlib.Core.Path.{◌≡◌, refl}
use mathlib.Core.Logic.{◌↔◌}
use mathlib.Core.Bool.{Bool, true, false, ◌&&◌}
use mathlib.Core.Option.{Option, none, some}
use mathlib.Core.List.{List, [], ◌∷◌}
use native.Mathlib.Omega.{arith}
use Prim.Native.String.{String}
use text.Mathlib.Text.{◌==◌ as str_eq}
use text.Mathlib.TextEquality.{eq_iff}
use mathlib.Core.Path.{◌∙◌}
use mathlib.Core.Logic.{inl, inr}
use lazy_storage.Base.Tests.{if◌then◌else◌, Bool-cases, if_intro}

pub record Eq (A : Type 0) : Type 0 where
  pub beq : A → A → Bool
  pub beq_iff : (a b : A) → (beq a b ≡ true) ↔ (a ≡ b)

instance abbrev pub string_eq : Eq String
string_eq = record { beq = str_eq; beq_iff = eq_iff }

-- A path: its segments. Its key in the source is their JSON, which is the same for equal paths only.
abbrev pub KeyPath : Type 0
KeyPath = List String

abbrev pub path_beq : KeyPath → KeyPath → Bool
path_beq [] [] = true
path_beq [] (y ∷ ys) = false
path_beq (x ∷ xs) [] = false
path_beq (x ∷ xs) (y ∷ ys) = str_eq x y && path_beq xs ys

pub path_beq_iff : (xs ys : KeyPath) → (path_beq xs ys ≡ true) ↔ (xs ≡ ys)
path_beq_iff [] [] = (λ _. refl, λ _. refl)
path_beq_iff [] (y ∷ ys) = (λ h. cc, λ h. cc)
path_beq_iff (x ∷ xs) [] = (λ h. cc, λ h. cc)
path_beq_iff (x ∷ xs) (y ∷ ys) = (
  λ h. ground (arith, eq_iff x y, path_beq_iff xs ys),
  λ h. ground (arith, eq_iff x y, path_beq_iff xs ys),
)

instance abbrev pub path_eq : Eq KeyPath
path_eq = record { beq = path_beq; beq_iff = path_beq_iff }

abbrev pub Map : Type 0 → Type 0 → Type 0
Map K V = List (K × V)

pub beq_refl : {K : Type 0} ⦃e : Eq K⦄ (k : K) → e.beq k k ≡ true
beq_refl ⦃e⦄ k = (e.beq_iff k k).1 refl

module _ {K V : Type 0} ⦃e : Eq K⦄ where
  unfoldable pub map_get : K → Map K V → Option V
  map_get k [] = none
  map_get k ((j, v) ∷ m) = if e.beq j k then some v else map_get k m

  unfoldable pub map_set : K → V → Map K V → Map K V
  map_set k v [] = (k, v) ∷ []
  map_set k v ((j, w) ∷ m) = if e.beq j k then (j, v) ∷ m else (j, w) ∷ map_set k v m

  unfoldable pub map_delete : K → Map K V → Map K V
  map_delete k [] = []
  map_delete k ((j, w) ∷ m) = let rest = map_delete k m in if e.beq j k then rest else (j, w) ∷ rest

  pub map_get-map_set :
      (k j : K) (v : V) (m : Map K V)
      → map_get j (map_set k v m) ≡ (if e.beq k j then some v else map_get j m)
  unfolding map_get map_set
  map_get-map_set k j v [] = refl
  map_get-map_set k j v ((i, w) ∷ m) =
      ground (arith, e.beq_iff k j, e.beq_iff i k, e.beq_iff i j, map_get-map_set k j v m)

  pub map_get-map_delete :
      (k j : K) (m : Map K V)
      → map_get j (map_delete k m) ≡ (if e.beq k j then none else map_get j m)
  unfolding map_get map_delete
  map_get-map_delete k j [] = ground arith
  map_get-map_delete k j ((i, w) ∷ m) =
      ground (arith, e.beq_iff k j, e.beq_iff i k, e.beq_iff i j, map_get-map_delete k j m)

  -- The rows of a `Map`: no key twice.
  abbrev pub IsDistinct : Map K V → Type 0
  IsDistinct [] = Unit
  IsDistinct ((k, v) ∷ m) = (map_get k m ≡ none) × IsDistinct m

  pub map_set-IsDistinct : (k : K) (v : V) (m : Map K V) → IsDistinct m → IsDistinct (map_set k v m)
  unfolding map_set
  map_set-IsDistinct k v [] h = (unfold map_get in refl, tt)
  map_set-IsDistinct k v ((j, w) ∷ m) h = elim (Bool-cases (e.beq j k)) [
    | inl p ↦ rw p h
    | inr p ↦ rw p (
      map_get-map_set k j v m ∙ ground (arith, e.beq_iff k j, e.beq_iff j k, h.0),
      map_set-IsDistinct k v m h.1,
    )
  ]

  pub map_delete-IsDistinct : (k : K) (m : Map K V) → IsDistinct m → IsDistinct (map_delete k m)
  unfolding map_delete
  map_delete-IsDistinct k [] h = h
  map_delete-IsDistinct k ((j, w) ∷ m) h = elim (Bool-cases (e.beq j k)) [
    | inl p ↦ rw p (map_delete-IsDistinct k m h.1)
    | inr p ↦ rw p (
      map_get-map_delete k j m ∙ if_intro (λ o. o ≡ none) (e.beq k j) refl h.0,
      map_delete-IsDistinct k m h.1,
    )
  ]
