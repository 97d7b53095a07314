-- ===== src/Base/Dict.antt =====
-- Dictionaries as association lists: `std::map`, of which the program uses only lookup, size,
-- `m[k] = v`, `insert` and `erase`.
use Prim.Native.Nat.{suc}
use mathlib.Core.Path.{◌≡◌, refl, ◌∙◌}
use mathlib.Core.Logic.{inl, inr}
use mathlib.Core.Bool.{Bool, true, false}
use mathlib.Core.List.{List, [], ◌∷◌}
use mathlib.Core.Option.{Option, none, some}
use wedding_cake_cpp.Base.Tests.{Bool-cases}
use native.Mathlib.Omega.{arith}
use wedding_cake_cpp.Base.Tests.{Eq, if◌then◌else◌}
use wedding_cake_cpp.Base.Lists.{length}

module _ {ℓ κ} {K : Type ℓ} {V : Type κ} ⦃e : Eq K⦄ where
  unfoldable pub lookup : K → List (K × V) → Option V
  lookup k [] = none
  lookup k ((j, v) ∷ m) = if e.beq j k then some v else lookup k m

  unfoldable pub contains : K → List (K × V) → Bool
  contains k [] = false
  contains k ((j, v) ∷ m) = if e.beq j k then true else contains k m

  -- `m[k] = v`: an old value is overwritten.
  unfoldable pub assign : K → V → List (K × V) → List (K × V)
  assign k v [] = (k, v) ∷ []
  assign k v ((j, w) ∷ m) = if e.beq j k then (k, v) ∷ m else (j, w) ∷ assign k v m

  -- `m.insert({k, v})`: an old value stays.
  unfoldable pub insert : K → V → List (K × V) → List (K × V)
  insert k v [] = (k, v) ∷ []
  insert k v ((j, w) ∷ m) = if e.beq j k then (j, w) ∷ m else (j, w) ∷ insert k v m

  unfoldable pub erase : K → List (K × V) → List (K × V)
  erase k [] = []
  erase k ((j, w) ∷ m) = if e.beq j k then m else (j, w) ∷ erase k m

  pub lookup-assign :
      (k j : K) (v : V) (m : List (K × V))
      → lookup j (assign k v m) ≡ (if e.beq k j then some v else lookup j m)
  unfolding lookup assign
  lookup-assign k j v [] = refl
  lookup-assign k j v ((i, w) ∷ m) =
      ground (arith, e.beq_iff k j, e.beq_iff i k, e.beq_iff i j, lookup-assign k j v m)

  pub lookup-insert :
      (k j : K) (v : V) (m : List (K × V))
      → lookup j (insert k v m) ≡ (
          if e.beq k j then (elim (lookup k m) [ none ↦ some v | some w ↦ some w ]) else lookup j m)
  unfolding lookup insert
  lookup-insert k j v [] = ground arith
  lookup-insert k j v ((i, w) ∷ m) =
      ground (arith, e.beq_iff k j, e.beq_iff i k, e.beq_iff i j, lookup-insert k j v m)

  pub length-insert_new :
      (k : K) (v : V) (m : List (K × V))
      → lookup k m ≡ none
      → length (insert k v m) ≡ suc (length m)
  unfolding lookup insert
  length-insert_new k v [] h = refl
  length-insert_new k v ((i, w) ∷ m) h = ground (arith, length-insert_new k v m)

  pub length-insert_old :
      (k : K) (v w : V) (m : List (K × V)) → lookup k m ≡ some w → insert k v m ≡ m
  unfolding lookup insert
  length-insert_old k v w [] h = cc
  length-insert_old k v w ((i, x) ∷ m) h = ground (arith, length-insert_old k v w m)

  pub contains-lookup :
      (k : K) (m : List (K × V))
      → contains k m ≡ (elim (lookup k m) [ none ↦ false | some w ↦ true ])
  unfolding lookup contains
  contains-lookup k [] = refl
  contains-lookup k ((i, x) ∷ m) = ground (arith, contains-lookup k m)

  -- No key has two entries.
  abbrev pub HasOneEach : List (K × V) → Type (ℓ ⊔ κ)
  HasOneEach [] = Unit
  HasOneEach ((k, v) ∷ m) = (lookup k m ≡ none) × HasOneEach m

  pub assign-HasOneEach :
      (k : K) (v : V) (m : List (K × V)) → HasOneEach m → HasOneEach (assign k v m)
  unfolding lookup assign
  assign-HasOneEach k v [] h = (refl, tt)
  assign-HasOneEach k v ((j, w) ∷ m) (absent, h) = elim (Bool-cases (e.beq j k)) [
    | inl same ↦ let eq : j ≡ k = (e.beq_iff j k).0 same in rw same (rw eq at absent, h)
    | inr other ↦
        let none_yet : lookup j (assign k v m) ≡ none =
          lookup-assign k j v m ∙ ground (arith, e.beq_iff k j, e.beq_iff j k, other, absent) in
        rw other (none_yet, assign-HasOneEach k v m h)
  ]
