-- ===== src/Prelude/Assoc.antt =====
-- Maps as association lists: `llvm::DenseMap` and `std::unordered_map` with numbers (addresses) for
-- keys, in the order in which a loop over the map meets the entries.
use Prim.Native.Nat.{ℕ}
use mathlib.Core.Path.{◌≡◌, refl}
use mathlib.Core.Logic.{◌≢◌, inl, inr}
use mathlib.Core.List.{List, [], ◌∷◌}
use mathlib.Core.Option.{Option, none, some}
use native.Mathlib.Omega.{arith}
use knight.Prelude.Tests.{◌==◌, if◌then◌else◌, Bool-cases}

module _ {V : Type 0} where
  abbrev pub find : ℕ → List (ℕ × V) → Option V
  find k [] = none
  find k ((j, v) ∷ m) = if j == k then some v else find k m

  -- `operator[]` or `insert`, with an assignment to the entry.
  abbrev pub put : ℕ → V → List (ℕ × V) → List (ℕ × V)
  put k v [] = (k, v) ∷ []
  put k v ((j, w) ∷ m) = if j == k then (j, v) ∷ m else (j, w) ∷ put k v m

  abbrev pub erase : ℕ → List (ℕ × V) → List (ℕ × V)
  erase k [] = []
  erase k ((j, w) ∷ m) = if j == k then m else (j, w) ∷ erase k m

  -- Each key occurs once.
  abbrev pub IsMap : List (ℕ × V) → Type 0
  IsMap [] = Unit
  IsMap ((j, v) ∷ m) = (find j m ≡ none) × IsMap m

  pub find-put :
      (k j : ℕ) (v : V) (m : List (ℕ × V))
      → find j (put k v m) ≡ (if k == j then some v else find j m)
  find-put k j v [] = refl
  find-put k j v ((i, w) ∷ m) = ground (arith, find-put k j v m)

  pub find-erase_ne : (k j : ℕ) (m : List (ℕ × V)) → k ≢ j → find j (erase k m) ≡ find j m
  find-erase_ne k j [] h = refl
  find-erase_ne k j ((i, w) ∷ m) h = ground (arith, find-erase_ne k j m h)

  pub find-erase_self : (k : ℕ) (m : List (ℕ × V)) → IsMap m → find k (erase k m) ≡ none
  find-erase_self k [] h = refl
  find-erase_self k ((i, w) ∷ m) h = ground (arith, find-erase_self k m h.1)

  pub put-IsMap : (k : ℕ) (v : V) (m : List (ℕ × V)) → IsMap m → IsMap (put k v m)
  put-IsMap k v [] h = (refl, tt)
  put-IsMap k v ((i, w) ∷ m) h = elim (Bool-cases (i == k)) [
    | inl e ↦ rw e h
    | inr e ↦ rw e (ground (arith, find-put k i v m), put-IsMap k v m h.1)
  ]

  pub erase-IsMap : (k : ℕ) (m : List (ℕ × V)) → IsMap m → IsMap (erase k m)
  erase-IsMap k [] h = tt
  erase-IsMap k ((i, w) ∷ m) h = elim (Bool-cases (i == k)) [
    | inl e ↦ rw e h.1
    | inr e ↦ rw e (ground (arith, find-erase_ne k i m), erase-IsMap k m h.1)
  ]
