-- ===== src/Common/Dict.antt =====
-- Dictionaries on numbers as association lists: `std::map<int, …>`, as far as look-up, insertion
-- and removal by key show it.
use Prim.Native.Nat.{ℕ}
use mathlib.Core.Path.{◌≡◌, refl}
use mathlib.Core.Option.{Option, none, some}
use mathlib.Core.List.{List, [], ◌∷◌}
use native.Mathlib.Omega.{arith}
use tst.Common.Logic.{◌==◌, if◌then◌else◌}

module _ {ℓ} {V : Type ℓ} where
  unfoldable pub lookup : (key : ℕ) (entries : List (ℕ × V)) → Option V
  lookup key [] = none
  lookup key ((found, value) ∷ rest) = if found == key then some value else lookup key rest

  unfoldable pub insert : (key : ℕ) (value : V) (entries : List (ℕ × V)) → List (ℕ × V)
  insert key value [] = (key, value) ∷ []
  insert key value ((found, old) ∷ rest) =
      if found == key then (key, value) ∷ rest else (found, old) ∷ insert key value rest

  unfoldable pub erase : (key : ℕ) (entries : List (ℕ × V)) → List (ℕ × V)
  erase key [] = []
  erase key ((found, value) ∷ rest) =
      let others = erase key rest in if found == key then others else (found, value) ∷ others

  pub lookup-insert :
      (key : ℕ) (asked : ℕ) (value : V) (entries : List (ℕ × V))
      → lookup asked (insert key value entries)
        ≡ (if key == asked then some value else lookup asked entries)
  unfolding lookup insert
  lookup-insert key asked value [] = refl
  lookup-insert key asked value ((found, old) ∷ rest) =
      ground (arith, lookup-insert key asked value rest)

  pub lookup-erase :
      (key : ℕ) (asked : ℕ) (entries : List (ℕ × V))
      → lookup asked (erase key entries) ≡ (if key == asked then none else lookup asked entries)
  unfolding lookup erase
  lookup-erase key asked [] = ground arith
  lookup-erase key asked ((found, old) ∷ rest) = ground (arith, lookup-erase key asked rest)
