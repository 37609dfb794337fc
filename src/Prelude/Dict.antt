-- ===== src/Prelude/Dict.antt =====
-- A Python dict keyed by text, in insertion order: `get`, `d[k] = v`, `pop(k, None)`, `k in d`.
use text.Mathlib.Text.{◌==◌}
use neuravex.Prelude.Tests.{if◌then◌else◌, is_some}
use neuravex.Prelude.Lists.{length}
use Prim.Native.Nat.{suc, ◌≤◌}
use Prim.Native.String.{String}
use mathlib.Core.Path.{◌≡◌, refl}
use mathlib.Core.Bool.{Bool, false}
use mathlib.Core.Option.{Option, none, some}
use mathlib.Core.List.{List, [], ◌∷◌}
use native.Mathlib.Omega.{arith}
use text.Mathlib.TextEquality.{eq_iff}

abbrev pub Dict {ℓ} : Type ℓ → Type ℓ
Dict V = List (String × V)

module _ {ℓ} {V : Type ℓ} where
  unfoldable pub get : String → Dict V → Option V
  get k [] = none
  get k ((j, v) ∷ d) = if j == k then some v else get k d

  unfoldable pub insert : String → V → Dict V → Dict V
  insert k v [] = (k, v) ∷ []
  insert k v ((j, w) ∷ d) = if j == k then (j, v) ∷ d else (j, w) ∷ insert k v d

  unfoldable pub pop : String → Dict V → Dict V
  pop k [] = []
  pop k ((j, w) ∷ d) = if j == k then d else (j, w) ∷ pop k d

  abbrev pub contains : String → Dict V → Bool
  contains k d = is_some (get k d)

  abbrev pub values : Dict V → List V
  values [] = []
  values ((j, v) ∷ d) = v ∷ values d

module _ {ℓ} {V : Type ℓ} where
  pub get-insert :
      (k j : String) (v : V) (d : Dict V)
      → get j (insert k v d) ≡ (if k == j then some v else get j d)
  unfolding get insert
  get-insert k j v [] = refl
  get-insert k j v ((i, w) ∷ d) =
      ground (arith, eq_iff k j, eq_iff i k, eq_iff i j, get-insert k j v d)

  -- A write adds a key only where there was none.
  pub length-insert :
      (k : String) (v : V) (d : Dict V)
      → length (insert k v d) ≡ (if contains k d then length d else suc (length d))
  unfolding get insert
  length-insert k v [] = refl
  length-insert k v ((i, w) ∷ d) = ground (arith, eq_iff i k, length-insert k v d)

  pub length-pop-le : (k : String) (d : Dict V) → length (pop k d) ≤ length d
  unfolding pop
  length-pop-le k [] = omega arith
  length-pop-le k ((i, w) ∷ d) = ground (arith, length-pop-le k d)

  -- A removal takes one key at most.
  pub length-pop-ge : (k : String) (d : Dict V) → length d ≤ suc (length (pop k d))
  unfolding pop
  length-pop-ge k [] = omega arith
  length-pop-ge k ((i, w) ∷ d) = ground (arith, length-pop-ge k d)

  pub get-pop_ne : (k j : String) (d : Dict V) → (k == j) ≡ false → get j (pop k d) ≡ get j d
  unfolding get pop
  get-pop_ne k j [] h = refl
  get-pop_ne k j ((i, w) ∷ d) h =
      ground (arith, eq_iff k j, eq_iff i k, eq_iff i j, get-pop_ne k j d h)
