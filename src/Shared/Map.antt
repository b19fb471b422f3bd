-- ===== src/Shared/Map.antt =====
-- A Go map with string keys: an association list with one entry for each key.
use Prim.Native.Nat.{suc}
use Prim.Native.String.{String}
use mathlib.Core.Path.{◌≡◌, refl}
use mathlib.Core.Option.{Option, none, some}
use mathlib.Core.List.{List, [], ◌∷◌}
use native.Mathlib.Omega.{arith}
use text.Mathlib.TextEquality.{eq_iff}
use codespace_ssh_gateway.Shared.Tests.{◌==◌, string_eq, if◌then◌else◌}
use codespace_ssh_gateway.Shared.Lists.{length}

abbrev pub Map {ℓ} : Type ℓ → Type ℓ
Map V = List (String × V)

module _ {ℓ} {V : Type ℓ} where
  -- `v, ok := m[k]`
  unfoldable pub get : Map V → String → Option V
  get [] k = none
  get ((j, v) ∷ m) k = if j == k then some v else get m k

  -- `m[k] = v`
  unfoldable pub put : Map V → String → V → Map V
  put [] k v = (k, v) ∷ []
  put ((j, w) ∷ m) k v = if j == k then (j, v) ∷ m else (j, w) ∷ put m k v

  -- `delete(m, k)`
  unfoldable pub del : Map V → String → Map V
  del [] k = []
  del ((j, w) ∷ m) k = let rest = del m k in if j == k then rest else (j, w) ∷ rest

  pub get-put :
      (m : Map V) (k : String) (v : V) (j : String)
      → get (put m k v) j ≡ (if k == j then some v else get m j)
  unfolding get put
  get-put [] k v j = refl
  get-put ((i, w) ∷ m) k v j = ground (arith, eq_iff k j, eq_iff i k, eq_iff i j, get-put m k v j)

  pub get-del : (m : Map V) (k j : String) → get (del m k) j ≡ (if k == j then none else get m j)
  unfolding get del
  get-del [] k j = ground arith
  get-del ((i, w) ∷ m) k j = ground (arith, eq_iff k j, eq_iff i k, eq_iff i j, get-del m k j)

  -- No key has two entries.
  abbrev pub Unique : Map V → Type ℓ
  Unique [] = Unit
  Unique ((k, v) ∷ m) = (get m k ≡ none) × Unique m

  pub put-Unique : (m : Map V) (k : String) (v : V) → Unique m → Unique (put m k v)
  unfolding get put
  put-Unique [] k v u = (refl, tt)
  put-Unique ((j, w) ∷ m) k v u =
      ground (arith, put-Unique m k v u.1, get-put m k v j, eq_iff j k, eq_iff k j)

  pub del-Unique : (m : Map V) (k : String) → Unique m → Unique (del m k)
  unfolding get del
  del-Unique [] k u = tt
  del-Unique ((j, w) ∷ m) k u = ground (arith, del-Unique m k u.1, get-del m k j)

  pub del_absent : (m : Map V) (k : String) → get m k ≡ none → del m k ≡ m
  unfolding get del
  del_absent [] k e = refl
  del_absent ((j, w) ∷ m) k e = ground (arith, del_absent m k)

  pub length-put_fresh :
      (m : Map V) (k : String) (v : V) → get m k ≡ none → length (put m k v) ≡ suc (length m)
  unfolding get put
  length-put_fresh [] k v e = refl
  length-put_fresh ((j, w) ∷ m) k v e = ground (arith, length-put_fresh m k v)

  pub length-del :
      (m : Map V) (k : String) (v : V)
      → Unique m
      → get m k ≡ some v
      → suc (length (del m k)) ≡ length m
  unfolding get del
  length-del [] k v u e = ground arith
  length-del ((j, w) ∷ m) k v u e = ground (arith, length-del m k v u.1, del_absent m k, eq_iff j k)

pub ruleset map_laws = (get-put, get-del)
