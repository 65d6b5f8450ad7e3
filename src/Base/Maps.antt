-- ===== src/Base/Maps.antt =====
-- Go maps with text keys, as association lists, and maps that may be nil.
use Prim.Native.Nat.{ℕ, suc}
use Prim.Native.String.{String}
use mathlib.Core.Path.{◌≡◌, refl}
use mathlib.Core.Option.{Option, none, some}
use mathlib.Core.List.{List, [], ◌∷◌, map}
use native.Mathlib.Omega.{arith}
use free5gc_udr.Base.Tests.{◌==◌, if◌then◌else◌, ==_iff, ==_refl}

module _ {ℓ} {V : Type ℓ} where
  -- `v, ok := m[key]`
  unfoldable pub lookup : String → List (String × V) → Option V
  lookup key [] = none
  lookup key (entry ∷ rest) = if entry.0 == key then some entry.1 else lookup key rest

  -- `m[key] = value`
  unfoldable pub insert : String → V → List (String × V) → List (String × V)
  insert key value [] = (key, value) ∷ []
  insert key value (entry ∷ rest) =
      if entry.0 == key then (key, value) ∷ rest else entry ∷ insert key value rest

  -- `delete(m, key)`
  unfoldable pub delete : String → List (String × V) → List (String × V)
  delete key [] = []
  delete key (entry ∷ rest) = if entry.0 == key then delete key rest else entry ∷ delete key rest

  abbrev pub values : List (String × V) → List V
  values m = map (λ e. e.1) m

  pub lookup-delete :
      (key other : String) (table : List (String × V))
      → lookup other (delete key table) ≡ (if key == other then none else lookup other table)
  unfolding lookup delete
  lookup-delete key other [] = ground arith
  lookup-delete key other (entry ∷ rest) = ground (
    arith,
    ==_iff key other,
    ==_iff entry.0 key,
    ==_iff entry.0 other,
    lookup-delete key other rest,
  )

  pub lookup-insert :
      (key other : String) (value : V) (table : List (String × V))
      → lookup other (insert key value table)
        ≡ (if key == other then some value else lookup other table)
  unfolding lookup insert
  lookup-insert key other value [] = refl
  lookup-insert key other value (entry ∷ rest) = ground (
    arith,
    ==_iff key other,
    ==_iff entry.0 key,
    ==_iff entry.0 other,
    lookup-insert key other value rest,
  )

  pub lookup-insert_self :
      (k : String) (v : V) (m : List (String × V)) → lookup k (insert k v m) ≡ some v
  lookup-insert_self k v m = simp (lookup-insert, ==_refl)

  pub lookup-delete_self : (k : String) (m : List (String × V)) → lookup k (delete k m) ≡ none
  lookup-delete_self k m = simp (lookup-delete, ==_refl)

-- The library's name, over the native numbers.
abbrev pub length {ℓ} : {A : Type ℓ} → List A → ℕ
length [] = 0
length (x ∷ xs) = suc (length xs)

-- A Go map that may be nil: `none` is the nil map.
abbrev pub GoMap : Type 0 → Type 0
GoMap V = Option (List (String × V))

-- A nil map reads, and iterates, as an empty one.
abbrev pub entries : {V : Type 0} → GoMap V → List (String × V)
entries none = []
entries (some m) = m

-- A function of two keys, given anew at one pair of keys.
abbrev pub assign :
    {V : Type 0}
    → (String → String → Option V)
    → String
    → String
    → Option V
    → String
    → String
    → Option V
assign at a b v a' b' = if a == a' then (if b == b' then v else at a' b') else at a' b'
