-- ===== src/Base/Table.antt =====
-- A database table with a primary key, as a list of keyed rows in the order of insertion. A key is
-- a number (a UUID, which the program only compares), a pair of numbers or a text.
use Prim.Native.Nat.{ℕ}
use mathlib.Core.Path.{◌≡◌, refl}
use mathlib.Core.Logic.{◌↔◌}
use mathlib.Core.Bool.{Bool, true, false, ◌&&◌}
use mathlib.Core.Option.{Option, none, some}
use mathlib.Core.List.{List, [], ◌∷◌}
use native.Mathlib.Omega.{arith}
use messaging_system.Base.Tests.{◌==◌, ==_iff, if◌then◌else◌}
use messaging_system.Base.Text.{Text, text_eq, text_eq_iff}

pub record Key (K : Type 0) : Type 0 where
  pub same : K → K → Bool
  pub same_iff : (a b : K) → (same a b ≡ true) ↔ (a ≡ b)

abbrev pub nat_same : ℕ → ℕ → Bool
nat_same a b = a == b

abbrev pub pair_same : ℕ × ℕ → ℕ × ℕ → Bool
pair_same (a, b) (c, d) = (a == c) && (b == d)

pub pair_same_iff : (p q : ℕ × ℕ) → (pair_same p q ≡ true) ↔ (p ≡ q)
pair_same_iff (a, b) (c, d) = ground arith

instance abbrev pub nat_key : Key ℕ
nat_key = record { same = nat_same; same_iff = ==_iff }

instance abbrev pub pair_key : Key (ℕ × ℕ)
pair_key = record { same = pair_same; same_iff = pair_same_iff }

instance abbrev pub text_key : Key Text
text_key = record { same = text_eq; same_iff = text_eq_iff }

abbrev pub Table : Type 0 → Type 0 → Type 0
Table K V = List (K × V)

module _ {K V : Type 0} ⦃key : Key K⦄ where
  -- The row with the key, if there is one.
  unfoldable pub lookup : K → Table K V → Option V
  lookup k [] = none
  lookup k ((j, v) ∷ t) = if key.same j k then some v else lookup k t

  -- An update in place, or an insertion at the end.
  unfoldable pub put : K → V → Table K V → Table K V
  put k v [] = (k, v) ∷ []
  put k v ((j, w) ∷ t) = if key.same j k then (j, v) ∷ t else (j, w) ∷ put k v t

  unfoldable pub remove : K → Table K V → Table K V
  remove k [] = []
  remove k ((j, w) ∷ t) = let rest = remove k t in if key.same j k then rest else (j, w) ∷ rest

  pub lookup-put :
      (k j : K) (v : V) (t : Table K V)
      → lookup j (put k v t) ≡ (if key.same k j then some v else lookup j t)
  unfolding lookup put
  lookup-put k j v [] = refl
  lookup-put k j v ((i, w) ∷ t) =
      ground (arith, key.same_iff i k, key.same_iff i j, key.same_iff k j, lookup-put k j v t)

  pub lookup-remove :
      (k j : K) (t : Table K V)
      → lookup j (remove k t) ≡ (if key.same k j then none else lookup j t)
  unfolding lookup remove
  lookup-remove k j [] = ground arith
  lookup-remove k j ((i, w) ∷ t) =
      ground (arith, key.same_iff i k, key.same_iff i j, key.same_iff k j, lookup-remove k j t)

module _ {K V : Type 0} ⦃key : Key K⦄ (k j : K) (t : Table K V) where
  pub lookup-put_same : (v : V) → key.same k j ≡ true → lookup j (put k v t) ≡ some v
  lookup-put_same v h = rw (lookup-put k j v t, h)

  pub lookup-put_other : (v : V) → key.same k j ≡ false → lookup j (put k v t) ≡ lookup j t
  lookup-put_other v h = rw (lookup-put k j v t, h)

  pub lookup-remove_same : key.same k j ≡ true → lookup j (remove k t) ≡ none
  lookup-remove_same h = rw (lookup-remove k j t, h)

  pub lookup-remove_other : key.same k j ≡ false → lookup j (remove k t) ≡ lookup j t
  lookup-remove_other h = rw (lookup-remove k j t, h)

pub ruleset table_laws = (lookup-put, lookup-remove)
