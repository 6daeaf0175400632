-- ===== src/Merkle/Level.antt =====
-- One round of the tree: where a node of a level goes in the next level.
use messaging_system.Base.{
  ℕ, zero, suc, ◌+◌, ◌/◌, ◌%◌, ◌<◌, ◌≡◌, refl, some, List, [], ◌∷◌, ◌++◌, arith, length, get_elem?,
  All, ok,
}
use messaging_system.Base.Text.{Text}
use messaging_system.Merkle.Hex.{IsHash, hash_bytes_valid, from_hex, to_hex-hash}
use messaging_system.Merkle.{normalize, normalize_all, parent_hash, next_level}

-- The parameter returns hash texts, as `hexdigest` of SHA-256 does.
abbrev pub IsDigest : (List ℕ → Text) → Type 0
IsDigest sha256 = (m : List ℕ) → IsHash (sha256 m)

pub normalize_valid : (v : Text) → IsHash v → normalize v ≡ ok v
unfolding normalize
normalize_valid v h = rw (hash_bytes_valid v h, to_hex-hash v h)

pub normalize_all_valid : (vs : List Text) → All IsHash vs → normalize_all vs ≡ ok vs
unfolding normalize_all
normalize_all_valid [] h = refl
normalize_all_valid (v ∷ vs) h = rw (normalize_valid v h.0, normalize_all_valid vs h.1)

module _ (sha256 : List ℕ → Text) where
  -- The parent of two hash texts.
  unfoldable pub parent : Text → Text → Text
  parent a b = sha256 (1 ∷ (from_hex a ++ from_hex b))

  -- A round without its checks.
  unfoldable pub parents : List Text → List Text
  parents [] = []
  parents (a ∷ []) = a ∷ []
  parents (a ∷ b ∷ r) = parent a b ∷ parents r

  pub parent_hash_valid :
      (a b : Text) → IsHash a → IsHash b → parent_hash sha256 a b ≡ ok (parent a b)
  unfolding parent_hash parent
  parent_hash_valid a b h k = rw (hash_bytes_valid a h, hash_bytes_valid b k)

  pub next_level_valid :
      (level : List Text) → All IsHash level → next_level sha256 level ≡ ok (parents level)
  unfolding next_level parents
  next_level_valid [] h = refl
  next_level_valid (a ∷ []) h = refl
  next_level_valid (a ∷ b ∷ r) h = rw (parent_hash_valid a b h.0 h.1.0, next_level_valid r h.1.1)

  pub length-parents : (level : List Text) → length (parents level) ≡ (length level + 1) / 2
  unfolding parents
  length-parents [] = omega arith
  length-parents (a ∷ []) = omega arith
  length-parents (a ∷ b ∷ r) = omega (arith, length-parents r)

  pub parents-IsHash :
      IsDigest sha256 → (level : List Text) → All IsHash level → All IsHash (parents level)
  unfolding parents parent
  parents-IsHash d [] h = tt
  parents-IsHash d (a ∷ []) h = h
  parents-IsHash d (a ∷ b ∷ r) h = (d _, parents-IsHash d r h.1.1)

  -- The three places of a node in its level, with its sibling and its parent.
  pub data Place (level : List Text) (i : ℕ) (cur : Text) : Type 0 where
    on_right :
        (j : ℕ) (s : Text)
        → i ≡ suc j
        → j % 2 ≡ 0
        → get_elem? level j ≡ some s
        → get_elem? (parents level) (i / 2) ≡ some (parent s cur)
        → Place level i cur
    on_left :
        (s : Text)
        → i % 2 ≡ 0
        → i + 1 < length level
        → get_elem? level (suc i) ≡ some s
        → get_elem? (parents level) (i / 2) ≡ some (parent cur s)
        → Place level i cur
    promoted :
        i % 2 ≡ 0
        → i + 1 ≡ length level
        → get_elem? (parents level) (i / 2) ≡ some cur
        → Place level i cur

  half_step : (i : ℕ) → suc (suc i) / 2 ≡ suc (i / 2)
  half_step i = omega arith

  shift :
      (a b : Text) (r : List Text) (i : ℕ) (cur : Text)
      → Place r i cur
      → Place (a ∷ b ∷ r) (suc (suc i)) cur
  unfolding parents
  shift a b r i cur (on_right j s e p g q) =
      on_right (suc (suc j)) s (omega arith) (omega arith) g (rw (half_step i) q)
  shift a b r i cur (on_left s p l g q) =
      on_left s (omega arith) (omega arith) g (rw (half_step i) q)
  shift a b r i cur (promoted p l q) = promoted (omega arith) (omega arith) (rw (half_step i) q)

  pub place :
      (level : List Text) (i : ℕ) (cur : Text) → get_elem? level i ≡ some cur → Place level i cur
  unfolding parents
  place [] i cur h = absurd (cc)
  place (a ∷ []) zero cur h = promoted refl refl h
  place (a ∷ []) (suc i) cur h = absurd (cc)
  place (a ∷ b ∷ r) zero cur h = on_left b refl (omega arith) refl (cc)
  place (a ∷ b ∷ r) (suc zero) cur h = on_right 0 a refl refl refl (cc)
  place (a ∷ b ∷ r) (suc (suc i)) cur h = shift a b r i cur (place r i cur h)
