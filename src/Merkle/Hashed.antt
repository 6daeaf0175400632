-- ===== src/Merkle/Hashed.antt =====
-- backend/app/services/merkle_service.py: the messages that building a root and checking a proof hash
-- under the 0x01 domain, read off the leaves and the proof.
use messaging_system.Base.{
  ℕ, zero, suc, ◌+◌, ◌/◌, ◌%◌, ◌≡◌, ◌≢◌, ◌⊎◌, refl, inl, inr, Option, none, some, List, [], ◌∷◌,
  ◌++◌, get_elem?, arith,
}
use messaging_system.Base.Text.{Text}
use messaging_system.Merkle.Hex.{from_hex}
use messaging_system.Merkle.Level.{parents}
use messaging_system.Merkle.{Side, left, ProofNode, expected_side, verify_round}

abbrev pub In : List ℕ → List (List ℕ) → Type 0
In x [] = ⊥
In x (y ∷ ys) = (y ≡ x) ⊎ In x ys

pub In-left : (x : List ℕ) (xs ys : List (List ℕ)) → In x xs → In x (xs ++ ys)
In-left x [] ys h = absurd h
In-left x (y ∷ xs) ys (inl p) = inl p
In-left x (y ∷ xs) ys (inr h) = inr (In-left x xs ys h)

pub In-right : (x : List ℕ) (xs ys : List (List ℕ)) → In x ys → In x (xs ++ ys)
In-right x [] ys h = h
In-right x (y ∷ xs) ys h = inr (In-right x xs ys h)

-- The message of a parent: two raw digests under the domain.
abbrev pub pair_message : Text → Text → List ℕ
pair_message a b = 1 ∷ (from_hex a ++ from_hex b)

abbrev pub absorbed_message : Side → Text → Text → List ℕ
absorbed_message left sibling current = pair_message sibling current
absorbed_message _ sibling current = pair_message current sibling

-- The messages of one round of `build_merkle_root`.
unfoldable pub level_messages : List Text → List (List ℕ)
level_messages [] = []
level_messages (a ∷ []) = []
level_messages (a ∷ b ∷ r) = pair_message a b ∷ level_messages r

-- The message of one round of `verify_merkle_proof`, if it has one.
abbrev pub round_messages : Option Side → Text → List ProofNode → List (List ℕ)
round_messages none current nodes = []
round_messages (some side) current [] = []
round_messages (some side) current (node ∷ nodes) = absorbed_message side node.hash current ∷ []

-- Two different messages, one of each list, with one digest.
abbrev pub Clash : (List ℕ → Text) → List (List ℕ) → List (List ℕ) → Type 0
Clash sha256 built verified =
    (x : List ℕ) × (y : List ℕ) × In x built × In y verified × (x ≢ y) × (sha256 x ≡ sha256 y)

pub level_messages-In :
    (level : List Text) (i : ℕ) (a b : Text)
    → i % 2 ≡ 0
    → get_elem? level i ≡ some a
    → get_elem? level (suc i) ≡ some b
    → In (pair_message a b) (level_messages level)
unfolding level_messages
level_messages-In [] i a b even p q = absurd (cc)
level_messages-In (c ∷ []) i a b even p q = absurd (cc)
level_messages-In (c ∷ d ∷ r) zero a b even p q =
    let e : c ≡ a = cc in let f : d ≡ b = cc in inl (rw (e, f) refl)
level_messages-In (c ∷ d ∷ r) (suc zero) a b even p q = absurd (omega arith)
level_messages-In (c ∷ d ∷ r) (suc (suc i)) a b even p q =
    inr (level_messages-In r i a b (omega arith) p q)

module _ (sha256 : List ℕ → Text) where
  -- The messages of all rounds of `build_merkle_root`.
  unfoldable pub built_messages : ℕ → List Text → List (List ℕ)
  built_messages zero level = []
  built_messages (suc fuel) level =
      level_messages level ++ built_messages fuel (parents sha256 level)

  -- The messages of all rounds of `verify_merkle_proof`.
  unfoldable pub verified_messages : ℕ → ℕ → ℕ → Text → List ProofNode → List (List ℕ)
  verified_messages zero index width current nodes = []
  verified_messages (suc fuel) index width current nodes =
      round_messages (expected_side index width) current nodes
      ++ elim (verify_round sha256 (expected_side index width) current nodes) [
        | none ↦ []
        | some (c, ns) ↦ verified_messages fuel (index / 2) ((width + 1) / 2) c ns
      ]

  pub Clash-left :
      (xs xs' ys ys' : List (List ℕ)) → Clash sha256 xs ys → Clash sha256 (xs ++ xs') (ys ++ ys')
  Clash-left xs xs' ys ys' (x, y, i, j, n, e) = (x, y, In-left x xs xs' i, In-left y ys ys' j, n, e)

  pub Clash-right :
      (xs xs' ys ys' : List (List ℕ)) → Clash sha256 xs' ys' → Clash sha256 (xs ++ xs') (ys ++ ys')
  Clash-right xs xs' ys ys' (x, y, i, j, n, e) =
      (x, y, In-right x xs xs' i, In-right y ys ys' j, n, e)
