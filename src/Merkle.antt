-- ===== src/Merkle.antt =====
-- backend/app/services/merkle_service.py: Merkle roots and inclusion proofs over SHA-256 texts.
-- A text is the list of its code points; SHA-256 with `hexdigest` is the parameter `sha256`.
pub mod Hex
pub mod Level
pub mod Proofs
pub mod Hashed
pub mod Rounds
pub mod Inversion
pub mod Binding
pub mod Tests
use messaging_system.Base.{
  ℕ, zero, suc, ◌+◌, ◌-◌, ◌/◌, ◌%◌, ◌≤◌, ◌<◌, ◌≡◌, Bool, true, false, ◌&&◌, Option, none, some,
  List, [], ◌∷◌, ◌++◌, ltb, leb, ◌==◌, if◌then◌else◌, length, get_elem?, Result, ok, err, ◌>>=◌,
  ◌>>◌, guard,
}
use messaging_system.Base.Text.{Text, text_eq}
use Hex.{
  Checked, malformed_hash, no_leaf, bad_leaf_count, bad_leaf_index, too_many_siblings, hash_bytes,
  to_hex,
}

-- The text of `node["side"]`: one of the two that the type allows, or any other.
pub data Side : Type 0 where
  left right other : Side

pub record ProofNode : Type 0 where
  pub side : Side
  pub hash : Text

pub record MerkleProof : Type 0 where
  pub leaf_index : ℕ
  pub leaf_count : ℕ
  pub siblings : List ProofNode

abbrev pub max_proof_siblings : ℕ
max_proof_siblings = 64

unfoldable pub validate_leaf_position : ℕ → ℕ → Checked (Unit {0})
validate_leaf_position leaf_index leaf_count = do
  guard (leb 1 leaf_count) bad_leaf_count
  guard (ltb leaf_index leaf_count) bad_leaf_index

-- `_hash_bytes(value).hex()`
unfoldable pub normalize : Text → Checked Text
normalize value = do b ← hash_bytes value; ok (to_hex b)

unfoldable pub normalize_all : List Text → Checked (List Text)
normalize_all [] = ok []
normalize_all (v ∷ vs) = do h ← normalize v; hs ← normalize_all vs; ok (h ∷ hs)

-- `level[0]`
abbrev pub first : List Text → Checked Text
first [] = err no_leaf
first (h ∷ _) = ok h

-- `{"side": s, "hash": h}`; the index is in range wherever this is called.
abbrev pub node : Side → Option Text → List ProofNode
node s none = []
node s (some h) = record { side = s; hash = h } ∷ []

-- The node that a round of `build_merkle_proof` appends.
unfoldable pub sibling_nodes : List Text → ℕ → List ProofNode
sibling_nodes level index =
    if index % 2 == 1
    then node left (get_elem? level (index - 1))
    else if ltb (index + 1) (length level)
    then node right (get_elem? level (index + 1))
    else []

unfoldable pub expected_side : ℕ → ℕ → Option Side
expected_side index width =
    if index % 2 == 1 then some left else if ltb (index + 1) width then some right else none

abbrev pub side_eq : Side → Side → Bool
side_eq left left = true
side_eq right right = true
side_eq other other = true
side_eq _ _ = false

-- `proof_index == len(siblings) and current == expected_root`
abbrev pub finished : Text → Option (Text × List ProofNode) → Bool
finished root none = false
finished root (some (current, [])) = text_eq current root
finished root (some (current, _ ∷ _)) = false

-- `except (TypeError, ValueError): return False`
abbrev pub or_false : Checked Bool → Bool
or_false (ok b) = b
or_false (err _) = false

module _ (sha256 : List ℕ → Text) where
  -- One raw digest under the 0x00 domain.
  unfoldable pub leaf_hash : Text → Checked Text
  leaf_hash event_hash = do b ← hash_bytes event_hash; ok (sha256 (0 ∷ b))

  -- Two raw digests under the 0x01 domain.
  unfoldable pub parent_hash : Text → Text → Checked Text
  parent_hash left_child right_child = do
    l ← hash_bytes left_child
    r ← hash_bytes right_child
    ok (sha256 (1 ∷ (l ++ r)))

  -- One round of the `while`: pairs are hashed, an unpaired last node is promoted.
  unfoldable pub next_level : List Text → Checked (List Text)
  next_level [] = ok []
  next_level (a ∷ []) = ok (a ∷ [])
  next_level (a ∷ b ∷ r) = do p ← parent_hash a b; rest ← next_level r; ok (p ∷ rest)

  -- `while len(level) > 1`, on fuel.
  unfoldable pub root_loop : ℕ → List Text → Checked Text
  root_loop zero level = first level
  root_loop (suc fuel) level = elim (ltb 1 (length level)) [
    | true ↦ next_level level >>= λ next. root_loop fuel next
    | false ↦ first level
  ]

  unfoldable pub build_merkle_root : List Text → Checked Text
  build_merkle_root leaves = do
    guard (ltb 0 (length leaves)) no_leaf
    level ← normalize_all leaves
    root_loop (length level) level

  unfoldable pub proof_loop : ℕ → List Text → ℕ → List ProofNode → Checked (List ProofNode)
  proof_loop zero level index siblings = ok siblings
  proof_loop (suc fuel) level index siblings = elim (ltb 1 (length level)) [
    | true ↦ next_level level >>= λ next.
        proof_loop fuel next (index / 2) (siblings ++ sibling_nodes level index)
    | false ↦ ok siblings
  ]

  unfoldable pub build_merkle_proof : List Text → ℕ → Checked MerkleProof
  build_merkle_proof leaves leaf_index = do
    validate_leaf_position leaf_index (length leaves)
    level ← normalize_all leaves
    siblings ← proof_loop (length level) level leaf_index []
    guard (leb (length siblings) max_proof_siblings) too_many_siblings
    ok (record { leaf_index = leaf_index; leaf_count = length leaves; siblings = siblings })

  -- `current` after the sibling is absorbed on the expected side.
  unfoldable pub absorb_sibling : Side → Text → Text → Checked Text
  absorb_sibling left sibling current = parent_hash sibling current
  absorb_sibling _ sibling current = parent_hash current sibling

  -- One round of the verifier: the new `current` and the siblings left, or `none` where it returns
  -- False or raises.
  unfoldable pub verify_round : Option Side → Text → List ProofNode → Option (Text × List ProofNode)
  verify_round none current nodes = some (current, nodes)
  verify_round (some side) current [] = none
  verify_round (some side) current (node ∷ nodes) =
      if side_eq node.side side
      then elim (normalize node.hash >>= λ sibling. absorb_sibling side sibling current) [
        | ok c ↦ some (c, nodes)
        | err _ ↦ none
      ]
      else none

  -- `while width > 1`, on fuel; `proof_index` is the number of siblings taken off the list.
  unfoldable pub verify_loop : ℕ → ℕ → ℕ → Text → List ProofNode → Option (Text × List ProofNode)
  verify_loop zero index width current nodes = some (current, nodes)
  verify_loop (suc fuel) index width current nodes = elim (ltb 1 width) [
    | true ↦ elim (verify_round (expected_side index width) current nodes) [
      | none ↦ none
      | some (c, ns) ↦ verify_loop fuel (index / 2) ((width + 1) / 2) c ns
    ]
    | false ↦ some (current, nodes)
  ]

  unfoldable pub verify_checked : Text → ℕ → ℕ → List ProofNode → Text → Checked Bool
  verify_checked leaf leaf_index leaf_count siblings merkle_root = do
    validate_leaf_position leaf_index leaf_count
    current ← normalize leaf
    expected_root ← normalize merkle_root
    if ltb max_proof_siblings (length siblings)
        then ok false
        else ok
            (finished expected_root (verify_loop leaf_count leaf_index leaf_count current siblings))

  unfoldable pub verify_merkle_proof : Text → ℕ → ℕ → List ProofNode → Text → Bool
  unfolding verify_checked
  verify_merkle_proof leaf leaf_index leaf_count siblings merkle_root =
      or_false (verify_checked leaf leaf_index leaf_count siblings merkle_root)

  unfoldable pub leaf_hashes : List Text → Checked (List Text)
  leaf_hashes [] = ok []
  leaf_hashes (e ∷ es) = do h ← leaf_hash e; hs ← leaf_hashes es; ok (h ∷ hs)

  unfoldable pub build_event_merkle_root : List Text → Checked Text
  build_event_merkle_root event_hashes = do hs ← leaf_hashes event_hashes; build_merkle_root hs

  unfoldable pub verify_event_merkle_proof : Text → ℕ → ℕ → List ProofNode → Text → Bool
  verify_event_merkle_proof event_hash leaf_index leaf_count siblings merkle_root = or_false (
      leaf_hash event_hash >>= λ leaf.
      ok (verify_merkle_proof leaf leaf_index leaf_count siblings merkle_root))
