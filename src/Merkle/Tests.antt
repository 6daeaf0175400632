-- ===== src/Merkle/Tests.antt =====
-- The Merkle module at small batches, with a toy digest in the place of SHA-256.
use messaging_system.Base.{
  ℕ, ◌+◌, ◌*◌, ◌/◌, ◌%◌, ◌≡◌, ◌⊎◌, refl, true, false, some, List, [], ◌∷◌, ◌++◌, arith, get_elem?,
  replicate, All, ok,
}
use messaging_system.Base.Text.{Text, text_eq}
use messaging_system.Merkle.Hex.{
  IsHash, is_hex, is_hash_hex, hash_bytes, hex_digit, hex_digit-is_hex, from_hex, to_hex,
}
use messaging_system.Merkle.Level.{IsDigest}
use messaging_system.Merkle.Hashed.{Clash, built_messages, verified_messages}
use messaging_system.Merkle.Proofs.{Proved, verify-build}
use messaging_system.Merkle.Binding.{verify-binds}
use messaging_system.Merkle.{
  left, build_merkle_root, verify_merkle_proof, normalize, normalize_all, parent_hash, next_level,
  root_loop, verify_loop, verify_round, verify_checked, expected_side, absorb_sibling,
  validate_leaf_position,
}

weigh : ℕ → List ℕ → ℕ
weigh acc [] = acc
weigh acc (b ∷ bs) = weigh ((acc * 31 + b + 1) % 65521) bs

-- Four digits that depend on the whole message, then sixty zeros.
toy_digest : List ℕ → Text
unfolding weigh hex_digit
toy_digest m =
    let w = weigh 7 m in
    hex_digit (w % 16)
    ∷ hex_digit (w / 16 % 16)
    ∷ hex_digit (w / 256 % 16)
    ∷ hex_digit (w / 4096 % 16)
    ∷ replicate 60 b'0'

digest_shape :
    (a b c d : ℕ)
    → is_hash_hex (
        hex_digit (a % 16)
        ∷ hex_digit (b % 16)
        ∷ hex_digit (c % 16)
        ∷ hex_digit (d % 16)
        ∷ replicate 60 b'0')
      ≡ true
unfolding is_hash_hex
digest_shape a b c d =
    rw (hex_digit-is_hex a, hex_digit-is_hex b, hex_digit-is_hex c, hex_digit-is_hex d)
      (unfold is_hex in refl)

toy-IsDigest : IsDigest toy_digest
unfolding toy_digest
toy-IsDigest m = digest_shape (weigh 7 m) (weigh 7 m / 16) (weigh 7 m / 256) (weigh 7 m / 4096)

abbrev leaf_a : Text
leaf_a = replicate 64 b'a'

abbrev leaf_b : Text
leaf_b = replicate 64 b'b'

abbrev leaf_c : Text
leaf_c = replicate 64 b'c'

abbrev batch : List Text
batch = leaf_a ∷ leaf_b ∷ leaf_c ∷ []

batch_hashes : All IsHash batch
unfolding is_hash_hex is_hex
batch_hashes = (refl, (refl, (refl, tt)))

-- The third of three leaves: promoted in the first round, then the right child of the root.
verify-build_example : Proved toy_digest toy-IsDigest batch 2 leaf_c
verify-build_example =
    verify-build toy_digest toy-IsDigest batch 2 leaf_c batch_hashes (omega arith) refl

abbrev root_ab : Text
root_ab = toy_digest (1 ∷ (replicate 32 0xaa ++ replicate 32 0xbb))

abbrev pair : List Text
pair = leaf_a ∷ leaf_b ∷ []

root-pair : build_merkle_root toy_digest pair ≡ ok root_ab
unfolding build_merkle_root normalize_all normalize hash_bytes is_hash_hex is_hex from_hex to_hex
    root_loop next_level parent_hash toy_digest
root-pair = refl

verify-pair :
    verify_merkle_proof toy_digest leaf_b 1 2 (record { side = left; hash = leaf_a } ∷ []) root_ab
    ≡ true
unfolding verify_merkle_proof verify_checked validate_leaf_position normalize hash_bytes is_hash_hex
    is_hex from_hex to_hex verify_loop verify_round expected_side absorb_sibling parent_hash
    toy_digest text_eq
verify-pair = refl

-- The same leaf and sibling are refused at the other index.
verify-wrong_index :
    verify_merkle_proof toy_digest leaf_b 0 2 (record { side = left; hash = leaf_a } ∷ []) root_ab
    ≡ false
unfolding verify_merkle_proof verify_checked validate_leaf_position normalize hash_bytes is_hash_hex
    is_hex from_hex to_hex verify_loop verify_round expected_side absorb_sibling parent_hash
    toy_digest text_eq
verify-wrong_index = refl

verify-binds_example :
    (get_elem? pair 1 ≡ some leaf_b)
    ⊎ Clash toy_digest
        (built_messages toy_digest 2 pair)
        (verified_messages toy_digest 2 1 2 leaf_b (record { side = left; hash = leaf_a } ∷ []))
verify-binds_example =
    verify-binds toy_digest toy-IsDigest pair root_ab leaf_b 1
      (record { side = left; hash = leaf_a } ∷ []) root-pair verify-pair
