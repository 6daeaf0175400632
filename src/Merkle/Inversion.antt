-- ===== src/Merkle/Inversion.antt =====
-- What the entry points of the Merkle module have checked, where they succeed.
use messaging_system.Base.{
  ℕ, ◌<◌, ◌≡◌, inl, inr, ap, subst, Bool, true, false, Option, none, some, List, [], ◌∷◌, arith,
  ltb, if◌then◌else◌, length, All, Result, ok, err, ◌>>=◌, guard, Bool-cases, >>=-eq-ok,
}
use messaging_system.Base.Text.{Text, text_eq_iff}
use messaging_system.Merkle.Hex.{MerkleError, no_leaf, IsHash}
use messaging_system.Merkle.{
  ProofNode, max_proof_siblings, normalize, normalize_all, validate_leaf_position, root_loop,
  verify_loop, finished, build_merkle_root, verify_checked, or_false, verify_merkle_proof,
}
use messaging_system.Merkle.Rounds.{normalize-IsHash, normalize_all-IsHash}

validated : (i n : ℕ) (u : Unit {0}) → validate_leaf_position i n ≡ ok u → i < n
unfolding validate_leaf_position
validated i n u h = ground arith

module _ (sha256 : List ℕ → Text) where
  pub root_inversion :
      (leaves : List Text) (root : Text)
      → build_merkle_root sha256 leaves ≡ ok root
      → All IsHash leaves × (root_loop sha256 (length leaves) leaves ≡ ok root)
  unfolding build_merkle_root
  root_inversion leaves root r =
      let (u, g, r') =
        >>=-eq-ok (guard (ltb 0 (length leaves)) no_leaf)
          (λ _. normalize_all leaves >>= λ level. root_loop sha256 (length level) level) r in
      let (level, n, r'') =
        >>=-eq-ok (normalize_all leaves) (λ level. root_loop sha256 (length level) level) r' in
      let (h, same) = normalize_all-IsHash leaves level n in
      (h, subst (λ l. root_loop sha256 (length l) l ≡ ok root) same r'')

  or_false-eq : (r : Result MerkleError Bool) → or_false r ≡ true → r ≡ ok true
  or_false-eq (ok b) h = ap ok h
  or_false-eq (err e) h = absurd (cc)

  finished-eq :
      (root : Text) (o : Option (Text × List ProofNode))
      → finished root o ≡ true
      → o ≡ some (root, [])
  finished-eq root none h = absurd (cc)
  finished-eq root (some (c, [])) h = ap (λ x. some (x, [])) ((text_eq_iff c root).0 h)
  finished-eq root (some (c, n ∷ ns)) h = absurd (cc)

  abbrev compare_root : ℕ → ℕ → List ProofNode → Text → Text → Result MerkleError Bool
  compare_root i n siblings current root =
      if ltb max_proof_siblings (length siblings)
      then ok false
      else ok (finished root (verify_loop sha256 n i n current siblings))

  compare_root-eq :
      (i n : ℕ) (siblings : List ProofNode) (current root : Text)
      → compare_root i n siblings current root ≡ ok true
      → verify_loop sha256 n i n current siblings ≡ some (root, [])
  compare_root-eq i n siblings current root h =
      elim (Bool-cases (ltb max_proof_siblings (length siblings))) [
        | inl t ↦ absurd (cc (rw t at h))
        | inr t ↦
            let e : ◌≡◌ {A = Result MerkleError Bool}
                (ok (finished root (verify_loop sha256 n i n current siblings))) (ok true) =
              rw t at h in
            finished-eq root (verify_loop sha256 n i n current siblings) (cc)
      ]

  pub verify_inversion :
      (leaf : Text) (i n : ℕ) (siblings : List ProofNode) (root : Text)
      → verify_merkle_proof sha256 leaf i n siblings root ≡ true
      → IsHash leaf × (i < n) × (verify_loop sha256 n i n leaf siblings ≡ some (root, []))
  unfolding verify_merkle_proof verify_checked
  verify_inversion leaf i n siblings root v =
      let w = or_false-eq (verify_checked sha256 leaf i n siblings root) v in
      let (u, p, q) =
        >>=-eq-ok (validate_leaf_position i n)
          (λ _. normalize leaf >>= λ c. normalize root >>= λ r. compare_root i n siblings c r) w in
      let (c, pc, q') =
        >>=-eq-ok (normalize leaf) (λ c. normalize root >>= λ r. compare_root i n siblings c r) q in
      let (r, pr, q'') = >>=-eq-ok (normalize root) (λ r. compare_root i n siblings c r) q' in
      let (hl, same) = normalize-IsHash leaf c pc in
      let (hr, same') = normalize-IsHash root r pr in
      let e = compare_root-eq i n siblings c r q'' in
      (
        hl,
        validated i n u p,
        subst (λ x. verify_loop sha256 n i n leaf siblings ≡ some (x, [])) same'
            (subst (λ x. verify_loop sha256 n i n x siblings ≡ some (r, [])) same e),
      )
