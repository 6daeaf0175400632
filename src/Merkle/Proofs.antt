-- ===== src/Merkle/Proofs.antt =====
-- backend/app/services/merkle_service.py: the proofs that build_merkle_proof builds, and the rounds
-- of verify_merkle_proof on them.
use mathlib.Core.List.{append_assoc, append-nil}
use native.Mathlib.Nat.{pow-suc}
use messaging_system.Base.{
  ℕ, zero, suc, ◌+◌, ◌-◌, ◌/◌, ◌%◌, ◌^◌, ◌≤◌, ◌<◌, ◌≡◌, refl, sym, ap, ◌∙◌, subst, true, false,
  some, List, [], ◌∷◌, ◌++◌, arith, ltb, leb, ◌==◌, length, get_elem?, All, ok, length-append,
  lt→ltb, ltb→lt, Bool-cases, inl, inr, All-get_elem?,
}
use messaging_system.Base.Text.{Text, text_eq_iff}
use messaging_system.Merkle.Hex.{IsHash}
use messaging_system.Merkle.Level.{
  IsDigest, normalize_valid, normalize_all_valid, parent, parents, parent_hash_valid,
  next_level_valid, length-parents, parents-IsHash, Place, on_right, on_left, promoted, place,
}
use messaging_system.Merkle.{
  ProofNode, MerkleProof, validate_leaf_position, sibling_nodes, expected_side, absorb_sibling,
  verify_round, root_loop, proof_loop, verify_loop, build_merkle_root, build_merkle_proof,
  verify_checked, verify_merkle_proof,
}

validate_inside : (i n : ℕ) → i < n → validate_leaf_position i n ≡ ok tt
unfolding validate_leaf_position
validate_inside i n h = ground arith

pub get_elem?-inside : (l : List Text) (i : ℕ) (a : Text) → get_elem? l i ≡ some a → i < length l
get_elem?-inside [] i a e = absurd (cc)
get_elem?-inside (x ∷ l) zero a e = omega arith
get_elem?-inside (x ∷ l) (suc i) a e = omega (arith, get_elem?-inside l i a e)

module _ (sha256 : List ℕ → Text) (digest : IsDigest sha256) where
  -- What one round does at a place: the parent, and the sibling that takes the verifier there.
  record Round (level : List Text) (i : ℕ) (cur : Text) : Type 0 where
    up : Text
    at_parent : get_elem? (parents sha256 level) (i / 2) ≡ some up
    one : length (sibling_nodes level i) ≤ 1
    climbs :
        (rest : List ProofNode)
        → verify_round sha256 (expected_side i (length level)) cur (sibling_nodes level i ++ rest)
          ≡ some (up, rest)

  Round-right :
      (level : List Text) (j : ℕ) (cur s : Text)
      → IsHash cur
      → IsHash s
      → j % 2 ≡ 0
      → get_elem? level j ≡ some s
      → get_elem? (parents sha256 level) (suc j / 2) ≡ some (parent sha256 s cur)
      → Round level (suc j) cur
  unfolding sibling_nodes expected_side verify_round absorb_sibling
  Round-right level j cur s hc hs even g q =
      let odd : (suc j % 2 == 1) ≡ true = ground arith in
      let back : suc j - 1 ≡ j = omega arith in
      record {
        up = parent sha256 s cur;
        at_parent = q;
        one = rw (odd, back, g) (omega arith);
        climbs = λ rest.
            rw (odd, back, g)
              (rw (normalize_valid s hs) (rw (parent_hash_valid sha256 s cur hs hc)));
      }

  Round-left :
      (level : List Text) (i : ℕ) (cur s : Text)
      → IsHash cur
      → IsHash s
      → i % 2 ≡ 0
      → i + 1 < length level
      → get_elem? level (suc i) ≡ some s
      → get_elem? (parents sha256 level) (i / 2) ≡ some (parent sha256 cur s)
      → Round level i cur
  unfolding sibling_nodes expected_side verify_round absorb_sibling
  Round-left level i cur s hc hs even fits g q =
      let parity : (i % 2 == 1) ≡ false = ground arith in
      let next : i + 1 ≡ suc i = omega arith in
      let inside : ltb (suc i) (length level) ≡ true = lt→ltb _ _ (omega arith) in
      record {
        up = parent sha256 cur s;
        at_parent = q;
        one = rw (parity, next, inside, g) (omega arith);
        climbs = λ rest.
            rw (parity, next, inside, g)
              (rw (normalize_valid s hs) (rw (parent_hash_valid sha256 cur s hc hs)));
      }

  Round-promoted :
      (level : List Text) (i : ℕ) (cur : Text)
      → i % 2 ≡ 0
      → i + 1 ≡ length level
      → get_elem? (parents sha256 level) (i / 2) ≡ some cur
      → Round level i cur
  unfolding sibling_nodes expected_side verify_round
  Round-promoted level i cur even last q =
      let parity : (i % 2 == 1) ≡ false = ground arith in
      let outside : ltb (i + 1) (length level) ≡ false = ground arith in
      record {
        up = cur;
        at_parent = q;
        one = rw (parity, outside) (omega arith);
        climbs = λ rest. rw (parity, outside);
      }

  Round-at :
      (level : List Text) (i : ℕ) (cur : Text)
      → All IsHash level
      → get_elem? level i ≡ some cur
      → Round level i cur
  Round-at level i cur h g = go (place sha256 level i cur g)
    where
      hc : IsHash cur
      hc = All-get_elem? IsHash level i cur h g

      go : Place sha256 level i cur → Round level i cur
      go (on_right j s e p g' q) =
          subst (λ k. Round level k cur) (sym e)
            (Round-right level j cur s hc (All-get_elem? IsHash level j s h g') p g' (
              subst (λ k. get_elem? (parents sha256 level) (k / 2) ≡ some (parent sha256 s cur)) e
                q))
      go (on_left s p l g' q) =
          Round-left level i cur s hc (All-get_elem? IsHash level (suc i) s h g') p l g' q
      go (promoted p l q) = Round-promoted level i cur p l q

  proof_loop-step :
      (fuel : ℕ) (level : List Text) (i : ℕ) (acc : List ProofNode)
      → All IsHash level
      → 1 < length level
      → proof_loop sha256 (suc fuel) level i acc
        ≡ proof_loop sha256 fuel (parents sha256 level) (i / 2) (acc ++ sibling_nodes level i)
  unfolding proof_loop
  proof_loop-step fuel level i acc h more =
      rw (lt→ltb _ _ more, proof_loop) (rw (next_level_valid sha256 level h))

  pub root_loop-step :
      (fuel : ℕ) (level : List Text)
      → All IsHash level
      → 1 < length level
      → root_loop sha256 (suc fuel) level ≡ root_loop sha256 fuel (parents sha256 level)
  unfolding root_loop
  root_loop-step fuel level h more =
      rw (lt→ltb _ _ more, root_loop) (rw (next_level_valid sha256 level h))

  pub verify_loop-step :
      (fuel i width : ℕ) (cur up : Text) (nodes rest : List ProofNode)
      → 1 < width
      → verify_round sha256 (expected_side i width) cur nodes ≡ some (up, rest)
      → verify_loop sha256 (suc fuel) i width cur nodes
        ≡ verify_loop sha256 fuel (i / 2) ((width + 1) / 2) up rest
  unfolding verify_loop
  verify_loop-step fuel i width cur up nodes rest more e = rw (lt→ltb _ _ more, verify_loop) (rw e)

  build_proof_from :
      (leaves : List Text) (i : ℕ) (path : List ProofNode)
      → All IsHash leaves
      → validate_leaf_position i (length leaves) ≡ ok tt
      → proof_loop sha256 (length leaves) leaves i [] ≡ ok path
      → length path ≤ 64
      → build_merkle_proof sha256 leaves i
        ≡ ok (record { leaf_index = i; leaf_count = length leaves; siblings = path })
  unfolding build_merkle_proof
  build_proof_from leaves i path h p e short =
      let fits : leb (length path) 64 ≡ true = ground arith in
      rw (p, normalize_all_valid leaves h) (rw e (rw fits))

  build_root_from :
      (leaves : List Text) (top : Text)
      → All IsHash leaves
      → 0 < length leaves
      → root_loop sha256 (length leaves) leaves ≡ ok top
      → build_merkle_root sha256 leaves ≡ ok top
  unfolding build_merkle_root
  build_root_from leaves top h some_leaf e =
      rw (lt→ltb _ _ some_leaf, normalize_all_valid leaves h) e

  accepts :
      (leaf : Text) (i n : ℕ) (path : List ProofNode) (root : Text)
      → IsHash leaf
      → IsHash root
      → validate_leaf_position i n ≡ ok tt
      → length path ≤ 64
      → verify_loop sha256 n i n leaf path ≡ some (root, [])
      → verify_merkle_proof sha256 leaf i n path root ≡ true
  unfolding verify_merkle_proof verify_checked
  accepts leaf i n path root hl hr p short e =
      let fits : ltb 64 (length path) ≡ false = ground arith in
      rw (p, normalize_valid leaf hl, normalize_valid root hr, fits)
        (rw e ((text_eq_iff root root).1 refl))

  -- The builder's and the verifier's loops from one level on.
  pub record Climb (fuel : ℕ) (level : List Text) (i : ℕ) (cur : Text) : Type 0 where
    pub path : List ProofNode
    pub top : Text
    pub top_hash : IsHash top
    pub builds : (acc : List ProofNode) → proof_loop sha256 fuel level i acc ≡ ok (acc ++ path)
    pub reaches : root_loop sha256 fuel level ≡ ok top
    pub verifies :
        (rest : List ProofNode)
        → verify_loop sha256 fuel i (length level) cur (path ++ rest) ≡ some (top, rest)
    pub short : (k : ℕ) → length level ≤ 2 ^ k → length path ≤ k

  Climb-top :
      (fuel : ℕ) (level : List Text) (i : ℕ) (cur : Text)
      → All IsHash level
      → length level ≤ 1
      → get_elem? level i ≡ some cur
      → Climb fuel level i cur
  Climb-top fuel [] i cur h l g = absurd (cc)
  Climb-top fuel (a ∷ b ∷ r) i cur h l g = absurd (omega arith)
  Climb-top fuel (a ∷ []) (suc i) cur h l g = absurd (cc)
  Climb-top zero (a ∷ []) zero cur h l g =
      unfold proof_loop root_loop verify_loop in
      record {
        path = [];
        top = a;
        top_hash = h.0;
        builds = λ acc. cc (append-nil acc);
        reaches = refl;
        verifies = λ rest. cc;
        short = λ k p. omega arith;
      }
  Climb-top (suc fuel) (a ∷ []) zero cur h l g =
      unfold proof_loop root_loop verify_loop in
      record {
        path = [];
        top = a;
        top_hash = h.0;
        builds = λ acc. cc (append-nil acc);
        reaches = refl;
        verifies = λ rest. cc;
        short = λ k p. omega arith;
      }

  Climb-step :
      (fuel : ℕ) (level : List Text) (i : ℕ) (cur : Text)
      → All IsHash level
      → 1 < length level
      → (r : Round level i cur) → Climb fuel (parents sha256 level) (i / 2) r.up
      → Climb (suc fuel) level i cur
  Climb-step fuel level i cur h more r c = record {
    path = sibling_nodes level i ++ c.path;
    top = c.top;
    top_hash = c.top_hash;
    builds = λ acc.
        proof_loop-step fuel level i acc h more
        ∙ c.builds (acc ++ sibling_nodes level i)
        ∙ ap ok (append_assoc acc (sibling_nodes level i) c.path);
    reaches = root_loop-step fuel level h more ∙ c.reaches;
    verifies = λ rest.
        verify_loop-step fuel i (length level) cur r.up ((sibling_nodes level i ++ c.path) ++ rest)
          (c.path ++ rest) more
          (rw (append_assoc (sibling_nodes level i) c.path rest) (r.climbs (c.path ++ rest)))
        ∙ rw (← length-parents sha256 level) (c.verifies rest);
    short = step_short;
  }
    where
      step_short : (k : ℕ) → length level ≤ 2 ^ k → length (sibling_nodes level i ++ c.path) ≤ k
      step_short zero l = absurd (omega arith)
      step_short (suc k) l =
          let half : length (parents sha256 level) ≤ 2 ^ k =
            omega (arith, length-parents sha256 level, pow-suc 2 k) in
          omega (arith, length-append (sibling_nodes level i) c.path, r.one, c.short k half)

  -- Fuel as long as the level is enough, since every round halves the level.
  pub climb :
      (fuel : ℕ) (level : List Text) (i : ℕ) (cur : Text)
      → All IsHash level
      → length level ≤ suc fuel
      → get_elem? level i ≡ some cur
      → Climb fuel level i cur
  climb zero level i cur h l g = Climb-top zero level i cur h l g
  climb (suc fuel) level i cur h l g = elim (Bool-cases (ltb 1 (length level))) [
    | inl t ↦
        let r = Round-at level i cur h g in
        Climb-step fuel level i cur h (ltb→lt _ _ t) r (
          climb fuel (parents sha256 level) (i / 2) r.up (parents-IsHash sha256 digest level h)
            (omega (arith, length-parents sha256 level, ltb→lt 1 (length level) t)) r.at_parent)
    | inr t ↦ Climb-top (suc fuel) level i cur h (ground arith) g
  ]

  -- What the three entry points do for one leaf of a valid batch.
  pub record Proved (leaves : List Text) (i : ℕ) (leaf : Text) : Type 0 where
    pub proof : MerkleProof
    pub root : Text
    pub root_hash : IsHash root
    pub built : build_merkle_proof sha256 leaves i ≡ ok proof
    pub rooted : build_merkle_root sha256 leaves ≡ ok root
    pub accepted : verify_merkle_proof sha256 leaf i (length leaves) proof.siblings root ≡ true
    pub logarithmic : (k : ℕ) → length leaves ≤ 2 ^ k → length proof.siblings ≤ k

  -- For every batch of 1 to 2^64 hash texts and every index of it, `build_merkle_root` and
  -- `build_merkle_proof` return, `verify_merkle_proof` accepts that proof for that leaf, index,
  -- count and root, the root is again a hash text, and a batch of at most 2^k leaves has a proof
  -- of at most k siblings.
  pub verify-build :
      (leaves : List Text) (i : ℕ) (leaf : Text)
      → All IsHash leaves
      → length leaves ≤ 2 ^ 64
      → get_elem? leaves i ≡ some leaf
      → Proved leaves i leaf
  verify-build leaves i leaf h fits g =
      proved (climb (length leaves) leaves i leaf h (omega arith) g)
    where
      inside : i < length leaves
      inside = get_elem?-inside leaves i leaf g

      position : validate_leaf_position i (length leaves) ≡ ok tt
      position = validate_inside i (length leaves) inside

      proved : Climb (length leaves) leaves i leaf → Proved leaves i leaf
      proved c = record {
        proof = record { leaf_index = i; leaf_count = length leaves; siblings = c.path };
        root = c.top;
        root_hash = c.top_hash;
        built = build_proof_from leaves i c.path h position (c.builds []) (c.short 64 fits);
        rooted = build_root_from leaves c.top h (omega (arith, inside)) c.reaches;
        accepted =
            accepts leaf i (length leaves) c.path c.top (All-get_elem? IsHash leaves i leaf h g)
              c.top_hash position (c.short 64 fits) (rw (append-nil c.path) at (c.verifies []));
        logarithmic = c.short;
      }
