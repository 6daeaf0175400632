-- ===== src/Merkle/Binding.antt =====
-- backend/app/services/merkle_service.py: what verify_merkle_proof accepts, set against the batch.
use messaging_system.Base.{
  ℕ, zero, suc, ◌+◌, ◌++◌, refl, ◌/◌, ◌≤◌, ◌<◌, ◌≡◌, ◌⊎◌, inl, inr, sym, ◌∙◌, subst, true, none,
  some, List, [], ◌∷◌, arith, ltb, length, get_elem?, get_elem?_total, All, ok, lt→ltb, ltb→lt,
  Bool-cases, Option-cases,
}
use messaging_system.Base.Text.{Text}
use messaging_system.Merkle.Hex.{IsHash}
use messaging_system.Merkle.Level.{IsDigest, parents, length-parents, parents-IsHash}
use messaging_system.Merkle.Proofs.{root_loop-step, verify_loop-step}
use messaging_system.Merkle.{
  ProofNode, expected_side, verify_round, root_loop, verify_loop, build_merkle_root,
  verify_merkle_proof,
}
use messaging_system.Merkle.Hashed.{
  Clash, round_messages, level_messages, built_messages, verified_messages, Clash-left, Clash-right,
}
use messaging_system.Merkle.Rounds.{Bound, RoundBound, round_binds, round_up_IsHash}
use messaging_system.Merkle.Inversion.{root_inversion, verify_inversion}

module _ (sha256 : List ℕ → Text) (digest : IsDigest sha256) where
  loop_one :
      (fuel : ℕ) (level : List Text) (cur top : Text) (nodes : List ProofNode)
      → length level ≡ 1
      → root_loop sha256 fuel level ≡ ok top
      → verify_loop sha256 fuel 0 1 cur nodes ≡ some (top, [])
      → get_elem? level 0 ≡ some cur
  unfolding root_loop verify_loop
  loop_one fuel [] cur top nodes l r v = absurd (omega arith)
  loop_one fuel (a ∷ b ∷ t) cur top nodes l r v = absurd (omega arith)
  loop_one zero (a ∷ []) cur top nodes l r v = cc
  loop_one (suc fuel) (a ∷ []) cur top nodes l r v = cc

  one_binds :
      (fuel : ℕ) (level : List Text) (i : ℕ) (cur top : Text) (nodes : List ProofNode)
      → length level ≡ 1
      → i < length level
      → root_loop sha256 fuel level ≡ ok top
      → verify_loop sha256 fuel i (length level) cur nodes ≡ some (top, [])
      → get_elem? level i ≡ some cur
  one_binds fuel level zero cur top nodes l inside r v =
      loop_one fuel level cur top nodes l r
        (subst (λ w. verify_loop sha256 fuel 0 w cur nodes ≡ some (top, [])) l v)
  one_binds fuel level (suc i) cur top nodes l inside r v = absurd (omega arith)

  verify_loop-step_none :
      (fuel i width : ℕ) (cur : Text) (nodes : List ProofNode)
      → 1 < width
      → verify_round sha256 (expected_side i width) cur nodes ≡ none
      → verify_loop sha256 (suc fuel) i width cur nodes ≡ none
  unfolding verify_loop
  verify_loop-step_none fuel i width cur nodes more e = rw (lt→ltb _ _ more, verify_loop) (rw e)

  -- The leaf is the batch's own, or the rounds of the two loops hash two messages to one digest.
  abbrev LoopBound : ℕ → List Text → ℕ → Text → List ProofNode → Type 0
  LoopBound fuel level i cur nodes =
      Bound sha256 (built_messages sha256 fuel level)
        (verified_messages sha256 fuel i (length level) cur nodes) level i cur

  verified-step :
      (fuel i width : ℕ) (cur up : Text) (nodes ns : List ProofNode)
      → verify_round sha256 (expected_side i width) cur nodes ≡ some (up, ns)
      → verified_messages sha256 (suc fuel) i width cur nodes
        ≡ round_messages (expected_side i width) cur nodes
          ++ verified_messages sha256 fuel (i / 2) ((width + 1) / 2) up ns
  unfolding verified_messages
  verified-step fuel i width cur up nodes ns e = rw (e, verified_messages) refl

  later_binds :
      (fuel i : ℕ) (level : List Text) (cur up : Text) (nodes ns : List ProofNode)
      → verify_round sha256 (expected_side i (length level)) cur nodes ≡ some (up, ns)
      → Clash sha256
          (built_messages sha256 fuel (parents sha256 level))
          (verified_messages sha256 fuel (i / 2) (length (parents sha256 level)) up ns)
      → LoopBound (suc fuel) level i cur nodes
  unfolding built_messages
  later_binds fuel i level cur up nodes ns e c = inr (
      subst (Clash sha256 (built_messages sha256 (suc fuel) level))
        (sym (verified-step fuel i (length level) cur up nodes ns e))
        (Clash-right sha256 (level_messages level)
          (built_messages sha256 fuel (parents sha256 level))
          (round_messages (expected_side i (length level)) cur nodes) _
          (subst
            (λ w.
              Clash sha256 (built_messages sha256 fuel (parents sha256 level))
                (verified_messages sha256 fuel (i / 2) w up ns))
            (length-parents sha256 level) c)))

  first_binds :
      (fuel i : ℕ) (level : List Text) (cur up : Text) (nodes ns : List ProofNode)
      → verify_round sha256 (expected_side i (length level)) cur nodes ≡ some (up, ns)
      → RoundBound sha256 level i cur nodes
      → LoopBound (suc fuel) level i cur nodes
  unfolding built_messages
  first_binds fuel i level cur up nodes ns e (inl p) = inl p
  first_binds fuel i level cur up nodes ns e (inr c) = inr (
      subst (Clash sha256 (built_messages sha256 (suc fuel) level))
        (sym (verified-step fuel i (length level) cur up nodes ns e))
        (Clash-left sha256 (level_messages level) _
          (round_messages (expected_side i (length level)) cur nodes) _ c))

  climbed :
      (fuel : ℕ) (level : List Text) (i : ℕ) (cur up : Text) (nodes ns : List ProofNode)
      → All IsHash level
      → IsHash cur
      → i < length level
      → verify_round sha256 (expected_side i (length level)) cur nodes ≡ some (up, ns)
      → LoopBound fuel (parents sha256 level) (i / 2) up ns
      → LoopBound (suc fuel) level i cur nodes
  climbed fuel level i cur up nodes ns h hc inside e (inl p) =
      let (own, g) = get_elem?_total level i inside in
      first_binds fuel i level cur up nodes ns e
        (round_binds sha256 level i own cur up nodes ns h hc g e p)
  climbed fuel level i cur up nodes ns h hc inside e (inr c) =
      later_binds fuel i level cur up nodes ns e c

  loop_binds :
      (fuel : ℕ) (level : List Text) (i : ℕ) (cur top : Text) (nodes : List ProofNode)
      → All IsHash level
      → IsHash cur
      → length level ≤ suc fuel
      → i < length level
      → root_loop sha256 fuel level ≡ ok top
      → verify_loop sha256 fuel i (length level) cur nodes ≡ some (top, [])
      → LoopBound fuel level i cur nodes
  loop_binds zero level i cur top nodes h hc l inside r v =
      inl (one_binds zero level i cur top nodes (omega arith) inside r v)
  loop_binds (suc fuel) level i cur top nodes h hc l inside r v =
      elim (Bool-cases (ltb 1 (length level))) [
        | inr t ↦ inl (one_binds (suc fuel) level i cur top nodes (ground arith) inside r v)
        | inl t ↦
            let more = ltb→lt 1 (length level) t in
            elim (Option-cases (verify_round sha256 (expected_side i (length level)) cur nodes)) [
              | inl e ↦ absurd (cc (verify_loop-step_none fuel i (length level) cur nodes more e))
              | inr ((up, ns), e) ↦ climbed fuel level i cur up nodes ns h hc inside e (
                  loop_binds fuel (parents sha256 level) (i / 2) up top ns
                    (parents-IsHash sha256 digest level h)
                    (round_up_IsHash sha256 digest (expected_side i (length level)) cur up nodes ns
                      hc e)
                    (omega (arith, length-parents sha256 level))
                    (omega (arith, length-parents sha256 level))
                    (sym (root_loop-step sha256 digest fuel level h more) ∙ r)
                    (rw (length-parents sha256 level) (
                      sym (
                        verify_loop-step sha256 digest fuel i (length level) cur up nodes ns more e)
                      ∙ v)))
            ]
      ]

  -- For a root that `build_merkle_root` returns, whatever `verify_merkle_proof` accepts at an index
  -- with the batch's own leaf count is the leaf that the batch holds at that index, unless a
  -- message hashed on the way to the root and a different one hashed in the rounds of this very
  -- verification have one digest. (Condition: the digests are hash texts.)
  pub verify-binds :
      (leaves : List Text) (root leaf : Text) (i : ℕ) (siblings : List ProofNode)
      → build_merkle_root sha256 leaves ≡ ok root
      → verify_merkle_proof sha256 leaf i (length leaves) siblings root ≡ true
      → (get_elem? leaves i ≡ some leaf)
        ⊎ Clash sha256
            (built_messages sha256 (length leaves) leaves)
            (verified_messages sha256 (length leaves) i (length leaves) leaf siblings)
  verify-binds leaves root leaf i siblings r v =
      let (valid, looped) = root_inversion sha256 leaves root r in
      let a = verify_inversion sha256 leaf i (length leaves) siblings root v in
      loop_binds (length leaves) leaves i leaf root siblings valid a.0 (omega arith) a.1 looped a.2
