-- ===== src/Merkle/Rounds.antt =====
-- backend/app/services/merkle_service.py: one round of the verifier beside one round of the tree.
use messaging_system.Base.{
  ℕ, suc, ◌+◌, ◌/◌, ◌%◌, ◌<◌, ◌≡◌, ◌⊎◌, inl, inr, refl, sym, ap, ◌∙◌, subst, Option, none, some,
  List, [], ◌∷◌, ◌++◌, arith, length, get_elem?, All, All-get_elem?, Result, ok, ◌>>=◌, Bool-cases,
  Result-cases, >>=-eq-ok,
}
use messaging_system.Base.Text.{Text, same_or_not}
use messaging_system.Merkle.Hex.{
  MerkleError, IsHash, hash_bytes, hash_bytes-IsHash, from_hex, from_hex_injective, to_hex,
  to_hex-hash, length-hash,
}
use messaging_system.Merkle.Level.{
  IsDigest, parent, parents, parent_hash_valid, Place, on_right, on_left, promoted, place,
}
use messaging_system.Merkle.Hashed.{
  In, Clash, absorbed_message, level_messages, pair_message, round_messages, level_messages-In,
}
use messaging_system.Merkle.{
  Side, left, right, ProofNode, normalize, normalize_all, expected_side, side_eq, absorb_sibling,
  verify_round,
}

length-from_hex :
    (v : Text) → length v % 2 ≡ 0 → length (from_hex v) + length (from_hex v) ≡ length v
unfolding from_hex
length-from_hex [] e = refl
length-from_hex (a ∷ []) e = absurd (omega arith)
length-from_hex (a ∷ b ∷ r) e = omega (arith, length-from_hex r)

length-from_hash : (v : Text) → IsHash v → length (from_hex v) ≡ 32
length-from_hash v h = omega (arith, length-from_hex v, length-hash v h)

pub append_parts : (a b c d : List ℕ) → length a ≡ length c → a ++ b ≡ c ++ d → (a ≡ c) × (b ≡ d)
append_parts [] b [] d l e = (refl, e)
append_parts [] b (y ∷ c) d l e = absurd (omega arith)
append_parts (x ∷ a) b [] d l e = absurd (omega arith)
append_parts (x ∷ a) b (y ∷ c) d l e =
    let t : a ++ b ≡ c ++ d = cc in
    let h : x ≡ y = cc in let (p, q) = append_parts a b c d (omega arith) t in (cc, q)

pub normalize-IsHash : (v w : Text) → normalize v ≡ ok w → IsHash v × (w ≡ v)
unfolding normalize
normalize-IsHash v w e =
    let (b, p, q) = >>=-eq-ok (hash_bytes v) (λ b. ok (to_hex b)) e in
    let (h, r) = hash_bytes-IsHash v b p in (h, cc (to_hex-hash v h))

pub normalize_all-IsHash :
    (vs ws : List Text) → normalize_all vs ≡ ok ws → All IsHash vs × (ws ≡ vs)
unfolding normalize_all
normalize_all-IsHash [] ws e = (tt, cc)
normalize_all-IsHash (v ∷ vs) ws e =
    let (h, p, q) = >>=-eq-ok (normalize v) (λ h. normalize_all vs >>= λ hs. ok (h ∷ hs)) e in
    let (hs, p', q') = >>=-eq-ok (normalize_all vs) (λ hs. ok (h ∷ hs)) q in
    let (i, r) = normalize-IsHash v h p in
    let (is, rs) = normalize_all-IsHash vs hs p' in ((i, is), cc)

side_left : (i width : ℕ) → i % 2 ≡ 1 → expected_side i width ≡ some left
unfolding expected_side
side_left i width odd = ground arith

side_right : (i width : ℕ) → i % 2 ≡ 0 → i + 1 < width → expected_side i width ≡ some right
unfolding expected_side
side_right i width even fits = ground arith

side_none : (i width : ℕ) → i % 2 ≡ 0 → i + 1 ≡ width → expected_side i width ≡ none
unfolding expected_side
side_none i width even last = ground arith

module _ (sha256 : List ℕ → Text) where
  -- Equal digests of different messages are a collision.
  same_message :
      (xs ys : List (List ℕ)) (x y : List ℕ)
      → In x xs
      → In y ys
      → sha256 x ≡ sha256 y
      → (x ≡ y) ⊎ Clash sha256 xs ys
  same_message xs ys x y i j e = elim (same_or_not x y) [
    | inl p ↦ inl p
    | inr n ↦ inr (x, y, i, j, n, e)
  ]

  parent_injective :
      (xs ys : List (List ℕ)) (a b c d : Text)
      → In (pair_message a b) xs
      → In (pair_message c d) ys
      → IsHash a
      → IsHash b
      → IsHash c
      → IsHash d
      → parent sha256 a b ≡ parent sha256 c d
      → ((a ≡ c) × (b ≡ d)) ⊎ Clash sha256 xs ys
  unfolding parent
  parent_injective xs ys a b c d i j ha hb hc hd e =
      elim (same_message xs ys (1 ∷ (from_hex a ++ from_hex b)) (1 ∷ (from_hex c ++ from_hex d)) i j
        e) [
          | inl p ↦
              let q : from_hex a ++ from_hex b ≡ from_hex c ++ from_hex d = cc in
              let (u, v) =
                append_parts (from_hex a) (from_hex b) (from_hex c) (from_hex d)
                  (omega (arith, length-from_hash a ha, length-from_hash c hc)) q in
              inl (from_hex_injective a c ha hc u, from_hex_injective b d hb hd v)
          | inr n ↦ inr n
        ]

  up_none :
      {own : Text} (cur up : Text) (nodes ns : List ProofNode)
      → verify_round sha256 none cur nodes ≡ some (up, ns)
      → own ≡ up
      → own ≡ cur
  unfolding verify_round
  up_none cur up nodes ns e p = cc

  -- What the verifier makes of a sibling's text.
  abbrev absorbed : Side → Text → Text → Result MerkleError Text
  absorbed side cur hash = normalize hash >>= λ sibling. absorb_sibling sha256 side sibling cur

  -- A round that absorbs a sibling has read a hash text.
  round_sibling :
      (side : Side) (cur up : Text) (nodes ns : List ProofNode)
      → verify_round sha256 (some side) cur nodes ≡ some (up, ns)
      → (s : Text) × IsHash s
        × (absorb_sibling sha256 side s cur ≡ ok up)
        × (round_messages (some side) cur nodes ≡ absorbed_message side s cur ∷ [])
  unfolding verify_round
  round_sibling side cur up [] ns e = absurd (cc)
  round_sibling side cur up (node ∷ nodes) ns e = elim (Bool-cases (side_eq node.side side)) [
    | inr t ↦ absurd (cc (rw t at e))
    | inl t ↦ elim (Result-cases (absorbed side cur node.hash)) [
      | inr (x, f) ↦ absurd (cc (rw (t, f) at e))
      | inl (c, f) ↦
          let (s, p, q) =
            >>=-eq-ok (normalize node.hash) (λ sibling. absorb_sibling sha256 side sibling cur) f in
          let (h, r) = normalize-IsHash node.hash s p in
          let z : ◌≡◌ {A = Option (Text × List ProofNode)} (some (c, nodes)) (some (up, ns)) =
            rw (t, f) at e in
          (s, subst IsHash (sym r) h, cc, ap (λ t. absorbed_message side t cur ∷ []) (sym r))
    ]
  ]

  up_left :
      (cur up : Text) (nodes ns : List ProofNode)
      → IsHash cur
      → verify_round sha256 (some left) cur nodes ≡ some (up, ns)
      → (s : Text) × IsHash s
        × (parent sha256 s cur ≡ up)
        × In (pair_message s cur) (round_messages (some left) cur nodes)
  unfolding absorb_sibling
  up_left cur up nodes ns h e =
      let (s, i, p, m) = round_sibling left cur up nodes ns e in
      (
        s,
        i,
        cc (parent_hash_valid sha256 s cur i h),
        subst (In (pair_message s cur)) (sym m) (inl refl),
      )

  up_right :
      (cur up : Text) (nodes ns : List ProofNode)
      → IsHash cur
      → verify_round sha256 (some right) cur nodes ≡ some (up, ns)
      → (s : Text) × IsHash s
        × (parent sha256 cur s ≡ up)
        × In (pair_message cur s) (round_messages (some right) cur nodes)
  unfolding absorb_sibling
  up_right cur up nodes ns h e =
      let (s, i, p, m) = round_sibling right cur up nodes ns e in
      (
        s,
        i,
        cc (parent_hash_valid sha256 cur s h i),
        subst (In (pair_message cur s)) (sym m) (inl refl),
      )

  -- The verifier's round and the tree's round agree only if they started from one node.
  abbrev pub Bound : List (List ℕ) → List (List ℕ) → List Text → ℕ → Text → Type 0
  Bound built verified level i cur = (get_elem? level i ≡ some cur) ⊎ Clash sha256 built verified

  abbrev pub RoundBound : List Text → ℕ → Text → List ProofNode → Type 0
  RoundBound level i cur nodes =
      Bound (level_messages level) (round_messages (expected_side i (length level)) cur nodes) level
        i cur

  pub round_binds :
      (level : List Text) (i : ℕ) (own cur up : Text) (nodes ns : List ProofNode)
      → All IsHash level
      → IsHash cur
      → get_elem? level i ≡ some own
      → verify_round sha256 (expected_side i (length level)) cur nodes ≡ some (up, ns)
      → get_elem? (parents sha256 level) (i / 2) ≡ some up
      → RoundBound level i cur nodes
  round_binds level i own cur up nodes ns h hc g e p = go (place sha256 level i own g)
    where
      ho : IsHash own
      ho = All-get_elem? IsHash level i own h g

      found : (x : Text) → own ≡ x → get_elem? level i ≡ some x
      found x q = g ∙ ap some q

      pair :
          {P : Type 0} (side : Option Side)
          → expected_side i (length level) ≡ side
          → P ⊎ Clash sha256 (level_messages level) (round_messages side cur nodes)
          → (P → own ≡ cur)
          → RoundBound level i cur nodes
      pair side q (inl b) f = inl (found cur (f b))
      pair side q (inr c) f =
          inr (
            subst (λ d. Clash sha256 (level_messages level) (round_messages d cur nodes)) (sym q) c)

      round :
          (side : Option Side)
          → expected_side i (length level) ≡ side
          → verify_round sha256 side cur nodes ≡ some (up, ns)
      round side q = subst (λ d. verify_round sha256 d cur nodes ≡ some (up, ns)) q e

      go : Place sha256 level i own → RoundBound level i cur nodes
      go (on_right j s q even gs gp) =
          let side = side_left i (length level) (omega arith) in
          let (s', hs', u, m) = up_left cur up nodes ns hc (round (some left) side) in
          pair (some left) side
            (parent_injective (level_messages level) (round_messages (some left) cur nodes) s own s'
              cur (level_messages-In level j s own even gs (cc)) m
              (All-get_elem? IsHash level j s h gs) ho hs' hc (cc))
            (λ b. b.1)
      go (on_left s even fits gs gp) =
          let side = side_right i (length level) even fits in
          let (s', hs', u, m) = up_right cur up nodes ns hc (round (some right) side) in
          pair (some right) side
            (parent_injective (level_messages level) (round_messages (some right) cur nodes) own s
              cur s' (level_messages-In level i own s even g gs) m ho
              (All-get_elem? IsHash level (suc i) s h gs) hc hs' (cc))
            (λ b. b.0)
      go (promoted even last gp) = inl (
          found cur
            (up_none cur up nodes ns (round none (side_none i (length level) even last)) (cc)))

  absorb_IsHash :
      IsDigest sha256
      → (side : Side) (s cur up : Text) → IsHash cur
      → IsHash s
      → absorb_sibling sha256 side s cur ≡ ok up
      → IsHash up
  unfolding absorb_sibling parent
  absorb_IsHash d left s cur up h i p =
      subst IsHash (cc (parent_hash_valid sha256 s cur i h)) (d (1 ∷ (from_hex s ++ from_hex cur)))
  absorb_IsHash d _ s cur up h i p =
      subst IsHash (cc (parent_hash_valid sha256 cur s h i)) (d (1 ∷ (from_hex cur ++ from_hex s)))

  pub round_up_IsHash :
      IsDigest sha256
      → (side : Option Side) (cur up : Text) (nodes ns : List ProofNode) → IsHash cur
      → verify_round sha256 side cur nodes ≡ some (up, ns)
      → IsHash up
  round_up_IsHash d none cur up nodes ns h e =
      subst IsHash (sym (up_none {own = up} cur up nodes ns e refl)) h
  round_up_IsHash d (some side) cur up nodes ns h e =
      let (s, i, p, m) = round_sibling side cur up nodes ns e in absorb_IsHash d side s cur up h i p
