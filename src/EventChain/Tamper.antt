-- ===== src/EventChain/Tamper.antt =====
-- backend/app/services/event_integrity_service.py: two verified chains side by side.
use messaging_system.Base.{
  ℕ, ◌≡◌, ◌≢◌, ◌⊎◌, ap, sym, ◌∙◌, inl, inr, Option, none, List, [], ◌∷◌, true, arith, length,
}
use messaging_system.Base.Text.{Text, same_or_not}
use messaging_system.EventChain.{
  Event, Canonical, canonical_event_payload, compute_event_hash, verify_events,
}
use messaging_system.EventChain.Links.{
  IsLink, Chain, final_hash, verify_events-valid, last_valid_hash-eq,
}

-- Two messages with one digest.
abbrev pub Collision : (List ℕ → Text) → Type 0
Collision sha256 = (x : List ℕ) × (y : List ℕ) × (x ≢ y) × (sha256 x ≡ sha256 y)

-- Equal digests of different messages are a collision.
same_message :
    (sha256 : List ℕ → Text) (x y : List ℕ) → sha256 x ≡ sha256 y → (x ≡ y) ⊎ Collision sha256
same_message sha256 x y e = elim (same_or_not x y) [ inl p ↦ inl p | inr n ↦ inr (x, y, n, e) ]

abbrev pub SameContent : List Event → List Event → Type 0
SameContent [] [] = Unit
SameContent (x ∷ xs) (y ∷ ys) =
    (canonical_event_payload x ≡ canonical_event_payload y) × SameContent xs ys
SameContent _ _ = ⊥

previous_of :
    (x y : Event)
    → canonical_event_payload x ≡ canonical_event_payload y
    → x.previous_hash ≡ y.previous_hash
unfolding canonical_event_payload
previous_of x y e = ap (λ (c : Canonical). c.previous_hash) e

module _ (sha256 : List ℕ → Text) (serialize : Canonical → List ℕ)
    (serialize_injective : (a b : Canonical) → serialize a ≡ serialize b → a ≡ b) where
  same_event :
      (scope : Text) (p q : Option Text) (x y : Event)
      → IsLink sha256 serialize scope p x
      → IsLink sha256 serialize scope q y
      → x.event_hash ≡ y.event_hash
      → ((p ≡ q) × (canonical_event_payload x ≡ canonical_event_payload y)) ⊎ Collision sha256
  unfolding compute_event_hash
  same_event scope p q x y lx ly e =
      elim (same_message sha256 (serialize (canonical_event_payload x))
        (serialize (canonical_event_payload y)) (cc (lx.hashed, ly.hashed))) [
          | inr c ↦ inr c
          | inl m ↦
              let s =
                serialize_injective (canonical_event_payload x) (canonical_event_payload y) m in
              inl (sym lx.follows ∙ previous_of x y s ∙ ly.follows, s)
        ]

  Chain-same :
      (scope : Text) (p q : Option Text) (xs ys : List Event)
      → Chain sha256 serialize scope p xs
      → Chain sha256 serialize scope q ys
      → length xs ≡ length ys
      → final_hash p xs ≡ final_hash q ys
      → ((p ≡ q) × SameContent xs ys) ⊎ Collision sha256
  Chain-same scope p q [] [] cx cy l e = inl (e, tt)
  Chain-same scope p q [] (y ∷ ys) cx cy l e = absurd (omega arith)
  Chain-same scope p q (x ∷ xs) [] cx cy l e = absurd (omega arith)
  Chain-same scope p q (x ∷ xs) (y ∷ ys) cx cy l e =
      elim (Chain-same scope x.event_hash y.event_hash xs ys cx.1 cy.1 (omega arith) e) [
        | inr c ↦ inr c
        | inl s ↦ elim (same_event scope p q x y cx.0 cy.0 s.0) [
          | inr c ↦ inr c
          | inl t ↦ inl (t.0, (t.1, s.1))
        ]
      ]

  -- Two lists of equally many events that both verify in a scope and report the same last valid
  -- hash agree in the whole canonical content of every event, or two different messages with one
  -- digest are at hand.
  pub verify_events-tamper :
      (scope : Text) (xs ys : List Event)
      → (verify_events sha256 serialize scope xs).valid ≡ true
      → (verify_events sha256 serialize scope ys).valid ≡ true
      → length xs ≡ length ys
      → (verify_events sha256 serialize scope xs).last_valid_hash
        ≡ (verify_events sha256 serialize scope ys).last_valid_hash
      → SameContent xs ys ⊎ Collision sha256
  verify_events-tamper scope xs ys vx vy l e =
      let cx = (verify_events-valid sha256 serialize scope xs).0 vx in
      let cy = (verify_events-valid sha256 serialize scope ys).0 vy in
      let same =
        sym (last_valid_hash-eq sha256 serialize scope xs vx)
        ∙ e
        ∙ last_valid_hash-eq sha256 serialize scope ys vy in
      elim (Chain-same scope none none xs ys cx cy l same) [ inl s ↦ inl s.1 | inr c ↦ inr c ]
