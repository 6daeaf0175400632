-- ===== src/Messages/Order/Rows.antt =====
-- Rows that are added to a table or written in place, for backend/app/services/message_service.py.
use messaging_system.Base.{
  ◌≡◌, ◌⊎◌, refl, sym, ◌∙◌, inl, inr, none, some, [], ◌∷◌, ◌++◌, Bool-cases,
}
use messaging_system.Base.Table.{Key, Table, lookup, put, lookup-put_same, lookup-put_other}

module _ {K V : Type 0} ⦃key : Key K⦄ where
  -- What a row of the longer table is.
  pub lookup-append :
      (k j : K) (v w : V) (t : Table K V)
      → lookup j (t ++ (k, v) ∷ []) ≡ some w
      → (lookup j t ≡ some w) ⊎ ((k ≡ j) × (w ≡ v))
  unfolding lookup
  lookup-append k j v w [] h = elim (Bool-cases (key.same k j)) [
    | inl e ↦ inr ((key.same_iff k j).0 e, cc (rw e at h))
    | inr e ↦ absurd (cc (rw e at h))
  ]
  lookup-append k j v w ((i, x) ∷ t) h = elim (Bool-cases (key.same i j)) [
    | inl e ↦ inl (rw (e, lookup) (rw e at h))
    | inr e ↦ elim (lookup-append k j v w t (rw e at h)) [
      | inl p ↦ inl (rw (e, lookup) p)
      | inr q ↦ inr q
    ]
  ]

  pub lookup-append_old :
      (k j : K) (v w : V) (t : Table K V)
      → lookup j t ≡ some w
      → lookup j (t ++ (k, v) ∷ []) ≡ some w
  unfolding lookup
  lookup-append_old k j v w [] h = absurd (cc)
  lookup-append_old k j v w ((i, x) ∷ t) h = elim (Bool-cases (key.same i j)) [
    | inl e ↦ rw (e, lookup) (rw e at h)
    | inr e ↦ rw (e, lookup) (lookup-append_old k j v w t (rw e at h))
  ]

  pub put_before :
      (k j : K) (v w : V) (t : Table K V)
      → lookup j (put k v t) ≡ some w
      → ((k ≡ j) × (w ≡ v)) ⊎ (lookup j t ≡ some w)
  put_before k j v w t h = elim (Bool-cases (key.same k j)) [
    | inl e ↦ inl ((key.same_iff k j).0 e, (let q = lookup-put_same k j t v e in cc))
    | inr e ↦ inr (sym (lookup-put_other k j t v e) ∙ h)
  ]

  pub lookup-append_new :
      (k : K) (v : V) (t : Table K V) → lookup k t ≡ none → lookup k (t ++ (k, v) ∷ []) ≡ some v
  unfolding lookup
  lookup-append_new k v [] h = rw ((key.same_iff k k).1 refl) refl
  lookup-append_new k v ((i, x) ∷ t) h = elim (Bool-cases (key.same i k)) [
    | inl e ↦ absurd (cc (rw e at h))
    | inr e ↦ rw (e, lookup) (lookup-append_new k v t (rw e at h))
  ]
