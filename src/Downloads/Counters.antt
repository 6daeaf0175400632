-- ===== src/Downloads/Counters.antt =====
-- The counters of backend/app/services/download_service.py as functions of their keys.
use messaging_system.Base.{
  ℕ, ◌+◌, ◌-◌, ◌<◌, ◌≡◌, refl, sym, ap, ◌∙◌, inl, inr, true, some, [], ◌∷◌, leb, if◌then◌else◌,
  Bool-cases, arith,
}
use messaging_system.Base.Table.{
  Key, Table, lookup, put, remove, lookup-put_same, lookup-put_other, lookup-remove_same,
  lookup-remove_other,
}
use messaging_system.Downloads.{active, count_up, count_down}

module _ {K : Type 0} ⦃key : Key K⦄ where
  -- No key is kept with the count 0.
  abbrev pub Tidy : Table K ℕ → Type 0
  Tidy counts = (k : K) (n : ℕ) → lookup k counts ≡ some n → 0 < n

  active-put :
      (k j : K) (n : ℕ) (counts : Table K ℕ)
      → active j (put k n counts) ≡ (if key.same k j then n else active j counts)
  unfolding active
  active-put k j n counts = elim (Bool-cases (key.same k j)) [
    | inl e ↦ rw (lookup-put_same k j counts n e, e, active) refl
    | inr e ↦ rw (lookup-put_other k j counts n e, e, active) refl
  ]

  active-remove :
      (k j : K) (counts : Table K ℕ)
      → active j (remove k counts) ≡ (if key.same k j then 0 else active j counts)
  unfolding active
  active-remove k j counts = elim (Bool-cases (key.same k j)) [
    | inl e ↦ rw (lookup-remove_same k j counts e, e, active) refl
    | inr e ↦ rw (lookup-remove_other k j counts e, e, active) refl
  ]

  pub active_same :
      (k j : K) (counts : Table K ℕ) → key.same k j ≡ true → active k counts ≡ active j counts
  active_same k j counts e = ap (λ x. active x counts) ((key.same_iff k j).0 e)

  pub active-count_up :
      (k j : K) (counts : Table K ℕ)
      → active j (count_up k counts) ≡ active j counts + (if key.same k j then 1 else 0)
  unfolding count_up
  active-count_up k j counts = elim (Bool-cases (key.same k j)) [
    | inl e ↦
        rw (active-put k j (active k counts + 1) counts, e)
          (omega (arith, active_same k j counts e))
    | inr e ↦ rw (active-put k j (active k counts + 1) counts, e) (omega arith)
  ]

  pub active-count_down :
      (k j : K) (counts : Table K ℕ)
      → active j (count_down k counts) ≡ active j counts - (if key.same k j then 1 else 0)
  unfolding count_down
  active-count_down k j counts =
      let p = active-put k j (active k counts - 1) counts in
      let q = active-remove k j counts in
      elim (Bool-cases (leb (active k counts) 1)) [
        | inl e ↦ elim (Bool-cases (key.same k j)) [
          | inl f ↦ rw (e, q, f) (ground (arith, active_same k j counts f))
          | inr f ↦ rw (e, q, f) (omega arith)
        ]
        | inr e ↦ elim (Bool-cases (key.same k j)) [
          | inl f ↦ rw (e, p, f) (omega (arith, active_same k j counts f))
          | inr f ↦ rw (e, p, f) (omega arith)
        ]
      ]

  put-Tidy : (k : K) (m : ℕ) (counts : Table K ℕ) → 0 < m → Tidy counts → Tidy (put k m counts)
  put-Tidy k m counts pos tidy j n h = elim (Bool-cases (key.same k j)) [
    | inl e ↦ let q : m ≡ n = (let p = lookup-put_same k j counts m e in cc) in omega arith
    | inr e ↦ tidy j n (sym (lookup-put_other k j counts m e) ∙ h)
  ]

  remove-Tidy : (k : K) (counts : Table K ℕ) → Tidy counts → Tidy (remove k counts)
  remove-Tidy k counts tidy j n h = elim (Bool-cases (key.same k j)) [
    | inl e ↦ absurd (let p = lookup-remove_same k j counts e in cc)
    | inr e ↦ tidy j n (sym (lookup-remove_other k j counts e) ∙ h)
  ]

  pub count_up-Tidy : (k : K) (counts : Table K ℕ) → Tidy counts → Tidy (count_up k counts)
  unfolding count_up
  count_up-Tidy k counts tidy = put-Tidy k (active k counts + 1) counts (omega arith) tidy

  pub count_down-Tidy : (k : K) (counts : Table K ℕ) → Tidy counts → Tidy (count_down k counts)
  unfolding count_down
  count_down-Tidy k counts tidy = elim (Bool-cases (leb (active k counts) 1)) [
    | inl e ↦ rw e (remove-Tidy k counts tidy)
    | inr e ↦ rw e (put-Tidy k (active k counts - 1) counts (ground arith) tidy)
  ]

  -- A tidy table whose counts are all 0 is empty.
  pub Tidy-empty :
      (counts : Table K ℕ) → Tidy counts → ((k : K) → active k counts ≡ 0) → counts ≡ []
  unfolding active lookup
  Tidy-empty [] tidy idle = refl
  Tidy-empty ((k, n) ∷ t) tidy idle =
      let e : key.same k k ≡ true = (key.same_iff k k).1 refl in
      let there : lookup k ((k, n) ∷ t) ≡ some n = rw (e, lookup) refl in
      let at_key = idle k in
      absurd (let p = tidy k n there in let q = rw (there, active) at at_key in omega arith)
