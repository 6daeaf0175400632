-- ===== src/Delivery/Drain.antt =====
-- worker/worker_app/outbox_runner.py: where the loop of process_outbox_batch ends.
use messaging_system.Base.{
  ℕ, zero, suc, ◌<◌, ◌≡◌, ◌⊎◌, Bool, true, false, Bool-cases, Option-cases, inl, inr, Option, none,
  some, List, [], ◌∷◌, All, leb, arith, refl, sym, ap, subst, ◌∙◌,
}
use messaging_system.Base.Text.{Text}
use messaging_system.Store.{
  OutboxStatus, pending, publishing, published, retry_scheduled, failed, dead_lettered,
}
use messaging_system.Delivery.{
  Settings, OutboxRow, Worker, is_due, is_free, older, next_due, process_row, one_more,
  process_outbox_batch,
}

-- A row that does not wait for the worker: neither pending nor a retry whose time has come.
abbrev pub Idle : ℕ → OutboxStatus → Option ℕ → Type 0
Idle now pending next = ⊥
Idle now retry_scheduled none = Unit
Idle now retry_scheduled (some at) = now < at
Idle now _ next = Unit

-- Every row is locked or does not wait.
abbrev pub Dry : ℕ → (ℕ → Bool) → List OutboxRow → Type 0
Dry now locked = All (λ row. (locked row.id ≡ true) ⊎ Idle now row.status row.next_retry_at)

due : ℕ → OutboxStatus → Option ℕ → Bool
due now status next = elim status [
  | pending ↦ true
  | retry_scheduled ↦ elim next [ none ↦ false | some at ↦ leb at now ]
  | _ ↦ false
]

due-Idle :
    (now : ℕ) (status : OutboxStatus) (next : Option ℕ)
    → due now status next ≡ false
    → Idle now status next
unfolding due
due-Idle now pending next h = absurd (cc)
due-Idle now retry_scheduled none h = tt
due-Idle now retry_scheduled (some at) h = ground arith
due-Idle now publishing next h = tt
due-Idle now published next h = tt
due-Idle now failed next h = tt
due-Idle now dead_lettered next h = tt

is_due-eq : (now : ℕ) (row : OutboxRow) → is_due now row ≡ due now row.status row.next_retry_at
unfolding is_due due
is_due-eq now row = refl

not_free :
    (now : ℕ) (locked : ℕ → Bool) (row : OutboxRow)
    → is_free now locked row ≡ false
    → (locked row.id ≡ true) ⊎ (is_due now row ≡ false)
not_free now locked row h = ground arith

free-Idle :
    (now : ℕ) (locked : ℕ → Bool) (row : OutboxRow)
    → is_free now locked row ≡ false
    → (locked row.id ≡ true) ⊎ Idle now row.status row.next_retry_at
free-Idle now locked row h = elim (not_free now locked row h) [
  | inl l ↦ inl l
  | inr d ↦ inr (due-Idle now row.status row.next_retry_at (sym (is_due-eq now row) ∙ d))
]

older-none :
    (b : Bool) (row : OutboxRow) (rest : Option OutboxRow)
    → older b row rest ≡ none
    → (b ≡ false) × (rest ≡ none)
older-none false row rest e = (refl, e)
older-none true row none e = absurd (cc)
older-none true row (some other) e = absurd (ground arith)

next_due-Dry :
    (now : ℕ) (locked : ℕ → Bool) (rows : List OutboxRow)
    → next_due now locked rows ≡ none
    → Dry now locked rows
unfolding next_due
next_due-Dry now locked [] e = tt
next_due-Dry now locked (row ∷ rows) e =
    let (d, t) = older-none (is_free now locked row) row (next_due now locked rows) e in
    (free-Idle now locked row d, next_due-Dry now locked rows t)

one_more-eq : (o : Option ℕ) (m : ℕ) → one_more o ≡ some m → (k : ℕ) × (o ≡ some k) × (m ≡ suc k)
one_more-eq none m e = absurd (cc)
one_more-eq (some k) m e = (k, refl, cc)

module _ {W : Type 0} (s : Settings) (now : W → ℕ) (locked : W → ℕ → Bool)
    (attempt : OutboxRow → W → Option Text × W) (mirror : OutboxRow → Text → ℕ → W → W)
    (redact : Text → Text) where
  -- A batch that no exception ends either processes exactly as many rows as its limit, or fewer; if
  -- fewer, then of all the rows that it leaves, whatever the broker answered on the way, each that
  -- is pending and each that is scheduled for a retry at a time that has come when the batch ends
  -- is locked by another transaction.
  pub process_outbox_batch-drains :
      (n m : ℕ) (w w' : Worker W)
      → process_outbox_batch s now locked attempt mirror redact n w ≡ (some m, w')
      → (m ≡ n) ⊎ ((m < n) × Dry (now w'.world) (locked w'.world) w'.rows)
  unfolding process_outbox_batch
  process_outbox_batch-drains zero m w w' h = inl (cc)
  process_outbox_batch-drains (suc n) m w w' h =
      elim (Option-cases (next_due (now w.world) (locked w.world) w.rows)) [
        | inl e ↦ ended n m w w' e (rw (e, process_outbox_batch) at h)
        | inr (rec, e) ↦
            let round = process_row s now locked attempt mirror redact rec w in
            elim (Bool-cases round.0) [
              | inr f ↦ absurd (cc (rw (e, f, process_outbox_batch) at h))
              | inl t ↦
                  let rest = process_outbox_batch s now locked attempt mirror redact n round.1 in
                  let q : ◌≡◌ {A = Option ℕ × Worker W} (one_more rest.0, rest.1) (some m, w') =
                    rw (e, t, process_outbox_batch) at h in
                  let (k, p, up) = one_more-eq rest.0 m (ap (λ x. x.0) q) in
                  let both : rest ≡ (some k, w') =
                    pair_eq {k = some k} {v = w'} p (ap (λ x. x.1) q) in
                  elim (process_outbox_batch-drains n k round.1 w' both) [
                    | inl full ↦ inl (omega arith)
                    | inr (less, dry) ↦ inr (omega arith, dry)
                  ]
            ]
      ]
    where
      pair_eq :
          {p : Option ℕ × Worker W} {k : Option ℕ} {v : Worker W} → p.0 ≡ k → p.1 ≡ v → p ≡ (k, v)
      pair_eq a b = cc

      ended :
          (n m : ℕ) (w w' : Worker W)
          → next_due (now w.world) (locked w.world) w.rows ≡ none
          → ◌≡◌ {A = Option ℕ × Worker W} (some 0, w) (some m, w')
          → (m ≡ suc n) ⊎ ((m < suc n) × Dry (now w'.world) (locked w'.world) w'.rows)
      ended n m w w' e q =
          let z : 0 ≡ m = cc in
          inr (
            omega arith,
            subst (λ x. Dry (now x.world) (locked x.world) x.rows) (ap (λ x. x.1) q)
                (next_due-Dry (now w.world) (locked w.world) w.rows e),
          )
