-- ===== src/Delivery/Sound.antt =====
-- worker/worker_app/outbox_runner.py: the rows before and after process_outbox_batch.
use messaging_system.Base.{
  ℕ, zero, suc, ◌+◌, ◌≤◌, ◌<◌, ◌≡◌, ◌⊎◌, refl, sym, subst, ap, ◌∙◌, inl, inr, Bool, true, false,
  Option-cases, Option, none, some, List, [], ◌∷◌, leb, is_some, Bool-cases, All, length, arith,
}
use messaging_system.Base.Text.{Text}
use messaging_system.Store.{
  OutboxStatus, pending, publishing, published, retry_scheduled, failed, dead_lettered,
}
use messaging_system.Delivery.{
  Settings, OutboxRow, Worker, is_due, next_due, mark_publishing, mark_published,
  mark_retry_scheduled, mark_dead_lettered, attempt_limit, failure_update, process_row,
  process_outbox_batch, max_error_length,
}
use messaging_system.Delivery.Rounds.{Unique, NoId, Outcome, Change, All2, process_row-Change}

-- The attempts that a status allows, and the time that it comes with.
abbrev pub SoundAt : OutboxStatus → ℕ → ℕ → Option ℕ → Option ℕ → Type 0
SoundAt pending attempts limit next dead = attempts ≡ 0
SoundAt publishing attempts limit next dead = ⊥
SoundAt published attempts limit next dead = attempts < limit
SoundAt retry_scheduled attempts limit next dead = (attempts < limit) × (is_some next ≡ true)
SoundAt failed attempts limit next dead = Unit
SoundAt dead_lettered attempts limit next dead = (attempts ≡ limit) × (is_some dead ≡ true)

abbrev pub ShortError : Option Text → Type 0
ShortError none = Unit
ShortError (some e) = length e ≤ max_error_length

abbrev pub Sound : Settings → OutboxRow → Type 0
Sound s row =
    SoundAt row.status row.attempts (attempt_limit s row) row.next_retry_at row.dead_lettered_at
    × ShortError row.last_error

-- The statuses that the worker does not take up again.
abbrev pub is_settled : OutboxStatus → Bool
is_settled published = true
is_settled dead_lettered = true
is_settled failed = true
is_settled _ = false

due_status :
    (at : ℕ) (row : OutboxRow)
    → is_due at row ≡ true
    → (row.status ≡ pending) ⊎ (row.status ≡ retry_scheduled)
unfolding is_due
due_status at row d = ground arith

due-below :
    (s : Settings) (at : ℕ) (row : OutboxRow)
    → is_due at row ≡ true
    → Sound s row
    → row.attempts < attempt_limit s row
due-below s at row d (h, e) = elim (due_status at row d) [
  | inl p ↦
      (let q : row.attempts ≡ 0 =
          subst
            (λ x.
              SoundAt x row.attempts (attempt_limit s row) row.next_retry_at row.dead_lettered_at)
            p h in
        ground arith)
  | inr p ↦
      (subst
        (λ x. SoundAt x row.attempts (attempt_limit s row) row.next_retry_at row.dead_lettered_at) p
        h).0
]

failed-Sound :
    (s : Settings) (at : ℕ) (row : OutboxRow) (e : Text) (delay : ℕ)
    → row.attempts < attempt_limit s row
    → length e ≤ max_error_length
    → Sound s (failure_update s at row e delay (mark_publishing row))
unfolding failure_update mark_dead_lettered mark_retry_scheduled mark_publishing
failed-Sound s at row e delay lt short =
    elim (Bool-cases (leb (attempt_limit s row) (row.attempts + 1))) [
      | inl b ↦ rw b ((ground arith, refl), short)
      | inr b ↦ rw b ((ground arith, refl), short)
    ]

Outcome-Sound :
    (s : Settings) (at : ℕ) (row row' : OutboxRow)
    → row.attempts < attempt_limit s row
    → Outcome s at row row'
    → Sound s row'
unfolding mark_published mark_publishing
Outcome-Sound s at row row' lt (inl p) = subst (Sound s) (sym p) (lt, tt)
Outcome-Sound s at row row' lt (inr (e, delay, short, d, p)) =
    subst (Sound s) (sym p) (failed-Sound s at row e delay lt short)

-- A row keeps its id; a settled one is left alone; a sound one stays sound.
abbrev pub Kept : Settings → OutboxRow → OutboxRow → Type 0
Kept s row row' =
    (row'.id ≡ row.id) × (is_settled row.status ≡ true → row' ≡ row) × (Sound s row → Sound s row')

Kept-refl : (s : Settings) (row : OutboxRow) → Kept s row row
Kept-refl s row = (refl, (λ _. refl), λ h. h)

Kept-trans : (s : Settings) (a b c : OutboxRow) → Kept s a b → Kept s b c → Kept s a c
Kept-trans s a b c (i, f, g) (j, h, k) =
    (j ∙ i, (λ t. h (ap (λ x. is_settled x.status) (f t) ∙ t) ∙ f t), λ t. k (g t))

due_not_settled : (at : ℕ) (row : OutboxRow) → is_due at row ≡ true → is_settled row.status ≡ false
unfolding is_due
due_not_settled at row d = ground arith

Outcome-id :
    (s : Settings) (at : ℕ) (row row' : OutboxRow) → Outcome s at row row' → row'.id ≡ row.id
unfolding mark_published mark_publishing failure_update mark_dead_lettered mark_retry_scheduled
Outcome-id s at row row' (inl p) = ap (λ x. x.id) p
Outcome-id s at row row' (inr (e, delay, short, d, p)) =
    ap (λ x. x.id) p ∙ (elim (Bool-cases (leb (attempt_limit s row) (row.attempts + 1))) [
      | inl b ↦ rw b refl
      | inr b ↦ rw b refl
    ])

Change-Kept :
    (s : Settings) (at : ℕ) (row row' : OutboxRow) → Change s at row row' → Kept s row row'
Change-Kept s at row row' (inl p) = subst (Kept s row) (sym p) (Kept-refl s row)
Change-Kept s at row row' (inr (d, o)) = (
  Outcome-id s at row row' o,
  (λ t. absurd (let q = due_not_settled at row d in cc)),
  λ h. Outcome-Sound s at row row' (due-below s at row d h) o,
)

module _ (R : OutboxRow → OutboxRow → Type 0) where
  All2-map :
      (Q : OutboxRow → OutboxRow → Type 0) (rs qs : List OutboxRow)
      → ((r q : OutboxRow) → R r q → Q r q)
      → All2 R rs qs
      → All2 Q rs qs
  All2-map Q [] [] f h = tt
  All2-map Q [] (q ∷ qs) f h = h
  All2-map Q (r ∷ rs) [] f h = h
  All2-map Q (r ∷ rs) (q ∷ qs) f h = (f r q h.0, All2-map Q rs qs f h.1)

  All2-trans :
      (rs qs ps : List OutboxRow)
      → ((a b c : OutboxRow) → R a b → R b c → R a c)
      → All2 R rs qs
      → All2 R qs ps
      → All2 R rs ps
  All2-trans [] [] ps t h k = k
  All2-trans [] (q ∷ qs) ps t h k = absurd h
  All2-trans (r ∷ rs) [] ps t h k = absurd h
  All2-trans (r ∷ rs) (q ∷ qs) [] t h k = k
  All2-trans (r ∷ rs) (q ∷ qs) (p ∷ ps) t h k = (t r q p h.0 k.0, All2-trans rs qs ps t h.1 k.1)

  All2-id :
      ((r q : OutboxRow) → R r q → q.id ≡ r.id)
      → (rs qs : List OutboxRow) (id : ℕ) → All2 R rs qs
      → NoId id rs
      → NoId id qs
  All2-id f [] [] id h n = n
  All2-id f [] (q ∷ qs) id h n = absurd h
  All2-id f (r ∷ rs) [] id h n = absurd h
  All2-id f (r ∷ rs) (q ∷ qs) id h n = (rw (f r q h.0) n.0, All2-id f rs qs id h.1 n.1)

  All2-Unique :
      ((r q : OutboxRow) → R r q → q.id ≡ r.id)
      → (rs qs : List OutboxRow) → All2 R rs qs
      → Unique rs
      → Unique qs
  All2-Unique f [] [] h u = tt
  All2-Unique f [] (q ∷ qs) h u = absurd h
  All2-Unique f (r ∷ rs) [] h u = absurd h
  All2-Unique f (r ∷ rs) (q ∷ qs) h u =
      (rw (f r q h.0) (All2-id f rs qs r.id h.1 u.0), All2-Unique f rs qs h.1 u.1)

  All2-refl : ((r : OutboxRow) → R r r) → (rs : List OutboxRow) → All2 R rs rs
  All2-refl f [] = tt
  All2-refl f (r ∷ rs) = (f r, All2-refl f rs)

  pub All2-All :
      (P : OutboxRow → Type 0) (rs qs : List OutboxRow)
      → ((r q : OutboxRow) → R r q → P r → P q)
      → All2 R rs qs
      → All P rs
      → All P qs
  All2-All P [] [] f h a = a
  All2-All P [] (q ∷ qs) f h a = absurd h
  All2-All P (r ∷ rs) [] f h a = absurd h
  All2-All P (r ∷ rs) (q ∷ qs) f h a = (f r q h.0 a.0, All2-All P rs qs f h.1 a.1)

module _ {W : Type 0} (s : Settings) (now : W → ℕ) (locked : W → ℕ → Bool)
    (attempt : OutboxRow → W → Option Text × W) (mirror : OutboxRow → Text → ℕ → W → W)
    (redact : Text → Text) where
  -- If the ids of the outbox rows differ from each other, a batch, whatever the broker answers, leaves each row
  -- in its place with its id, leaves the published, dead-lettered and failed rows as they are, and
  -- keeps each row that is sound sound: a pending row has no attempts, a row scheduled for a
  -- retry has fewer attempts than its limit and a time for the next, a published row has fewer
  -- than its limit, a dead-lettered row has exactly its limit and the time of its end, none is left
  -- in the state publishing, and an error that is stored has at most 1000 characters. This holds also
  -- of a batch that an exception ends.
  pub process_outbox_batch-Kept :
      (n : ℕ) (w : Worker W)
      → Unique w.rows
      → All2 (Kept s) w.rows (process_outbox_batch s now locked attempt mirror redact n w).1.rows
  unfolding process_outbox_batch
  process_outbox_batch-Kept zero w u = All2-refl (Kept s) (Kept-refl s) w.rows
  process_outbox_batch-Kept (suc n) w u =
      elim (Option-cases (next_due (now w.world) (locked w.world) w.rows)) [
        | inl e ↦ rw (e, process_outbox_batch) (All2-refl (Kept s) (Kept-refl s) w.rows)
        | inr (rec, e) ↦
            let round = process_row s now locked attempt mirror redact rec w in
            let first = round.1 in
            let h : All2 (Kept s) w.rows first.rows =
              All2-map (Change s (now w.world)) (Kept s) w.rows first.rows
                (Change-Kept s (now w.world))
                (process_row-Change s now locked attempt mirror redact w u e) in
            elim (Bool-cases round.0) [
              | inr f ↦ rw (e, f, process_outbox_batch) h
              | inl t ↦
                  rw (e, t, process_outbox_batch)
                    (All2-trans (Kept s) w.rows first.rows _ (Kept-trans s) h (
                      process_outbox_batch-Kept n first
                        (All2-Unique (Kept s) (λ r q k. k.0) w.rows first.rows h u)))
            ]
      ]
