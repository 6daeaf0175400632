-- ===== src/Delivery/Rounds.antt =====
-- worker/worker_app/outbox_runner.py: one transaction of process_outbox_batch.
use messaging_system.Base.{
  ℕ, zero, suc, ◌≤◌, ◌≡◌, ◌⊎◌, refl, sym, subst, inl, inr, true, false, ltb, Bool, Bool-cases,
  Option-cases, Option, none, some, List, [], ◌∷◌, ◌==◌, ==_refl, if◌then◌else◌, All, length, take,
  arith,
}
use messaging_system.Base.Text.{Text}
use messaging_system.Delivery.{
  Settings, OutboxRow, Worker, is_due, next_due, update_row, mark_publishing, mark_published, older,
  is_free, failure_delay, failure_update, handle_publish_failure, settle, process_row,
  sanitize_error, max_error_length,
}

-- No row of the list has the id.
abbrev pub NoId : ℕ → List OutboxRow → Type 0
NoId id rows = All (λ r. (r.id == id) ≡ false) rows

-- The ids are those of a primary key.
abbrev pub Unique : List OutboxRow → Type 0
Unique [] = Unit
Unique (row ∷ rows) = NoId row.id rows × Unique rows

-- What a transaction that works on a row makes of it.
abbrev pub Outcome : Settings → ℕ → OutboxRow → OutboxRow → Type 0
Outcome s at row row' =
    (row' ≡ mark_published at (mark_publishing row))
    ⊎ ((e : Text) × (delay : ℕ) × (length e ≤ max_error_length)
        × (failure_delay s row ≡ some delay)
        × (row' ≡ failure_update s at row e delay (mark_publishing row)))

-- A row is left alone, or it was due and is worked on.
abbrev pub Change : Settings → ℕ → OutboxRow → OutboxRow → Type 0
Change s at row row' = (row' ≡ row) ⊎ ((is_due at row ≡ true) × Outcome s at row row')

abbrev pub All2 : (OutboxRow → OutboxRow → Type 0) → List OutboxRow → List OutboxRow → Type 0
All2 R [] [] = Unit
All2 R (r ∷ rs) (q ∷ qs) = R r q × All2 R rs qs
All2 R _ _ = ⊥

All2-refl :
    (R : OutboxRow → OutboxRow → Type 0)
    → ((r : OutboxRow) → R r r)
    → (rs : List OutboxRow) → All2 R rs rs
All2-refl R h [] = tt
All2-refl R h (r ∷ rs) = (h r, All2-refl R h rs)

update_row-absent :
    (id : ℕ) (f : OutboxRow → OutboxRow) (rows : List OutboxRow)
    → NoId id rows
    → update_row id f rows ≡ rows
unfolding update_row
update_row-absent id f [] h = refl
update_row-absent id f (row ∷ rows) h = rw (h.0, update_row-absent id f rows h.1)

update_row-twice :
    (id : ℕ) (f g : OutboxRow → OutboxRow) (rows : List OutboxRow)
    → ((r : OutboxRow) → (f r).id ≡ r.id)
    → update_row id g (update_row id f rows) ≡ update_row id (λ r. g (f r)) rows
unfolding update_row
update_row-twice id f g [] k = refl
update_row-twice id f g (row ∷ rows) k = elim (Bool-cases (row.id == id)) [
  | inl e ↦ rw (e, k row, e, update_row-twice id f g rows k)
  | inr e ↦ rw (e, e, update_row-twice id f g rows k)
]

some_injective : {A : Type 0} {x y : A} → some x ≡ some y → x ≡ y
some_injective p = cc

free-due :
    (at : ℕ) (locked : ℕ → Bool) (row : OutboxRow)
    → is_free at locked row ≡ true
    → is_due at row ≡ true
free-due at locked row h = ground arith

older-some :
    (b : Bool) (row : OutboxRow) (rest : Option OutboxRow) {rec : OutboxRow}
    → older b row rest ≡ some rec
    → ((b ≡ true) × (row ≡ rec)) ⊎ (rest ≡ some rec)
older-some false row rest e = inr e
older-some true row none e = inl (refl, some_injective e)
older-some true row (some other) e = elim (Bool-cases (ltb other.created_at row.created_at)) [
  | inl t ↦ inr (rw t at e)
  | inr t ↦ inl (refl, some_injective (rw t at e))
]

next_due-All :
    (P : OutboxRow → Type 0) (at : ℕ) (locked : ℕ → Bool) (rows : List OutboxRow) {rec : OutboxRow}
    → All P rows
    → next_due at locked rows ≡ some rec
    → P rec
unfolding next_due
next_due-All P at locked [] h e = absurd (cc)
next_due-All P at locked (row ∷ rows) {rec} h e =
    elim (older-some (is_free at locked row) row (next_due at locked rows) e) [
      | inl (d, q) ↦ subst P q h.0
      | inr t ↦ next_due-All P at locked rows h.1 t
    ]

-- The transaction changes the row that was due, and no other.
update_row-Change :
    (s : Settings) (at : ℕ) (locked : ℕ → Bool) (f : OutboxRow → OutboxRow) (rows : List OutboxRow)
    {rec : OutboxRow}
    → Unique rows
    → next_due at locked rows ≡ some rec
    → Outcome s at rec (f rec)
    → All2 (Change s at) rows (update_row rec.id f rows)
unfolding next_due update_row
update_row-Change s at locked f [] u e o = absurd (cc)
update_row-Change s at locked f (row ∷ rows) {rec} u e o =
    elim (older-some (is_free at locked row) row (next_due at locked rows) e) [
      | inl (d, q) ↦
          subst
            (λ x.
              All2 (Change s at) (row ∷ rows)
                ((if row.id == x.id then f row else row) ∷ update_row x.id f rows))
            q
            (rw (==_refl row.id, update_row-absent row.id f rows u.0)
              (
                inr (free-due at locked row d, subst (λ x. Outcome s at x (f x)) (sym q) o),
                All2-refl (Change s at) (λ r. inl refl) rows,
              ))
      | inr t ↦
          let n : (row.id == rec.id) ≡ false =
            (let m = next_due-All (λ r. (r.id == row.id) ≡ false) at locked rows u.0 t in
              ground arith) in
          rw n (inl refl, update_row-Change s at locked f rows u.1 t o)
    ]

length-take_le : {A : Type 0} (n : ℕ) (xs : List A) → length (take n xs) ≤ n
length-take_le zero xs = omega arith
length-take_le (suc n) [] = omega arith
length-take_le (suc n) (x ∷ xs) = omega (arith, length-take_le n xs)

sanitize_error_le :
    (redact : Text → Text) (exc : Text) → length (sanitize_error redact exc) ≤ max_error_length
unfolding sanitize_error
sanitize_error_le redact exc = length-take_le max_error_length (redact exc)

publishing-id : (r : OutboxRow) → (mark_publishing r).id ≡ r.id
unfolding mark_publishing
publishing-id r = refl

module _ {W : Type 0} (s : Settings) (now : W → ℕ) (locked : W → ℕ → Bool)
    (attempt : OutboxRow → W → Option Text × W) (mirror : OutboxRow → Text → ℕ → W → W)
    (redact : Text → Text) where
  settle-Change :
      (at : ℕ) (free : ℕ → Bool) (o : Option Text) (world : W) (w w' : Worker W) {rec : OutboxRow}
      → Unique w.rows
      → next_due at free w.rows ≡ some rec
      → settle s now locked attempt mirror redact at rec o
          (record w { rows = update_row rec.id mark_publishing w.rows; world = world })
        ≡ some w'
      → All2 (Change s at) w.rows w'.rows
  unfolding settle handle_publish_failure
  settle-Change at free none world w w' {rec} u e q =
      subst (λ x. All2 (Change s at) w.rows x.rows) (some_injective q)
        (rw (update_row-twice rec.id mark_publishing (mark_published at) w.rows publishing-id)
          (update_row-Change s at free _ w.rows u e (inl refl)))
  settle-Change at free (some exc) world w w' {rec} u e q =
      elim (Option-cases (failure_delay s rec)) [
        | inl d ↦ absurd (cc (rw (d, handle_publish_failure) at q))
        | inr (delay, d) ↦
            let error_text = sanitize_error redact exc in
            subst (λ x. All2 (Change s at) w.rows x.rows)
              (some_injective (rw (d, handle_publish_failure) at q))
              (rw
                (update_row-twice rec.id mark_publishing (failure_update s at rec error_text delay)
                  w.rows publishing-id)
                (update_row-Change s at free _ w.rows u e
                  (inr (error_text, delay, sanitize_error_le redact exc, d, refl))))
      ]

  pub process_row-Change :
      (w : Worker W) {rec : OutboxRow}
      → Unique w.rows
      → next_due (now w.world) (locked w.world) w.rows ≡ some rec
      → All2
          (Change s (now w.world))
          w.rows
          (process_row s now locked attempt mirror redact rec w).1.rows
  unfolding process_row
  process_row-Change w {rec} u e =
      let (o, world) = attempt rec w.world in
      let marked = record w { rows = update_row rec.id mark_publishing w.rows; world = world } in
      elim (Option-cases (settle s now locked attempt mirror redact (now w.world) rec o marked)) [
        | inl q ↦ rw (q, process_row) (All2-refl (Change s (now w.world)) (λ r. inl refl) w.rows)
        | inr (w', q) ↦
            rw (q, process_row) (settle-Change (now w.world) (locked w.world) o world w w' u e q)
      ]
