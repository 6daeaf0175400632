-- ===== src/Messages/Read/Sorted.antt =====
-- Rows in the order of their sequence numbers, for backend/app/services/message_service.py.
use messaging_system.Base.{
  ℕ, zero, suc, ◌≤◌, ◌<◌, ◌≡◌, ◌≢◌, refl, sym, subst, ap, ◌∙◌, inl, inr, true, false, List, [], ◌∷◌,
  ltb, max, min, ◌++◌, if◌then◌else◌, All, length, take, Bool-cases, arith,
}
use messaging_system.Messages.Read.{Row, insert_row, by_seq, max_seq}

abbrev pub seq_of : Row → ℕ
seq_of r = r.1.seq_id

abbrev pub Increasing : List Row → Type 0
Increasing [] = Unit
Increasing (r ∷ rows) = All (λ s. seq_of r < seq_of s) rows × Increasing rows

abbrev pub DistinctSeq : List Row → Type 0
DistinctSeq [] = Unit
DistinctSeq (r ∷ rows) = All (λ s. seq_of r ≢ seq_of s) rows × DistinctSeq rows

-- The rows after a number.
unfoldable pub after : ℕ → List Row → List Row
after a [] = []
after a (r ∷ rows) = let rest = after a rows in if ltb a (seq_of r) then r ∷ rest else rest

unfoldable pub drop : ℕ → List Row → List Row
drop zero rows = rows
drop (suc n) [] = []
drop (suc n) (r ∷ rows) = drop n rows

All-insert_row :
    (P : Row → Type 0) (r : Row) (rows : List Row) → P r → All P rows → All P (insert_row r rows)
unfolding insert_row
All-insert_row P r [] p h = (p, tt)
All-insert_row P (i, m) ((j, n) ∷ rows) p h = elim (Bool-cases (ltb n.seq_id m.seq_id)) [
  | inl e ↦ rw (e, insert_row) (h.0, All-insert_row P (i, m) rows p h.1)
  | inr e ↦ rw (e, insert_row) (p, h)
]

pub All-by_seq : (P : Row → Type 0) (rows : List Row) → All P rows → All P (by_seq rows)
unfolding by_seq
All-by_seq P [] h = tt
All-by_seq P (r ∷ rows) h = All-insert_row P r (by_seq rows) h.0 (All-by_seq P rows h.1)

All-map : (P Q : Row → Type 0) (rows : List Row) → ((r : Row) → P r → Q r) → All P rows → All Q rows
All-map P Q [] f h = tt
All-map P Q (r ∷ rows) f h = (f r h.0, All-map P Q rows f h.1)

insert_row-Increasing :
    (r : Row) (rows : List Row)
    → All (λ s. seq_of r ≢ seq_of s) rows
    → Increasing rows
    → Increasing (insert_row r rows)
unfolding insert_row
insert_row-Increasing r [] h w = (tt, tt)
insert_row-Increasing (i, m) ((j, n) ∷ rows) h w = elim (Bool-cases (ltb n.seq_id m.seq_id)) [
  | inl e ↦
      rw (e, insert_row)
        (
          All-insert_row (λ s. n.seq_id < seq_of s) (i, m) rows (ground arith) w.0,
          insert_row-Increasing (i, m) rows h.1 w.1,
        )
  | inr e ↦
      let differ = h.0 in
      let below : m.seq_id < n.seq_id = ground arith in
      rw (e, insert_row)
        (
          (
            below,
            All-map (λ s. n.seq_id < seq_of s) (λ s. m.seq_id < seq_of s) rows (λ s l. omega arith)
                w.0,
          ),
          w,
        )
]

pub by_seq-Increasing : (rows : List Row) → DistinctSeq rows → Increasing (by_seq rows)
unfolding by_seq
by_seq-Increasing [] h = tt
by_seq-Increasing (r ∷ rows) h =
    insert_row-Increasing r (by_seq rows) (All-by_seq (λ s. seq_of r ≢ seq_of s) rows h.0)
      (by_seq-Increasing rows h.1)

after-All : (a : ℕ) (rows : List Row) → All (λ s. a < seq_of s) rows → after a rows ≡ rows
unfolding after
after-All a [] h = refl
after-All a (r ∷ rows) h =
    let e : ltb a (seq_of r) ≡ true = ground arith in rw (e, after, after-All a rows h.1) refl

after-insert_row :
    (a : ℕ) (r : Row) (rows : List Row)
    → after a (insert_row r rows)
      ≡ (if ltb a (seq_of r) then insert_row r (after a rows) else after a rows)
unfolding after insert_row
after-insert_row a r [] = elim (Bool-cases (ltb a (seq_of r))) [
  | inl e ↦ rw e refl
  | inr e ↦ rw e refl
]
after-insert_row a (i, m) ((j, n) ∷ rows) = elim (Bool-cases (ltb n.seq_id m.seq_id)) [
  | inl e ↦ elim (Bool-cases (ltb a n.seq_id)) [
    | inl f ↦
        let g : ltb a m.seq_id ≡ true = ground arith in
        let rest = rw g at (after-insert_row a (i, m) rows) in
        rw (e, f, g, insert_row, after, rest) (rw (e, insert_row) refl)
    | inr f ↦ rw (e, f, insert_row, after) (after-insert_row a (i, m) rows)
  ]
  | inr e ↦ elim (Bool-cases (ltb a m.seq_id)) [
    | inl g ↦
        let f : ltb a n.seq_id ≡ true = ground arith in
        rw (e, f, g, insert_row, after) (rw (e, insert_row) refl)
    | inr g ↦ rw (e, g, insert_row, after) refl
  ]
]

pub after-by_seq : (a : ℕ) (rows : List Row) → after a (by_seq rows) ≡ by_seq (after a rows)
unfolding after by_seq
after-by_seq a [] = refl
after-by_seq a (r ∷ rows) =
    after-insert_row a r (by_seq rows) ∙ elim (Bool-cases (ltb a (seq_of r))) [
      | inl e ↦ rw (e, after-by_seq a rows) refl
      | inr e ↦ rw (e, after-by_seq a rows) refl
    ]

pub max_seq-ge : (n : ℕ) (rows : List Row) → n ≤ max_seq n rows
max_seq-ge n [] = omega arith
max_seq-ge n ((i, m) ∷ rows) = let p = max_seq-ge (max n m.seq_id) rows in omega arith

-- From the last row of a page on, the rest follows.
pub after-page :
    (n : ℕ) (r : Row) (rows : List Row)
    → Increasing (r ∷ rows)
    → n ≤ length rows
    → after (max_seq (seq_of r) (take n rows)) (r ∷ rows) ≡ drop n rows
unfolding after drop
after-page zero r rows w h =
    let e : ltb (seq_of r) (seq_of r) ≡ false = ground arith in
    rw (e, after) (after-All (seq_of r) rows w.0)
after-page (suc n) r [] w h = absurd (omega arith)
after-page (suc n) r (s ∷ rows) w h =
    let below = w.0.0 in
    let top : max (seq_of r) (seq_of s) ≡ seq_of s = omega arith in
    let p = max_seq-ge (seq_of s) (take n rows) in
    let e : ltb (max_seq (seq_of s) (take n rows)) (seq_of r) ≡ false = ground arith in
    let rest = after-page n s rows w.1 (omega arith) in
    subst (λ k. after (max_seq k (take n rows)) (r ∷ s ∷ rows) ≡ drop n rows) (sym top)
      (rw (e, after) rest)

pub after-DistinctSeq : (a : ℕ) (rows : List Row) → DistinctSeq rows → DistinctSeq (after a rows)
unfolding after
after-DistinctSeq a [] h = tt
after-DistinctSeq a (r ∷ rows) h = elim (Bool-cases (ltb a (seq_of r))) [
  | inl e ↦
      rw (e, after) (All-after (λ s. seq_of r ≢ seq_of s) a rows h.0, after-DistinctSeq a rows h.1)
  | inr e ↦ rw (e, after) (after-DistinctSeq a rows h.1)
]
  where
    All-after : (P : Row → Type 0) (a : ℕ) (rows : List Row) → All P rows → All P (after a rows)
    All-after P a [] h = tt
    All-after P a (r ∷ rows) h = elim (Bool-cases (ltb a (seq_of r))) [
      | inl e ↦ rw (e, after) (h.0, All-after P a rows h.1)
      | inr e ↦ rw (e, after) (All-after P a rows h.1)
    ]

pub length-drop : (n : ℕ) (rows : List Row) → length (drop n rows) ≤ length rows
unfolding drop
length-drop zero rows = omega arith
length-drop (suc n) [] = omega arith
length-drop (suc n) (r ∷ rows) = omega (arith, length-drop n rows)

pub take-drop : (n : ℕ) (rows : List Row) → take n rows ++ drop n rows ≡ rows
unfolding drop
take-drop zero rows = refl
take-drop (suc n) [] = refl
take-drop (suc n) (r ∷ rows) = ap (λ x. r ∷ x) (take-drop n rows)

-- What a page that reads one row too many keeps, and whether there is one.
pub take-take : (n : ℕ) (rows : List Row) → take n (take (suc n) rows) ≡ take n rows
take-take zero rows = refl
take-take (suc n) [] = refl
take-take (suc n) (r ∷ rows) = ap (λ x. r ∷ x) (take-take n rows)

pub take_short : (n : ℕ) (rows : List Row) → length rows ≤ n → take n rows ≡ rows
take_short zero [] h = refl
take_short zero (r ∷ rows) h = absurd (omega arith)
take_short (suc n) [] h = refl
take_short (suc n) (r ∷ rows) h = ap (λ x. r ∷ x) (take_short n rows (omega arith))

pub length-take : (n : ℕ) (rows : List Row) → length (take n rows) ≡ min n (length rows)
length-take zero rows = omega arith
length-take (suc n) [] = omega arith
length-take (suc n) (r ∷ rows) = omega (arith, length-take n rows)
