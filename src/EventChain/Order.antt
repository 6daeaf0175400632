-- ===== src/EventChain/Order.antt =====
-- backend/app/services/event_integrity_service.py: ORDER BY created_at, id in its queries.
use messaging_system.Base.{
  ◌≤◌, ◌≡◌, refl, ap, inl, inr, Bool, true, false, some, List, [], ◌∷◌, ◌++◌, get_last?, arith, All,
  Bool-cases,
}
use messaging_system.EventChain.{Event, before, insert_ordered, ordered_from, ordered, where_rows}

abbrev pub Sorted : List Event → Type 0
Sorted [] = Unit
Sorted (x ∷ xs) = All (λ y. before y x ≡ false) xs × Sorted xs

insert-All :
    (P : Event → Type 0) (e : Event) (xs : List Event)
    → P e
    → All P xs
    → All P (insert_ordered e xs)
unfolding insert_ordered
insert-All P e [] p h = (p, tt)
insert-All P e (x ∷ xs) p h = elim (Bool-cases (before x e)) [
  | inl b ↦ rw b (h.0, insert-All P e xs p h.1)
  | inr b ↦ rw b (p, h)
]

pub All-weaken :
    (P Q : Event → Type 0) (xs : List Event) → ((e : Event) → P e → Q e) → All P xs → All Q xs
All-weaken P Q [] f h = tt
All-weaken P Q (x ∷ xs) f h = (f x h.0, All-weaken P Q xs f h.1)

before_trans : (x y e : Event) → before x e ≡ false → before y x ≡ false → before y e ≡ false
unfolding before
before_trans x y e h k = ground arith

before_asym : (x e : Event) → before x e ≡ true → before e x ≡ false
unfolding before
before_asym x e h = ground arith

insert-Sorted : (e : Event) (xs : List Event) → Sorted xs → Sorted (insert_ordered e xs)
unfolding insert_ordered
insert-Sorted e [] h = (tt, tt)
insert-Sorted e (x ∷ xs) h = elim (Bool-cases (before x e)) [
  | inl b ↦
      rw b
        (insert-All (λ y. before y x ≡ false) e xs (before_asym x e b) h.0, insert-Sorted e xs h.1)
  | inr b ↦ rw b (
    (
      b,
      All-weaken (λ y. before y x ≡ false) (λ y. before y e ≡ false) xs (λ y. before_trans x y e b)
          h.0,
    ),
    h,
  )
]

ordered_from-Sorted : (es sorted : List Event) → Sorted sorted → Sorted (ordered_from sorted es)
unfolding ordered_from
ordered_from-Sorted [] sorted h = h
ordered_from-Sorted (e ∷ es) sorted h =
    ordered_from-Sorted es (insert_ordered e sorted) (insert-Sorted e sorted h)

pub ordered-Sorted : (es : List Event) → Sorted (ordered es)
unfolding ordered
ordered-Sorted es = ordered_from-Sorted es [] tt

ordered_from-append :
    (es sorted : List Event) (e : Event)
    → ordered_from sorted (es ++ e ∷ []) ≡ insert_ordered e (ordered_from sorted es)
unfolding ordered_from
ordered_from-append [] sorted e = refl
ordered_from-append (x ∷ es) sorted e = ordered_from-append es (insert_ordered x sorted) e

pub ordered-append :
    (es : List Event) (e : Event) → ordered (es ++ e ∷ []) ≡ insert_ordered e (ordered es)
unfolding ordered
ordered-append es e = ordered_from-append es [] e

module _ (p : Event → Bool) where
  pub where_rows-insert_other :
      (e : Event) (xs : List Event)
      → p e ≡ false
      → where_rows p (insert_ordered e xs) ≡ where_rows p xs
  unfolding where_rows insert_ordered
  where_rows-insert_other e [] h = rw h
  where_rows-insert_other e (x ∷ xs) h = ground (arith, where_rows-insert_other e xs h)

  none_after :
      (x e : Event) (xs : List Event)
      → before x e ≡ false
      → All (λ y. before y x ≡ false) xs
      → All (λ y. p y ≡ true → before y e ≡ true) xs
      → where_rows p xs ≡ []
  unfolding where_rows
  none_after x e [] b h k = refl
  none_after x e (y ∷ xs) b h k = elim (Bool-cases (p y)) [
    | inl t ↦ absurd (cc (k.0 t, before_trans x y e b h.0))
    | inr t ↦ rw t (none_after x e xs b h.1 k.1)
  ]

  -- A selected row that every selected row precedes is the last of the selection.
  pub where_rows-insert_last :
      (e : Event) (xs : List Event)
      → p e ≡ true
      → Sorted xs
      → All (λ y. p y ≡ true → before y e ≡ true) xs
      → where_rows p (insert_ordered e xs) ≡ where_rows p xs ++ e ∷ []
  unfolding where_rows insert_ordered
  where_rows-insert_last e [] h s k = rw h
  where_rows-insert_last e (x ∷ xs) h s k = elim (Bool-cases (before x e)) [
    | inl b ↦ elim (Bool-cases (p x)) [
      | inl t ↦ rw (b, t) (ap (λ l. x ∷ l) (where_rows-insert_last e xs h s.1 k.1))
      | inr t ↦ rw (b, t) (where_rows-insert_last e xs h s.1 k.1)
    ]
    | inr b ↦ elim (Bool-cases (p x)) [
      | inl t ↦ absurd (cc (k.0 t))
      | inr t ↦ rw (b, h, t) (rw (none_after x e xs b s.0 k.1))
    ]
  ]

  where_rows-All : (P : Event → Type 0) (xs : List Event) → All P xs → All P (where_rows p xs)
  unfolding where_rows
  where_rows-All P [] h = tt
  where_rows-All P (x ∷ xs) h = elim (Bool-cases (p x)) [
    | inl t ↦ rw t (h.0, where_rows-All P xs h.1)
    | inr t ↦ rw t (where_rows-All P xs h.1)
  ]

  pub where_rows-Sorted : (xs : List Event) → Sorted xs → Sorted (where_rows p xs)
  unfolding where_rows
  where_rows-Sorted [] h = tt
  where_rows-Sorted (x ∷ xs) h = elim (Bool-cases (p x)) [
    | inl t ↦ rw t (where_rows-All (λ y. before y x ≡ false) xs h.0, where_rows-Sorted xs h.1)
    | inr t ↦ rw t (where_rows-Sorted xs h.1)
  ]

  pub where_rows-selects : (xs : List Event) → All (λ y. p y ≡ true) (where_rows p xs)
  unfolding where_rows
  where_rows-selects [] = tt
  where_rows-selects (x ∷ xs) = elim (Bool-cases (p x)) [
    | inl t ↦ rw t (t, where_rows-selects xs)
    | inr t ↦ rw t (where_rows-selects xs)
  ]

  -- What holds of the selection holds of each row that is selected.
  pub All-where_rows :
      (P : Event → Type 0) (xs : List Event)
      → All P (where_rows p xs)
      → All (λ y. p y ≡ true → P y) xs
  unfolding where_rows
  All-where_rows P [] h = tt
  All-where_rows P (x ∷ xs) h = elim (Bool-cases (p x)) [
    | inl t ↦
        let k : P x × All P (where_rows p xs) = rw t at h in (λ _. k.0, All-where_rows P xs k.1)
    | inr t ↦ (λ u. absurd (cc), All-where_rows P xs (rw t at h))
  ]

created_le : (x y : Event) → before y x ≡ false → x.created_at ≤ y.created_at
unfolding before
created_le x y h = ground arith

-- The last row of a sorted list has the latest time.
pub last_is_latest :
    (xs : List Event) (l : Event)
    → Sorted xs
    → get_last? xs ≡ some l
    → All (λ y. y.created_at ≤ l.created_at) xs
last_is_latest [] l s h = tt
last_is_latest (x ∷ []) l s h = (rw (let e : x ≡ l = cc in e) (omega arith), tt)
last_is_latest (x ∷ y ∷ r) l s h =
    let k = last_is_latest (y ∷ r) l s.1 h in (omega (arith, created_le x y s.0.0, k.0), k)

get_last?-total : (x : Event) (xs : List Event) → (l : Event) × (get_last? (x ∷ xs) ≡ some l)
get_last?-total x [] = (x, refl)
get_last?-total x (y ∷ r) = get_last?-total y r

-- What follows from the last row holds of an empty selection too.
pub All-by_last :
    (P : Event → Type 0) (xs : List Event)
    → ((l : Event) → get_last? xs ≡ some l → All P xs)
    → All P xs
All-by_last P [] f = tt
All-by_last P (x ∷ xs) f = let (l, e) = get_last?-total x xs in f l e
