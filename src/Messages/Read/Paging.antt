-- ===== src/Messages/Read/Paging.antt =====
-- Reading a channel page by page, as a client of backend/app/services/message_service.py does.
use messaging_system.Base.{
  ℕ, zero, suc, ◌+◌, ◌≤◌, ◌<◌, ◌≡◌, refl, ap, ◌∙◌, inl, inr, Bool, true, false, Option, none, some,
  List, [], ◌∷◌, ◌++◌, ltb, All, length, take, Bool-cases, arith, ok, err, is_none, ◌==◌,
}
use messaging_system.Base.Text.{text_eq, codes}
use messaging_system.Base.Table.{Table}
use messaging_system.Rbac.{Role}
use messaging_system.Messages.{Message, MessageDb, assert_can_read}
use messaging_system.Messages.Read.{
  Row, by_seq, max_seq, visible, PageOrder, ordered_rows, page_of, fetch_page, chosen_order,
  list_messages,
}
use messaging_system.Messages.Read.Sorted.{
  seq_of, DistinctSeq, after, after-DistinctSeq, take-take, take_short, length-take,
}

-- The pages from a cursor on, one after the other, as long as there are more; without an answer if a
-- page is refused or the fuel ends.
unfoldable pub read_all : ℕ → ℕ → ℕ → ℕ → Option ℕ → MessageDb → Option (List Row)
read_all zero c u limit cursor db = none
read_all (suc fuel) c u limit cursor db =
    elim (list_messages c u none cursor limit (some (codes "asc")) db) [
      | err _ ↦ none
      | ok page ↦ elim page.has_more [
        | false ↦ some page.rows
        | true ↦ elim (read_all fuel c u limit page.next_after_seq_id db) [
          | none ↦ none
          | some rest ↦ some (page.rows ++ rest)
        ]
      ]
    ]

abbrev pub cut : Option ℕ → List Row → List Row
cut none rows = rows
cut (some a) rows = after a rows

pub visible-cut :
    (c : ℕ) (cursor : Option ℕ) (rows : Table ℕ Message)
    → visible c none cursor rows ≡ cut cursor (visible c none none rows)
unfolding visible after
visible-cut c none rows = refl
visible-cut c (some a) [] = refl
visible-cut c (some a) ((id, m) ∷ rows) =
    let ih = visible-cut c (some a) rows in
    elim (Bool-cases (m.channel_id == c)) [
      | inr e ↦ rw (e, visible) ih
      | inl e ↦ elim (Bool-cases (is_none m.deleted_at)) [
        | inr f ↦ rw (e, f, visible) ih
        | inl f ↦ elim (Bool-cases (ltb a m.seq_id)) [
          | inr g ↦ rw (e, f, g, visible, after) ih
          | inl g ↦ rw (e, f, g, visible, after) (ap (λ x. (id, m) ∷ x) ih)
        ]
      ]
    ]

-- A later cursor cuts what an earlier one left.
after-after : (a b : ℕ) (rows : List Row) → a ≤ b → after b (after a rows) ≡ after b rows
unfolding after
after-after a b [] h = refl
after-after a b (r ∷ rows) h =
    let ih = after-after a b rows h in
    elim (Bool-cases (ltb a (seq_of r))) [
      | inl e ↦ elim (Bool-cases (ltb b (seq_of r))) [
        | inl f ↦ rw (e, f, after) (ap (λ x. r ∷ x) ih)
        | inr f ↦ rw (e, f, after) ih
      ]
      | inr e ↦ let f : ltb b (seq_of r) ≡ false = ground arith in rw (e, f, after) ih
    ]

abbrev pub Past : Option ℕ → ℕ → Type 0
Past none n = Unit
Past (some a) n = a < n

pub cut-Past :
    (cursor : Option ℕ) (rows : List Row) → All (λ s. Past cursor (seq_of s)) (cut cursor rows)
unfolding after
cut-Past none [] = tt
cut-Past none (r ∷ rows) = (tt, cut-Past none rows)
cut-Past (some a) [] = tt
cut-Past (some a) (r ∷ rows) = elim (Bool-cases (ltb a (seq_of r))) [
  | inl e ↦ rw (e, after) (ground arith, cut-Past (some a) rows)
  | inr e ↦ rw (e, after) (cut-Past (some a) rows)
]

pub cut-DistinctSeq :
    (cursor : Option ℕ) (rows : List Row) → DistinctSeq rows → DistinctSeq (cut cursor rows)
cut-DistinctSeq none rows h = h
cut-DistinctSeq (some a) rows h = after-DistinctSeq a rows h

-- The rows from a cursor on, where a row past the cursor is the next one.
pub cut-next :
    (cursor : Option ℕ) (b n : ℕ) (rows : List Row)
    → Past cursor n
    → n ≤ b
    → after b (cut cursor rows) ≡ after b rows
cut-next none b n rows p h = refl
cut-next (some a) b n rows p h = after-after a b rows (omega arith)

-- The row that is read beyond the limit tells whether there is more.
fetch_page-eq :
    (n : ℕ) (rows : List Row)
    → fetch_page PageOrder.asc n rows
      ≡ page_of PageOrder.asc (take n (by_seq rows)) (ltb n (length (by_seq rows)))
unfolding fetch_page ordered_rows
fetch_page-eq n rows =
    let one_more : n + 1 ≡ suc n = omega arith in
    let size = length-take (suc n) (by_seq rows) in
    let more : ltb n (length (take (suc n) (by_seq rows))) ≡ ltb n (length (by_seq rows)) =
      ground arith in
    rw (fetch_page, ordered_rows, one_more, take-take n (by_seq rows), more) refl

page_of-rows : (rows : List Row) (b : Bool) → (page_of PageOrder.asc rows b).rows ≡ rows
page_of-rows [] b = refl
page_of-rows (r ∷ rows) b = refl

page_of-has_more : (rows : List Row) (b : Bool) → (page_of PageOrder.asc rows b).has_more ≡ b
page_of-has_more [] b = refl
page_of-has_more (r ∷ rows) b = refl

module _ (c u : ℕ) (db : MessageDb) (role : Option Role)
    (ready : assert_can_read c u db ≡ ok role) where
  list_messages-page :
      (limit : ℕ) (cursor : Option ℕ)
      → list_messages c u none cursor limit (some (codes "asc")) db
        ≡ ok (fetch_page PageOrder.asc limit (visible c none cursor db.messages))
  unfolding list_messages chosen_order text_eq
  list_messages-page limit cursor = rw (ready, list_messages) refl

  -- The page that the service answers with, from the sorted rows and the test for more.
  listed_page :
      (limit : ℕ) (cursor : Option ℕ) (sorted : List Row) (more : Bool)
      → by_seq (visible c none cursor db.messages) ≡ sorted
      → ltb limit (length sorted) ≡ more
      → list_messages c u none cursor limit (some (codes "asc")) db
        ≡ ok (page_of PageOrder.asc (take limit sorted) more)
  listed_page limit cursor sorted more e f =
      rw
        (
          list_messages-page limit cursor,
          fetch_page-eq limit (visible c none cursor db.messages),
          e,
          f,
        )
        refl

  pub last_page :
      (fuel limit : ℕ) (cursor : Option ℕ) (sorted : List Row)
      → by_seq (visible c none cursor db.messages) ≡ sorted
      → length sorted ≤ limit
      → read_all (suc fuel) c u limit cursor db ≡ some sorted
  unfolding read_all
  last_page fuel limit cursor sorted e h =
      let page = listed_page limit cursor sorted false e (ground arith) in
      rw (page, read_all, page_of-has_more (take limit sorted) false)
        (ap some (page_of-rows (take limit sorted) false ∙ take_short limit sorted h))

  pub full_page :
      (fuel n : ℕ) (cursor : Option ℕ) (r : Row) (tail rest : List Row)
      → by_seq (visible c none cursor db.messages) ≡ r ∷ tail
      → suc n ≤ length tail
      → read_all fuel c u (suc n) (some (max_seq (seq_of r) (take n tail))) db ≡ some rest
      → read_all (suc fuel) c u (suc n) cursor db ≡ some ((r ∷ take n tail) ++ rest)
  unfolding read_all
  full_page fuel n cursor r tail rest e h k =
      let page = listed_page (suc n) cursor (r ∷ tail) true e (ground arith) in
      rw (page, read_all, k) refl
