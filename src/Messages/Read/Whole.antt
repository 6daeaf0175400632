-- ===== src/Messages/Read/Whole.antt =====
-- The end of reading page by page, for backend/app/services/message_service.py.
use messaging_system.Base.{
  ℕ, zero, suc, ◌≤◌, ◌<◌, ◌≡◌, refl, sym, subst, ap, ◌∙◌, inl, inr, Option, none, some, List, [],
  ◌∷◌, leb, All, length, take, Bool-cases, arith, ok,
}
use messaging_system.Rbac.{Role}
use messaging_system.Messages.{MessageDb, assert_can_read}
use messaging_system.Messages.Read.{Row, by_seq, max_seq, visible}
use messaging_system.Messages.Read.Sorted.{
  seq_of, Increasing, DistinctSeq, after, drop, by_seq-Increasing, after-by_seq, after-page,
  All-by_seq, length-drop, take-drop, max_seq-ge,
}
use messaging_system.Messages.Read.Paging.{
  read_all, cut, visible-cut, Past, cut-Past, cut-DistinctSeq, cut-next, last_page, full_page,
}

module _ (c u : ℕ) (db : MessageDb) (role : Option Role) (ready : assert_can_read c u db ≡ ok role)
    (distinct : DistinctSeq (visible c none none db.messages)) where
  -- The rows after a full page.
  next_rows :
      (n : ℕ) (cursor : Option ℕ) (r : Row) (tail : List Row)
      → by_seq (visible c none cursor db.messages) ≡ r ∷ tail
      → n ≤ length tail
      → by_seq (visible c none (some (max_seq (seq_of r) (take n tail))) db.messages) ≡ drop n tail
  next_rows n cursor r tail e h =
      let rows = visible c none none db.messages in
      let b = max_seq (seq_of r) (take n tail) in
      let same : by_seq (cut cursor rows) ≡ r ∷ tail =
        ap by_seq (sym (visible-cut c cursor db.messages)) ∙ e in
      let past =
        subst (λ x. All (λ s. Past cursor (seq_of s)) x) same
          (All-by_seq (λ s. Past cursor (seq_of s)) (cut cursor rows) (cut-Past cursor rows)) in
      let sorted =
        subst Increasing same
          (by_seq-Increasing (cut cursor rows) (cut-DistinctSeq cursor rows distinct)) in
      let cuts = cut-next cursor b (seq_of r) rows past.0 (max_seq-ge (seq_of r) (take n tail)) in
      ap by_seq (visible-cut c (some b) db.messages ∙ sym cuts)
      ∙ sym (after-by_seq b (cut cursor rows))
      ∙ ap (after b) same
      ∙ after-page n r tail sorted h

  -- A reader who follows the cursors of pages of at least one message, from any cursor on, ends after
  -- at most one page for each message and one more, and has read exactly the live messages of the
  -- channel after the cursor, each once, in the order of their numbers. (Condition: no two live
  -- messages of the channel share a number.)
  pub read_all_total :
      (fuel n : ℕ) (cursor : Option ℕ)
      → length (by_seq (visible c none cursor db.messages)) < fuel
      → read_all fuel c u (suc n) cursor db ≡ some (by_seq (visible c none cursor db.messages))
  read_all_total zero n cursor h = absurd (omega arith)
  read_all_total (suc fuel) n cursor h =
      of_rows (λ next less. read_all_total fuel n next less)
        (by_seq (visible c none cursor db.messages)) refl
    where
      of_rows :
          ((next : Option ℕ)
            → length (by_seq (visible c none next db.messages)) < fuel
            → read_all fuel c u (suc n) next db ≡ some (by_seq (visible c none next db.messages)))
          → (sorted : List Row) → by_seq (visible c none cursor db.messages) ≡ sorted
          → read_all (suc fuel) c u (suc n) cursor db
            ≡ some (by_seq (visible c none cursor db.messages))
      of_rows again [] e =
          last_page c u db role ready fuel (suc n) cursor [] e (omega arith) ∙ ap some (sym e)
      of_rows again (r ∷ tail) e = elim (Bool-cases (leb (suc n) (length tail))) [
        | inr f ↦
            last_page c u db role ready fuel (suc n) cursor (r ∷ tail) e (ground arith)
            ∙ ap some (sym e)
        | inl f ↦
            let b = max_seq (seq_of r) (take n tail) in
            let next = next_rows n cursor r tail e (ground arith) in
            let size = ap length e in
            let rest =
              again (some b) (let p = ap length next in omega (arith, length-drop n tail)) in
            full_page c u db role ready fuel n cursor r tail (drop n tail) e (ground arith)
              (rest ∙ ap some next)
            ∙ ap (λ x. some (r ∷ x)) (take-drop n tail)
            ∙ ap some (sym e)
      ]
