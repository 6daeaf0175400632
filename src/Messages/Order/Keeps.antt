-- ===== src/Messages/Order/Keeps.antt =====
-- The changes of backend/app/services/message_service.py against the order of a channel.
use messaging_system.Base.{
  ℕ, ◌+◌, ◌≤◌, ◌≡◌, ◌⊎◌, refl, sym, subst, ap, ◌∙◌, inl, inr, some, [], ◌∷◌, ◌++◌, ◌≢◌, ==_iff,
  arith,
}
use messaging_system.Base.Table.{nat_key, pair_key, lookup, put, lookup-put_same}
use messaging_system.Store.{Channel}
use messaging_system.Messages.{Message, MessageDb}
use messaging_system.Messages.Seen.{or_zero}
use messaging_system.Messages.Steps.{Later, Later-refl, Step, quiet, published, changed, advanced}
use messaging_system.Messages.Order.{GivenOut, Sequenced, kept-Sequenced, raised_given}
use messaging_system.Messages.Order.Rows.{lookup-append, put_before}

module _ (db db' : MessageDb) (m : Message) (ch : Channel) (w : Sequenced db)
    (at : lookup m.channel_id db.core.channels ≡ some ch) (seq : m.seq_id ≡ ch.last_seq_id + 1)
    (rows : db'.messages ≡ db.messages ++ (db.next_id, m) ∷ [])
    (chans : db'.core.channels
      ≡ put m.channel_id (record ch { last_seq_id = m.seq_id }) db.core.channels)
    (same : db'.states ≡ db.states) (next : db'.next_id ≡ db.next_id + 1) where
  before :
      (id : ℕ) (x : Message)
      → lookup id db'.messages ≡ some x
      → (lookup id db.messages ≡ some x) ⊎ ((db.next_id ≡ id) × (x ≡ m))
  before id x h = lookup-append db.next_id id m x db.messages (rw rows at h)

  raised : (c n : ℕ) → GivenOut db c n → GivenOut db' c n
  raised c n g =
      raised_given db db' c n m.channel_id ch at
        (chans ∙ ap (λ k. put m.channel_id (record ch { last_seq_id = k }) db.core.channels) seq) g

  new_given : GivenOut db' m.channel_id m.seq_id
  new_given =
      let there =
        lookup-put_same m.channel_id m.channel_id db.core.channels
          (record ch { last_seq_id = m.seq_id }) ((==_iff m.channel_id m.channel_id).1 refl) in
      (record ch { last_seq_id = m.seq_id }, rw chans there, omega arith)

  -- No earlier message of the channel has the new number.
  fresh :
      (j : ℕ) (x : Message)
      → lookup j db.messages ≡ some x
      → m.channel_id ≡ x.channel_id
      → m.seq_id ≢ x.seq_id
  fresh j x h e f =
      let (y, there, le) = w.placed j x h in
      let p : ch ≡ y = (let q = subst (λ z. lookup z db.core.channels ≡ some ch) e at in cc) in
      let l = ap (λ z. z.last_seq_id) p in omega arith

  published-Sequenced : Sequenced db'
  published-Sequenced = record {
    known = λ id x h. elim (before id x h) [
      | inl o ↦ (let p = w.known id x o in omega arith)
      | inr (p, q) ↦ omega arith
    ];
    positive = λ id x h. elim (before id x h) [
      | inl o ↦ w.positive id x o
      | inr (p, q) ↦ (let r = ap (λ z. z.seq_id) q in omega arith)
    ];
    placed = λ id x h. elim (before id x h) [
      | inl o ↦ raised x.channel_id x.seq_id (w.placed id x o)
      | inr (p, q) ↦ subst (λ z. GivenOut db' z.channel_id z.seq_id) (sym q) new_given
    ];
    distinct = λ id j x y h k e f. elim (before id x h) [
      | inl o ↦ elim (before j y k) [
        | inl o' ↦ w.distinct id j x y o o' e f
        | inr (p, q) ↦ absurd (
            fresh id x o (sym (ap (λ z. z.channel_id) q) ∙ sym e)
              (sym (ap (λ z. z.seq_id) q) ∙ sym f))
      ]
      | inr (p, q) ↦ elim (before j y k) [
        | inl o' ↦
            absurd
              (fresh j y o' (sym (ap (λ z. z.channel_id) q) ∙ e) (sym (ap (λ z. z.seq_id) q) ∙ f))
        | inr (p', q') ↦ sym p ∙ p'
      ]
    ];
    marked = λ c u s h. raised c (or_zero s.last_seen_seq_id) (w.marked c u s (rw same at h));
  }

pub Step-Sequenced : (db db' : MessageDb) → Sequenced db → Step db db' → Sequenced db'
Step-Sequenced db db' w (quiet e f g n) =
    kept-Sequenced db db' w f n (λ id m h. (m, rw e at h, Later-refl m))
      λ c u s h. w.marked c u s (rw g at h)
Step-Sequenced db db' w (published m ch at seq e f g n) =
    published-Sequenced db db' m ch w at seq e f g n
Step-Sequenced db db' w (changed k x y at later e f g n) =
    kept-Sequenced db db' w f n
      (λ id m h. elim (put_before k id y m db.messages (rw e at h)) [
        | inl (p, q) ↦ (
          x,
          subst (λ z. lookup z db.messages ≡ some x) p at,
          subst (λ z. Later x z) (sym q) later,
        )
        | inr o ↦ (m, o, Later-refl m)
      ])
      λ c u s h. w.marked c u s (rw g at h)
Step-Sequenced db db' w (advanced i v t ch at le up e f g n) =
    kept-Sequenced db db' w f n (λ id m h. (m, rw e at h, Later-refl m))
      λ c u s h. elim (put_before (i, v) (c, u) t s db.states (rw g at h)) [
        | inl (p, q) ↦
            let same_c : i ≡ c = ap (λ z. z.0) p in
            (
              ch,
              subst (λ z. lookup z db.core.channels ≡ some ch) same_c at,
              subst (λ z. or_zero z.last_seen_seq_id ≤ ch.last_seq_id) (sym q) le,
            )
        | inr o ↦ w.marked c u s o
      ]
