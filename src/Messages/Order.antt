-- ===== src/Messages/Order.antt =====
-- The order of the messages of a channel, for backend/app/services/message_service.py.
pub mod Rows
pub mod Keeps
pub mod Calls
pub mod Serves
pub mod Marks
pub mod Reacts
pub mod Runs
use messaging_system.Base.{
  ℕ, ◌+◌, ◌≤◌, ◌<◌, ◌≡◌, ◌⊎◌, refl, sym, subst, ap, ◌∙◌, inl, inr, Bool, true, false, Option, none,
  some, List, [], ◌∷◌, ◌++◌, ◌==◌, ==_iff, Bool-cases, arith,
}
use messaging_system.Base.Table.{
  nat_key, pair_key, pair_same, pair_same_iff, Table, lookup, put, lookup-put_same,
  lookup-put_other,
}
use messaging_system.Store.{Db, Channel}
use messaging_system.Messages.{Message, MessageDb, UserChannelState}
use messaging_system.Messages.Seen.{or_zero}
use messaging_system.Messages.Steps.{
  Later, Later-refl, Later-trans, Step, quiet, published, changed, advanced,
}
use messaging_system.Messages.Order.Rows.{lookup-append, lookup-append_old, put_before}

-- A sequence number that the channel has given out.
abbrev pub GivenOut : MessageDb → ℕ → ℕ → Type 0
GivenOut db c n = (ch : Channel) × (lookup c db.core.channels ≡ some ch) × (n ≤ ch.last_seq_id)

-- Messages have numbers that their channel gave out, from 1, each to one message; markers do not pass
-- the last one.
pub record Sequenced (db : MessageDb) : Type 0 where
  pub known : (id : ℕ) (m : Message) → lookup id db.messages ≡ some m → id < db.next_id
  pub positive : (id : ℕ) (m : Message) → lookup id db.messages ≡ some m → 0 < m.seq_id
  pub placed :
      (id : ℕ) (m : Message) → lookup id db.messages ≡ some m → GivenOut db m.channel_id m.seq_id
  pub distinct :
      (id j : ℕ) (m n : Message)
      → lookup id db.messages ≡ some m
      → lookup j db.messages ≡ some n
      → m.channel_id ≡ n.channel_id
      → m.seq_id ≡ n.seq_id
      → id ≡ j
  pub marked :
      (c u : ℕ) (s : UserChannelState)
      → lookup (c, u) db.states ≡ some s
      → GivenOut db c (or_zero s.last_seen_seq_id)

-- Every message is still there, in its place, and every marker is where it was or further on.
pub record Lasting (db db' : MessageDb) : Type 0 where
  pub stays :
      (id : ℕ) (m : Message)
      → lookup id db.messages ≡ some m
      → (m' : Message) × (lookup id db'.messages ≡ some m') × Later m m'
  pub advances :
      (c u : ℕ) (s : UserChannelState)
      → lookup (c, u) db.states ≡ some s
      → (s' : UserChannelState) × (lookup (c, u) db'.states ≡ some s')
        × (or_zero s.last_seen_seq_id ≤ or_zero s'.last_seen_seq_id)

pub Lasting-refl : (db : MessageDb) → Lasting db db
Lasting-refl db = record {
  stays = λ id m h. (m, h, Later-refl m);
  advances = λ c u s h. (s, h, omega arith);
}

pub Lasting-trans : (a b c : MessageDb) → Lasting a b → Lasting b c → Lasting a c
Lasting-trans a b c p q = record {
  stays = λ id m h.
      let (n, e, l) = p.stays id m h in
      let (o, f, l') = q.stays id n e in (o, f, Later-trans m n o l l');
  advances = λ i u s h.
      let (t, e, l) = p.advances i u s h in
      let (v, f, l') = q.advances i u t e in (v, f, omega arith);
}

-- Neither the rows of the core but for the channels, nor the other columns, matter here.
pub same_given :
    (db db' : MessageDb) (c n : ℕ)
    → db'.core.channels ≡ db.core.channels
    → GivenOut db c n
    → GivenOut db' c n
same_given db db' c n e (ch, there, le) = (ch, rw e there, le)

pub raised_given :
    (db db' : MessageDb) (c n k : ℕ) (ch : Channel)
    → lookup k db.core.channels ≡ some ch
    → db'.core.channels ≡ put k (record ch { last_seq_id = ch.last_seq_id + 1 }) db.core.channels
    → GivenOut db c n
    → GivenOut db' c n
raised_given db db' c n k ch at e (x, there, le) = elim (Bool-cases (k == c)) [
  | inl f ↦
      let p : k ≡ c = (==_iff k c).0 f in
      let q : ch ≡ x = (let r = subst (λ y. lookup y db.core.channels ≡ some ch) p at in cc) in
      (
        record ch { last_seq_id = ch.last_seq_id + 1 },
        rw e (lookup-put_same k c db.core.channels _ f),
        (let s = ap (λ y. y.last_seq_id) q in omega arith),
      )
  | inr f ↦ (x, rw e (lookup-put_other k c db.core.channels _ f ∙ there), le)
]

pub Step-Lasting : (db db' : MessageDb) → Sequenced db → Step db db' → Lasting db db'
Step-Lasting db db' w (quiet e f g n) = record {
  stays = λ id m h. (m, rw e h, Later-refl m);
  advances = λ c u s h. (s, rw g h, omega arith);
}
Step-Lasting db db' w (published m ch at seq e f g n) = record {
  stays = λ id x h. (x, rw e (lookup-append_old db.next_id id m x db.messages h), Later-refl x);
  advances = λ c u s h. (s, rw g h, omega arith);
}
Step-Lasting db db' w (changed k x y at later e f g n) = record {
  stays = λ id m h. elim (Bool-cases (k == id)) [
    | inl b ↦
        let p : k ≡ id = (==_iff k id).0 b in
        let q : x ≡ m = cc in
        (y, rw e (lookup-put_same k id db.messages y b), subst (λ z. Later z y) q later)
    | inr b ↦ (m, rw e (lookup-put_other k id db.messages y b ∙ h), Later-refl m)
  ];
  advances = λ c u s h. (s, rw g h, omega arith);
}
Step-Lasting db db' w (advanced i v t ch at le up e f g n) = record {
  stays = λ id m h. (m, rw e h, Later-refl m);
  advances = λ c u s h. elim (Bool-cases (pair_same (i, v) (c, u))) [
    | inl b ↦
        let p : (i, v) ≡ (c, u) = (pair_same_iff (i, v) (c, u)).0 b in
        (
          t,
          rw g (lookup-put_same (i, v) (c, u) db.states t b),
          up s (subst (λ z. lookup z db.states ≡ some s) (sym p) h),
        )
    | inr b ↦ (s, rw g (lookup-put_other (i, v) (c, u) db.states t b ∙ h), omega arith)
  ];
}

-- A change that leaves the channels alone keeps the numbers in order.
pub kept-Sequenced :
    (db db' : MessageDb)
    → Sequenced db
    → db'.core.channels ≡ db.core.channels
    → db'.next_id ≡ db.next_id
    → ((id : ℕ) (m' : Message)
        → lookup id db'.messages ≡ some m'
        → (m : Message) × (lookup id db.messages ≡ some m) × Later m m')
    → ((c u : ℕ) (s : UserChannelState)
        → lookup (c, u) db'.states ≡ some s
        → GivenOut db c (or_zero s.last_seen_seq_id))
    → Sequenced db'
kept-Sequenced db db' w f n before marks = record {
  known = λ id m h. let (o, e, l) = before id m h in (let p = w.known id o e in omega arith);
  positive = λ id m h.
      let (o, e, l) = before id m h in
      (let p = w.positive id o e in let q = l.same_seq in omega arith);
  placed = λ id m h.
      let (o, e, l) = before id m h in
      let (ch, at, le) = same_given db db' o.channel_id o.seq_id f (w.placed id o e) in
      (
        ch,
        subst (λ z. lookup z db'.core.channels ≡ some ch) (sym l.same_channel) at,
        (let q = l.same_seq in omega arith),
      );
  distinct = λ id j m x h k same_c same_s.
      let (o, e, l) = before id m h in
      let (p, g, l') = before j x k in
      w.distinct id j o p e g (sym l.same_channel ∙ same_c ∙ l'.same_channel)
        (sym l.same_seq ∙ same_s ∙ l'.same_seq);
  marked = λ c u s h. same_given db db' c (or_zero s.last_seen_seq_id) f (marks c u s h);
}
