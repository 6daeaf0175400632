-- ===== src/Bindings/Exact.antt =====
-- worker/worker_app/outbox_runner.py: the operations of _apply_broker_binding on the broker.
use messaging_system.Base.{
  ℕ, ◌≡◌, ◌⊎◌, refl, sym, ap, ◌∙◌, inl, inr, Bool, true, false, ◌&&◌, ◌||◌, not, none, some, List,
  [], ◌∷◌, ◌++◌, ◌==◌, ==_iff, subst, if◌then◌else◌, Result, ok, Bool-cases, Option-cases,
  Result-cases, arith,
}
use messaging_system.Base.Text.{Text, text_eq, text_eq_iff}
use messaging_system.Base.Table.{pair_key, put}
use messaging_system.Identifier.{strip, is_safe_identifier}
use messaging_system.Store.{Db}
use messaging_system.Topology.{channel_key, user_key, is_entitled, has_key}
use messaging_system.Bindings.Known.{known_keys-current}
use messaging_system.Bindings.{
  Broker, Command, BindingError, Applied, StateRow, state_row, known_keys, unbind_keys,
  declare_user_queue, reconcile, reconciled, project, apply_current, apply_broker_binding,
}

text_eq_refl : (s : Text) → text_eq s s ≡ true
text_eq_refl s = (text_eq_iff s s).1 refl

module _ {Q : Type 0} (broker : Broker Q) where
  unbind_all-bound :
      (u v k : Text) (ks : List Text) (q : Q)
      → broker.bound v k (unbind_keys broker u none ks q)
        ≡ (not (text_eq u v && has_key k ks) && broker.bound v k q)
  unfolding unbind_keys has_key
  unbind_all-bound u v k [] q = ground arith
  unbind_all-bound u v k (j ∷ ks) q =
      unbind_all-bound u v k ks (broker.unbind u j q)
      ∙ rw (broker.bound-unbind u v j k q) (ground arith)

  unbind_stale-bound :
      (u v k current : Text) (ks : List Text) (q : Q)
      → text_eq current k ≡ false
      → broker.bound v k (unbind_keys broker u (some current) ks q)
        ≡ (not (text_eq u v && has_key k ks) && broker.bound v k q)
  unfolding unbind_keys has_key
  unbind_stale-bound u v k current [] q n = ground arith
  unbind_stale-bound u v k current (j ∷ ks) q n = elim (Bool-cases (text_eq j current)) [
    | inl e ↦
        let p : text_eq j k ≡ false = let s = (text_eq_iff j current).0 e in cc in
        rw (e, p) (unbind_stale-bound u v k current ks q n)
    | inr e ↦ rw e (
        unbind_stale-bound u v k current ks (broker.unbind u j q) n
        ∙ rw (broker.bound-unbind u v j k q) (ground arith))
  ]

  unbind_stale-other :
      (u v k current : Text) (ks : List Text) (q : Q)
      → text_eq u v ≡ false
      → broker.bound v k (unbind_keys broker u (some current) ks q) ≡ broker.bound v k q
  unfolding unbind_keys
  unbind_stale-other u v k current [] q n = refl
  unbind_stale-other u v k current (j ∷ ks) q n = elim (Bool-cases (text_eq j current)) [
    | inl e ↦ rw e (unbind_stale-other u v k current ks q n)
    | inr e ↦ rw e (
        unbind_stale-other u v k current ks (broker.unbind u j q) n
        ∙ rw (broker.bound-unbind u v j k q, n))
  ]

  -- What the operations leave bound, for any key and any queue.
  reconcile-bound :
      (u v k current : Text) (known : List Text) (desired : Bool) (q : Q)
      → has_key current known ≡ true
      → broker.bound v k (reconcile broker u current known desired q) ≡ (
          if text_eq u v && has_key k known
          then desired && text_eq current k
          else text_eq u v && text_eq (user_key u) k || broker.bound v k q)
  unfolding reconcile declare_user_queue
  reconcile-bound u v k current known false q h =
      unbind_all-bound u v k known _
      ∙ rw (broker.bound-bind u v (user_key u) k (broker.declare u q), broker.bound-declare u v k q)
          (ground arith)
  reconcile-bound u v k current known true q h = elim (Bool-cases (text_eq current k)) [
    | inl e ↦
        let p : has_key k known ≡ true = let s = (text_eq_iff current k).0 e in cc in
        broker.bound-bind u v current k _ ∙ (elim (Bool-cases (text_eq u v)) [
          | inl t ↦ rw (t, e, p)
          | inr t ↦ rw t (
              unbind_stale-other u v k current known
                (broker.bind u (user_key u) (broker.declare u q)) t
              ∙ rw (
                broker.bound-bind u v (user_key u) k (broker.declare u q),
                t,
                broker.bound-declare u v k q,
              ))
        ])
    | inr e ↦
        broker.bound-bind u v current k _
        ∙ rw
            (
              unbind_stale-bound u v k current known
                  (broker.bind u (user_key u) (broker.declare u q)) e,
              broker.bound-bind u v (user_key u) k (broker.declare u q),
              broker.bound-declare u v k q,
            )
            (ground arith)
  ]

-- What a command does that is applied: the row that it refers to has its generation; the row
-- is settled at that generation; and of all the keys of all the queues, the known ones of
-- this user are bound only if current and desired, the user's own key is bound, and the others are
-- as they were.
pub record Projected {Q : Type 0} (broker : Broker Q) (command : Command) (a : Applied)
    (db db' : Db) (q q' : Q) : Type 0 where
  pub channel_id : ℕ
  pub user_id : ℕ
  pub row : StateRow
  pub known : List Text
  pub refers : command.reference ≡ some (channel_id, user_id)
  pub found : state_row channel_id user_id db ≡ some row
  pub current_generation : command.generation ≡ some row.state.generation
  pub collected :
      known_keys [] (
        row.state.routing_keys
        ++ row.state.desired_routing_key ∷ channel_key (strip row.channel.channel_slug) ∷ [])
      ≡ ok known
  pub answer : a ≡ (
      if is_entitled row.channel row.membership
      then Applied.applied_bound
      else Applied.applied_unbound)
  pub stored : db' ≡ record db {
    bindings =
        put
          (channel_id, user_id)
          (reconciled
            (is_entitled row.channel row.membership)
            (channel_key (strip row.channel.channel_slug))
            row.state)
          db.bindings;
  }
  pub bindings :
      (v k : Text)
      → let u = strip row.user.username in
        broker.bound v k q' ≡ (
          if text_eq u v && has_key k known
          then is_entitled row.channel row.membership
            && text_eq (channel_key (strip row.channel.channel_slug)) k
          else text_eq u v && text_eq (user_key u) k || broker.bound v k q)

-- A command that is not applied.
abbrev pub is_stale : Applied → Bool
is_stale Applied.applied_bound = false
is_stale Applied.applied_unbound = false
is_stale _ = true

module _ {Q : Type 0} (broker : Broker Q) where
  stale_answer :
      (command : Command) (s a : Applied) (db db' : Db) (q q' : Q)
      → is_stale s ≡ true
      → (let r : Result BindingError (Applied × Db × Q) = ok (s, db, q) in r) ≡ ok (a, db', q')
      → ((is_stale a ≡ true) × (db' ≡ db) × (q' ≡ q)) ⊎ Projected broker command a db db' q q'
  stale_answer command s a db db' q q' t h =
      let r : ◌≡◌ {A = Applied × Db × Q} (s, db, q) (a, db', q') = cc in
      inl (
        subst (λ x. is_stale x ≡ true) (ap (λ x. x.0) r) t,
        sym (ap (λ x. x.1) r),
        sym (ap (λ x. x.2) r),
      )

  project-exact :
      (command : Command) (c u : ℕ) (row : StateRow) (db db' : Db) (q q' : Q) (a : Applied)
      → command.reference ≡ some (c, u)
      → state_row c u db ≡ some row
      → command.generation ≡ some row.state.generation
      → project broker c u row db q ≡ ok (a, db', q')
      → Projected broker command a db db' q q'
  unfolding project
  project-exact command c u row db db' q q' a refers found generation h =
      let name = strip row.user.username in
      let slug = strip row.channel.channel_slug in
      let desired = is_entitled row.channel row.membership in
      let keys = row.state.routing_keys ++ row.state.desired_routing_key ∷ channel_key slug ∷ [] in
      elim (Bool-cases (is_safe_identifier name && is_safe_identifier slug)) [
        | inr e ↦ absurd (cc (rw (e, project) at h))
        | inl e ↦ elim (Result-cases (known_keys [] keys)) [
          | inr (x, f) ↦ absurd (cc (rw (e, f, project) at h))
          | inl (known, f) ↦
              let g = rw (e, f, project) at h in
              let safe : is_safe_identifier slug ≡ true = ground arith in
              let current =
                known_keys-current row.state.routing_keys row.state.desired_routing_key slug known
                  safe f in
              record {
                channel_id = c;
                user_id = u;
                row = row;
                known = known;
                refers = refers;
                found = found;
                current_generation = generation;
                collected = f;
                answer = cc;
                stored = cc;
                bindings = λ v k.
                    ap (broker.bound v k) (
                      let r : q' ≡ reconcile broker name (channel_key slug) known desired q = cc in
                      r)
                    ∙ reconcile-bound broker name v k (channel_key slug) known desired q current;
              }
        ]
      ]

  apply_current-exact :
      (command : Command) (g c u : ℕ) (db db' : Db) (q q' : Q) (a : Applied)
      → command.generation ≡ some g
      → command.reference ≡ some (c, u)
      → apply_current broker g c u db q ≡ ok (a, db', q')
      → ((is_stale a ≡ true) × (db' ≡ db) × (q' ≡ q)) ⊎ Projected broker command a db db' q q'
  unfolding apply_current
  apply_current-exact command g c u db db' q q' a generation refers h =
      elim (Option-cases (state_row c u db)) [
        | inl e ↦
            stale_answer command Applied.stale_missing_state a db db' q q' refl
              (rw (e, apply_current) at h)
        | inr (row, e) ↦ elim (Bool-cases (row.state.generation == g)) [
          | inr f ↦
              stale_answer command Applied.stale_generation a db db' q q' refl
                (rw (e, f, apply_current) at h)
          | inl f ↦ inr (
              project-exact command c u row db db' q q' a refers e
                (generation ∙ ap some (sym ((==_iff row.state.generation g).0 f)))
                (rw (e, f, apply_current) at h))
        ]
      ]

  -- A command that does not raise either is stale and changes neither the database nor the
  -- broker, or refers to a row of its generation: of the keys that the row knows, the user's
  -- queue then has exactly the current one if the user is entitled to the channel, and none if
  -- not; the user's own key is bound, unless it is among those; every other binding of every queue
  -- is as it was, and the row is stored as reconciled at its generation.
  pub apply_broker_binding-exact :
      (command : Command) (db db' : Db) (q q' : Q) (a : Applied)
      → apply_broker_binding broker command db q ≡ ok (a, db', q')
      → ((is_stale a ≡ true) × (db' ≡ db) × (q' ≡ q)) ⊎ Projected broker command a db db' q q'
  unfolding apply_broker_binding
  apply_broker_binding-exact command db db' q q' a h = elim (Option-cases command.generation) [
    | inl e ↦
        stale_answer command Applied.stale_legacy a db db' q q' refl
          (rw (e, apply_broker_binding) at h)
    | inr (g, e) ↦ elim (Option-cases command.reference) [
      | inl f ↦ absurd (cc (rw (e, f, apply_broker_binding) at h))
      | inr ((c, u), f) ↦
          apply_current-exact command g c u db db' q q' a e f (rw (e, f, apply_broker_binding) at h)
    ]
  ]
