-- ===== src/Messages/Retry.antt =====
-- The retry of a publication, for backend/app/services/message_service.py.
use messaging_system.Base.{
  ℕ, ◌≡◌, refl, subst, ◌∙◌, inl, inr, true, ◌&&◌, none, some, [], ◌∷◌, ◌++◌, ◌==◌, ==_iff, ==_refl,
  is_none, ok, Bool-cases, Option-cases, Result-cases,
}
use messaging_system.Base.Table.{nat_key, pair_key, Table, lookup, put, lookup-put_same}
use messaging_system.Store.{Channel}
use messaging_system.Messages.{
  Message, MessageDb, PublishRequest, Encryption, live_channel, membership_in,
}
use messaging_system.Messages.Publish.{
  is_client, find_client, existing_message, may_publish, publish_message,
}
use messaging_system.Messages.Order.Calls.{live_channel-there, publish_new-New}

find_client-append :
    (c u client id : ℕ) (m : Message) (rows : Table ℕ Message)
    → find_client c u client rows ≡ none
    → m.channel_id ≡ c
    → m.sender_user_id ≡ u
    → m.client_msg_id ≡ some client
    → find_client c u client (rows ++ (id, m) ∷ []) ≡ some (id, m)
unfolding find_client
find_client-append c u client id m [] h p q r =
    let a = (==_iff m.channel_id c).1 p in
    let b = (==_iff m.sender_user_id u).1 q in
    let d : is_client m.client_msg_id client ≡ true = rw r (==_refl client) in rw (a, b, d) refl
find_client-append c u client id m ((j, x) ∷ rows) h p q r =
    elim (Bool-cases
      (x.channel_id == c && (x.sender_user_id == u) && is_client x.client_msg_id client)) [
        | inl e ↦ absurd (cc (rw e at h))
        | inr e ↦ rw (e, find_client) (find_client-append c u client id m rows (rw e at h) p q r)
      ]

module _ (k : ℕ) (encryption : Encryption) where
  still_live :
      (c : ℕ) (ch : Channel) (db db' : MessageDb) (n : ℕ)
      → live_channel c db ≡ ok ch
      → db'.core.channels ≡ put c (record ch { last_seq_id = n }) db.core.channels
      → live_channel c db' ≡ ok (record ch { last_seq_id = n })
  unfolding live_channel
  still_live c ch db db' n h e =
      let there = live_channel-there c db ch h in
      let at : lookup c db'.core.channels ≡ some (record ch { last_seq_id = n }) = rw e (
        lookup-put_same c c db.core.channels (record ch { last_seq_id = n })
          ((==_iff c c).1 refl)) in
      elim (Bool-cases (is_none ch.deleted_at)) [
        | inl f ↦ rw (at, f, live_channel) refl
        | inr f ↦ absurd (cc (rw (there, f, live_channel) at h))
      ]

  -- A publication that succeeded and is repeated under the same client id, at any time, answers with
  -- the same message and changes nothing.
  pub publish_retry :
      (now now' c u client : ℕ) (req : PublishRequest) (db db' : MessageDb) (id : ℕ) (m : Message)
      → req.client_msg_id ≡ some client
      → publish_message k encryption now c u req db ≡ ok ((id, m), db')
      → publish_message k encryption now' c u req db' ≡ ok ((id, m), db')
  unfolding publish_message
  publish_retry now now' c u client req db db' id m named h =
      elim (Result-cases (live_channel c db)) [
        | inr (x, p) ↦ absurd (cc (rw (p, publish_message) at h))
        | inl (ch, p) ↦ elim (Bool-cases (may_publish (membership_in c u db) req)) [
          | inr q ↦ absurd (cc (rw (p, q, publish_message) at h))
          | inl q ↦ elim (Option-cases (existing_message c u req db)) [
            | inr (found, r) ↦
                let e : db ≡ db' = cc (rw (p, q, r, publish_message) at h) in
                let f : found ≡ (id, m) = cc (rw (p, q, r, publish_message) at h) in
                subst (λ z. publish_message k encryption now' c u req z ≡ ok ((id, m), z)) e
                  (rw (p, q, r, publish_message, f) refl)
            | inl r ↦
                let new =
                  publish_new-New k encryption now c u ch req db db' id m
                    (rw (p, q, r, publish_message) at h) in
                let live = still_live c ch db db' m.seq_id p new.channels in
                let may : may_publish (membership_in c u db') req ≡ true = rw new.members q in
                let missing : find_client c u client db.messages ≡ none = rw named at r in
                let found =
                  find_client-append c u client db.next_id m db.messages missing new.in_channel
                    new.by_sender (new.client ∙ named) in
                let again : existing_message c u req db' ≡ some (id, m) =
                  rw (named, new.rows, new.new_id) found in
                rw (live, may, again, publish_message) refl
          ]
        ]
      ]
