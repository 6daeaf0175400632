-- ===== src/Sessions/Steps.antt =====
-- The changes that a request of backend/app/services/auth_service.py makes to the sessions.
use messaging_system.Base.{
  ℕ, ◌+◌, ◌≤◌, ◌<◌, ◌≡◌, ◌⊎◌, refl, sym, subst, ap, ◌∙◌, inl, inr, true, false, ◌&&◌, none, some,
  [], ◌∷◌, ◌==◌, ==_iff, if◌then◌else◌, is_some, is_none, Bool-cases, Option-cases, arith,
}
use messaging_system.Base.Table.{nat_key, Table, lookup, put, lookup-put_same, lookup-put_other}
use messaging_system.Sessions.{UserSession, AuthDb, revoked_at_time, revoke_all}

-- What a session may become: the user and the last deadline stay, the idle deadline stays under it,
-- and a revocation stays as it is.
pub record Succ (s s' : UserSession) : Type 0 where
  pub same_user : s'.user_id ≡ s.user_id
  pub same_absolute : s'.absolute_expires_at ≡ s.absolute_expires_at
  pub bounded : s.expires_at ≤ s.absolute_expires_at → s'.expires_at ≤ s'.absolute_expires_at
  pub revoked : is_some s.revoked_at ≡ true → s'.revoked_at ≡ s.revoked_at

pub Succ-refl : (s : UserSession) → Succ s s
Succ-refl s = record {
  same_user = refl;
  same_absolute = refl;
  bounded = λ h. h;
  revoked = λ h. refl;
}

Succ-trans : (a b c : UserSession) → Succ a b → Succ b c → Succ a c
Succ-trans a b c h k = record {
  same_user = k.same_user ∙ h.same_user;
  same_absolute = k.same_absolute ∙ h.same_absolute;
  bounded = λ p. k.bounded (h.bounded p);
  revoked = λ p. let q = h.revoked p in k.revoked (subst (λ x. is_some x ≡ true) (sym q) p) ∙ q;
}

-- Every session has an id that was given out, and an idle deadline no later than its last one.
abbrev pub Sound : AuthDb → Type 0
Sound db =
    (id : ℕ) (s : UserSession)
    → lookup id db.sessions ≡ some s
    → (id < db.next_id) × (s.expires_at ≤ s.absolute_expires_at)

-- Every session is still there, as one that it may become.
abbrev pub Grows : AuthDb → AuthDb → Type 0
Grows db db' =
    (id : ℕ) (s : UserSession)
    → lookup id db.sessions ≡ some s
    → (s' : UserSession) × (lookup id db'.sessions ≡ some s') × Succ s s'

-- One change of the table of sessions, or none.
pub data Step (db db' : AuthDb) : Type 0 where
  quiet : db'.sessions ≡ db.sessions → db.next_id ≤ db'.next_id → Step db db'
  moved :
      (id : ℕ) (s s' : UserSession)
      → lookup id db.sessions ≡ some s
      → Succ s s'
      → db'.sessions ≡ put id s' db.sessions
      → db.next_id ≤ db'.next_id
      → Step db db'
  opened :
      (s : UserSession)
      → s.expires_at ≤ s.absolute_expires_at
      → db'.sessions ≡ put db.next_id s db.sessions
      → db'.next_id ≡ db.next_id + 1
      → Step db db'
  swept :
      (now user_id : ℕ)
      → db'.sessions ≡ revoke_all now user_id db.sessions
      → db.next_id ≤ db'.next_id
      → Step db db'

abbrev pub swept_session : ℕ → ℕ → UserSession → UserSession
swept_session now user_id s =
    if s.user_id == user_id && is_none s.revoked_at then revoked_at_time now s else s

pub lookup-revoke_all :
    (now user_id : ℕ) (rows : Table ℕ UserSession) (id : ℕ) (s : UserSession)
    → lookup id rows ≡ some s
    → lookup id (revoke_all now user_id rows) ≡ some (swept_session now user_id s)
unfolding lookup revoke_all
lookup-revoke_all now user_id [] id s h = absurd (cc)
lookup-revoke_all now user_id ((j, x) ∷ rows) id s h = elim (Bool-cases (j == id)) [
  | inl e ↦ let q : x ≡ s = cc (rw e at h) in rw e (ap (λ y. some (swept_session now user_id y)) q)
  | inr e ↦ rw e (lookup-revoke_all now user_id rows id s (rw e at h))
]

lookup-revoke_all-none :
    (now user_id : ℕ) (rows : Table ℕ UserSession) (id : ℕ)
    → lookup id rows ≡ none
    → lookup id (revoke_all now user_id rows) ≡ none
unfolding lookup revoke_all
lookup-revoke_all-none now user_id [] id h = refl
lookup-revoke_all-none now user_id ((j, x) ∷ rows) id h = elim (Bool-cases (j == id)) [
  | inl e ↦ absurd (cc (rw e at h))
  | inr e ↦ rw e (lookup-revoke_all-none now user_id rows id (rw e at h))
]

swept-Succ : (now user_id : ℕ) (s : UserSession) → Succ s (swept_session now user_id s)
swept-Succ now user_id s = elim (Bool-cases (s.user_id == user_id && is_none s.revoked_at)) [
  | inr e ↦ rw e (Succ-refl s)
  | inl e ↦ rw e (record {
    same_user = refl;
    same_absolute = refl;
    bounded = λ h. h;
    revoked = λ h. absurd (ground arith);
  })
]

-- What a row of the changed table was.
swept_before :
    (now user_id : ℕ) (rows : Table ℕ UserSession) (id : ℕ) (t : UserSession)
    → lookup id (revoke_all now user_id rows) ≡ some t
    → (s : UserSession) × (lookup id rows ≡ some s) × (t ≡ swept_session now user_id s)
swept_before now user_id rows id t h = elim (Option-cases (lookup id rows)) [
  | inl e ↦ absurd (let q = lookup-revoke_all-none now user_id rows id e in cc)
  | inr (s, e) ↦ (s, e, (let q = lookup-revoke_all now user_id rows id s e in cc))
]

put_before :
    (k : ℕ) (v : UserSession) (rows : Table ℕ UserSession) (id : ℕ) (t : UserSession)
    → lookup id (put k v rows) ≡ some t
    → ((k ≡ id) × (t ≡ v)) ⊎ (lookup id rows ≡ some t)
put_before k v rows id t h = elim (Bool-cases (k == id)) [
  | inl e ↦ inl ((==_iff k id).0 e, (let q = lookup-put_same k id rows v e in cc))
  | inr e ↦ inr (sym (lookup-put_other k id rows v e) ∙ h)
]

pub Step-Grows : (db db' : AuthDb) → Sound db → Step db db' → Grows db db'
Step-Grows db db' w (quiet e n) id s h = (s, rw e h, Succ-refl s)
Step-Grows db db' w (moved k x y there succ e n) id s h = elim (Bool-cases (k == id)) [
  | inl b ↦
      let p : k ≡ id = (==_iff k id).0 b in
      let q : x ≡ s = cc in
      (y, rw e (lookup-put_same k id db.sessions y b), subst (λ z. Succ z y) q succ)
  | inr b ↦ (s, rw e (lookup-put_other k id db.sessions y b ∙ h), Succ-refl s)
]
Step-Grows db db' w (opened x b e n) id s h =
    let lt = (w id s h).0 in
    let other : (db.next_id == id) ≡ false = ground arith in
    (s, rw e (lookup-put_other db.next_id id db.sessions x other ∙ h), Succ-refl s)
Step-Grows db db' w (swept now u e n) id s h =
    (swept_session now u s, rw e (lookup-revoke_all now u db.sessions id s h), swept-Succ now u s)

pub Step-Sound : (db db' : AuthDb) → Sound db → Step db db' → Sound db'
Step-Sound db db' w (quiet e n) id t h = let (lt, le) = w id t (rw e at h) in (omega arith, le)
Step-Sound db db' w (moved k x y there succ e n) id t h =
    elim (put_before k y db.sessions id t (rw e at h)) [
      | inl (p, q) ↦
          let (lt, le) = w k x there in
          (omega arith, subst (λ z. z.expires_at ≤ z.absolute_expires_at) (sym q) (succ.bounded le))
      | inr g ↦ let (lt, le) = w id t g in (omega arith, le)
    ]
Step-Sound db db' w (opened x b e n) id t h =
    elim (put_before db.next_id x db.sessions id t (rw e at h)) [
      | inl (p, q) ↦ (omega arith, subst (λ z. z.expires_at ≤ z.absolute_expires_at) (sym q) b)
      | inr g ↦ let (lt, le) = w id t g in (omega arith, le)
    ]
Step-Sound db db' w (swept now u e n) id t h =
    let (s, there, q) = swept_before now u db.sessions id t (rw e at h) in
    let (lt, le) = w id s there in
    (
      omega arith,
      subst (λ z. z.expires_at ≤ z.absolute_expires_at) (sym q) ((swept-Succ now u s).bounded le),
    )

pub Grows-refl : (db : AuthDb) → Grows db db
Grows-refl db id s h = (s, h, Succ-refl s)

pub Grows-trans : (a b c : AuthDb) → Grows a b → Grows b c → Grows a c
Grows-trans a b c g k id s h =
    let (t, e, p) = g id s h in let (u, f, q) = k id t e in (u, f, Succ-trans s t u p q)
