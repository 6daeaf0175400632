-- ===== src/Store/Leads.antt =====
-- Assertions about transactions: what holds after a call that succeeds.
use messaging_system.Base.{
  ◌≡◌, refl, sym, subst, ◌∙◌, inl, inr, Bool, true, false, Option, none, some, Result, ok, err,
  Result-cases,
}
use messaging_system.Store.{Db, AppError, Action, ◌>>=◌, pure, gets, modify, require, some_or, lift}

-- From `P`, a call that succeeds ends in `Q`.
pub record Leads {A : Type 0} (P : Db → Type 0) (m : Action A) (Q : Db → Type 0) : Type 0 where
  pub at : (db db' : Db) (a : A) → P db → m db ≡ ok (a, db') → Q db'

-- A call that succeeds has changed nothing.
pub record Reads {A : Type 0} (m : Action A) : Type 0 where
  pub same : (db db' : Db) (a : A) → m db ≡ ok (a, db') → db' ≡ db

module _ {A B : Type 0} where
  pub >>=-ok :
      (m : Action A) (f : A → Action B) (db db'' : Db) (b : B)
      → (m >>= f) db ≡ ok (b, db'')
      → (a : A) × (db' : Db) × (m db ≡ ok (a, db')) × (f a db' ≡ ok (b, db''))
  unfolding ◌>>=◌
  >>=-ok m f db db'' b h = elim (Result-cases (m db)) [
    | inl ((a, db'), e) ↦ (a, db', e, rw (e, ◌>>=◌) at h)
    | inr (x, e) ↦ absurd (cc (rw (e, ◌>>=◌) at h))
  ]

  -- A step that succeeds is taken.
  pub >>=-step :
      (m : Action A) (f : A → Action B) {db db' : Db} {a : A}
      → m db ≡ ok (a, db')
      → (m >>= f) db ≡ f a db'
  unfolding ◌>>=◌
  >>=-step m f h = rw (h, ◌>>=◌)

  -- A step that is refused ends the call.
  pub >>=-stop :
      (m : Action A) (f : A → Action B) {db : Db} {e : AppError}
      → m db ≡ err e
      → (m >>= f) db ≡ err e
  unfolding ◌>>=◌
  >>=-stop m f h = rw (h, ◌>>=◌)

  pub Leads-bind :
      {P Q R : Db → Type 0} {m : Action A} {f : A → Action B}
      → Leads P m Q
      → ((a : A) → Leads Q (f a) R)
      → Leads P (m >>= f) R
  Leads-bind {P} {Q} {R} {m} {f} h k = record {
    at = λ db db'' b p e.
        let (a, db', e', e'') = >>=-ok m f db db'' b e in
        (k a).at db' db'' b (h.at db db' a p e') e'';
  }

  pub Leads-read :
      {P R : Db → Type 0} {m : Action A} {f : A → Action B}
      → Reads m
      → ((a : A) → Leads P (f a) R)
      → Leads P (m >>= f) R
  Leads-read {P} {R} {m} {f} h k =
      Leads-bind (record { at = λ db db' a p e. subst P (sym (h.same db db' a e)) p }) k

  -- A read that a call starts with leaves the database as it is.
  pub Reads-ok :
      {m : Action A} (f : A → Action B) {db db'' : Db} {b : B}
      → Reads m
      → (m >>= f) db ≡ ok (b, db'')
      → (a : A) × (m db ≡ ok (a, db)) × (f a db ≡ ok (b, db''))
  Reads-ok {m} f {db} {db''} {b} r h =
      let (a, db', e, e') = >>=-ok m f db db'' b h in
      let s : db' ≡ db = r.same db db' a e in
      (a, subst (λ x. m db ≡ ok (a, x)) s e, subst (λ x. f a x ≡ ok (b, db'')) s e')

  pub Reads-bind :
      {m : Action A} {f : A → Action B} → Reads m → ((a : A) → Reads (f a)) → Reads (m >>= f)
  Reads-bind {m} {f} h k = record {
    same = λ db db'' b e.
        let (a, db', e', e'') = >>=-ok m f db db'' b e in
        (k a).same db' db'' b e'' ∙ h.same db db' a e';
  }

module _ {A : Type 0} where
  pub Reads-pure : (a : A) → Reads (pure a)
  unfolding pure
  Reads-pure a = record { same = λ db db' b e. cc }

  pub Reads-gets : (f : Db → A) → Reads (gets f)
  unfolding gets
  Reads-gets f = record { same = λ db db' b e. cc }

  pub Reads-some_or : (o : Option A) (x : AppError) → Reads (some_or o x)
  unfolding some_or
  Reads-some_or none x = record { same = λ db db' b e. absurd (cc) }
  Reads-some_or (some a) x = record { same = λ db db' b e. cc }

  pub Reads-lift : {E : Type 0} (r : Result E A) (x : AppError) → Reads (lift r x)
  unfolding lift
  Reads-lift (ok a) x = record { same = λ db db' b e. cc }
  Reads-lift (err y) x = record { same = λ db db' b e. absurd (cc) }

  pub Leads-pure : {P : Db → Type 0} (a : A) → Leads P (pure a) P
  unfolding pure
  Leads-pure {P} a = record { at = λ db db' b p e. subst P (let q : db ≡ db' = cc in q) p }

pub Reads-require : (b : Bool) (x : AppError) → Reads (require b x)
unfolding require
Reads-require true x = record { same = λ db db' b e. cc }
Reads-require false x = record { same = λ db db' b e. absurd (cc) }

-- What follows a test may use that it passed.
pub Leads-require :
    {B : Type 0} {P R : Db → Type 0} (b : Bool) (x : AppError) (k : Action B)
    → ((b ≡ true) → Leads P k R)
    → Leads P (require b x >>= λ _. k) R
unfolding require ◌>>=◌
Leads-require true x k h = record { at = (h refl).at }
Leads-require false x k h = record { at = λ db db' a p e. absurd (cc) }

pub Leads-modify :
    {P Q : Db → Type 0} (f : Db → Db) → ((db : Db) → P db → Q (f db)) → Leads P (modify f) Q
unfolding modify
Leads-modify {P} {Q} f h = record {
  at = λ db db' a p e. subst Q (let q : f db ≡ db' = cc in q) (h db p);
}

pub ruleset reads_rules =
    (Reads-pure, Reads-gets, Reads-some_or, Reads-lift, Reads-require, Reads-bind)
