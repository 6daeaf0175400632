-- ===== src/Bindings/Known.antt =====
-- worker/worker_app/outbox_runner.py: the loop of _apply_broker_binding that collects the known keys.
use messaging_system.Base.{
  ◌≡◌, refl, subst, inl, inr, true, ◌||◌, List, [], ◌∷◌, ◌++◌, ok, Bool-cases, arith,
}
use messaging_system.Base.Text.{Text, text_eq, text_eq_iff}
use messaging_system.Identifier.{strip, is_safe_identifier}
use messaging_system.Identifier.Laws.{strip-channel_key}
use messaging_system.Topology.{channel_key, has_key, add_key}
use messaging_system.Bindings.{is_channel_key, known_keys}

has_key-append :
    (k : Text) (ks : List Text) (j : Text)
    → has_key k (ks ++ j ∷ []) ≡ (has_key k ks || text_eq j k)
unfolding has_key
has_key-append k [] j = ground arith
has_key-append k (i ∷ ks) j = ground (arith, has_key-append k ks j)

has_key-add_same : (k : Text) (ks : List Text) → has_key k (add_key k ks) ≡ true
unfolding add_key
has_key-add_same k ks = elim (Bool-cases (has_key k ks)) [
  | inl e ↦ rw (e, e)
  | inr e ↦ rw (e, has_key-append k ks k, e, (text_eq_iff k k).1 refl)
]

has_key-add : (k j : Text) (ks : List Text) → has_key k ks ≡ true → has_key k (add_key j ks) ≡ true
unfolding add_key
has_key-add k j ks h = elim (Bool-cases (has_key j ks)) [
  | inl e ↦ rw (e, h)
  | inr e ↦ rw (e, has_key-append k ks j, h)
]

known_keys-step :
    (acc : List Text) (v : Text) (vs known : List Text)
    → known_keys acc (v ∷ vs) ≡ ok known
    → known_keys (add_key (strip v) acc) vs ≡ ok known
unfolding known_keys
known_keys-step acc v vs known h = elim (Bool-cases (is_channel_key (strip v))) [
  | inl e ↦ rw e at h
  | inr e ↦ absurd (cc (rw e at h))
]

known_keys-keep :
    (k : Text) (acc vs known : List Text)
    → known_keys acc vs ≡ ok known
    → has_key k acc ≡ true
    → has_key k known ≡ true
unfolding known_keys
known_keys-keep k acc [] known h p =
    subst (λ x. has_key k x ≡ true) (let q : acc ≡ known = cc in q) p
known_keys-keep k acc (v ∷ vs) known h p =
    known_keys-keep k (add_key (strip v) acc) vs known (known_keys-step acc v vs known h)
      (has_key-add k (strip v) acc p)

known_keys-last :
    (acc xs : List Text) (d c : Text) (known : List Text)
    → known_keys acc (xs ++ d ∷ c ∷ []) ≡ ok known
    → has_key (strip c) known ≡ true
known_keys-last acc [] d c known h =
    let s = known_keys-step acc d (c ∷ []) known h in
    known_keys-keep (strip c) _ [] known (known_keys-step (add_key (strip d) acc) c [] known s)
      (has_key-add_same (strip c) (add_key (strip d) acc))
known_keys-last acc (x ∷ xs) d c known h =
    known_keys-last (add_key (strip x) acc) xs d c known
      (known_keys-step acc x (xs ++ d ∷ c ∷ []) known h)

pub known_keys-current :
    (xs : List Text) (d slug : Text) (known : List Text)
    → is_safe_identifier slug ≡ true
    → known_keys [] (xs ++ d ∷ channel_key slug ∷ []) ≡ ok known
    → has_key (channel_key slug) known ≡ true
known_keys-current xs d slug known safe h =
    subst (λ k. has_key k known ≡ true) (strip-channel_key slug safe)
      (known_keys-last [] xs d (channel_key slug) known h)
