-- ===== src/Identifier/Laws.antt =====
-- backend/app/core/identifiers.py: normalized usernames and slugs.
use messaging_system.Base.{
  ℕ, ◌≤◌, ◌≡◌, ◌≢◌, refl, ap, sym, ◌∙◌, inl, inr, Bool, true, false, [], ◌∷◌, ◌++◌, if◌then◌else◌,
  length, all, All, ok, arith, Bool-cases,
}
use messaging_system.Base.Text.{Text, codes}
use messaging_system.Identifier.{
  is_safe_char, is_safe_identifier, is_space, lstrip, rstrip, keep, strip, lower,
  normalize_identifier, normalize_username, normalize_channel_slug,
}

-- No letter of an identifier separates or matches the words of an AMQP routing key.
abbrev pub IsPlain : ℕ → Type 0
IsPlain c = (c ≢ b'.') × (c ≢ b'*') × (c ≢ b'#')

safe_char-IsPlain : (c : ℕ) → is_safe_char c ≡ true → IsPlain c
unfolding is_safe_char
safe_char-IsPlain c h = (ground arith, ground arith, ground arith)

safe_char-space : (c : ℕ) → is_safe_char c ≡ true → is_space c ≡ false
unfolding is_safe_char is_space
safe_char-space c h = ground arith

safe-IsPlain : (v : Text) → all is_safe_char v ≡ true → All IsPlain v
safe-IsPlain [] h = tt
safe-IsPlain (c ∷ v) h = (safe_char-IsPlain c (ground arith), safe-IsPlain v (ground arith))

rstrip-safe : (v : Text) → all is_safe_char v ≡ true → rstrip v ≡ v
unfolding rstrip keep
rstrip-safe [] h = refl
rstrip-safe (c ∷ []) h = rw (safe_char-space c (ground arith))
rstrip-safe (c ∷ d ∷ v) h = rw (rstrip-safe (d ∷ v) (ground arith))

pub strip-safe : (v : Text) → all is_safe_char v ≡ true → strip v ≡ v
unfolding strip
strip-safe [] h = refl
strip-safe (c ∷ v) h = rw (safe_char-space c (ground arith)) (rstrip-safe (c ∷ v) h)

-- Lower case leaves what it returns alone, as far as the result is safe.
lower-lower : (v : Text) → all is_safe_char (lower v) ≡ true → lower (lower v) ≡ lower v
unfolding lower is_safe_char
lower-lower [] h = refl
lower-lower (c ∷ v) h = ground (arith, lower-lower v)

-- What the function accepts.
pub normalized :
    (value : Text) (lowercase : Bool) (v : Text)
    → normalize_identifier value lowercase ≡ ok v
    → (is_safe_identifier v ≡ true) × (v ≡ (if lowercase then lower (strip value) else strip value))
unfolding normalize_identifier
normalized value lowercase v h =
    let n = if lowercase then lower (strip value) else strip value in
    elim (Bool-cases (is_safe_identifier n)) [
      | inl t ↦ let e : n ≡ v = cc (rw t at h) in (rw (← e) t, sym e)
      | inr t ↦ absurd (cc (rw t at h))
    ]

pub safe_parts :
    (v : Text)
    → is_safe_identifier v ≡ true
    → (3 ≤ length v) × (length v ≤ 50) × (all is_safe_char v ≡ true)
unfolding is_safe_identifier
safe_parts v h = (ground arith, ground arith, ground arith)

again_plain : (v : Text) → is_safe_identifier v ≡ true → normalize_username v ≡ ok v
unfolding normalize_username normalize_identifier
again_plain v h = rw (strip-safe v (safe_parts v h).2) (rw h)

again_lower :
    (v w : Text) → is_safe_identifier w ≡ true → w ≡ lower v → normalize_channel_slug w ≡ ok w
unfolding normalize_channel_slug normalize_identifier
again_lower v w h e =
    let fixed : lower w ≡ w = ap lower e ∙ lower-lower v (rw (← e) (safe_parts w h).2) ∙ sym e in
    rw (strip-safe w (safe_parts w h).2) (rw fixed (rw h))

-- A username that `normalize_username` returns has 3 to 50 code points, none of them `.`, `*` or
-- `#`, which separate and match the words of a routing key, and normalizing it again returns it.
pub normalize_username_safe :
    (value v : Text)
    → normalize_username value ≡ ok v
    → (3 ≤ length v) × (length v ≤ 50) × All IsPlain v × (normalize_username v ≡ ok v)
unfolding normalize_username
normalize_username_safe value v h =
    let (safe, e) = normalized value false v h in
    let parts = safe_parts v safe in (parts.0, parts.1, safe-IsPlain v parts.2, again_plain v safe)

-- The same of a slug that `normalize_channel_slug` returns, normalized as a slug.
pub normalize_channel_slug_safe :
    (value v : Text)
    → normalize_channel_slug value ≡ ok v
    → (3 ≤ length v) × (length v ≤ 50) × All IsPlain v × (normalize_channel_slug v ≡ ok v)
unfolding normalize_channel_slug
normalize_channel_slug_safe value v h =
    let (safe, e) = normalized value true v h in
    let parts = safe_parts v safe in
    (parts.0, parts.1, safe-IsPlain v parts.2, again_lower (strip value) v safe e)

-- A routing key of a channel has no spaces at its ends.
pub strip-channel_key :
    (v : Text) → is_safe_identifier v ≡ true → strip (codes "channel." ++ v) ≡ codes "channel." ++ v
unfolding strip is_space lstrip rstrip keep
strip-channel_key [] h = absurd (let q = (safe_parts [] h).0 in omega arith)
strip-channel_key (c ∷ v) h = rw (rstrip-safe (c ∷ v) (safe_parts (c ∷ v) h).2)
