-- ===== src/Identifier.antt =====
-- backend/app/core/identifiers.py: usernames and channel slugs. A text is its code points.
pub mod Laws
pub mod Tests
use messaging_system.Base.{
  ℕ, ◌+◌, ◌-◌, ◌≡◌, Bool, true, false, ◌&&◌, ◌||◌, List, [], ◌∷◌, ◌++◌, leb, ◌==◌, if◌then◌else◌,
  length, all, Result, ok, err,
}
use messaging_system.Base.Text.{Text}

-- `[A-Za-z0-9_-]`
unfoldable pub is_safe_char : ℕ → Bool
is_safe_char c =
    leb b'A' c && leb c b'Z'
    || leb b'a' c && leb c b'z'
    || leb b'0' c && leb c b'9'
    || c == b'_'
    || c == b'-'

-- `SAFE_IDENTIFIER_RE.fullmatch`
unfoldable pub is_safe_identifier : Text → Bool
is_safe_identifier v = leb 3 (length v) && leb (length v) 50 && all is_safe_char v

-- `str.isspace` of one code point.
unfoldable pub is_space : ℕ → Bool
is_space c =
    leb 0x09 c && leb c 0x0d
    || leb 0x1c c && leb c 0x20
    || c == 0x85
    || c == 0xa0
    || c == 0x1680
    || leb 0x2000 c && leb c 0x200a
    || c == 0x2028
    || c == 0x2029
    || c == 0x202f
    || c == 0x205f
    || c == 0x3000

unfoldable pub lstrip : Text → Text
lstrip [] = []
lstrip (c ∷ s) = if is_space c then lstrip s else c ∷ s

unfoldable pub keep : ℕ → Text → Text
keep c [] = if is_space c then [] else c ∷ []
keep c (d ∷ r) = c ∷ d ∷ r

-- Trailing spaces go: a space stays only if something that is no space follows it.
unfoldable pub rstrip : Text → Text
rstrip [] = []
rstrip (c ∷ s) = keep c (rstrip s)

unfoldable pub strip : Text → Text
unfolding lstrip rstrip
strip v = rstrip (lstrip v)

-- `str.lower`, as far as `is_safe_identifier` can see it: the letters A to Z, and the two other
-- letters whose lower case has ASCII in it. All else has a lower case that is no ASCII.
unfoldable pub lower : Text → Text
lower [] = []
lower (c ∷ s) =
    let rest = lower s in
    if leb b'A' c && leb c b'Z'
    then (c + 32) ∷ rest
    else if c == 0x212a
    then b'k' ∷ rest
    else if c == 0x130
    then b'i' ∷ 0x307 ∷ rest
    else c ∷ rest

pub data IdentifierError : Type 0 where
  unsafe_identifier : IdentifierError

unfoldable pub normalize_identifier : Text → Bool → Result IdentifierError Text
normalize_identifier value lowercase =
    let stripped = strip value in
    let normalized = if lowercase then lower stripped else stripped in
    if is_safe_identifier normalized then ok normalized else err unsafe_identifier

unfoldable pub normalize_username : Text → Result IdentifierError Text
normalize_username value = normalize_identifier value false

unfoldable pub normalize_channel_slug : Text → Result IdentifierError Text
normalize_channel_slug value = normalize_identifier value true
