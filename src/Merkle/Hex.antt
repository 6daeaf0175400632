-- ===== src/Merkle/Hex.antt =====
-- Hash texts of backend/app/services/merkle_service.py: `HASH_HEX_RE`, `_hash_bytes`, and Python's
-- `bytes.fromhex` and `bytes.hex`.
use messaging_system.Base.{
  ℕ, ◌+◌, ◌-◌, ◌*◌, ◌/◌, ◌%◌, ◌<◌, ◌≡◌, refl, ap, ◌∙◌, sym, Bool, true, ◌&&◌, ◌||◌, List, [], ◌∷◌,
  arith, ltb, leb, ◌==◌, if◌then◌else◌, length, all, Result, ok, err, Bool-cases, inl, inr,
}
use messaging_system.Base.Text.{Text}

-- The exceptions that the module raises, all of them `ValueError`.
pub data MerkleError : Type 0 where
  malformed_hash no_leaf bad_leaf_count bad_leaf_index too_many_siblings : MerkleError

abbrev pub Checked : Type 0 → Type 0
Checked A = Result MerkleError A

-- `[0-9a-f]`
unfoldable pub is_hex : ℕ → Bool
is_hex c = leb b'0' c && leb c b'9' || leb b'a' c && leb c b'f'

-- `HASH_HEX_RE.fullmatch(value) is not None`
unfoldable pub is_hash_hex : Text → Bool
is_hash_hex value = (length value == 64) && all is_hex value

nibble : ℕ → ℕ
nibble c = if leb c b'9' then c - 48 else c - 87

unfoldable pub hex_digit : ℕ → ℕ
hex_digit n = if ltb n 10 then n + 48 else n + 87

-- `bytes.fromhex`, on texts of even length
unfoldable pub from_hex : Text → List ℕ
unfolding nibble
from_hex [] = []
from_hex (a ∷ []) = []
from_hex (a ∷ b ∷ r) = (nibble a * 16 + nibble b) ∷ from_hex r

-- `bytes.hex`
unfoldable pub to_hex : List ℕ → Text
unfolding hex_digit
to_hex [] = []
to_hex (x ∷ r) = hex_digit (x / 16) ∷ hex_digit (x % 16) ∷ to_hex r

unfoldable pub hash_bytes : Text → Checked (List ℕ)
hash_bytes value = if is_hash_hex value then ok (from_hex value) else err malformed_hash

abbrev pub IsHash : Text → Type 0
IsHash v = is_hash_hex v ≡ true

digit_of_nibble : (c : ℕ) → is_hex c ≡ true → hex_digit (nibble c) ≡ c
unfolding is_hex hex_digit nibble
digit_of_nibble c h = ground arith

nibble_lt : (c : ℕ) → is_hex c ≡ true → nibble c < 16
unfolding is_hex nibble
nibble_lt c h = ground arith

split_byte : (a b : ℕ) → a < 16 → b < 16 → ((a * 16 + b) / 16 ≡ a) × ((a * 16 + b) % 16 ≡ b)
split_byte a b h k = omega arith

to_hex-pair :
    (a b : ℕ) (r : Text)
    → is_hex a ≡ true
    → is_hex b ≡ true
    → to_hex (from_hex (a ∷ b ∷ r)) ≡ a ∷ b ∷ to_hex (from_hex r)
unfolding to_hex from_hex
to_hex-pair a b r h k =
    let parts = split_byte (nibble a) (nibble b) (nibble_lt a h) (nibble_lt b k) in
    rw (parts.0, parts.1, digit_of_nibble a h, digit_of_nibble b k)

-- An even number of hexadecimal digits comes back from its bytes.
pub to_hex-from_hex : (v : Text) → all is_hex v ≡ true → length v % 2 ≡ 0 → to_hex (from_hex v) ≡ v
to_hex-from_hex [] h e = unfold to_hex from_hex in refl
to_hex-from_hex (a ∷ []) h e = absurd (omega arith)
to_hex-from_hex (a ∷ b ∷ r) h e =
    to_hex-pair a b r (ground arith) (ground arith)
    ∙ ap (λ t. a ∷ b ∷ t) (to_hex-from_hex r (ground arith) (omega arith))

-- `_hash_bytes(value).hex()` is `value`, where it does not raise.
pub to_hex-hash : (v : Text) → IsHash v → to_hex (from_hex v) ≡ v
unfolding is_hash_hex
to_hex-hash v h = to_hex-from_hex v (ground arith) (ground arith)

pub length-hash : (v : Text) → IsHash v → length v ≡ 64
unfolding is_hash_hex
length-hash v h = ground arith

-- Distinct hash texts have distinct bytes.
pub from_hex_injective : (u v : Text) → IsHash u → IsHash v → from_hex u ≡ from_hex v → u ≡ v
from_hex_injective u v h k e = sym (to_hex-hash u h) ∙ ap to_hex e ∙ to_hex-hash v k

pub hash_bytes_valid : (v : Text) → IsHash v → hash_bytes v ≡ ok (from_hex v)
unfolding hash_bytes
hash_bytes_valid v h = rw h

-- What `hash_bytes` accepts is a hash text.
pub hash_bytes-IsHash : (v : Text) (b : List ℕ) → hash_bytes v ≡ ok b → IsHash v × (b ≡ from_hex v)
unfolding hash_bytes
hash_bytes-IsHash v b h = elim (Bool-cases (is_hash_hex v)) [
  | inl e ↦ (e, cc (rw e at h))
  | inr e ↦ absurd (cc (rw e at h))
]

pub hex_digit-is_hex : (n : ℕ) → is_hex (hex_digit (n % 16)) ≡ true
unfolding is_hex hex_digit
hex_digit-is_hex n = ground arith
