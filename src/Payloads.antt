-- ===== src/Payloads.antt =====
-- backend/app/core/payload_limits.py: the size and the nesting of a message's content. A dictionary is
-- the list of its values, whose keys the walk does not read.
pub mod Depth
pub mod Tests
use messaging_system.Base.{
  ℕ, zero, suc, ◌+◌, Bool, true, false, ◌&&◌, ◌||◌, not, Option, none, some, List, [], ◌∷◌, leb,
  ltb, ◌==◌, any, if◌then◌else◌, max, Result, ok, err, length,
}
use messaging_system.Base.Text.{Text}
use messaging_system.Identifier.{is_space, strip}

-- A value, and the values that a value holds.
mutual
  pub data Json : Type 0 where
    atom : Json
    dict list : Values → Json

  pub data Values : Type 0 where
    no_values : Values
    and_value : Json → Values → Values

abbrev pub Stack : Type 0
Stack = List (Json × ℕ)

-- `stack.extend((item, depth) for item in values)`: the last value is popped first.
unfoldable pub extend : Values → ℕ → Stack → Stack
extend no_values depth stack = stack
extend (and_value v vs) depth stack = extend vs depth ((v, depth) ∷ stack)

unfoldable pub children : Json → ℕ → Stack → Stack
children atom depth stack = stack
children (dict vs) depth stack = extend vs depth stack
children (list vs) depth stack = extend vs depth stack

-- The `while` loop, with the rounds that it may take.
unfoldable pub depth_loop : ℕ → ℕ → Stack → Option ℕ
depth_loop fuel max_depth [] = some max_depth
depth_loop zero max_depth (x ∷ stack) = none
depth_loop (suc fuel) max_depth ((current, depth) ∷ stack) =
    depth_loop fuel (max max_depth depth) (children current (depth + 1) stack)

unfoldable mutual
  pub size : Json → ℕ
  size atom = 1
  size (dict vs) = sizes vs + 1
  size (list vs) = sizes vs + 1

  pub sizes : Values → ℕ
  sizes no_values = 0
  sizes (and_value v vs) = size v + sizes vs

-- `_json_depth`, with a round for each value.
unfoldable pub json_depth : Json → Option ℕ
json_depth value = depth_loop (size value) 1 ((value, 1) ∷ [])

pub data PayloadError : Type 0 where
  text_too_long too_deep not_finite json_too_long : PayloadError
  empty_emoji emoji_too_long forbidden_character no_emoji unsupported_character : PayloadError

-- `len(value.encode("utf-8"))`
unfoldable pub utf8_length : Text → ℕ
utf8_length [] = 0
utf8_length (c ∷ s) =
    (if ltb c 128 then 1 else if ltb c 2048 then 2 else if ltb c 65536 then 3 else 4)
    + utf8_length s

unfoldable pub validate_message_text : ℕ → Option Text → Result PayloadError (Option Text)
validate_message_text limit none = ok none
validate_message_text limit (some value) =
    if ltb limit (utf8_length value) then err PayloadError.text_too_long else ok (some value)

-- `serialize` is `json.dumps`, which refuses numbers that are not finite.
unfoldable pub validate_message_json :
    (Json → Option Text) → ℕ → ℕ → Option Json → Result PayloadError (Option Json)
validate_message_json serialize max_depth max_bytes none = ok none
validate_message_json serialize max_depth max_bytes (some value) = elim (json_depth value) [
  | none ↦ err PayloadError.too_deep
  | some depth ↦ if ltb max_depth depth then err PayloadError.too_deep else elim (serialize value) [
    | none ↦ err PayloadError.not_finite
    | some serialized ↦
        if ltb max_bytes (utf8_length serialized)
        then err PayloadError.json_too_long
        else ok (some value)
  ]
]

abbrev pub between : ℕ → ℕ → ℕ → Bool
between low high c = leb low c && leb c high

unfoldable pub is_emoji_base : ℕ → Bool
is_emoji_base c =
    between 126976 129791 c
    || between 9728 10175 c
    || between 8960 9215 c
    || between 127462 127487 c
    || (c == 169)
    || (c == 174)
    || (c == 8252)
    || (c == 8265)
    || (c == 8482)
    || (c == 8505)

-- The joiner, the variation selector, the keycap and the skin tones.
unfoldable pub is_composition : ℕ → Bool
is_composition c = (c == 8205) || (c == 65039) || (c == 8419) || between 127995 127999 c

-- `is_other` is a category of Unicode that starts with C.
unfoldable pub normalize_reaction : (ℕ → Bool) → Text → Result PayloadError Text
normalize_reaction is_other value =
    let emoji = strip value in
    if length emoji == 0
    then err PayloadError.empty_emoji
    else if ltb 16 (length emoji) || ltb 64 (utf8_length emoji)
    then err PayloadError.emoji_too_long
    else if any (λ c. is_space c || (is_other c && not (c == 8205))) emoji
    then err PayloadError.forbidden_character
    else if not (any is_emoji_base emoji)
    then err PayloadError.no_emoji
    else if any (λ c. not (is_emoji_base c) && not (is_composition c)) emoji
    then err PayloadError.unsupported_character
    else ok emoji
