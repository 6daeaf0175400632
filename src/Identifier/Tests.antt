-- ===== src/Identifier/Tests.antt =====
-- Identifiers at concrete texts.
use messaging_system.Base.{◌≤◌, ◌≡◌, refl, All, length, ok, err}
use messaging_system.Base.Text.{Text, codes}
use messaging_system.Identifier.{
  is_safe_char, is_safe_identifier, is_space, keep, strip, lower, normalize_identifier,
  normalize_username, normalize_channel_slug, unsafe_identifier,
}
use messaging_system.Identifier.Laws.{IsPlain, normalize_username_safe, normalize_channel_slug_safe}

username-alice : normalize_username (codes " Alice-1 ") ≡ ok (codes "Alice-1")
unfolding normalize_username normalize_identifier strip keep is_space is_safe_identifier
    is_safe_char
username-alice = refl

slug-general : normalize_channel_slug (codes " General ") ≡ ok (codes "general")
unfolding normalize_channel_slug normalize_identifier strip keep is_space lower is_safe_identifier
    is_safe_char
slug-general = refl

slug-wildcard : normalize_channel_slug (codes "news.*") ≡ err unsafe_identifier
unfolding normalize_channel_slug normalize_identifier strip keep is_space lower is_safe_identifier
    is_safe_char
slug-wildcard = refl

abbrev alice : Text
alice = codes "Alice-1"

normalize_username_safe_example :
    (3 ≤ length alice)
    × (length alice ≤ 50)
    × All IsPlain alice
    × (normalize_username alice ≡ ok alice)
normalize_username_safe_example = normalize_username_safe (codes " Alice-1 ") alice username-alice

abbrev general : Text
general = codes "general"

normalize_channel_slug_safe_example :
    (3 ≤ length general)
    × (length general ≤ 50)
    × All IsPlain general
    × (normalize_channel_slug general ≡ ok general)
normalize_channel_slug_safe_example =
    normalize_channel_slug_safe (codes " General ") general slug-general
