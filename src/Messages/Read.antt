-- ===== src/Messages/Read.antt =====
-- backend/app/services/message_service.py: get_message, list_messages, messages_around and the pages of
-- a sync.
pub mod Sorted
pub mod Paging
pub mod Whole
use messaging_system.Base.{
  ℕ, ◌+◌, Bool, true, false, ◌&&◌, not, Option, none, some, List, [], ◌∷◌, ◌++◌, leb, ltb, ◌==◌,
  if◌then◌else◌, is_none, is_some, Result, ok, err, ◌>>=◌, length, take, min, max,
}
use messaging_system.Base.Text.{Text, text_eq, codes}
use messaging_system.Base.Table.{nat_key, Table, lookup}
use messaging_system.Messages.{Message, MessageDb, MessageError, assert_can_read}
use messaging_system.Messages.Change.{message_in}

abbrev pub Row : Type 0
Row = ℕ × Message

unfoldable pub insert_row : Row → List Row → List Row
insert_row r [] = r ∷ []
insert_row (i, m) ((j, n) ∷ rows) =
    let rest = insert_row (i, m) rows in
    if ltb n.seq_id m.seq_id then (j, n) ∷ rest else (i, m) ∷ (j, n) ∷ rows

-- `ORDER BY seq_id`
unfoldable pub by_seq : List Row → List Row
by_seq [] = []
by_seq (r ∷ rows) = insert_row r (by_seq rows)

unfoldable pub reversed : List Row → List Row
reversed [] = []
reversed (r ∷ rows) = reversed rows ++ r ∷ []

-- The live messages of the channel between the two bounds, which are left out.
abbrev pub is_within : Option ℕ → Option ℕ → ℕ → Bool
is_within before after n =
    elim before [ none ↦ true | some b ↦ ltb n b ] && elim after [ none ↦ true | some a ↦ ltb a n ]

unfoldable pub visible : ℕ → Option ℕ → Option ℕ → Table ℕ Message → List Row
visible channel_id before after [] = []
visible channel_id before after ((id, m) ∷ rows) =
    let rest = visible channel_id before after rows in
    if m.channel_id == channel_id && is_none m.deleted_at && is_within before after m.seq_id
    then (id, m) ∷ rest
    else rest

pub data PageOrder : Type 0 where
  asc desc : PageOrder

unfoldable pub ordered_rows : PageOrder → List Row → List Row
ordered_rows asc rows = by_seq rows
ordered_rows desc rows = reversed (by_seq rows)

abbrev pub min_seq : ℕ → List Row → ℕ
min_seq least [] = least
min_seq least ((id, m) ∷ rows) = min_seq (min least m.seq_id) rows

abbrev pub max_seq : ℕ → List Row → ℕ
max_seq most [] = most
max_seq most ((id, m) ∷ rows) = max_seq (max most m.seq_id) rows

pub record Page : Type 0 where
  pub rows : List Row
  pub next_before_seq_id : Option ℕ
  pub next_after_seq_id : Option ℕ
  pub has_more : Bool

-- The cursor in the direction of the order.
abbrev pub page_of : PageOrder → List Row → Bool → Page
page_of order [] more = record {
  rows = [];
  next_before_seq_id = none;
  next_after_seq_id = none;
  has_more = more;
}
page_of asc ((id, m) ∷ rows) more = record {
  rows = (id, m) ∷ rows;
  next_before_seq_id = none;
  next_after_seq_id = some (max_seq m.seq_id rows);
  has_more = more;
}
page_of desc ((id, m) ∷ rows) more = record {
  rows = (id, m) ∷ rows;
  next_before_seq_id = some (min_seq m.seq_id rows);
  next_after_seq_id = none;
  has_more = more;
}

-- Only the first `limit + 1` rows are read.
unfoldable pub fetch_page : PageOrder → ℕ → List Row → Page
fetch_page order limit rows =
    let values = take (limit + 1) (ordered_rows order rows) in
    page_of order (take limit values) (ltb limit (length values))

unfoldable pub chosen_order : Option Text → Option ℕ → Result MessageError PageOrder
chosen_order none none = ok PageOrder.desc
chosen_order none (some a) = ok PageOrder.asc
chosen_order (some order) after =
    if text_eq order (codes "asc")
    then ok PageOrder.asc
    else if text_eq order (codes "desc")
    then ok PageOrder.desc
    else err MessageError.invalid_order

unfoldable pub list_messages :
    ℕ → ℕ → Option ℕ → Option ℕ → ℕ → Option Text → MessageDb → Result MessageError Page
list_messages channel_id user_id before after limit order db = do
  role ← assert_can_read channel_id user_id db
  direction ← chosen_order order after
  ok (fetch_page direction limit (visible channel_id before after db.messages))

unfoldable pub get_message : ℕ → ℕ → ℕ → MessageDb → Result MessageError Message
get_message channel_id user_id message_id db =
    assert_can_read channel_id user_id db >>= λ role. message_in channel_id message_id db

unfoldable pub at_seq : ℕ → List Row → List Row
at_seq n [] = []
at_seq n ((id, m) ∷ rows) = if m.seq_id == n then (id, m) ∷ [] else at_seq n rows

unfoldable pub messages_around : ℕ → ℕ → ℕ → ℕ → ℕ → MessageDb → Result MessageError (List Row)
messages_around channel_id user_id seq_id limit_before limit_after db =
    assert_can_read channel_id user_id db >>= λ role.
    let left =
      take limit_before
        (ordered_rows PageOrder.desc (visible channel_id (some seq_id) none db.messages)) in
    let center = at_seq seq_id (visible channel_id none none db.messages) in
    let right =
      take limit_after
        (ordered_rows PageOrder.asc (visible channel_id none (some seq_id) db.messages)) in
    ok (reversed left ++ center ++ right)

-- `_fetch_sync_message_page`
unfoldable pub fetch_sync_message_page : ℕ → ℕ → ℕ → MessageDb → List Row
fetch_sync_message_page channel_id after_seq_id limit db =
    take (max 1 limit) (by_seq (visible channel_id none (some after_seq_id) db.messages))
