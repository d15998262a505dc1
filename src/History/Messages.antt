-- ===== src/History/Messages.antt =====
-- The messages by the columns of their unique index, before and after an event is stored.
use dog_bot.Common.{
  true, Option, none, some, List, [], ◌∷◌, is_empty, if◌then◌else◌, ◌≡◌, ◌↔◌, inl, inr, refl, arith,
  Bool-cases,
}
use dog_bot.Common.Text.{Text, text_eq_iff}
use dog_bot.Common.Text.Trim.{trim}
use dog_bot.Json.{Value}
use dog_bot.Protocol.{CanonicalEvent, EventKind, message_event, reaction_added, reaction_removed}
use dog_bot.History.{
  MessageRow, HistoryTables, storage_plain_text, is_message, overwrite, upsert_message, message_row,
  insert_of_kind, insert_canonical_event,
}

abbrev pub find : Text → Text → Text → List MessageRow → Option MessageRow
find account conversation id [] = none
find account conversation id (row ∷ rows) =
    if is_message account conversation id row then some row else find account conversation id rows

abbrev pub IsUnique : List MessageRow → Type 0
IsUnique [] = Unit
IsUnique (row ∷ rows) =
    (find row.platform_account row.conversation_id row.message_id rows ≡ none) × IsUnique rows

is_message_iff :
    (account conversation id : Text) (row : MessageRow)
    → (is_message account conversation id row ≡ true) ↔ (
        (row.platform_account ≡ account)
        × (row.conversation_id ≡ conversation)
        × (row.message_id ≡ id))
unfolding is_message
is_message_iff account conversation id row = ground (
  arith,
  text_eq_iff row.platform_account account,
  text_eq_iff row.conversation_id conversation,
  text_eq_iff row.message_id id,
)

-- The row under the key of `new` once `new` is stored.
abbrev pub stored_row : MessageRow → Option MessageRow → MessageRow
stored_row new none = new
stored_row new (some old) = overwrite old new

find-upsert_message :
    (account conversation id : Text) (new : MessageRow) (rows : List MessageRow)
    → find account conversation id (upsert_message new rows) ≡ (
        if is_message account conversation id new
        then some (stored_row new (find account conversation id rows))
        else find account conversation id rows)
unfolding upsert_message
find-upsert_message account conversation id new [] = refl
find-upsert_message account conversation id new (row ∷ rows) = ground (
  arith,
  is_message_iff account conversation id new,
  is_message_iff account conversation id row,
  is_message_iff account conversation id (overwrite row new),
  is_message_iff new.platform_account new.conversation_id new.message_id row,
  find-upsert_message account conversation id new rows,
)

upsert_message-IsUnique :
    (new : MessageRow) (rows : List MessageRow) → IsUnique rows → IsUnique (upsert_message new rows)
unfolding upsert_message
upsert_message-IsUnique new [] u = (refl, tt)
upsert_message-IsUnique new (row ∷ rows) u = ground (
  arith,
  is_message_iff row.platform_account row.conversation_id row.message_id new,
  is_message_iff new.platform_account new.conversation_id new.message_id row,
  find-upsert_message row.platform_account row.conversation_id row.message_id new rows,
  upsert_message-IsUnique new rows u.1,
)

-- The row that an event asks to store: none for a reaction or a message without text.
abbrev pub row_of : (Value → Text) → CanonicalEvent → EventKind → Option MessageRow
row_of print e (message_event m) =
    if is_empty (trim (storage_plain_text m))
    then none
    else some (message_row print e m (trim (storage_plain_text m)))
row_of print e (reaction_added target emoji) = none
row_of print e (reaction_removed target emoji) = none

abbrev pub find_after : Text → Text → Text → Option MessageRow → List MessageRow → Option MessageRow
find_after account conversation id none rows = find account conversation id rows
find_after account conversation id (some new) rows =
    if is_message account conversation id new
    then some (stored_row new (find account conversation id rows))
    else find account conversation id rows

-- The unique index holds after an event is stored, if it held before.
pub insert_canonical_event-IsUnique :
    (print : Value → Text) (e : CanonicalEvent) (db : HistoryTables)
    → IsUnique db.history_messages
    → IsUnique (insert_canonical_event print e db).history_messages
unfolding insert_canonical_event
insert_canonical_event-IsUnique print e db u = by_kind e.kind
  where
    by_kind : (k : EventKind) → IsUnique (insert_of_kind print e k db).history_messages
    by_kind (message_event m) = elim (Bool-cases (is_empty (trim (storage_plain_text m)))) [
      | inl blank ↦ rw blank u
      | inr given ↦ rw given (
          upsert_message-IsUnique (message_row print e m (trim (storage_plain_text m)))
            db.history_messages u)
    ]
    by_kind (reaction_added target emoji) = u
    by_kind (reaction_removed target emoji) = u
