-- ===== src/History/Recent.antt =====
-- What `recent_rows` shows of a conversation.
use dog_bot.Common.{
  ℕ, zero, suc, ◌^◌, ◌≤◌, ◌<◌, true, false, none, List, [], ◌∷◌, ◌++◌, length, keep, map, ltb, ◌≡◌,
  refl, arith, ap, inl, inr, Bool-cases,
}
use mathlib.Core.List.{Perm}
use mathlib.Core.List.Perm
use dog_bot.Common.Int.{ℤ, pos, negsuc, ltℤ}
use dog_bot.Common.Text.{Text}
use dog_bot.Common.Result.{ok}
use dog_bot.History.{MessageRow, HistoryTables}
use dog_bot.History.Roles.{HistoryStoreError}
use dog_bot.History.Queries.{
  is_of_chat, insert_older, newest_first, first_rows, columns, recent_rows,
}

-- Of two neighbours the second is not newer.
abbrev pub IsNewestFirst : List MessageRow → Type 0
IsNewestFirst [] = Unit
IsNewestFirst (r ∷ []) = Unit
IsNewestFirst (r ∷ s ∷ rows) = (ltℤ r.created_at s.created_at ≡ false) × IsNewestFirst (s ∷ rows)

ltℤ_asym : (m n : ℤ) → ltℤ m n ≡ true → ltℤ n m ≡ false
ltℤ_asym (pos m) (pos n) h = ground arith
ltℤ_asym (pos m) (negsuc n) h = ground arith
ltℤ_asym (negsuc m) (pos n) h = ground arith
ltℤ_asym (negsuc m) (negsuc n) h = ground arith

insert_older-IsNewestFirst :
    (old : MessageRow) (rows : List MessageRow)
    → IsNewestFirst rows
    → IsNewestFirst (insert_older old rows)
unfolding insert_older
insert_older-IsNewestFirst old [] h = tt
insert_older-IsNewestFirst old (r ∷ []) h = ground (arith, ltℤ_asym r.created_at old.created_at)
insert_older-IsNewestFirst old (r ∷ s ∷ rows) h = ground (
  arith,
  ltℤ_asym r.created_at old.created_at,
  ltℤ_asym s.created_at old.created_at,
  insert_older-IsNewestFirst old (s ∷ rows),
)

newest_first-IsNewestFirst : (rows : List MessageRow) → IsNewestFirst (newest_first rows)
unfolding newest_first
newest_first-IsNewestFirst [] = tt
newest_first-IsNewestFirst (r ∷ rows) =
    insert_older-IsNewestFirst r (newest_first rows) (newest_first-IsNewestFirst rows)

insert_older-perm :
    (old : MessageRow) (rows : List MessageRow) → Perm (insert_older old rows) (old ∷ rows)
unfolding insert_older
insert_older-perm old [] = Perm.refl (old ∷ [])
insert_older-perm old (r ∷ rows) = elim (Bool-cases (ltℤ r.created_at old.created_at)) [
  | inl h ↦ rw h (Perm.refl (old ∷ r ∷ rows))
  | inr h ↦ rw h (Perm.trans (Perm.cons r (insert_older-perm old rows)) (Perm.swap old r rows))
]

newest_first-perm : (rows : List MessageRow) → Perm (newest_first rows) rows
unfolding newest_first
newest_first-perm [] = Perm.refl []
newest_first-perm (r ∷ rows) =
    Perm.trans (insert_older-perm r (newest_first rows)) (Perm.cons r (newest_first-perm rows))

-- The rows behind the first.
rows_after : ℕ → List MessageRow → List MessageRow
rows_after zero rows = rows
rows_after (suc n) [] = []
rows_after (suc n) (r ∷ rows) = rows_after n rows

first_rows-append : (n : ℕ) (rows : List MessageRow) → first_rows n rows ++ rows_after n rows ≡ rows
unfolding first_rows rows_after
first_rows-append zero rows = refl
first_rows-append (suc n) [] = refl
first_rows-append (suc n) (r ∷ rows) = ap (λ l. r ∷ l) (first_rows-append n rows)

length-first_rows : (n : ℕ) (rows : List MessageRow) → length (first_rows n rows) ≤ n
unfolding first_rows
length-first_rows zero rows = omega arith
length-first_rows (suc n) [] = omega arith
length-first_rows (suc n) (r ∷ rows) = omega (arith, length-first_rows n rows)

first_rows_all :
    (n : ℕ) (rows : List MessageRow) → length (first_rows n rows) < n → rows_after n rows ≡ []
unfolding first_rows rows_after
first_rows_all zero rows h = absurd (omega (arith, h))
first_rows_all (suc n) [] h = refl
first_rows_all (suc n) (r ∷ rows) h = first_rows_all n rows (omega (arith, h))

-- With a limit below 2^63, `recent_rows` shows the newest messages of the conversation: with those it leaves out they are all its messages, each once, none of them newer than one before it, and none is left out while fewer than the limit are shown.
pub recent_rows_newest :
    (refused : HistoryStoreError) (account conversation : Text) (limit : ℕ) (db : HistoryTables)
    → limit < 2 ^ 63
    → (shown : List MessageRow) × (dropped : List MessageRow) × ((recent_rows none refused account
          conversation limit db).0
        ≡ ok (map columns shown))
      × IsNewestFirst (shown ++ dropped)
      × Perm (shown ++ dropped) (keep (is_of_chat account conversation) db.history_messages)
      × (length shown ≤ limit)
      × (length shown < limit → dropped ≡ [])
unfolding recent_rows
recent_rows_newest refused account conversation limit db h =
    let rows = keep (is_of_chat account conversation) db.history_messages in
    let sorted = newest_first rows in
    let within : ltb limit (2 ^ 63) ≡ true = ground (arith, h) in
    (
      first_rows limit sorted,
      rows_after limit sorted,
      rw within refl,
      rw (first_rows-append limit sorted) (newest_first-IsNewestFirst rows),
      rw (first_rows-append limit sorted) (newest_first-perm rows),
      length-first_rows limit sorted,
      first_rows_all limit sorted,
    )
