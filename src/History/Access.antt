-- ===== src/History/Access.antt =====
-- Which rows a run token reads, after grants were made and after expired ones were purged.
use dog_bot.Common.{
  any-append, Bool, true, ◌&&◌, ◌||◌, List, [], ◌∷◌, map, any, keep, ◌≡◌, refl, ap, ◌∙◌, arith,
}
use dog_bot.Common.Text.{Text, text_eq}
use dog_bot.Common.Int.{ℤ, ltℤ, ◌+ℤ◌}
use dog_bot.History.{
  HistoryReadGrant, HistoryTables, grant_row, create_read_grants, is_live, is_recent, purge_expired,
  is_value, grants_row, dogbot_can_read_history_row, agent_read_messages,
}

module _ {ℓ} {A : Type ℓ} where
  any-keep :
      (p q : A → Bool) (xs : List A)
      → ((x : A) → p x ≡ true → q x ≡ true)
      → any p (keep q xs) ≡ any p xs
  any-keep p q [] h = refl
  any-keep p q (x ∷ xs) h = ground (arith, h x, any-keep p q xs h)

  keep-ext : (p q : A → Bool) (xs : List A) → ((x : A) → p x ≡ q x) → keep p xs ≡ keep q xs
  keep-ext p q [] h = refl
  keep-ext p q (x ∷ xs) h = rw (h x, keep-ext p q xs h) refl

  keep_comm : (p q : A → Bool) (xs : List A) → keep p (keep q xs) ≡ keep q (keep p xs)
  keep_comm p q [] = refl
  keep_comm p q (x ∷ xs) = ground (arith, keep_comm p q xs)

-- The grants of the token that are to be made let it read the row.
abbrev pub grant_allows : ℤ → ℤ → Text → Text → HistoryReadGrant → Bool
grant_allows made now account conversation g =
    ltℤ now (made +ℤ g.ttl_secs)
    && (text_eq g.platform_account account
        && (g.is_admin || is_value g.conversation_id conversation))

module _ (digest : Text → Text) (made now : ℤ) (account conversation : Text) where
  made_grants :
      (token_hash other : Text) (grants : List HistoryReadGrant)
      → any (grants_row other now account conversation) (map (grant_row token_hash made) grants)
        ≡ text_eq token_hash other && any (grant_allows made now account conversation) grants
  unfolding grants_row
  made_grants token_hash other [] = ground arith
  made_grants token_hash other (g ∷ grants) = ground (arith, made_grants token_hash other grants)

  -- After `create_read_grants`, a row is readable with a token if it was before, or if the token has the hash of the new one and one of the new grants, not yet expired, is for the row's account and is an admin's or for the row's conversation.
  pub create_read_grants-can_read :
      (token url : Text) (grants : List HistoryReadGrant) (other : Text) (db : HistoryTables)
      → dogbot_can_read_history_row digest other now account conversation
          (create_read_grants digest made token url grants db).1
        ≡ dogbot_can_read_history_row digest other now account conversation db
          || (text_eq (digest token) (digest other)
              && any (grant_allows made now account conversation) grants)
  unfolding create_read_grants dogbot_can_read_history_row
  create_read_grants-can_read token url grants other db =
      any-append (grants_row (digest other) now account conversation) db.history_read_grants
        (map (grant_row (digest token) made) grants)
      ∙ ap
          (λ b.
            any (grants_row (digest other) now account conversation) db.history_read_grants || b)
          (made_grants (digest token) (digest other) grants)

can_read-purge_expired :
    (digest : Text → Text) (token : Text) (now retention_days : ℤ) (account conversation : Text)
    (db : HistoryTables)
    → dogbot_can_read_history_row digest token now account conversation
        (purge_expired now retention_days db)
      ≡ dogbot_can_read_history_row digest token now account conversation db
unfolding dogbot_can_read_history_row purge_expired grants_row
can_read-purge_expired digest token now retention_days account conversation db =
    any-keep (grants_row (digest token) now account conversation) (is_live now)
      db.history_read_grants (λ g h. ground (arith, h))

-- A purge takes no row away from a token but those older than the retention, and gives it none: the rows that a token reads afterwards are the recent ones of those it read before.
pub purge_expired-agent_read :
    (digest : Text → Text) (token : Text) (now retention_days : ℤ) (db : HistoryTables)
    → agent_read_messages digest token now (purge_expired now retention_days db)
      ≡ keep (is_recent now retention_days) (agent_read_messages digest token now db)
unfolding agent_read_messages purge_expired
purge_expired-agent_read digest token now retention_days db =
    keep_comm _ (is_recent now retention_days) db.history_messages
    ∙ ap (keep (is_recent now retention_days)) (
        keep-ext _ _ db.history_messages (λ row.
          can_read-purge_expired digest token now retention_days row.platform_account
            row.conversation_id db))
