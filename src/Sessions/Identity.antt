-- ===== src/Sessions/Identity.antt =====
-- A session belongs to one conversation: what the `SELECT` of a row and its check find while other
-- clients act before every statement.
use dog_bot.Common.{false, ◌&&◌, Option, none, some, ◌≡◌, refl, ◌∙◌, arith}
use dog_bot.Common.Text.{Text, text_eq, text_eq_iff}
use dog_bot.Common.Result.{ok}
use dog_bot.HashMap.{HashMap, get}
use dog_bot.HashMap.Laws.{get-insert_self}
use dog_bot.SessionTables.{
  SessionRow, Tables, SessionRecord, Conversation, fetched, fetch_session, ensure_session_identity,
  update_row, pure, fail, session_conflict,
}
use dog_bot.Sessions.Rely.{
  Stable, Ensures, pure-Ensures, fail-Ensures, statement-Ensures, if-Ensures,
}

-- The row of `key` stands for the conversation `c` with the Claude session `id`.
abbrev pub Holds : Text → Conversation → Text → Tables → Type 0
Holds key c id db =
    (row : SessionRow) × (get key db.runner_sessions ≡ some row)
    × (row.claude_session_id ≡ id)
    × (row.platform ≡ c.platform)
    × (row.platform_account ≡ c.platform_account)
    × (row.conversation_id ≡ c.conversation_id)

-- A record that was handed out for the conversation `c`.
abbrev pub IsOf : Text → Conversation → SessionRecord → Type 0
IsOf key c r =
    (r.session_key ≡ key)
    × (r.platform ≡ c.platform)
    × (r.platform_account ≡ c.platform_account)
    × (r.conversation_id ≡ c.conversation_id)

-- What another client does leaves a row of `key` its conversation and its Claude session; without such a row it may do anything.
abbrev pub KeepsSession : Text → (Tables → Tables) → Type 0
KeepsSession key f =
    (c : Conversation) (id : Text) (t : Tables) → Holds key c id t → Holds key c id (f t)

abbrev pub conversation_in : SessionRecord → Conversation
conversation_in r = record {
  platform = r.platform;
  platform_account = r.platform_account;
  conversation_id = r.conversation_id;
}

abbrev pub SameConversation : SessionRecord → Conversation → Type 0
SameConversation r c =
    (r.platform ≡ c.platform)
    × (r.platform_account ≡ c.platform_account)
    × (r.conversation_id ≡ c.conversation_id)

-- What a `SELECT` has seen.
abbrev pub Seen : Text → Option SessionRecord → Tables → Type 0
Seen key none t = get key t.runner_sessions ≡ none
Seen key (some r) t =
    (r.session_key ≡ key) × (r.is_new ≡ false) × Holds key (conversation_in r) r.claude_session_id t

pub seen_same :
    (key : Text) (r : SessionRecord) (c : Conversation) (id : Text) (t : Tables)
    → Holds key (conversation_in r) r.claude_session_id t
    → Holds key c id t
    → (r.claude_session_id ≡ id) × SameConversation r c
seen_same key r c id t (row, e, i, p, a, n) (row', e', i', p', a', n') =
    let same : row ≡ row' = ground (arith, e, e') in
    ground (arith, same, i, i', p, p', a, a', n, n')

pub renamed :
    (key : Text) (r : SessionRecord) (c : Conversation) (id : Text) (t : Tables)
    → SameConversation r c
    → Holds key (conversation_in r) id t
    → Holds key c id t
renamed key r c id t (sp, sa, sn) (row, e, i, p, a, n) = (row, e, i, p ∙ sp, a ∙ sa, n ∙ sn)

pub get-update_row :
    (key : Text) (change : SessionRow → SessionRow) (row : SessionRow) (rows : HashMap SessionRow)
    → get key rows ≡ some row
    → get key (update_row key change rows) ≡ some (change row)
get-update_row key change row rows e = rw (update_row, e) (get-insert_self key (change row) rows)

module _ (R : (Tables → Tables) → Type 0) where
  pub fetch_session-Ensures :
      (key external : Text) {P E : Tables → Type 0}
      → Stable R P
      → Ensures R P E (fetch_session key external) (λ o t. Seen key o t × P t)
  unfolding fetch_session
  fetch_session-Ensures key external stable =
      statement-Ensures R (λ db. (ok (fetched key external (get key db.runner_sessions)), db))
        stable (λ t p. (seen t (get key t.runner_sessions) refl, p))
    where
      seen :
          (t : Tables) (o : Option SessionRow)
          → get key t.runner_sessions ≡ o
          → Seen key (fetched key external o) t
      seen t none e = e
      seen t (some row) e = (refl, refl, (row, e, refl, refl, refl, refl))

  pub ensure_session_identity-Ensures :
      (r : SessionRecord) (c : Conversation) {P E : Tables → Type 0}
      → ((t : Tables) → P t → ¬ SameConversation r c → E t)
      → Ensures R P E (ensure_session_identity r c) (λ _ t. SameConversation r c × P t)
  unfolding ensure_session_identity
  ensure_session_identity-Ensures r c differs =
      if-Ensures R {m = pure tt}
        {m' = fail (session_conflict r.external_session_id r.platform r.conversation_id r.user_id)}
        (text_eq r.platform c.platform
          && (text_eq r.platform_account c.platform_account
              && text_eq r.conversation_id c.conversation_id))
        (λ same. pure-Ensures R tt (λ t p. (
          ground (
            arith,
            same,
            text_eq_iff r.platform c.platform,
            text_eq_iff r.platform_account c.platform_account,
            text_eq_iff r.conversation_id c.conversation_id,
          ),
          p,
        )))
        (λ other.
          fail-Ensures R
            (session_conflict r.external_session_id r.platform r.conversation_id r.user_id)
            (λ t p. differs t p (λ same. absurd (
              ground (
                arith,
                same,
                other,
                text_eq_iff r.platform c.platform,
                text_eq_iff r.platform_account c.platform_account,
                text_eq_iff r.conversation_id c.conversation_id,
              )))))

module _ (R : (Tables → Tables) → Type 0) (key : Text)
    (keeps : (f : Tables → Tables) → R f → KeepsSession key f) where
  pub Holds-Stable : (c : Conversation) (id : Text) → Stable R (Holds key c id)
  Holds-Stable c id f r t h = keeps f r c id t h
