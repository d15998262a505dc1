-- ===== src/Sessions/Bind.antt =====
-- External session ids: their check and their binding while other clients act.
use dog_bot.Common.{
  false, Option, none, some, is_some, ◌≡◌, ◌⊎◌, inl, inr, refl, ap, ◌∙◌, arith, if◌then◌else◌,
}
use dog_bot.Common.Text.{Text, text_eq, text_eq_iff}
use dog_bot.Common.Result.{ok, err}
use dog_bot.HashMap.{get, insert, contains_key}
use dog_bot.HashMap.Laws.{get-insert_self}
use dog_bot.SessionTables.{
  SessionRow, Tables, SessionRecord, session_conflict, postgres, pure, fail, Conversation,
  conversation_session_key, fetch_session, lookup_session_alias, upsert_session_alias,
  ensure_session_identity, ◌>>=◌,
}
use dog_bot.Sessions.{
  missing_session, refuse_other, check_alias, bind_found, validate_external_session_binding,
  bind_external_session_id,
}
use dog_bot.Sessions.Rely.{
  Stable, Post, Ensures, pure-Ensures, fail-Ensures, bind-Ensures, weaken, statement-Ensures,
  if-Ensures, assume,
}
use dog_bot.Sessions.Identity.{
  Holds, KeepsSession, SameConversation, Seen, seen_same, fetch_session-Ensures,
  ensure_session_identity-Ensures, Holds-Stable,
}

-- The external id has no alias, or one of the conversation.
abbrev pub IsFree : Text → Conversation → Tables → Type 0
IsFree external c db =
    (get external db.runner_session_aliases ≡ none)
    ⊎ (get external db.runner_session_aliases ≡ some (conversation_session_key c))

-- What another client does not give the id to another conversation.
abbrev pub KeepsFree : Text → Conversation → (Tables → Tables) → Type 0
KeepsFree external c f = (t : Tables) → IsFree external c t → IsFree external c (f t)

module _ (R : (Tables → Tables) → Type 0) (external : Text) (c : Conversation)
    (P E : Tables → Type 0) (stable : Stable R P) (steady : Stable R E)
    (taken : (t : Tables) → P t → ¬ IsFree external c t → E t) where
  lookup_session_alias-Ensures :
      Ensures R P E
        (lookup_session_alias external)
        (λ o t. (get external t.runner_session_aliases ≡ o) × P t)
  unfolding lookup_session_alias
  lookup_session_alias-Ensures =
      statement-Ensures R (λ db. (ok (get external db.runner_session_aliases), db)) stable
        (λ t p. (refl, p))

  refuse_other-Ensures :
      (o : Option SessionRecord)
      → Ensures R E E (refuse_other external c o) (λ _ t. IsFree external c t × P t)
  refuse_other-Ensures none = fail-Ensures R (missing_session external c) (λ t e. e)
  refuse_other-Ensures (some e) =
      fail-Ensures R (session_conflict external e.platform e.conversation_id e.user_id) (λ t x. x)

  check_alias-Ensures :
      (o : Option Text)
      → Ensures R
          (λ t. (get external t.runner_session_aliases ≡ o) × P t)
          E
          (check_alias external c o)
          (λ _ t. IsFree external c t × P t)
  check_alias-Ensures none = pure-Ensures R tt (λ t (e, p). (inl e, p))
  check_alias-Ensures (some key) =
      if-Ensures R {m = pure tt} {m' = fetch_session key external >>= refuse_other external c}
        (text_eq key (conversation_session_key c))
        (λ same. pure-Ensures R tt (λ t (e, p).
          (inr (e ∙ ap some ((text_eq_iff key (conversation_session_key c)).0 same)), p)))
        (λ other.
          weaken R {P = E} (λ t (e, p). taken t p (not_free t e other)) (λ t e. e) (λ u t q. q)
            (bind-Ensures R {m = fetch_session key external} {f = refuse_other external c}
              (weaken R (λ t e. e) (λ t e. e) (λ o t q. q.1)
                (fetch_session-Ensures R key external {E = E} steady))
              refuse_other-Ensures))
    where
      not_free :
          (t : Tables)
          → get external t.runner_session_aliases ≡ some key
          → text_eq key (conversation_session_key c) ≡ false
          → ¬ IsFree external c t
      not_free t e other (inl none_there) = ground (arith, e, none_there)
      not_free t e other (inr its_own) =
          ground (arith, e, its_own, other, text_eq_iff key (conversation_session_key c))

  -- The check lets through an id that is free, and only such.
  pub validate_external_session_binding-Ensures :
      Ensures R P E
        (validate_external_session_binding external c)
        (λ _ t. IsFree external c t × P t)
  unfolding validate_external_session_binding
  validate_external_session_binding-Ensures =
      bind-Ensures R {m = lookup_session_alias external} {f = check_alias external c}
        lookup_session_alias-Ensures check_alias-Ensures

  module _ (keeps : (f : Tables → Tables) → R f → KeepsSession (conversation_session_key c) f)
      (id : Text) (held : (t : Tables) → P t → Holds (conversation_session_key c) c id t) where
    -- The id is bound to the conversation, whose row still stands for it.
    abbrev pub Bound : Unit {0} → Tables → Type 0
    Bound _ t =
        (get external t.runner_session_aliases ≡ some (conversation_session_key c))
        × Holds (conversation_session_key c) c id t

    upsert_session_alias-Ensures :
        Ensures R
          (Holds (conversation_session_key c) c id)
          E
          (upsert_session_alias external (conversation_session_key c))
          Bound
    unfolding upsert_session_alias
    upsert_session_alias-Ensures =
        statement-Ensures R
          (λ db.
            if contains_key (conversation_session_key c) db.runner_sessions
            then (
              ok tt,
              record db {
                runner_session_aliases =
                    insert external (conversation_session_key c) db.runner_session_aliases;
              },
            )
            else (err postgres, db))
          (Holds-Stable R (conversation_session_key c) keeps c id)
          (λ t h. written t (get (conversation_session_key c) t.runner_sessions) refl h)
      where
        written :
            (t : Tables) (o : Option SessionRow)
            → get (conversation_session_key c) t.runner_sessions ≡ o
            → Holds (conversation_session_key c) c id t
            → Post R E Bound (
                if is_some o
                then (
                  ok tt,
                  record t {
                    runner_session_aliases =
                        insert external (conversation_session_key c) t.runner_session_aliases;
                  },
                )
                else (err postgres, t))
        written t none e h = absurd (ground (arith, e, h))
        written t (some row) e h =
            (get-insert_self external (conversation_session_key c) t.runner_session_aliases, h)

    bind_found-Ensures :
        (o : Option SessionRecord)
        → Ensures R
            (λ t. Seen (conversation_session_key c) o t × P t)
            E
            (bind_found external c o)
            Bound
    bind_found-Ensures none =
        assume R ⊥ (fail (missing_session external c))
          (λ t (n, p). let h = held t p in ground (arith, n, h)) (λ x. absurd x)
    bind_found-Ensures (some r) =
        assume R (SameConversation r c) (bind_found external c (some r))
          (λ t (s, p). (seen_same (conversation_session_key c) r c id t s.2 (held t p)).1)
          (λ same.
            bind-Ensures R {m = ensure_session_identity r c}
              {f = λ _. upsert_session_alias external (conversation_session_key c)}
              (ensure_session_identity-Ensures R r c (λ t p n. absurd (n same)))
              (λ _.
                weaken R (λ t (i, (s, p)). held t p) (λ t e. e) (λ u t q. q)
                  upsert_session_alias-Ensures))

    -- Where the row of the conversation is there, the binding fails only on an id that is taken.
    pub bind_external_session_id-Ensures : Ensures R P E (bind_external_session_id external c) Bound
    unfolding bind_external_session_id
    bind_external_session_id-Ensures =
        bind-Ensures R {m = validate_external_session_binding external c}
          {f = λ _. fetch_session (conversation_session_key c) external >>= λ found.
            bind_found external c found}
          validate_external_session_binding-Ensures
          (λ _.
            weaken R {P = P} (λ t q. q.1) (λ t e. e) (λ u t q. q)
              (bind-Ensures R {m = fetch_session (conversation_session_key c) external}
                {f = bind_found external c}
                (fetch_session-Ensures R (conversation_session_key c) external stable)
                bind_found-Ensures))
