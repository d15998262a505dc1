-- ===== src/Exec/Grants.antt =====
-- What the run token of a request lets the run read.
use dog_bot.Common.{
  any-append, Bool, true, false, ◌&&◌, Option, none, some, List, [], ◌∷◌, ◌++◌, map, any, is_empty,
  if◌then◌else◌, ◌≡◌, ◌⊎◌, inl, inr, refl, ◌∙◌, arith, Bool-cases,
}
use dog_bot.Common.Text.{Text, text_eq, text_eq_iff, text_eq_refl}
use dog_bot.Common.Text.Trim.{trim}
use dog_bot.Common.Int.{ℤ, ltℤ, ◌+ℤ◌}
use dog_bot.Models.{RunRequest}
use dog_bot.Config.{Settings}
use dog_bot.Exec.{
  is_admin_private_history_request, push_unique_trimmed, push_configured,
  admin_history_platform_accounts, admin_grant, history_read_grants_for_request,
}
use dog_bot.History.{HistoryTables, create_read_grants, dogbot_can_read_history_row}
use dog_bot.Common.Text.Trim.{trim_idem}
use dog_bot.History.Access.{grant_allows, create_read_grants-can_read}

-- What the code means the request to give: an admin in a private chat the accounts of the bot, all else its own conversation on its own account.
abbrev pub may_read : Settings → RunRequest → Text → Text → Bool
may_read settings request account conversation =
    if is_admin_private_history_request settings request
    then any (λ a. text_eq a account) (admin_history_platform_accounts settings request)
    else text_eq request.platform_account_id account && text_eq request.conversation_id conversation

module _ (request : RunRequest) (ttl made now : ℤ) (account conversation : Text) where
  admin_grants_allow :
      (accounts : List Text)
      → any (grant_allows made now account conversation) (map (admin_grant request ttl) accounts)
        ≡ ltℤ now (made +ℤ ttl) && any (λ a. text_eq a account) accounts
  admin_grants_allow [] = ground arith
  admin_grants_allow (a ∷ accounts) = ground (arith, admin_grants_allow accounts)

-- With a token whose hash no other grant has, a run reads until the token expires exactly the rows that its request may read, and none afterwards: a request that is not an admin's in a private chat, only those of its own conversation.
pub history_read_grants_for_request-reads :
    (digest : Text → Text) (settings : Settings) (request : RunRequest) (made now : ℤ)
    (token url account conversation : Text) (db : HistoryTables)
    → dogbot_can_read_history_row digest token now account conversation db ≡ false
    → dogbot_can_read_history_row digest token now account conversation
        (create_read_grants digest made token url
          (history_read_grants_for_request settings request)
          db).1
      ≡ ltℤ now (made +ℤ settings.history_run_token_ttl_secs)
        && may_read settings request account conversation
unfolding history_read_grants_for_request
history_read_grants_for_request-reads digest settings request made now token url account
      conversation db h =
    create_read_grants-can_read digest made now account conversation token url
      (history_read_grants_for_request settings request) token db
    ∙ rw (h, text_eq_refl (digest token))
        (by_role (Bool-cases (is_admin_private_history_request settings request)))
  where
    by_role :
        (is_admin_private_history_request settings request ≡ true)
          ⊎ (is_admin_private_history_request settings request ≡ false)
        → any
            (grant_allows made now account conversation)
            (history_read_grants_for_request settings request)
          ≡ ltℤ now (made +ℤ settings.history_run_token_ttl_secs)
            && may_read settings request account conversation
    by_role (inl e) = rw e (
        admin_grants_allow request settings.history_run_token_ttl_secs made now account conversation
          (admin_history_platform_accounts settings request))
    by_role (inr e) = rw e (ground arith)

-- Every text of the list has no white space at its ends, is not empty, and stands in it once.
abbrev pub IsAccounts : List Text → Type 0
IsAccounts [] = Unit
IsAccounts (a ∷ rest) =
    (is_empty a ≡ false) × (trim a ≡ a) × (any (λ b. text_eq b a) rest ≡ false) × IsAccounts rest

append-IsAccounts :
    (values : List Text) (a : Text)
    → IsAccounts values
    → is_empty a ≡ false
    → trim a ≡ a
    → any (λ existing. text_eq existing a) values ≡ false
    → IsAccounts (values ++ a ∷ [])
append-IsAccounts [] a h not_empty trimmed new_one = (not_empty, trimmed, refl, tt)
append-IsAccounts (x ∷ values) a h not_empty trimmed new_one = ground (
  arith,
  any-append (λ b. text_eq b x) values (a ∷ []),
  text_eq_iff a x,
  text_eq_iff x a,
  append-IsAccounts values a,
)

push_unique_trimmed-IsAccounts :
    (values : List Text) (value : Text)
    → IsAccounts values
    → IsAccounts (push_unique_trimmed values value)
unfolding push_unique_trimmed
push_unique_trimmed-IsAccounts values value h =
    ground (arith, trim_idem value, append-IsAccounts values (trim value))

push_configured-IsAccounts :
    (values : List Text) (configured : Option Text)
    → IsAccounts values
    → IsAccounts (push_configured values configured)
push_configured-IsAccounts values none h = h
push_configured-IsAccounts values (some a) h = push_unique_trimmed-IsAccounts values a h

-- The accounts that an admin is given are trimmed, not empty, and each stands once.
pub admin_history_platform_accounts-IsAccounts :
    (settings : Settings) (request : RunRequest)
    → IsAccounts (admin_history_platform_accounts settings request)
unfolding admin_history_platform_accounts
admin_history_platform_accounts-IsAccounts settings request =
    push_configured-IsAccounts _ settings.platform_wechatpadpro_account_id (
      push_configured-IsAccounts _ settings.platform_qq_account_id
        (push_unique_trimmed-IsAccounts [] request.platform_account_id tt))
