-- ===== src/Platform/Tests.antt =====
-- A plan with a file outside the workspace.
use dog_bot.Common.{false, none, [], ◌∷◌, ◌≡◌, refl}
use dog_bot.Common.Text.{text}
use dog_bot.Common.Result.{is_ok}
use dog_bot.Protocol.{workspace_path, AssetRef, text_part, file, OutboundPlan}
use dog_bot.Platform.{dispatch_plan, is_group_conversation}

abbrev secret : AssetRef
secret = record {
  asset_id = text "file:/etc/passwd";
  kind = text "file";
  mime = text "application/octet-stream";
  size_bytes = 0;
  source = workspace_path (text "/etc/passwd");
}

abbrev leak : OutboundPlan
leak = record {
  messages =
      (record {
        parts = text_part (text "here") ∷ file secret ∷ [];
        reply_to = none;
        suppress_default_reply = false;
        delivery_policy = none;
      })
      ∷ [];
  actions = [];
  delivery_report_policy = none;
}

leak_refused : is_ok (dispatch_plan leak) ≡ false
unfolding dispatch_plan
leak_refused = refl

private_chat : is_group_conversation (text "qq:private:group") ≡ false
unfolding is_group_conversation
private_chat = refl
