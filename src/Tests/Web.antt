-- ===== src/Tests/Web.antt =====
-- Webhooks and pages: requests, their answers, and the theorems on them.
use rustls_bench_app.Base.{◌≡◌, ◌≢◌, ◌↔◌, ◌≤◌, ◌<◌, ◌⊎◌, refl, true, some, ◌++◌}
use rustls_bench_app.Base.Text.{Text, codes, text_eq, byte_len}
use rustls_bench_app.Base.Table
use rustls_bench_app.Base.Result.{ok}
use rustls_bench_app.Db.Schema.{empty_db}
use rustls_bench_app.Db.Events.{queued}
use rustls_bench_app.EventQueue.Views.{from_event_string}
use rustls_bench_app.EventQueue.Worker.{System, init, enqueue}
use rustls_bench_app.Github.Signature.{Crypto, verify_webhook_signature, accepts_iff}
use rustls_bench_app.Github.Truncation.{
  maybe_truncate_comment, maybe_truncate_comment_fits, truncation_note,
}
use rustls_bench_app.Http.Handlers.{
  ok_200, bad_request, visible, Request, Config, handle_github_webhook,
}
use rustls_bench_app.Http.Webhook.{
  with_webhook, IsGenuine, accepted_is_authentic, refused_changes_nothing,
}

-- A tag that is the key followed by the message, and hexadecimal digits that stand for themselves.
abbrev pub crypto : Crypto
crypto = record { decode_hex = λ s. some s; hmac_sha256 = λ key message. key ++ message }

abbrev pub config : Config
config = record { webhook_secret = codes "key" }

abbrev pub request : Request
request = record {
  signature = some (visible (codes "sha256=key{}"));
  event = some (visible (codes "push"));
  body = codes "{}";
}

abbrev idle : System
idle = init empty_db

abbrev enqueued : System
enqueued = with_webhook (queued 7 40 (codes "push") (codes "{}")) idle

accepted_is_authentic_example :
    (event : Text) × IsGenuine crypto config 7 40 request idle event
    × (enqueued ≡ with_webhook (queued 7 40 event (codes "{}")) idle)
unfolding handle_github_webhook enqueue verify_webhook_signature from_event_string text_eq init
    Table.insert
accepted_is_authentic_example = accepted_is_authentic crypto config 7 40 request idle enqueued refl

abbrev forged : Request
forged = record request { body = codes "[]" }

forged_ne : (ok bad_request) ≢ ok ok_200
forged_ne p = cc

refused_changes_nothing_example : idle ≡ idle
unfolding handle_github_webhook verify_webhook_signature text_eq
refused_changes_nothing_example =
    refused_changes_nothing crypto config 7 40 forged idle (ok bad_request) idle refl forged_ne

accepts_iff_example :
    (verify_webhook_signature crypto (codes "{}") (codes "sha256=" ++ codes "key{}") (codes "key")
      ≡ ok true)
    ↔ (crypto.decode_hex (codes "key{}") ≡ some (crypto.hmac_sha256 (codes "key") (codes "{}")))
unfolding byte_len
accepts_iff_example =
    accepts_iff crypto (codes "{}") (codes "key") (codes "sha256=") (codes "key{}") refl

maybe_truncate_comment_fits_example :
    (byte_len (codes "ok") ≤ 65536)
    × ((byte_len (codes "ok") ≤ 65536) × (codes "ok" ≡ codes "ok")
        ⊎ (65536 < byte_len (codes "ok"))
          × (byte_len (codes "ok") ≡ 65536)
          × ((prefix : Text) × (rest : Text) × (codes "ok" ≡ prefix ++ rest)
              × (codes "ok" ≡ truncation_note ++ prefix)))
unfolding maybe_truncate_comment byte_len
maybe_truncate_comment_fits_example = maybe_truncate_comment_fits (codes "ok") (codes "ok") refl
