-- ===== src/Protocol/License/Quiet.antt =====
-- The second half of a session leaves the platform's certificate, the database and "PASS" alone.
use security_addon.Base.{equal, ℕ, refl, inl, inr, Option, none, some, List, Bytes, Bool-cases}
use security_addon.Status.{⊤, Result, ok, err, fault}
use security_addon.Transport.{Arrival}
use security_addon.Base.{codes}
use security_addon.Database.{get_customer_license_blob}
use security_addon.Protocol.{after, ⊤, or_respond, Platform, Session}
use security_addon.Protocol.Json.{
  send_message, CommandType, send_nonce, send_ek_ak_bind, send_quote_nonce, send_ek_ak_bind_info,
  send_quote_info, send_sign_nonce, send_cust_license, send_update_cust_license,
  send_update_cust_license_ack, send_license_check_resp, invalid_cmd, json_extract_element,
  generate_nonce_payload,
}
use security_addon.Protocol.Keeps.{Keeps, after-Keeps, bind-Keeps, or_respond-Keeps}
use security_addon.Protocol.Loop.Invariant.{message_loop-Keeps}
use security_addon.Protocol.Vouched.{
  Quiet, respond-Quiet, send_message-Quiet, send_nonce_to_client-Quiet,
}
use security_addon.Protocol.Bind.{or_kept}
use security_addon.Protocol.Bind.Quiet.{payload-Quiet}
use security_addon.Protocol.License.{
  keep_customer_license, send_updated_customer_license, settle_license,
  do_validate_customer_license, handle_license, send_nonce_message, license_messages,
  do_exec_license_check_protocol,
}

module _ (p : Platform) (before : Session) where
  abbrev Q : Session → Type 0
  Q = Quiet p before

  keep_customer_license-Quiet : (text : Option Bytes) → Keeps Q (keep_customer_license p text)
  unfolding keep_customer_license
  keep_customer_license-Quiet text s q =
      after-Keeps Q _ (p.extract_customer_license text s.customer_license, s) q (λ _ _ _ q1. q1)

  settle_license-Quiet :
      (payload : Option Bytes) (db : Bytes) → Keeps Q (settle_license p payload db)
  unfolding settle_license send_updated_customer_license
  settle_license-Quiet none db s q = q
  settle_license-Quiet (some payload) db s q = elim (Bool-cases (equal payload db)) [
    | inl same ↦ rw same q
    | inr other ↦ rw other (
        after-Keeps Q _ (after _ (send_message p send_update_cust_license (some db) s))
          (after-Keeps Q _ (send_message p send_update_cust_license (some db) s)
            (send_message-Quiet p before send_update_cust_license (some db) s q)
            (λ _ _. keep_customer_license-Quiet (some db)))
          (λ _ _ _ q1. q1))
  ]

  do_validate_customer_license-Quiet :
      (payload : Option Bytes) → Keeps Q (do_validate_customer_license p payload)
  unfolding do_validate_customer_license
  do_validate_customer_license-Quiet payload s q =
      after-Keeps Q _ (keep_customer_license p payload s) (keep_customer_license-Quiet payload s q)
        (λ lic _ s1 q1.
          after-Keeps Q _
            (
              get_customer_license_blob (p.calls s1.clock) s1.table lic.license_guid lic.model_guid,
              _,
            )
            q1 (λ blob _. settle_license-Quiet payload blob.1))

  handle_license-Quiet :
      (buf : Bytes) (cmd : CommandType) (l : Option Bytes) → Keeps Q (handle_license p buf cmd l)
  unfolding handle_license equal
  handle_license-Quiet buf send_sign_nonce l =
      payload-Quiet p before (json_extract_element p (some buf) (codes "payload")) _ _ refl
        (λ found s q. q)
  handle_license-Quiet buf send_cust_license l =
      payload-Quiet p before (json_extract_element p (some buf) (codes "payload")) _ _ refl
        (λ found.
          bind-Keeps Q
            (or_respond (do_validate_customer_license p (or_kept found l))
              (codes "FAIL: Error in validate customer license"))
            _
            (or_respond-Keeps Q _ _ (respond-Quiet p before _ refl)
              (do_validate_customer_license-Quiet (or_kept found l)))
            (λ _ s q. q))
  handle_license-Quiet buf send_update_cust_license_ack l = λ s q. q
  handle_license-Quiet buf send_nonce l = λ s q. q
  handle_license-Quiet buf send_ek_ak_bind l = λ s q. q
  handle_license-Quiet buf send_ek_ak_bind_info l = λ s q. q
  handle_license-Quiet buf send_quote_nonce l = λ s q. q
  handle_license-Quiet buf send_quote_info l = λ s q. q
  handle_license-Quiet buf send_update_cust_license l = λ s q. q
  handle_license-Quiet buf send_license_check_resp l = λ s q. q
  handle_license-Quiet buf invalid_cmd l = λ s q. q

  send_nonce_message-Quiet : Keeps Q (send_nonce_message p)
  unfolding send_nonce_message
  send_nonce_message-Quiet s q =
      after-Keeps Q _ (generate_nonce_payload p s.clock, _) q
        (λ nonce _ s1 q1. send_nonce_to_client-Quiet p before nonce.1 _ q1)

  license_messages-Quiet :
      (fuel : ℕ) (es : List Arrival) (r : Result ⊤ × Session)
      → Q r.1
      → Q (license_messages p fuel es r).1
  unfolding license_messages
  license_messages-Quiet fuel es (ok _, s) q =
      message_loop-Keeps Q p (λ s. s) (handle_license p) (λ s q. q) handle_license-Quiet fuel es
        none s q
  license_messages-Quiet fuel es (err e, s) q = q
  license_messages-Quiet fuel es (fault, s) q = q

  pub do_exec_license_check_protocol-Quiet :
      (fuel : ℕ) (es : List Arrival) (s : Session)
      → Quiet p before s
      → Quiet p before (do_exec_license_check_protocol p fuel es s).1
  unfolding do_exec_license_check_protocol
  do_exec_license_check_protocol-Quiet fuel es s q =
      license_messages-Quiet fuel es (send_nonce_message p s) (send_nonce_message-Quiet s q)
