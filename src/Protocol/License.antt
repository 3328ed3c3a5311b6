-- ===== src/Protocol/License.antt =====
-- The second half of a session, in license_service_server.c: a nonce to sign, the client's license
-- and its update.
pub mod Quiet
use security_addon.Base.{
  ℕ, zero, suc, ◌+◌, ◌-◌, ◌*◌, ◌/◌, ◌%◌, ◌^◌, ◌≤◌, ◌<◌, min, ◌≡◌, refl, sym, ap, ◌∙◌, ◌≢◌, ◌⊎◌, inl,
  inr, Bool, true, false, not, ◌&&◌, ◌||◌, Option, none, some, List, [], ◌∷◌, ◌++◌, append-nil,
  append_assoc, arith, ltb, leb, ◌==◌, if◌then◌else◌, Bytes, Bool-cases, Option-cases, length, take,
  drop,
}
use security_addon.Base.{codes, equal}
use security_addon.Memory.{c_string}
use security_addon.Database.{get_customer_license_blob}
use security_addon.Transport.{Arrival}
use security_addon.Status.{Result, ok, err, fault, ⊤, invalid_cmd_type}
use security_addon.Protocol.{
  Platform, Session, Action, CustomerLicense, after, pure, lift, gets, modify, tick, respond,
  or_respond, ◌>>=◌, ◌>>◌,
}
use security_addon.Protocol.Json.{
  CommandType, send_sign_nonce, send_cust_license, send_update_cust_license,
  send_update_cust_license_ack, json_extract_element, send_message, send_nonce_to_client,
  generate_nonce_payload,
}
use security_addon.Protocol.Loop.{message_loop}
use security_addon.Protocol.Bind.{or_kept}

-- The license in a text, put into the session's struct.
unfoldable pub keep_customer_license : Platform → Option Bytes → Action CustomerLicense
keep_customer_license p text = do
  old ← gets (λ s. s.customer_license)
  lic ← lift (p.extract_customer_license text old)
  modify (λ s. record s { customer_license = lic })
  pure lic

-- `ovsa_license_service_send_updated_customer_license`
unfoldable pub send_updated_customer_license : Platform → Bytes → Action ⊤
send_updated_customer_license p db_cust_license =
    send_message p send_update_cust_license (some db_cust_license)

-- An up-to-date license ends the wait; any other is answered with the one of the database.
unfoldable pub settle_license : Platform → Option Bytes → Bytes → Action Bool
unfolding keep_customer_license
settle_license p none db_cust_license = lift fault
settle_license p (some payload) db_cust_license =
    if equal payload db_cust_license
    then pure true
    else (send_updated_customer_license p db_cust_license
        >> keep_customer_license p (some db_cust_license)
        >> pure false)

-- `ovsa_license_service_do_validate_customer_license`: is the license up to date?
unfoldable pub do_validate_customer_license : Platform → Option Bytes → Action Bool
unfolding settle_license
do_validate_customer_license p payload = do
  lic ← keep_customer_license p payload
  clock ← tick
  table ← gets (λ s. s.table)
  blob ← lift (get_customer_license_blob (p.calls clock) table lic.license_guid lic.model_guid)
  settle_license p payload blob.1

-- The cases of the loop, whose local is `cust_lic_payload`.
unfoldable pub handle_license :
    Platform → Bytes → CommandType → Option Bytes → Action (Bool × Option Bytes)
handle_license p read_buf send_sign_nonce cust_lic_payload = do
  found ←
      or_respond (lift (json_extract_element p (some read_buf) (codes "payload")))
        (codes "FAIL: Error in Sending Signed Nonce")
  modify (λ s. record s { payload_signature = or_kept found s.payload_signature })
  pure (false, cust_lic_payload)
handle_license p read_buf send_cust_license cust_lic_payload = do
  found ←
      or_respond (lift (json_extract_element p (some read_buf) (codes "payload")))
        (codes "FAIL: Error in reading customer license")
  is_license_param_received ←
      or_respond (do_validate_customer_license p (or_kept found cust_lic_payload))
        (codes "FAIL: Error in validate customer license")
  pure (is_license_param_received, or_kept found cust_lic_payload)
handle_license p read_buf send_update_cust_license_ack cust_lic_payload =
    pure (true, cust_lic_payload)
handle_license p read_buf _ cust_lic_payload = lift (err invalid_cmd_type)

-- The nonce, made, kept and sent.
unfoldable pub send_nonce_message : Platform → Action ⊤
send_nonce_message p = do
  clock ← tick
  nonce ← lift (generate_nonce_payload p clock)
  modify (λ s. record s { nonce_buf = nonce.0 })
  send_nonce_to_client p nonce.1

unfoldable pub license_messages :
    Platform
    → ℕ
    → List Arrival
    → Result ⊤ × Session
    → Result (Option Bytes) × Session × List Arrival
license_messages p fuel es (ok _, s) = message_loop p (λ s. s) (handle_license p) fuel es none s
license_messages p fuel es (err e, s) = (err e, s, es)
license_messages p fuel es (fault, s) = (fault, s, es)

-- `ovsa_license_service_do_exec_license_check_protocol`
unfoldable pub do_exec_license_check_protocol :
    Platform → ℕ → List Arrival → Session → Result (Option Bytes) × Session × List Arrival
unfolding license_messages
do_exec_license_check_protocol p fuel es s = license_messages p fuel es (send_nonce_message p s)
