-- ===== src/Protocol/Bind/Quiet.antt =====
-- The first half of a session writes only verified certificates into the buffer, and never "PASS".
use security_addon.Base.{equal, ℕ, ◌≡◌, refl, false, Option, none, some, List, [], Bytes, take}
use security_addon.Status.{⊤, Result, ok, err, fault}
use security_addon.Transport.{Arrival}
use security_addon.Base.{codes}
use security_addon.Protocol.{⊤, ◌>>=◌, lift, or_respond, Action, Platform, Session}
use security_addon.Protocol.Json.{
  EkAkBindInfo, extract_ek_ak_bind_info, CommandType, send_nonce, send_ek_ak_bind, send_quote_nonce,
  send_ek_ak_bind_info, send_quote_info, send_sign_nonce, send_cust_license,
  send_update_cust_license, send_update_cust_license_ack, send_license_check_resp, invalid_cmd,
  json_extract_element,
}
use security_addon.Protocol.Keeps.{Keeps, after-Keeps, bind-Keeps, or_respond-Keeps}
use security_addon.Protocol.Loop.{message_loop}
use security_addon.Protocol.Loop.Invariant.{message_loop-Keeps}
use security_addon.Protocol.Vouched.{written, Quiet, respond-Quiet, send_message-Quiet}
use security_addon.Protocol.Bind.{
  certificate_length, verify_platform_cert, verify_chain, do_tpm2_makecredential,
  send_credential_quote, validate_ek_cert, do_validate_ek_ak_bind_info, do_validate_secret,
  handle_bind, validate_quotes, then_validate, unread_bind, bind_messages,
  do_exec_client_ek_ak_bind_validation, send_client_request_ek_ak_bind, or_kept,
}

module _ (p : Platform) (before : Session) where
  abbrev Q : Session → Type 0
  Q = Quiet p before

  verify_platform_cert-Quiet : (cert : Option Bytes) → Keeps Q (verify_platform_cert p cert)
  unfolding verify_platform_cert
  verify_platform_cert-Quiet none s q = q
  verify_platform_cert-Quiet (some cert) s q =
      after-Keeps Q _ (certificate_length p (some cert), s) q
        (λ len counted s1 q1.
          after-Keeps Q _ (p.verify_certificate cert none, s1) q1
            (λ _ verified s2 (v, r, t).
              (written s2.client_platform_cert cert len verified counted v, r, t)))

  do_tpm2_makecredential-Quiet :
      (ak_name : Option Bytes) (ek_pub : Bytes) → Keeps Q (do_tpm2_makecredential p ak_name ek_pub)
  unfolding do_tpm2_makecredential
  do_tpm2_makecredential-Quiet ak_name ek_pub s q =
      after-Keeps Q _ (p.make_credential s.clock ak_name ek_pub, _) q (λ _ _ _ q1. q1)

  send_credential_quote-Quiet : Keeps Q (send_credential_quote p)
  unfolding send_credential_quote
  send_credential_quote-Quiet s q =
      after-Keeps Q _ (p.credential_quote s.clock, _) q
        (λ blob _. send_message-Quiet p before send_quote_nonce (some blob))

  validate_ek_cert-Quiet :
      (cert : Bytes) (info : EkAkBindInfo) (ek : Option Bytes)
      → Keeps Q (validate_ek_cert p cert info ek)
  unfolding validate_ek_cert
  validate_ek_cert-Quiet cert info none s q = q
  validate_ek_cert-Quiet cert info (some ek) s q =
      after-Keeps Q _ (certificate_length p (some ek), s) q
        (λ size _ s1 q1.
          after-Keeps Q _ (p.verify_mem cert (take size ek) info.ek_cert_sig, s1) q1
            (λ _ _ s2 q2.
              after-Keeps Q _ (verify_chain p info.rom_cert info.chain_cert, s2) q2
                (λ _ _ s3 q3.
                  after-Keeps Q _ (p.extract_pubkey ek, s3) q3
                    (λ key _ s4 q4.
                      after-Keeps Q _ (do_tpm2_makecredential p info.ak_name key s4)
                        (do_tpm2_makecredential-Quiet info.ak_name key s4 q4)
                        (λ _ _. send_credential_quote-Quiet)))))

  do_validate_ek_ak_bind_info-Quiet :
      (payload : Option Bytes) → Keeps Q (do_validate_ek_ak_bind_info p payload)
  unfolding do_validate_ek_ak_bind_info
  do_validate_ek_ak_bind_info-Quiet payload s q =
      after-Keeps Q _ (extract_ek_ak_bind_info p payload, s) q
        (λ info _ s1 q1.
          after-Keeps Q _ (verify_platform_cert p info.platform_cert s1)
            (verify_platform_cert-Quiet info.platform_cert s1 q1)
            (λ cert _. validate_ek_cert-Quiet cert info info.ek_cert))

  do_validate_secret-Quiet : (payload : Option Bytes) → Keeps Q (do_validate_secret p payload)
  unfolding do_validate_secret
  do_validate_secret-Quiet payload s q =
      after-Keeps Q _ (json_extract_element p payload (codes "Secret"), s) q
        (λ secret _ s1 q1.
          after-Keeps Q _ (elim s1.secret_file [ none ↦ _ | some x ↦ _ ], s1) q1 (λ _ _ _ q2. q2))

  -- A case that reads its payload first.
  pub payload-Quiet :
      {A : Type 0} (r : Result (Option Bytes)) (text : Bytes) (next : Option Bytes → Action A)
      → equal text (codes "PASS") ≡ false
      → ((found : Option Bytes) → Keeps Q (next found))
      → Keeps Q (or_respond (lift r) text >>= next)
  payload-Quiet r text next t kn =
      bind-Keeps Q (or_respond (lift r) text) next
        (or_respond-Keeps Q (lift r) text (respond-Quiet p before text t) (λ s q. q)) kn

  handle_bind-Quiet :
      (buf : Bytes) (cmd : CommandType) (l : Option Bytes × Option Bytes)
      → Keeps Q (handle_bind p buf cmd l)
  unfolding handle_bind equal
  handle_bind-Quiet buf send_ek_ak_bind_info (b, q) =
      payload-Quiet (json_extract_element p (some buf) (codes "payload")) _ _ refl (λ found.
        bind-Keeps Q
          (or_respond (do_validate_ek_ak_bind_info p (or_kept found b))
            (codes "FAIL: Error in Validate EK_AK_bind_info"))
          _
          (or_respond-Keeps Q _ _ (respond-Quiet p before _ refl)
            (do_validate_ek_ak_bind_info-Quiet (or_kept found b)))
          (λ _ s q. q))
  handle_bind-Quiet buf send_quote_info (b, q) =
      payload-Quiet (json_extract_element p (some buf) (codes "payload")) _ _ refl (λ found s q. q)
  handle_bind-Quiet buf send_nonce (b, q) = respond-Quiet p before _ refl
  handle_bind-Quiet buf send_ek_ak_bind (b, q) = respond-Quiet p before _ refl
  handle_bind-Quiet buf send_quote_nonce (b, q) = respond-Quiet p before _ refl
  handle_bind-Quiet buf send_sign_nonce (b, q) = respond-Quiet p before _ refl
  handle_bind-Quiet buf send_cust_license (b, q) = respond-Quiet p before _ refl
  handle_bind-Quiet buf send_update_cust_license (b, q) = respond-Quiet p before _ refl
  handle_bind-Quiet buf send_update_cust_license_ack (b, q) = respond-Quiet p before _ refl
  handle_bind-Quiet buf send_license_check_resp (b, q) = respond-Quiet p before _ refl
  handle_bind-Quiet buf invalid_cmd (b, q) = respond-Quiet p before _ refl

  validate_quotes-Quiet : (quote : Option Bytes) → Keeps Q (validate_quotes p quote)
  unfolding validate_quotes equal
  validate_quotes-Quiet quote =
      bind-Keeps Q
        (or_respond (do_validate_secret p quote)
          (codes "FAIL: Error in secret Validation Invalid runtime"))
        _ (or_respond-Keeps Q _ _ (respond-Quiet p before _ refl) (do_validate_secret-Quiet quote))
        (λ _.
          bind-Keeps Q
            (or_respond (lift (p.extract_sw_quote quote))
              (codes "FAIL: Error in SW quote extraction"))
            _ (or_respond-Keeps Q _ _ (respond-Quiet p before _ refl) (λ s q. q))
            (λ sw.
              or_respond-Keeps Q (lift (p.extract_hw_quote quote sw)) _
                (respond-Quiet p before _ refl) (λ s q. q)))

  then_validate-Quiet :
      (r : Result (Option Bytes × Option Bytes) × Session × List Arrival)
      → Q r.1
      → Q (then_validate p r).1
  unfolding then_validate
  then_validate-Quiet (r, s, es) q =
      after-Keeps Q (λ l. validate_quotes p l.1) (r, s) q (λ l _. validate_quotes-Quiet l.1)

  bind_messages-Quiet :
      (fuel : ℕ) (es : List Arrival) (r : Result ⊤ × Session)
      → Q r.1
      → Q (bind_messages p fuel es r).1
  unfolding bind_messages equal
  bind_messages-Quiet fuel es (ok _, s) q =
      then_validate-Quiet (message_loop p unread_bind (handle_bind p) fuel es (none, none) s) (
        message_loop-Keeps Q p unread_bind (handle_bind p) (respond-Quiet p before _ refl)
          handle_bind-Quiet fuel es (none, none) s q)
  bind_messages-Quiet fuel es (err e, s) q = q
  bind_messages-Quiet fuel es (fault, s) q = q

  pub do_exec_client_ek_ak_bind_validation-Quiet :
      (fuel : ℕ) (es : List Arrival) (s : Session)
      → Quiet p before s
      → Quiet p before (do_exec_client_ek_ak_bind_validation p fuel es s).1
  unfolding do_exec_client_ek_ak_bind_validation send_client_request_ek_ak_bind
  do_exec_client_ek_ak_bind_validation-Quiet fuel es s q =
      bind_messages-Quiet fuel es (send_client_request_ek_ak_bind p s)
        (send_message-Quiet p before send_ek_ak_bind (some []) s q)
