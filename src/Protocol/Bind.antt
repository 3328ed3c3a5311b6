-- ===== src/Protocol/Bind.antt =====
-- The first half of a session on the TLS port, in license_service_server.c: the platform's
-- certificate and its TPM's key, a secret that only this TPM can open, and the quotes.
pub mod Quiet
use security_addon.Base.{
  ℕ, zero, suc, ◌+◌, ◌-◌, ◌*◌, ◌/◌, ◌%◌, ◌^◌, ◌≤◌, ◌<◌, min, ◌≡◌, refl, sym, ap, ◌∙◌, ◌≢◌, ◌⊎◌, inl,
  inr, Bool, true, false, not, ◌&&◌, ◌||◌, Option, none, some, List, [], ◌∷◌, ◌++◌, append-nil,
  append_assoc, arith, ltb, leb, ◌==◌, if◌then◌else◌, Bytes, Bool-cases, Option-cases, length, take,
  drop,
}
use security_addon.Base.{codes, equal}
use security_addon.Memory.{c_string, write_at}
use security_addon.Database.{max_cert_size}
use security_addon.Strings.{get_string_length}
use security_addon.Transport.{Arrival}
use security_addon.Status.{
  Result, ok, err, fault, ⊤, guard, invalid_parameter, invalid_cmd_type, fileopen_fail,
  tpm2_credential_secret_validation_failed,
}
use security_addon.Protocol.{
  Platform, Session, Action, Quote, after, pure, lift, gets, modify, tick, respond, or_respond,
  ◌>>=◌, ◌>>◌,
}
use security_addon.Protocol.Json.{
  EkAkBindInfo, extract_ek_ak_bind_info, CommandType, send_ek_ak_bind, send_quote_nonce,
  send_ek_ak_bind_info, send_quote_info, json_extract_element, send_message,
}
use security_addon.Protocol.Loop.{message_loop}

-- `ovsa_license_service_send_client_request_EK_AK_bind`
unfoldable pub send_client_request_ek_ak_bind : Platform → Action ⊤
send_client_request_ek_ak_bind p = send_message p send_ek_ak_bind (some [])

-- A certificate's length, which must be one to MAX_CERT_SIZE.
unfoldable pub certificate_length : Platform → Option Bytes → Result ℕ
certificate_length p cert = elim (get_string_length p.rsize_max_str cert) [
  | ok len ↦ (if len == 0 || ltb max_cert_size len then err invalid_parameter else ok len)
  | err e ↦ err e
  | fault ↦ fault
]

-- `memcpy_s(client_platform_cert, MAX_CERT_SIZE, cert, len)`: the buffer is not cleared before,
-- and no NUL is written behind.
abbrev pub keep_platform_cert : Bytes → Session → Session
keep_platform_cert cert s = record s {
  client_platform_cert = write_at s.client_platform_cert 0 cert;
}

-- The platform's certificate, checked and kept.
unfoldable pub verify_platform_cert : Platform → Option Bytes → Action Bytes
verify_platform_cert p none = lift (err invalid_parameter)
verify_platform_cert p (some cert) = do
  len ← lift (certificate_length p (some cert))
  lift (p.verify_certificate cert none)
  modify (keep_platform_cert (take len cert))
  pure cert

-- The chain of an on-die EK certificate, where the message has both parts.
unfoldable pub verify_chain : Platform → Option Bytes → Option Bytes → Result ⊤
verify_chain p (some rom_cert) (some chain_cert) = p.verify_certificate rom_cert (some chain_cert)
verify_chain p _ _ = ok tt

-- `ovsa_license_service_do_tpm2_makecredential`: the old files go, and the tools leave a new secret.
unfoldable pub do_tpm2_makecredential : Platform → Option Bytes → Bytes → Action ⊤
do_tpm2_makecredential p ak_name ek_pub = do
  clock ← tick
  modify (λ s. record s { secret_file = none })
  secret ← lift (p.make_credential clock ak_name ek_pub)
  modify (λ s. record s { secret_file = some secret })

-- `ovsa_license_service_send_credential_quote`, from the blob of the credential and a nonce on.
unfoldable pub send_credential_quote : Platform → Action ⊤
send_credential_quote p = do
  clock ← tick
  quote_credout_info ← lift (p.credential_quote clock)
  send_message p send_quote_nonce (some quote_credout_info)

-- The EK certificate: signed by the platform, and the TPM's public key in it.
unfoldable pub validate_ek_cert : Platform → Bytes → EkAkBindInfo → Option Bytes → Action ⊤
unfolding verify_chain
validate_ek_cert p platform_cert info none = lift (err invalid_parameter)
validate_ek_cert p platform_cert info (some ek_cert) = do
  ekpub_size ← lift (certificate_length p (some ek_cert))
  lift (p.verify_mem platform_cert (take ekpub_size ek_cert) info.ek_cert_sig)
  lift (verify_chain p info.rom_cert info.chain_cert)
  ekpub_key ← lift (p.extract_pubkey ek_cert)
  do_tpm2_makecredential p info.ak_name ekpub_key
  send_credential_quote p

-- `ovsa_license_service_do_validate_EK_AK_bind_info`
unfoldable pub do_validate_ek_ak_bind_info : Platform → Option Bytes → Action ⊤
unfolding validate_ek_cert
do_validate_ek_ak_bind_info p payload = do
  info ← lift (extract_ek_ak_bind_info p payload)
  platform_cert ← verify_platform_cert p info.platform_cert
  validate_ek_cert p platform_cert info info.ek_cert

unfoldable pub compare_secrets : Option Bytes → Bytes → Result ⊤
compare_secrets none credsecret_buf = fault
compare_secrets (some secret_buf) credsecret_buf =
    guard (equal secret_buf (c_string credsecret_buf)) tpm2_credential_secret_validation_failed

-- `ovsa_license_service_do_validate_secret`; without a "Secret" the `strcmp` gets a NULL.
unfoldable pub do_validate_secret : Platform → Option Bytes → Action ⊤
unfolding compare_secrets
do_validate_secret p payload_quote_info = do
  secret_buf ← lift (json_extract_element p payload_quote_info (codes "Secret"))
  secret_file ← gets (λ s. s.secret_file)
  credsecret_buf ← lift (elim secret_file [ none ↦ err fileopen_fail | some secret ↦ ok secret ])
  lift (compare_secrets secret_buf credsecret_buf)

-- A pointer that an extraction may have left alone.
abbrev pub or_kept : Option Bytes → Option Bytes → Option Bytes
or_kept (some new) old = some new
or_kept none old = old

-- The cases of the loop. Its locals are `payload_EK_AK_bind_info` and `payload_quote_info`.
unfoldable pub handle_bind :
    Platform
    → Bytes
    → CommandType
    → Option Bytes × Option Bytes
    → Action (Bool × (Option Bytes × Option Bytes))
handle_bind p read_buf send_ek_ak_bind_info (bind_info, quote_info) = do
  found ←
      or_respond (lift (json_extract_element p (some read_buf) (codes "payload")))
        (codes "FAIL: Error in Sending EK_AK_bind_info")
  or_respond (do_validate_ek_ak_bind_info p (or_kept found bind_info))
      (codes "FAIL: Error in Validate EK_AK_bind_info")
  pure (false, (or_kept found bind_info, quote_info))
handle_bind p read_buf send_quote_info (bind_info, quote_info) = do
  found ←
      or_respond (lift (json_extract_element p (some read_buf) (codes "payload")))
        (codes "FAIL: Error in Sending SW quote")
  pure (true, (bind_info, or_kept found quote_info))
handle_bind p read_buf _ locals =
    or_respond (lift (err invalid_cmd_type))
      (codes "FAIL: Error received Invalid command from client")

-- What follows the loop: the secret and the quotes.
unfoldable pub validate_quotes : Platform → Option Bytes → Action (Quote × Quote)
validate_quotes p quote_info = do
  or_respond (do_validate_secret p quote_info)
      (codes "FAIL: Error in secret Validation Invalid runtime")
  sw ←
      or_respond (lift (p.extract_sw_quote quote_info)) (codes "FAIL: Error in SW quote extraction")
  or_respond (lift (p.extract_hw_quote quote_info sw)) (codes "FAIL: Error in HW quote extraction")

unfoldable pub then_validate :
    Platform
    → Result (Option Bytes × Option Bytes) × Session × List Arrival
    → Result (Quote × Quote) × Session × List Arrival
then_validate p (r, s, es) =
    let (q, s') = after (λ locals. validate_quotes p locals.1) (r, s) in (q, s', es)

-- The response to a message that could not be read.
abbrev pub unread_bind : Session → Session
unread_bind = respond (codes "FAIL: Error read payload from client failed")

unfoldable pub bind_messages :
    Platform
    → ℕ
    → List Arrival
    → Result ⊤ × Session
    → Result (Quote × Quote) × Session × List Arrival
unfolding then_validate
bind_messages p fuel es (ok _, s) =
    then_validate p (message_loop p unread_bind (handle_bind p) fuel es (none, none) s)
bind_messages p fuel es (err e, s) = (err e, s, es)
bind_messages p fuel es (fault, s) = (fault, s, es)

-- `ovsa_license_service_do_exec_client_ek_ak_bind_validation`
unfoldable pub do_exec_client_ek_ak_bind_validation :
    Platform → ℕ → List Arrival → Session → Result (Quote × Quote) × Session × List Arrival
unfolding bind_messages
do_exec_client_ek_ak_bind_validation p fuel es s =
    bind_messages p fuel es (send_client_request_ek_ak_bind p s)
