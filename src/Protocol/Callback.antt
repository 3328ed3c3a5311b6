-- ===== src/Protocol/Callback.antt =====
-- `ovsa_license_service_client_license_service_callback` of license_service_server.c: one session
-- from its first message to its response.
pub mod Ends
pub mod Checks
pub mod Pass
pub mod Certified
use security_addon.Base.{
  ℕ, zero, suc, ◌+◌, ◌-◌, ◌*◌, ◌/◌, ◌%◌, ◌^◌, ◌≤◌, ◌<◌, min, ◌≡◌, refl, sym, ap, ◌∙◌, ◌≢◌, ◌⊎◌, inl,
  inr, Bool, true, false, not, ◌&&◌, ◌||◌, Option, none, some, List, [], ◌∷◌, ◌++◌, append-nil,
  append_assoc, arith, ltb, leb, ◌==◌, if◌then◌else◌, Bytes, Bool-cases, Option-cases, length, take,
  drop,
}
use security_addon.Base.{codes, equal}
use security_addon.Base.Text.{}
use security_addon.Memory.{c_string}
use security_addon.Database.{
  get_customer_primary_certificate, get_customer_secondary_certificate, validate_license_usage,
  Table,
}
use security_addon.Transport.{Arrival, service_close, Notice}
use security_addon.Status.{
  Status, Result, ok, err, fault, ⊤, guard, platform_cert_validation_failed, db_timelimt_fail,
  db_usagelimit_fail,
}
use security_addon.Protocol.{
  Platform, Session, Action, Quote, after, pure, lift, gets, modify, tick, respond, or_respond,
  ◌>>=◌, ◌>>◌,
}
use security_addon.Protocol.Json.{send_license_check_resp, send_message}
use security_addon.Protocol.Tcb.{do_validate_tpm_quote, do_validate_sgx_measurement}
use security_addon.Protocol.Bind.{do_exec_client_ek_ak_bind_validation}
use security_addon.Protocol.License.{do_exec_license_check_protocol}

-- `ovsa_license_service_do_validate_platform_certificate`
unfoldable pub do_validate_platform_certificate : Platform → Action ⊤
do_validate_platform_certificate p = do
  clock ← tick
  s ← gets (λ s. s)
  cert ← lift (
      get_customer_primary_certificate (p.calls clock) s.table s.customer_license.license_guid
        s.customer_license.model_guid)
  lift (guard (equal (c_string s.client_platform_cert) cert.1) platform_cert_validation_failed)

-- The checks of the platform on the TLS port.
unfoldable pub check_platform : Platform → Quote × Quote → Action ⊤
check_platform p (sw, hw) = do
  or_respond (do_validate_platform_certificate p)
      (codes "FAIL: Error in validate platform certificate")
  lic ← gets (λ s. s.customer_license)
  or_respond (lift (do_validate_tpm_quote p lic.tcb_signatures sw hw))
      (codes "FAIL: Error in TCB Validation Invalid runtime")
  or_respond (lift (p.verify_quote hw sw)) (codes "FAIL: Error in Quote Validation Invalid runtime")
  modify (λ s. record s { secret_file = none })

-- The check of the platform on the RA-TLS port.
unfoldable pub check_enclave : Platform → Action ⊤
check_enclave p = do
  lic ← gets (λ s. s.customer_license)
  or_respond (lift (do_validate_sgx_measurement p lic.tcb_signatures p.sgx_measurement))
      (codes "FAIL: Error in TCB Validation with customer license. Invalid runtime")

-- NONCE_SIZE
abbrev pub nonce_size : ℕ
nonce_size = 32

-- The customer's signature of the nonce.
unfoldable pub check_nonce : Platform → Action ⊤
check_nonce p = do
  clock ← tick
  s ← gets (λ s. s)
  cert ←
      or_respond
        (lift (
          get_customer_secondary_certificate (p.calls clock) s.table s.customer_license.license_guid
            s.customer_license.model_guid))
        (codes "FAIL: Error in Retrieving customer certificate")
  or_respond (lift (p.verify_mem cert.1 (take nonce_size s.nonce_buf) s.payload_signature))
      (codes "FAIL: Error in Nonce Verification")

abbrev failure_text : Status → Bytes
failure_text db_timelimt_fail = codes "FAIL: License TimeLimit Exceeded"
failure_text db_usagelimit_fail = codes "FAIL: License UsageLimit Exceeded"
failure_text _ = codes "FAIL: Error in License check"

-- The answer to the check of the license's usage.
unfoldable pub answer_usage : Session → Result ⊤ × Table → Result ⊤ × Session
answer_usage s (ok _, table) = (ok tt, record s { table = table; response = codes "PASS" })
answer_usage s (err e, table) = (err e, record s { table = table; response = failure_text e })
answer_usage s (fault, table) = (fault, record s { table = table })

-- `ovsa_license_service_client_license_check`
unfoldable pub client_license_check : Platform → Action ⊤
unfolding answer_usage
client_license_check p s =
    answer_usage (record s { clock = suc s.clock })
      (validate_license_usage (p.calls s.clock) s.table s.customer_license.license_guid
        s.customer_license.model_guid)

-- Everything behind the two exchanges of messages.
unfoldable pub check_client : Platform → Quote × Quote → Action ⊤
check_client p quotes = do
  if p.tls then check_platform p quotes else pure tt
  if p.ratls then check_enclave p else pure tt
  check_nonce p
  client_license_check p

-- The quotes stay cleared where the port is not the TLS port.
abbrev pub no_quotes : Quote × Quote
no_quotes = (
  record { quote_pcr = none; quote_message = none },
  record { quote_pcr = none; quote_message = none },
)

unfoldable pub exec_bind :
    Platform → ℕ → List Arrival → Session → Result (Quote × Quote) × Session × List Arrival
exec_bind p fuel es s =
    if p.tls then do_exec_client_ek_ak_bind_validation p fuel es s else (ok no_quotes, s, es)

unfoldable pub exec_check :
    Platform → Quote × Quote → Result (Option Bytes) × Session × List Arrival → Result ⊤ × Session
exec_check p quotes (ok _, s, es) = check_client p quotes s
exec_check p quotes (err e, s, es) = (err e, s)
exec_check p quotes (fault, s, es) = (fault, s)

unfoldable pub exec_license :
    Platform → ℕ → Result (Quote × Quote) × Session × List Arrival → Result ⊤ × Session
unfolding exec_check
exec_license p fuel (ok quotes, s, es) =
    exec_check p quotes (do_exec_license_check_protocol p fuel es s)
exec_license p fuel (err e, s, es) = (err e, s)
exec_license p fuel (fault, s, es) = (fault, s)

-- The callback up to `out1`.
unfoldable pub run_checks : Platform → ℕ → List Arrival → Session → Result ⊤ × Session
unfolding exec_bind exec_license
run_checks p fuel es s = exec_license p fuel (exec_bind p fuel es s)

-- `ovsa_license_service_send_license_check_response`
pub send_license_check_response : Platform → Action ⊤
send_license_check_response p s = send_message p send_license_check_resp (some s.response) s

close_session : Result ⊤ × Session → Result ⊤ × Session
close_session (fault, s) = (fault, s)
close_session (_, s) = let (r, ns) = service_close s.closing in (r, record s { closing = ns })

-- From `out1` on: the response goes out whatever the checks said, and the session is closed.
finish : Platform → Result ⊤ × Session → Result ⊤ × Session
unfolding close_session
finish p (fault, s) = (fault, s)
finish p (_, s) = close_session (send_license_check_response p s)

pub client_license_service_callback : Platform → ℕ → List Arrival → Session → Result ⊤ × Session
unfolding finish
client_license_service_callback p fuel es s = finish p (run_checks p fuel es s)
