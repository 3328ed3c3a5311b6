-- ===== src/Protocol/Tests.antt =====
-- A session on the TLS port that ends in "PASS", and the theorems on it.
use security_addon.Pcr.Tests.{small_tpm}
use security_addon.Pcr.{pcr_text}
use security_addon.Pcr.Read.{do_validate_pcr}
use security_addon.Protocol.Callback.Certified.{LastWritten, run_checks-certified}
use security_addon.Base.{
  ℕ, ◌≡◌, refl, true, false, none, some, List, [], ◌∷◌, ◌++◌, arith, if◌then◌else◌, Bytes,
}
use security_addon.Base.{codes, equal}
use security_addon.Base.Int.{pos, to_int32}
use security_addon.Status.{ok}
use security_addon.Transport.{Arrival, received, again, accepted, notified}
use security_addon.Transport.Exact.{Flows, pending}
use security_addon.Database.{Row, Calls}
use security_addon.Strings.Frame.{frame}
use security_addon.Protocol.{Platform, Session, Quote, TcbInfo, CustomerLicense}
use security_addon.Protocol.Callback.Ends.{Denied}
use security_addon.Protocol.Callback.Pass.{Answered, run_checks-Shown}
use security_addon.Protocol.Tcb.Fits.{Fits, do_validate_tpm_quote-Fits}
use security_addon.Protocol.Loop.Enough.{message_loop-enough}
use security_addon.Protocol.Json.Frames.{read_payload-frame}
use security_addon.Protocol.{write}
use security_addon.Protocol.Json.{
  get_command_type, json_extract_element, json_create_message_blob, frame_message,
  generate_nonce_payload, read_blob, read_sized, read_behind, read_payload, extract_ek_ak_bind_info,
  send_nonce_to_client, send_message,
}
use security_addon.Protocol.Loop.{on_message, go_on, go_round, message_loop}
use security_addon.Protocol.Bind.{
  unread_bind, send_client_request_ek_ak_bind, certificate_length, verify_platform_cert,
  verify_chain, do_tpm2_makecredential, send_credential_quote, validate_ek_cert,
  do_validate_ek_ak_bind_info, compare_secrets, do_validate_secret, handle_bind, validate_quotes,
  then_validate, bind_messages, do_exec_client_ek_ak_bind_validation,
}
use security_addon.Protocol.License.{
  keep_customer_license, send_updated_customer_license, settle_license,
  do_validate_customer_license, handle_license, send_nonce_message, license_messages,
  do_exec_license_check_protocol,
}
use security_addon.Protocol.Tcb.{
  pcr_id_set, validate_quote_pcrs, do_validate_sw_hw_pcrs, next_tcb, do_validate_tpm_quote,
  do_validate_sgx_measurement,
}
use security_addon.Protocol.Callback.{
  do_validate_platform_certificate, check_platform, check_enclave, check_nonce, answer_usage,
  client_license_check, check_client, exec_bind, exec_check, exec_license, run_checks,
}
use security_addon.Database.{
  select_row, decrement_usage, get_column, get_customer_primary_certificate,
  get_customer_secondary_certificate, get_customer_license_blob, check_type, check_license_usage,
  count_license_usage, settle, validate_license_usage,
}
use security_addon.Strings.{
  safe_add, safe_malloc, length_loop, get_string_length, concat_loop, string_concat,
  append_payload_len_to_blob,
}
use security_addon.Transport.{read_loop, write_loop, service_read, service_write}
use security_addon.Decimal.{digits, print_padded, digits_value, atoi}
use security_addon.Memory.{c_string, strnlen_s, write_at, strcpy_s, strcat_s}

abbrev text_l : Bytes
text_l = codes "L"

abbrev answering : Calls
answering = record {
  opens = true;
  prepares = true;
  steps = true;
  update_prepares = true;
  update_steps = true;
  gmtime = true;
  seconds_left = λ _. pos 1;
  allocates = λ _. true;
  rsize_max_str = 4096;
}

abbrev quoted : Quote
quoted = record { quote_pcr = some text_l; quote_message = some text_l }

abbrev tcb : TcbInfo
tcb = record {
  sw_quote = codes "S0001s";
  sw_pcr_id_set = text_l;
  hw_quote = codes "S0001h";
  hw_pcr_id_set = text_l;
  mrenclave = text_l;
  mrsigner = text_l;
  isv_svn = 1;
  isv_prod_id = 1;
}

abbrev license : CustomerLicense
license = record {
  license_guid = codes "G";
  model_guid = codes "M";
  tcb_signatures = codes "T" ∷ [];
}

-- A message is its command, and every other key of it has the text "L".
abbrev pub platform : Platform
platform = record {
  rsize_max_str = 4096;
  allocates = λ _. true;
  tls = true;
  ratls = false;
  sgx_measurement = record {
    quoting_enclave = [];
    quoting_signer = [];
    quoting_isv_svn = 0;
    quoting_isv_prod_id = 0;
  };
  calls = λ _. answering;
  create_nonce = λ _. ok text_l;
  parse = λ text. some (λ key. some (if equal key (codes "command") then text else text_l));
  print = λ command payload. ok command;
  strtol = λ text. (pos 1, []);
  verify_certificate = λ cert chain. ok tt;
  verify_mem = λ cert signed signature. ok tt;
  extract_pubkey = λ cert. ok text_l;
  extract_customer_license = λ text old. ok license;
  extract_tcb_signature = λ text. ok tcb;
  make_credential = λ _ name key. ok text_l;
  credential_quote = λ _. ok text_l;
  extract_sw_quote = λ text. ok quoted;
  extract_hw_quote = λ text sw. ok (quoted, quoted);
  tpm = small_tpm;
  verify_quote = λ hw sw. ok tt;
}

abbrev row : Row
row = record {
  customer_license_id = 1;
  license_guid = codes "G";
  model_guid = codes "M";
  customer_primary_certificate = some text_l;
  customer_secondary_certificate = some text_l;
  customer_license_blob = some text_l;
  license_type = pos 1;
  usage_count = pos 1;
  time_limit = none;
}

abbrev session : Session
session = record {
  clock = 0;
  outgoing = accepted 100 ∷ accepted 100 ∷ accepted 100 ∷ accepted 100 ∷ [];
  wire = [];
  closing = notified ∷ [];
  table = row ∷ [];
  response = [];
  client_platform_cert = 0 ∷ 0 ∷ [];
  nonce_buf = [];
  payload_signature = none;
  customer_license = license;
  secret_file = none;
}

-- The frames of two exchanges, the first of them in two chunks.
abbrev arrivals : List Arrival
arrivals =
    received (codes "0000")
    ∷ again
    ∷ received (codes "0025OVSA_SEND_EK_AK_BIND_INFO")
    ∷ received (codes "00000020OVSA_SEND_QUOTE_INFO")
    ∷ received (codes "00000020OVSA_SEND_SIGN_NONCE")
    ∷ received (codes "00000022OVSA_SEND_CUST_LICENSE")
    ∷ []

passes : (run_checks platform 3 arrivals session).1.response ≡ codes "PASS"
unfolding write get_command_type json_extract_element json_create_message_blob frame_message
    generate_nonce_payload read_blob read_sized read_behind read_payload extract_ek_ak_bind_info
    send_nonce_to_client send_message on_message go_on go_round message_loop
    send_client_request_ek_ak_bind certificate_length verify_platform_cert verify_chain
    do_tpm2_makecredential send_credential_quote validate_ek_cert do_validate_ek_ak_bind_info
    compare_secrets do_validate_secret handle_bind validate_quotes then_validate bind_messages
    do_exec_client_ek_ak_bind_validation keep_customer_license send_updated_customer_license
    settle_license do_validate_customer_license handle_license send_nonce_message license_messages
    do_exec_license_check_protocol pcr_id_set to_int32 validate_quote_pcrs do_validate_sw_hw_pcrs
    next_tcb do_validate_tpm_quote do_validate_sgx_measurement do_validate_platform_certificate
    check_platform check_enclave check_nonce answer_usage client_license_check check_client
    exec_bind exec_check exec_license run_checks select_row decrement_usage get_column
    get_customer_primary_certificate get_customer_secondary_certificate get_customer_license_blob
    check_type check_license_usage count_license_usage settle validate_license_usage safe_add
    safe_malloc length_loop get_string_length concat_loop string_concat append_payload_len_to_blob
    read_loop write_loop service_read service_write digits print_padded digits_value atoi strnlen_s
    write_at strcpy_s strcat_s equal do_validate_pcr pcr_text
passes = refl

denied : Denied session
denied = λ e. cc

run_checks-Shown_example :
    Answered platform session 3
      (exec_bind platform 3 arrivals session)
      (run_checks platform 3 arrivals session).1.table
run_checks-Shown_example = run_checks-Shown platform 3 arrivals session denied passes

validated : do_validate_tpm_quote platform (codes "T" ∷ []) quoted quoted ≡ ok tt
unfolding do_validate_tpm_quote next_tcb do_validate_sw_hw_pcrs validate_quote_pcrs equal
    do_validate_pcr safe_malloc write_at get_string_length strnlen_s pcr_id_set to_int32 pcr_text
    strcat_s
validated = refl

do_validate_tpm_quote-Fits_example :
    (passed left : List Bytes) × (tcb_signature : Bytes) × (t : TcbInfo) × (codes "T" ∷ []
      ≡ passed ++ tcb_signature ∷ left)
    × (platform.extract_tcb_signature tcb_signature ≡ ok t)
    × Fits platform quoted quoted t
do_validate_tpm_quote-Fits_example =
    do_validate_tpm_quote-Fits platform (codes "T" ∷ []) quoted quoted validated

message_loop-enough_example :
    message_loop platform unread_bind (handle_bind platform) 200 arrivals (none, none) session
    ≡ message_loop platform unread_bind (handle_bind platform) 300 arrivals (none, none) session
message_loop-enough_example =
    message_loop-enough platform unread_bind (handle_bind platform) 200 300 arrivals (none, none)
      session (omega arith) (omega arith)

abbrev small_message : List Arrival
small_message = received (codes "0000") ∷ again ∷ received (codes "0003abcREST") ∷ []

streamed : pending small_message ≡ frame (codes "abc") ++ codes "REST"
unfolding print_padded digits
streamed = refl

parsed :
    json_extract_element platform (some (codes "abc")) (codes "command") ≡ ok (some (codes "abc"))
unfolding json_extract_element get_string_length length_loop safe_malloc strnlen_s equal
parsed = refl

read_payload-frame_example :
    (es' : List Arrival) × (read_payload platform small_message
      ≡ (ok (codes "abc", some (codes "abc")), es'))
    × Flows es'
    × (pending es' ≡ codes "REST")
read_payload-frame_example =
    read_payload-frame platform small_message (codes "abc") (codes "REST") (some (codes "abc"))
      (omega arith, (omega arith, tt)) streamed (omega arith) refl parsed

was_read : (read_payload platform small_message).0 ≡ ok (codes "abc", some (codes "abc"))
unfolding read_payload read_behind read_sized read_blob service_read read_loop atoi digits_value
    json_extract_element get_string_length length_loop safe_malloc strnlen_s equal
was_read = refl

run_checks-certified_example :
    (buffer license_guid model_guid : Bytes) × (clock : ℕ) × (db : ℕ × Bytes)
    × (get_customer_primary_certificate (platform.calls clock) session.table license_guid model_guid
        ≡ ok db)
    × (c_string buffer ≡ db.1)
    × LastWritten platform session.client_platform_cert buffer
run_checks-certified_example =
    run_checks-certified platform 3 arrivals session refl (λ k. omega arith) refl denied passes
