-- ===== src/Protocol/Json.antt =====
-- JSON messages of a session: License_service/src/common/json.c (one element out, one message in)
-- and the frames that license_service_server.c and crypto.c send and read.
pub mod Frames
use security_addon.Base.Int.{pos, negsuc, ℤ}
use security_addon.Base.{
  ℕ, zero, suc, ◌+◌, ◌-◌, ◌*◌, ◌/◌, ◌%◌, ◌^◌, ◌≤◌, ◌<◌, min, ◌≡◌, refl, sym, ap, ◌∙◌, ◌≢◌, ◌⊎◌, inl,
  inr, Bool, true, false, not, ◌&&◌, ◌||◌, Option, none, some, List, [], ◌∷◌, ◌++◌, append-nil,
  append_assoc, arith, ltb, leb, ◌==◌, if◌then◌else◌, Bytes, Bool-cases, Option-cases, length, take,
  drop,
}
use security_addon.Base.{codes, equal}
use security_addon.Strings.{
  get_string_length, safe_malloc, payload_length, append_payload_len_to_blob,
}
use security_addon.Memory.{c_string, zeros}
use security_addon.Decimal.{atoi}
use security_addon.Transport.{Arrival, service_read}
use security_addon.Status.{
  ◌>>=◌, memory_alloc_fail, json_memory_alloc_fail, or_status, invalid_parameter, ok, err, fault,
  Result, ⊤, json_invalid_input, json_parse_fail,
}
use security_addon.Protocol.{err, fault, after, ℤ, Arrival, Result, ⊤, Platform, write, Action}

-- The commands of ovsa_command_type_t.
pub data CommandType : Type 0 where
  send_nonce send_ek_ak_bind send_ek_ak_bind_info send_quote_nonce : CommandType
  send_sign_nonce send_quote_info send_cust_license send_update_cust_license : CommandType
  send_update_cust_license_ack send_license_check_resp invalid_cmd : CommandType

-- `ovsa_license_service_get_command_type`; the `strcmp` of a NULL is a crash.
unfoldable pub get_command_type : Option Bytes → Result CommandType
get_command_type none = fault
get_command_type (some command) =
    if equal command (codes "OVSA_SEND_SIGN_NONCE")
    then ok send_sign_nonce
    else if equal command (codes "OVSA_SEND_EK_AK_BIND_INFO")
    then ok send_ek_ak_bind_info
    else if equal command (codes "OVSA_SEND_QUOTE_INFO")
    then ok send_quote_info
    else if equal command (codes "OVSA_SEND_CUST_LICENSE")
    then ok send_cust_license
    else if equal command (codes "OVSA_SEND_UPDATE_CUST_LICENSE_ACK")
    then ok send_update_cust_license_ack
    else ok invalid_cmd

-- The text of a command in a message.
abbrev command_text : CommandType → Option Bytes
command_text send_nonce = some (codes "OVSA_SEND_NONCE")
command_text send_ek_ak_bind = some (codes "OVSA_SEND_EK_AK_BIND")
command_text send_quote_nonce = some (codes "OVSA_SEND_QUOTE_NONCE")
command_text send_update_cust_license = some (codes "OVSA_SEND_UPDATE_CUST_LICENSE")
command_text send_license_check_resp = some (codes "OVSA_SEND_LICENSE_CHECK_RESP")
command_text _ = none

-- A string copied behind the length that `get_string_length` counts, with its NUL.
abbrev pub copy_string : Platform → Bytes → Result (ℕ × Bytes)
copy_string p text = do
  len ← get_string_length p.rsize_max_str (some text)
  block ← or_status (safe_malloc p.allocates (len + 1)) json_memory_alloc_fail
  ok (len, take len text ++ 0 ∷ [])

-- `ovsa_license_service_json_extract_element`: a key that is missing, or is no string, leaves the
-- caller's pointer as it was.
unfoldable pub json_extract_element : Platform → Option Bytes → Bytes → Result (Option Bytes)
json_extract_element p none key_name = err json_invalid_input
json_extract_element p (some input_buf) key_name = elim (p.parse (c_string input_buf)) [
  | none ↦ err json_parse_fail
  | some parse_json ↦ elim (parse_json key_name) [
    | none ↦ ok none
    | some valuestring ↦ copy_string p valuestring >>= λ copied. ok (some (c_string copied.1))
  ]
]

-- `ovsa_license_service_json_create_message_blob`: the block and `*valuelen`. A command that the
-- server never sends leaves the pointer NULL and the length 0, and reports no error.
unfoldable pub json_create_message_blob :
    Platform → CommandType → Option Bytes → Result (Option Bytes × ℕ)
json_create_message_blob p cmdtype none = err json_invalid_input
json_create_message_blob p cmdtype (some payload) = elim (command_text cmdtype) [
  | none ↦ ok (none, 0)
  | some command ↦ do
    str_print ← p.print command payload
    len ← get_string_length p.rsize_max_str (some (str_print ++ 0 ∷ []))
    block ← safe_malloc p.allocates (len + 1)
    ok (some (take (len + 1) (str_print ++ 0 ∷ [])), len + 1)
]

-- The frame of a message, as every sender builds it: the blob, a block of `length +
-- PAYLOAD_LENGTH + 1` bytes and the length prefix.
unfoldable pub frame_message : Platform → CommandType → Option Bytes → Result Bytes
frame_message p cmdtype payload = do
  blob ← json_create_message_blob p cmdtype payload
  block ← or_status (safe_malloc p.allocates (blob.1 + payload_length + 1)) memory_alloc_fail
  append_payload_len_to_blob p.rsize_max_str blob.0 block

-- `ovsa_license_service_send_nonce_to_client`: a frame goes out up to its NUL.
unfoldable pub send_nonce_to_client : Platform → Bytes → Action ⊤
send_nonce_to_client p json_payload s =
    after (λ payload_len. write (take payload_len json_payload))
      (get_string_length p.rsize_max_str (some json_payload), s)

-- A message framed and sent.
unfoldable pub send_message : Platform → CommandType → Option Bytes → Action ⊤
send_message p cmdtype payload s =
    after (send_nonce_to_client p) (frame_message p cmdtype payload, s)

-- `ovsa_license_service_generate_nonce_payload`: the nonce and its frame.
unfoldable pub generate_nonce_payload : Platform → ℕ → Result (Bytes × Bytes)
generate_nonce_payload p clock = do
  nonce_buf ← p.create_nonce clock
  json_payload ← frame_message p send_nonce (some nonce_buf)
  ok (nonce_buf, json_payload)

unfoldable pub read_blob :
    Platform → Result Bytes × List Arrival → Result (Bytes × Option Bytes) × List Arrival
read_blob p (ok read_buf, es) = (
  json_extract_element p (some read_buf) (codes "command") >>= λ command. ok (read_buf, command),
  es,
)
read_blob p (err e, es) = (err e, es)
read_blob p (fault, es) = (fault, es)

-- The payload behind its length. `payload_size = atoi(payload_len_str)`: a negative int is a
-- `size_t` above UINT_MAX.
unfoldable pub read_sized :
    Platform → ℤ → List Arrival → Result (Bytes × Option Bytes) × List Arrival
unfolding read_blob
read_sized p (negsuc _) es = (err invalid_parameter, es)
read_sized p (pos payload_size) es =
    let blob = read_blob p (service_read es payload_size) in
    if p.allocates (payload_size + 1) then blob else (err memory_alloc_fail, es)

unfoldable pub read_behind :
    Platform → Result Bytes × List Arrival → Result (Bytes × Option Bytes) × List Arrival
unfolding read_sized
read_behind p (ok payload_len_str, es) = read_sized p (atoi payload_len_str) es
read_behind p (err e, es) = (err e, es)
read_behind p (fault, es) = (fault, es)

-- `ovsa_license_service_read_payload`: the message and its command, if it names one.
unfoldable pub read_payload : Platform → List Arrival → Result (Bytes × Option Bytes) × List Arrival
unfolding read_behind
read_payload p es = read_behind p (service_read es payload_length)

-- ovsa_ek_ak_bind_info_t
pub record EkAkBindInfo : Type 0 where
  pub ak_name : Option Bytes
  pub ek_cert : Option Bytes
  pub ek_cert_sig : Option Bytes
  pub ek_pub_key : Option Bytes
  pub ek_pub_sig : Option Bytes
  pub platform_cert : Option Bytes
  pub rom_cert : Option Bytes
  pub chain_cert : Option Bytes

-- `ovsa_license_service_extract_EK_AK_bind_info`
unfoldable pub extract_ek_ak_bind_info : Platform → Option Bytes → Result EkAkBindInfo
extract_ek_ak_bind_info p payload = do
  ak_name ← json_extract_element p payload (codes "AK_name")
  ek_cert ← json_extract_element p payload (codes "EK_cert")
  ek_cert_sig ← json_extract_element p payload (codes "EKcert_signature")
  ek_pub_key ← json_extract_element p payload (codes "EK_pub")
  ek_pub_sig ← json_extract_element p payload (codes "EKpub_signature")
  platform_cert ← json_extract_element p payload (codes "certificate")
  rom_cert ← json_extract_element p payload (codes "ROM_cert")
  chain_cert ← json_extract_element p payload (codes "Chain_cert")
  ok (record {
    ak_name = ak_name;
    ek_cert = ek_cert;
    ek_cert_sig = ek_cert_sig;
    ek_pub_key = ek_pub_key;
    ek_pub_sig = ek_pub_sig;
    platform_cert = platform_cert;
    rom_cert = rom_cert;
    chain_cert = chain_cert;
  })
