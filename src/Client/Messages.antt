-- ===== src/Client/Messages.antt =====
-- The client's messages: Ovsa_tool/src/app/json.c, `ovsa_json_create_message_blob`,
-- `ovsa_append_json_payload_len_to_blob` and `ovsa_json_extract_element`, and the command names of
-- license_service_client.c.
use security_addon.Base.{
  ℕ, ◌+◌, Bool, true, false, not, ◌&&◌, Option, none, some, [], ◌∷◌, ◌++◌, if◌then◌else◌, Bytes,
  length, take,
}
use security_addon.Base.{codes, equal}
use security_addon.Memory.{c_string, strcpy_s, write_at, memcpy_s}
use security_addon.Decimal.{print_padded}
use security_addon.Status.{
  Result, fault, err, ok, or_status, ◌>>=◌, invalid_parameter, json_invalid_input,
  json_memory_alloc_fail, json_print_fail, memory_alloc_fail,
}
use security_addon.Strings.{get_string_length, safe_malloc}
use security_addon.Json.{get_item, valuestring, non_null, add_strings, new_object, read_json}
use security_addon.Protocol.Json.{
  CommandType, send_nonce, send_ek_ak_bind, send_ek_ak_bind_info, send_quote_nonce, send_sign_nonce,
  send_quote_info, send_cust_license, send_update_cust_license, send_update_cust_license_ack,
  send_license_check_resp, invalid_cmd,
}
use security_addon.Client.{ClientPlatform}

-- The commands that the client sends; those for the TPM only without SGX.
abbrev pub client_command : Bool → CommandType → Option Bytes
client_command sgx send_sign_nonce = some (codes "OVSA_SEND_SIGN_NONCE")
client_command sgx send_cust_license = some (codes "OVSA_SEND_CUST_LICENSE")
client_command sgx send_update_cust_license_ack = some (codes "OVSA_SEND_UPDATE_CUST_LICENSE_ACK")
client_command false send_quote_info = some (codes "OVSA_SEND_QUOTE_INFO")
client_command false send_ek_ak_bind_info = some (codes "OVSA_SEND_EK_AK_BIND_INFO")
client_command true send_quote_info = none
client_command true send_ek_ak_bind_info = none
client_command sgx send_nonce = none
client_command sgx send_ek_ak_bind = none
client_command sgx send_quote_nonce = none
client_command sgx send_update_cust_license = none
client_command sgx send_license_check_resp = none
client_command sgx invalid_cmd = none

module _ (p : ClientPlatform) where
  -- The object of a message, its text in a block of its own, and the block's size.
  unfoldable pub print_message : Bytes → Bytes → Result (Bytes × ℕ)
  print_message command payload = do
    made ← new_object p.json
    message ←
        add_strings p.json made
          ((codes "command", some command) ∷ (codes "payload", some payload) ∷ [])
    str_print ← non_null (p.json.print message) json_print_fail
    len ← get_string_length p.rsize_max_str (some str_print)
    block ← safe_malloc p.allocates (len + 1)
    ok (memcpy_s block (len + 1) str_print (len + 1), len + 1)

  -- A command that is not sent leaves the caller's NULL, and the length 0, as they are.
  unfoldable pub print_command : Option Bytes → Bytes → Result (Option Bytes × ℕ)
  print_command none payload = ok (none, 0)
  print_command (some command) payload =
      print_message command payload >>= λ made. ok (some made.0, made.1)

  -- `ovsa_json_create_message_blob`
  unfoldable pub create_message_blob : CommandType → Option Bytes → Result (Option Bytes × ℕ)
  unfolding print_command
  create_message_blob cmdtype none = err json_invalid_input
  create_message_blob cmdtype (some payload) = print_command (client_command p.sgx cmdtype) payload

  -- `ovsa_append_json_payload_len_to_blob`: `snprintf_s_l` keeps eight characters; `strcat` is not
  -- bounded.
  unfoldable pub append_json_payload_len : Option Bytes → Bytes → Result Bytes
  append_json_payload_len none json_payload = err invalid_parameter
  append_json_payload_len (some input_buf) json_payload = do
    json_payload_len ← get_string_length p.rsize_max_str (some input_buf)
    let payload_len = take 8 (print_padded json_payload_len)
    let prefixed = strcpy_s json_payload 0 p.rsize_max_str payload_len
    ok (write_at prefixed (length (c_string prefixed)) (c_string input_buf ++ 0 ∷ []))

  -- What is sent of a message: the text of the block that holds its length and itself.
  unfoldable pub client_frame : CommandType → Option Bytes → Result Bytes
  client_frame cmdtype payload = do
    made ← create_message_blob cmdtype payload
    block ← or_status (safe_malloc p.allocates (made.1 + 8 + 1)) memory_alloc_fail
    json_payload ← append_json_payload_len made.0 block
    buf_len ← get_string_length p.rsize_max_str (some json_payload)
    ok (take buf_len json_payload)

  -- The copy of a string member, or NULL where there is none.
  unfoldable pub copy_element : Option Bytes → Result (Option Bytes)
  copy_element none = ok none
  copy_element (some value) = do
    str_len ← get_string_length p.rsize_max_str (some value)
    block ← or_status (safe_malloc p.allocates (str_len + 1)) json_memory_alloc_fail
    ok (some (memcpy_s block str_len value str_len))

  -- `ovsa_json_extract_element`
  unfoldable pub extract_element : Option Bytes → Bytes → Result (Option Bytes)
  unfolding get_item copy_element
  extract_element input_buf key_name = read_json p.json input_buf >>= λ parse_json.
      copy_element (valuestring (get_item (some parse_json) key_name))

-- `ovsa_get_command_type`; the `strcmp` of a NULL is a crash. "OVSA_SEND_HW_QUOTE", which the caller
-- answers as it does an invalid command, is one here.
unfoldable pub client_command_type : Bool → Option Bytes → Result CommandType
client_command_type sgx none = fault
client_command_type sgx (some command) =
    if equal (c_string command) (codes "OVSA_SEND_NONCE")
    then ok send_nonce
    else if not sgx && equal (c_string command) (codes "OVSA_SEND_EK_AK_BIND")
    then ok send_ek_ak_bind
    else if not sgx && equal (c_string command) (codes "OVSA_SEND_QUOTE_NONCE")
    then ok send_quote_nonce
    else if equal (c_string command) (codes "OVSA_SEND_UPDATE_CUST_LICENSE")
    then ok send_update_cust_license
    else if equal (c_string command) (codes "OVSA_SEND_LICENSE_CHECK_RESP")
    then ok send_license_check_resp
    else ok invalid_cmd
