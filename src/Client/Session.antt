-- ===== src/Client/Session.antt =====
-- The client's session behind the connection: license_service_client.c, the loop of
-- `ovsa_perform_tls_license_check` and the functions that it calls.
use security_addon.Base.{
  ℕ, zero, suc, ◌+◌, ◌-◌, ◌%◌, ◌^◌, Bool, true, false, not, ◌&&◌, Option, none, some, List, [],
  ◌++◌, ◌==◌, if◌then◌else◌, Bytes, take,
}
use security_addon.Base.{codes, equal}
use security_addon.Base.Int.{ℤ, pos, negsuc}
use security_addon.Memory.{c_string}
use security_addon.Decimal.{atoi}
use security_addon.Status.{
  Result, fault, err, ok, ⊤, memory_alloc_fail, fileopen_fail, fileio_fail, license_check_fail,
  invalid_cmd_type,
}
use security_addon.Strings.{get_string_length}
use security_addon.Transport.{Departure, service_read, service_write}
use security_addon.Protocol.Json.{
  CommandType, send_nonce, send_ek_ak_bind, send_ek_ak_bind_info, send_quote_nonce, send_sign_nonce,
  send_quote_info, send_cust_license, send_update_cust_license, send_update_cust_license_ack,
  send_license_check_resp, invalid_cmd,
}
use security_addon.Client.{ClientPlatform, ClientState, Act, lift, ◌>>=◌, ◌>>◌}
use security_addon.Client.Messages.{client_frame, extract_element, client_command_type}

-- `ovsa_license_service_read` and `_write` of the client are those of the service, but for the code
-- of a failure, which is mbedTLS's own.
unfoldable pub client_read : ℕ → Act Bytes
client_read len s =
    let (bytes, incoming) = service_read s.incoming len in (bytes, record s { incoming = incoming })

-- What has been written goes behind what was.
abbrev pub sent {ℓ} :
    {A : Type ℓ} → ClientState → Result A × Bytes × List Departure → Result A × ClientState
sent s (result, bytes, outgoing) =
    (result, record s { wire = s.wire ++ bytes; outgoing = outgoing })

unfoldable pub client_write : Bytes → Act ⊤
client_write buf s = sent s (service_write s.outgoing buf)

-- The end of a turn, or the next one.
abbrev pub client_turn :
    Result Bool × ClientState
    → (ClientState → Option (Result ⊤ × ClientState))
    → Option (Result ⊤ × ClientState)
client_turn (fault, s) next = some (fault, s)
client_turn (err e, s) next = some (err e, s)
client_turn (ok true, s) next = some (ok tt, s)
client_turn (ok false, s) next = next s

-- `payload_size = atoi(payload_len_str)`, an int into a `size_t`.
unfoldable pub to_size : ℤ → ℕ
to_size (pos n) = n
to_size (negsuc n) = 2 ^ 64 - 1 - n

module _ (p : ClientPlatform) where
  -- fwrite, behind the length of what is written; it writes one object, so an empty text fails.
  unfoldable pub write_text : Result ℕ → Option Bytes → Act ⊤
  write_text fault payload s = (fault, s)
  write_text (err e) payload s = (err e, s)
  write_text (ok len) none s = (fault, s)
  write_text (ok len) (some payload) s =
      if p.writes s.clock && not (len == 0)
      then (ok tt, record s { license_file = take len payload })
      else (err fileio_fail, s)

  -- A message made, framed and sent.
  unfoldable pub client_send : CommandType → Option Bytes → Act ⊤
  unfolding client_write
  client_send cmdtype payload = lift (client_frame p cmdtype payload) >>= λ buf. client_write buf

  -- `ovsa_do_sign_send_nounce`. The length of the message is given as that of its payload.
  unfoldable pub sign_send_nonce : Bytes → Bytes → Act ⊤
  unfolding client_send
  sign_send_nonce nonce_buf cust_lic_sig_buf = do
    payload ← lift (extract_element p (some nonce_buf) (codes "payload"))
    buf_len ← lift (get_string_length p.rsize_max_str (some nonce_buf))
    nonce_signed ← lift (p.sign_mem payload buf_len)
    client_send send_sign_nonce (some nonce_signed)
    client_send send_cust_license (some cust_lic_sig_buf)

  -- The writing of the license's file: fopen empties it, and then nothing may be written.
  unfoldable pub write_license : Option Bytes → Act ⊤
  write_license payload s =
      if not (p.opens s.clock)
      then (err fileopen_fail, s)
      else write_text (get_string_length p.rsize_max_str payload) payload
          (record s { license_file = [] })

  -- `ovsa_do_update_cust_license`
  unfoldable pub update_cust_license : Bytes → Act ⊤
  unfolding write_license client_send
  update_cust_license update_cust_lic_buf = do
    payload ← lift (extract_element p (some update_cust_lic_buf) (codes "payload"))
    write_license payload
    client_send send_update_cust_license_ack (some [])

  -- `ovsa_do_get_license_check`; the `strcmp` of a NULL is a crash.
  unfoldable pub check_status : Option Bytes → Result ⊤
  check_status none = fault
  check_status (some payload) =
      if equal (c_string payload) (codes "PASS") then ok tt else err license_check_fail

  unfoldable pub get_license_check : Bytes → Act ⊤
  unfolding check_status
  get_license_check cust_lic_check_status_buf = do
    payload ← lift (extract_element p (some cust_lic_check_status_buf) (codes "payload"))
    lift (check_status payload)

  -- `ovsa_safe_malloc(sizeof(char) * payload_size + 1, ...)`, and the read into the block. Nothing
  -- that a `size_t` holds is below 0 or above SIZE_MAX, so the test before it never holds.
  unfoldable pub read_body : ℕ → Act Bytes
  unfolding client_read
  read_body payload_size s =
      let body = client_read payload_size s in
      if p.allocates ((payload_size + 1) % 2 ^ 64) then body else (err memory_alloc_fail, s)

  -- A message and its command.
  unfoldable pub read_message : Act (Bytes × Option Bytes)
  unfolding client_read
  read_message = do
    payload_len_str ← client_read 8
    read_buf ← read_body (to_size (atoi payload_len_str))
    command ← lift (extract_element p (some read_buf) (codes "command"))
    lift (ok (read_buf, command))

  -- The answer to a message, and whether the check is complete.
  unfoldable pub handle : Bytes → Bytes → CommandType → Act Bool
  handle cust_lic_sig_buf read_buf send_nonce =
      sign_send_nonce read_buf cust_lic_sig_buf >> lift (ok false)
  handle cust_lic_sig_buf read_buf send_ek_ak_bind =
      (λ s. sent s (p.send_ek_ak_bind_info s.clock s.outgoing)) >> lift (ok false)
  handle cust_lic_sig_buf read_buf send_quote_nonce =
      (λ s. sent s (p.get_quote_nonce s.clock read_buf cust_lic_sig_buf s.outgoing))
      >> lift (ok false)
  handle cust_lic_sig_buf read_buf send_update_cust_license =
      update_cust_license read_buf >> lift (ok false)
  handle cust_lic_sig_buf read_buf send_license_check_resp =
      get_license_check read_buf >> lift (ok true)
  handle cust_lic_sig_buf read_buf send_ek_ak_bind_info = lift (err invalid_cmd_type)
  handle cust_lic_sig_buf read_buf send_sign_nonce = lift (err invalid_cmd_type)
  handle cust_lic_sig_buf read_buf send_quote_info = lift (err invalid_cmd_type)
  handle cust_lic_sig_buf read_buf send_cust_license = lift (err invalid_cmd_type)
  handle cust_lic_sig_buf read_buf send_update_cust_license_ack = lift (err invalid_cmd_type)
  handle cust_lic_sig_buf read_buf invalid_cmd = lift (err invalid_cmd_type)

  -- One turn of the loop.
  unfoldable pub client_round : Bytes → Act Bool
  client_round cust_lic_sig_buf = do
    message ← read_message
    cmd ← lift (client_command_type p.sgx message.1)
    complete ← handle cust_lic_sig_buf message.0 cmd
    λ s. (ok complete, record s { clock = suc s.clock })

  -- The loop, by the rounds at most; `none` means that they were too few.
  unfoldable pub client_loop : ℕ → Bytes → ClientState → Option (Result ⊤ × ClientState)
  client_loop zero cust_lic_sig_buf s = none
  client_loop (suc rounds) cust_lic_sig_buf s =
      client_turn (client_round cust_lic_sig_buf s) (client_loop rounds cust_lic_sig_buf)
