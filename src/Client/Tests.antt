-- ===== src/Client/Tests.antt =====
-- The theorems on the client at a check that passes and at an update without a license.
use security_addon.Base.{
  ◌≡◌, refl, ℕ, zero, suc, true, false, some, [], ◌∷◌, codes, equal, List, Bytes, arith, ◌++◌,
}
use security_addon.Memory.{memcpy_s, write_at, strnlen_s}
use security_addon.Decimal.{atoi, digits_value}
use security_addon.Status.{Result, ⊤, ok}
use security_addon.Strings.{get_string_length, safe_malloc, length_loop}
use security_addon.Transport.{received, service_read, read_loop, Arrival, again}
use security_addon.Json.{Json, object, text, member, end, find, get_item}
use security_addon.Json.Plain.{plain, plain-IsLawful, plain-Prints}
use security_addon.Transport.Exact.{Flows, pending}
use security_addon.Strings.Frame.{frame}
use security_addon.Protocol.{Platform}
use security_addon.Protocol.Tests.{platform}
use security_addon.Protocol.Json.{send_sign_nonce, read_payload}
use security_addon.Client.Messages.{
  client_frame, copy_element, extract_element, client_command_type,
}
use security_addon.Client.Arrives.{message_value}
use security_addon.Client.Received.{read_payload-client_frame}
use security_addon.Client.{ClientPlatform, ClientState}
use security_addon.Client.Session.{
  to_size, client_read, check_status, get_license_check, read_body, read_message, handle,
  client_round, client_loop,
}
use security_addon.Client.Updated.{Updated}
use security_addon.Client.Ends.{client_loop-ends}
use security_addon.Client.Passed.{ReadsPass, Turns, client_loop-ReadsPass}

-- The response, and an update.
abbrev parsed : ℕ → Json
parsed zero = object (
    member (codes "command") (text (codes "OVSA_SEND_LICENSE_CHECK_RESP"))
      (member (codes "payload") (text (codes "PASS")) end))
parsed (suc n) = object (
    member (codes "command") (text (codes "OVSA_SEND_UPDATE_CUST_LICENSE"))
      (member (codes "payload") (text (codes "new")) end))

abbrev client : ClientPlatform
client = record {
  rsize_max_str = 4096;
  allocates = λ _. true;
  sgx = false;
  json = plain parsed;
  sign_mem = λ _ _. ok [];
  opens = λ _. true;
  writes = λ _. true;
  send_ek_ak_bind_info = λ _ outgoing. (ok tt, [], outgoing);
  get_quote_nonce = λ _ _ _ outgoing. (ok tt, [], outgoing);
}

abbrev connected : ClientState
connected = record {
  clock = 0;
  incoming = received (codes "00000001") ∷ received (1 ∷ []) ∷ [];
  outgoing = [];
  wire = [];
  license_file = codes "license";
}

abbrev checked : ClientState
checked = record connected { clock = 1; incoming = [] }

response_read : client_loop client 1 [] connected ≡ some (ok tt, checked)
unfolding client_loop client_round read_message client_read read_body service_read read_loop atoi
    digits_value to_size extract_element copy_element get_item find equal get_string_length
    length_loop safe_malloc strnlen_s memcpy_s write_at client_command_type handle get_license_check
    check_status
response_read = refl

client_loop-ReadsPass_example :
    (last : ClientState) × Turns client [] connected last
    × ReadsPass client [] last
    × (client_round client [] last ≡ (ok true, checked))
client_loop-ReadsPass_example = client_loop-ReadsPass client [] 1 connected checked response_read

-- A signed nonce, in the pieces of a connection.
abbrev nonce_value : Json
nonce_value = message_value (codes "OVSA_SEND_SIGN_NONCE") (codes "sig")

abbrev sender : ClientPlatform
sender = record client { json = plain (λ _. nonce_value) }

abbrev receiver : Platform
receiver = record platform { parse = λ _. some (λ _. some (codes "OVSA_SEND_SIGN_NONCE")) }

abbrev carry : Bytes → List Arrival
carry [] = again ∷ received (codes "next") ∷ []
carry (b ∷ bs) = again ∷ received (b ∷ bs) ∷ received (codes "next") ∷ []

carry-Flows : (sent : Bytes) → Flows (carry sent)
carry-Flows [] = (omega arith, tt)
carry-Flows (b ∷ bs) = (omega arith, (omega arith, tt))

pending-carry : (sent : Bytes) → pending (carry sent) ≡ sent ++ codes "next"
pending-carry [] = refl
pending-carry (b ∷ bs) = refl

read_payload-client_frame_example :
    (message : Bytes) × (client_frame sender send_sign_nonce (some (codes "sig"))
      ≡ ok (frame message))
    × (es' : List Arrival) × (read_payload receiver (carry (frame message))
        ≡ (ok (message, some (codes "OVSA_SEND_SIGN_NONCE")), es'))
    × Flows es'
    × (pending es' ≡ codes "next")
read_payload-client_frame_example =
    read_payload-client_frame sender receiver send_sign_nonce (codes "OVSA_SEND_SIGN_NONCE")
      (codes "sig") (codes "next") 1 carry (plain-IsLawful (λ _. nonce_value)) (omega arith)
      (omega arith) (λ _. refl) (λ _. refl) refl (omega arith)
      (plain-Prints (λ _. nonce_value) nonce_value refl) (omega arith) (λ q e. (_, refl, refl))
      carry-Flows pending-carry

client_loop-ends_example :
    (result : Result ⊤) × (s' : ClientState) × (client_loop client 10 [] connected
      ≡ some (result, s'))
client_loop-ends_example = client_loop-ends client 10 [] connected (omega arith)
