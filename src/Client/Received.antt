-- ===== src/Client/Received.antt =====
-- A message of the client, as the license service receives it.
use security_addon.Base.{
  ℕ, ◌+◌, ◌^◌, ◌<◌, ◌≡◌, ap, ◌∙◌, true, Option, none, some, List, [], ◌∷◌, ◌++◌, arith, Bytes,
  codes, length, take_all,
}
use security_addon.Memory.{c_string}
use security_addon.Memory.Laws.{
  c_string-NulFree, c_string_self, c_string-append_nul, length-c_string-le,
}
use security_addon.Status.{Result, err, ok, ◌>>=◌, json_parse_fail}
use security_addon.Strings.{safe_malloc}
use security_addon.Strings.Length.{get_string_length-exact}
use security_addon.Strings.Frame.{frame}
use security_addon.Transport.{Arrival}
use security_addon.Transport.Exact.{pending, Flows}
use security_addon.Json.Laws.{IsLawful, Prints}
use security_addon.Protocol.{Platform}
use security_addon.Protocol.Json.{CommandType, copy_string, json_extract_element, read_payload}
use security_addon.Protocol.Json.Frames.{read_payload-frame}
use security_addon.Client.{ClientPlatform}
use security_addon.Client.Messages.{client_command, client_frame}
use security_addon.Client.Arrives.{message_value, client_frame-frame}

-- The service takes a text that was found whole out of a message.
json_extract_element-found :
    (service : Platform) (q key value : Bytes) (parsed : Bytes → Option Bytes)
    → 0 < service.rsize_max_str
    → ((m : ℕ) → service.allocates m ≡ true)
    → length value < 2 ^ 64
    → service.parse (c_string q) ≡ some parsed
    → parsed key ≡ some (c_string value)
    → json_extract_element service (some q) key ≡ ok (some (c_string value))
unfolding json_extract_element safe_malloc
json_extract_element-found service q key value parsed r_pos room small e found =
    let t : Bytes = c_string value in
    let self : c_string t ≡ t = c_string_self t (c_string-NulFree value) in
    let of_string : Option Bytes → Result (Option Bytes) = λ r. elim r [
      | none ↦ ok none
      | some valuestring ↦
          copy_string service valuestring >>= λ copied. ok (some (c_string copied.1))
    ] in
    let of_parse : Option (Bytes → Option Bytes) → Result (Option Bytes) =
      λ r. elim r [ none ↦ err json_parse_fail | some parse_json ↦ of_string (parse_json key) ] in
    ap of_parse e
    ∙ ap of_string found
    ∙ rw
        (
          (get_string_length-exact service.rsize_max_str r_pos t
              (omega (arith, length-c_string-le value))).0,
          self,
          room (length t + 1),
        )
        (ap (λ w. ok (some w))
          (ap (λ w. c_string (w ++ 0 ∷ [])) (take_all (length t) t (omega arith))
            ∙ c_string-append_nul t [] (c_string-NulFree value)))

-- What the client sends, the service reads: the client makes a frame of the message, and the service
-- reads from it, in whatever pieces it is carried, the text of the message and its command, and
-- leaves what is behind. The client sends messages of this kind, their printed text is below 10 ^ 8
-- bytes, RSIZE_MAX_STR is above 8 in the client and not 0 in the service, cJSON is lawful, the
-- one of the service finds the command in a text that the one of the client reads, and memory can be
-- had.
pub read_payload-client_frame :
    (p : ClientPlatform) (service : Platform) (cmdtype : CommandType) (command payload rest : Bytes)
    (n : ℕ) (carry : Bytes → List Arrival)
    → IsLawful p.json
    → 8 < p.rsize_max_str
    → 0 < service.rsize_max_str
    → ((m : ℕ) → p.allocates m ≡ true)
    → ((m : ℕ) → service.allocates m ≡ true)
    → client_command p.sgx cmdtype ≡ some command
    → length command < 2 ^ 64
    → Prints p.json n (message_value command payload)
    → n < 10 ^ 8
    → ((q : Bytes)
        → p.json.parse q ≡ some (message_value command payload)
        → (parsed : Bytes → Option Bytes) × (service.parse (c_string q) ≡ some parsed)
          × (parsed (codes "command") ≡ some (c_string command)))
    → ((sent : Bytes) → Flows (carry sent))
    → ((sent : Bytes) → pending (carry sent) ≡ sent ++ rest)
    → (message : Bytes) × (client_frame p cmdtype (some payload) ≡ ok (frame message))
      × (es' : List Arrival) × (read_payload service (carry (frame message))
          ≡ (ok (message, some (c_string command)), es'))
      × Flows es'
      × (pending es' ≡ rest)
read_payload-client_frame p service cmdtype command payload rest n carry lawful r_min r_pos room
      service_room is sized prints small same_json flows carried =
    let (message, made, reads, short) =
      client_frame-frame p lawful r_min room command payload n prints small cmdtype is in
    let (parsed, e, found) = same_json message reads in
    let (es', run, flows', left) =
      read_payload-frame service (carry (frame message)) message rest (some (c_string command))
        (flows (frame message)) (carried (frame message)) short (service_room (length message + 1))
        (json_extract_element-found service message (codes "command") command parsed r_pos
          service_room sized e found) in
    (message, made, es', run, flows', left)
