-- ===== src/Client/Arrives.antt =====
-- A message of the client on its way to the service.
use security_addon.Base.{
  ℕ, suc, ◌+◌, ◌-◌, ◌*◌, ◌^◌, ◌≤◌, ◌<◌, ◌≡◌, refl, sym, ap, ◌∙◌, true, some, [], ◌∷◌, ◌++◌,
  append_assoc, arith, Bytes, codes, length, length-append, length-take, length-replicate, take,
  take-append, take_all, le→leb,
}
use security_addon.Memory.{c_string, zeros, memcpy_s, strcpy_s, write_at}
use security_addon.Memory.Laws.{
  NulFree, NulFree-append, c_string-NulFree, c_string_self, c_string-append_nul,
  c_string-append_zeros, write_at-zeros, strcpy_s-zeros, length-c_string-le,
}
use security_addon.Decimal.{print_padded}
use security_addon.Decimal.Laws.{length-print_padded}
use security_addon.Status.{ok, ◌>>=◌}
use security_addon.Strings.{safe_malloc, get_string_length}
use security_addon.Strings.Length.{get_string_length-exact}
use security_addon.Strings.Frame.{frame, print_padded-NulFree}
use security_addon.Json.{Json, object, text, member, end}
use security_addon.Json.Laws.{IsLawful, Prints, new_object-view, add_strings-view}
use security_addon.Protocol.Json.{CommandType}
use security_addon.Client.{ClientPlatform}
use security_addon.Client.Messages.{
  client_command, print_message, print_command, create_message_blob, append_json_payload_len,
  client_frame,
}

-- A text copied with the byte behind it.
c_string-take :
    (p : Bytes) (k : ℕ) → c_string (take (suc (length (c_string p))) p ++ zeros k) ≡ c_string p
c_string-take [] k = c_string-append_zeros [] k tt
c_string-take (b ∷ p) k = ground (arith, c_string-take p k)

-- A text behind another in cleared memory.
write_at-behind :
    (s t : Bytes) (k : ℕ)
    → write_at (s ++ zeros k) (length s) (t ++ 0 ∷ [])
      ≡ (s ++ t) ++ (0 ∷ zeros (k - length (t ++ 0 ∷ [])))
write_at-behind s t k =
    let rest : Bytes = zeros (k - length (t ++ 0 ∷ [])) in
    write_at-zeros s (t ++ 0 ∷ []) k
    ∙ ap (◌++◌ s) (append_assoc t (0 ∷ []) rest)
    ∙ sym (append_assoc s t (0 ∷ rest))

-- The block that a printed text is copied into, with its NUL.
copied_block :
    (p : Bytes) (len : ℕ)
    → len ≡ length (c_string p)
    → (c_string (memcpy_s (zeros (len + 1)) (len + 1) p (len + 1)) ≡ c_string p)
      × (length (memcpy_s (zeros (len + 1)) (len + 1) p (len + 1)) ≤ 2 * (length p + 1))
unfolding memcpy_s
copied_block p len is =
    let n : ℕ = len + 1 in
    let one_more : n ≡ suc (length (c_string p)) = omega (arith, is) in
    let written : memcpy_s (zeros n) n p n ≡ take n p ++ zeros (n - length (take n p)) =
      rw (le→leb n n (omega arith)) (write_at-zeros [] (take n p) n) in
    (
      ap c_string written
          ∙ rw one_more (
              c_string-take p
                (suc (length (c_string p)) - length (take (suc (length (c_string p))) p))),
      rw written (
          omega (
            arith,
            length-append (take n p) (zeros (n - length (take n p))),
            length-take n p,
            length-replicate {A = ℕ} (n - length (take n p)) 0,
            one_more,
            length-c_string-le p,
          )),
    )

module _ (p : ClientPlatform) (r_min : 8 < p.rsize_max_str) where
  -- The length and the message in a cleared block.
  append_json_payload_len-frame :
      (block : Bytes) (k : ℕ)
      → length block < 2 ^ 63
      → length (c_string block) < 10 ^ 8
      → 8 < k
      → (m : ℕ) × (append_json_payload_len p (some block) (zeros k)
          ≡ ok (frame (c_string block) ++ (0 ∷ zeros m)))
        × (m ≤ k)
  unfolding append_json_payload_len
  append_json_payload_len-frame block k sized small room =
      let header : Bytes = print_padded (length (c_string block)) in
      let count : length header ≡ 8 = length-print_padded (length (c_string block)) small in
      let nul_free : NulFree header = print_padded-NulFree (length (c_string block)) in
      let self : c_string header ≡ header = c_string_self header nul_free in
      let prefixed : strcpy_s (zeros k) 0 p.rsize_max_str header ≡ header ++ zeros (k - 8) =
        strcpy_s-zeros k p.rsize_max_str header (omega (arith, count, ap length self))
          (omega (arith, count, ap length self))
        ∙ rw (self, count) refl in
      let read : c_string (header ++ zeros (k - 8)) ≡ header =
        c_string-append_zeros header (k - 8) nul_free in
      (
        k - 8 - length (c_string block ++ 0 ∷ []),
        rw
            (
              (get_string_length-exact p.rsize_max_str (omega arith) block (omega arith)).0,
              take_all 8 header (omega (arith, count)),
              prefixed,
              read,
            )
            (ap ok (write_at-behind header (c_string block) (k - 8))),
        omega arith,
      )

-- The text of a block that begins with a frame.
counted :
    (rsize_max_str : ℕ) (message : Bytes) (m : ℕ)
    → 0 < rsize_max_str
    → m < 2 ^ 63 + 9
    → length message < 10 ^ 8
    → NulFree message
    → (get_string_length rsize_max_str (some (frame message ++ (0 ∷ zeros m))) >>= λ buf_len.
        ok (take buf_len (frame message ++ (0 ∷ zeros m))))
      ≡ ok (frame message)
counted rsize_max_str message m r_pos small short nul_free =
    let header : Bytes = print_padded (length message) in
    let framed : Bytes = frame message in
    let rest : Bytes = 0 ∷ zeros m in
    let is_text : c_string (framed ++ rest) ≡ framed =
      c_string-append_nul framed (zeros m)
        (NulFree-append header message (print_padded-NulFree (length message)) nul_free) in
    let fits : length (framed ++ rest) < 2 ^ 64 = omega (
      arith,
      length-append framed rest,
      length-append header message,
      length-print_padded (length message) short,
      length-replicate {A = ℕ} m 0,
    ) in
    rw ((get_string_length-exact rsize_max_str r_pos (framed ++ rest) fits).0, is_text)
      (ap ok (take-append framed rest))

-- The value of a message.
abbrev pub message_value : Bytes → Bytes → Json
message_value command payload = object (
    member (codes "command") (text (c_string command))
      (member (codes "payload") (text (c_string payload)) end))

module _ (p : ClientPlatform) (lawful : IsLawful p.json) (r_min : 8 < p.rsize_max_str)
    (room : (m : ℕ) → p.allocates m ≡ true) (command payload : Bytes) (n : ℕ)
    (prints : Prints p.json n (message_value command payload)) (small : n < 10 ^ 8) where
  print_message-parse :
      (block : Bytes) × (len : ℕ) × (print_message p command payload ≡ ok (block, len))
      × ((q : Bytes)
          → c_string q ≡ c_string block
          → p.json.parse q ≡ some (message_value command payload))
      × (length block < 2 ^ 63)
      × (length (c_string block) < 10 ^ 8)
      × (len < 2 ^ 63)
  unfolding print_message safe_malloc
  print_message-parse =
      let (made, created, empty) = new_object-view p.json lawful in
      let (message, added, view) =
        add_strings-view p.json lawful made end
          ((codes "command", command) ∷ (codes "payload", payload) ∷ []) empty in
      let (printed, e, bounded, parses) = prints message view in
      let len : ℕ = length (c_string printed) in
      let (same, sized) = copied_block printed len refl in
      (
        memcpy_s (zeros (len + 1)) (len + 1) printed (len + 1),
        len + 1,
        rw
            (
              created,
              added,
              e,
              (get_string_length-exact p.rsize_max_str (omega arith) printed (omega arith)).0,
              room (len + 1),
            )
            refl,
        λ q text. parses q (text ∙ same),
        omega (arith, sized, length-c_string-le printed),
        omega (arith, ap length same, length-c_string-le printed),
        omega (arith, length-c_string-le printed),
      )

  -- What the client sends is the frame of a text of the message.
  pub client_frame-frame :
      (cmdtype : CommandType)
      → client_command p.sgx cmdtype ≡ some command
      → (message : Bytes) × (client_frame p cmdtype (some payload) ≡ ok (frame message))
        × (p.json.parse message ≡ some (message_value command payload))
        × (length message < 10 ^ 8)
  unfolding client_frame create_message_blob print_command safe_malloc
  client_frame-frame cmdtype is =
      let (block, len, made, parses, sized, short, room_is) = print_message-parse in
      let message : Bytes = c_string block in
      let (m, framed, within) =
        append_json_payload_len-frame p r_min block (len + 8 + 1) sized short (omega arith) in
      (
        message,
        rw (is, made, room (len + 8 + 1), framed)
            (counted p.rsize_max_str message m (omega arith) (omega (arith, within, room_is)) short
              (c_string-NulFree block)),
        parses message (c_string_self message (c_string-NulFree block)),
        short,
      )
