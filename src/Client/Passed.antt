-- ===== src/Client/Passed.antt =====
-- What a client's session that succeeds has read.
use security_addon.Base.{
  ℕ, zero, suc, ◌≡◌, refl, ap, ◌∙◌, inl, inr, Bool, true, false, Option, none, some, Bytes,
  Bool-cases,
}
use security_addon.Base.{codes, equal}
use security_addon.Memory.{c_string}
use security_addon.Status.{Result, fault, err, ok, ⊤}
use security_addon.Protocol.Json.{
  CommandType, send_nonce, send_ek_ak_bind, send_ek_ak_bind_info, send_quote_nonce, send_sign_nonce,
  send_quote_info, send_cust_license, send_update_cust_license, send_update_cust_license_ack,
  send_license_check_resp, invalid_cmd,
}
use security_addon.Client.{ClientPlatform, ClientState, Act, next_step}
use security_addon.Client.Messages.{extract_element, client_command_type}
use security_addon.Client.Session.{
  sent, client_turn, sign_send_nonce, update_cust_license, check_status, get_license_check,
  read_message, handle, client_round, client_loop,
}

-- Both steps of a chain that succeeds have succeeded.
next_step-ok {ℓ κ} :
    {A : Type ℓ} {B : Type κ} (step : Result A × ClientState) (next : A → Act B) {b : B}
    {s' : ClientState}
    → next_step step next ≡ (ok b, s')
    → (a : A) × (s : ClientState) × (step ≡ (ok a, s)) × (next a s ≡ (ok b, s'))
next_step-ok (fault, s) next e = absurd (cc)
next_step-ok (err x, s) next e = absurd (cc)
next_step-ok (ok a, s) next e = (a, s, refl, e)

not_complete :
    (step : Result ⊤ × ClientState) {s' : ClientState}
    → next_step step (λ _ s. (ok false, s)) ≡ (ok true, s')
    → ⊥
not_complete (fault, s) e = cc
not_complete (err x, s) e = cc
not_complete (ok a, s) e = cc

check_status-pass :
    (p : ClientPlatform) (payload : Option Bytes) {u : ⊤}
    → check_status p payload ≡ ok u
    → (text : Bytes) × (payload ≡ some text) × (equal (c_string text) (codes "PASS") ≡ true)
unfolding check_status
check_status-pass p none e = absurd (cc)
check_status-pass p (some text) e = elim (Bool-cases (equal (c_string text) (codes "PASS"))) [
  | inl same ↦ (text, refl, same)
  | inr other ↦ absurd (let failed = rw other at e in cc)
]

module _ (p : ClientPlatform) (cust_lic_sig_buf : Bytes) where
  -- A message that says that the check has passed.
  abbrev pub SaysPass : Bytes → Type 0
  SaysPass read_buf =
      (text : Bytes) × (extract_element p (some read_buf) (codes "payload") ≡ ok (some text))
      × (equal (c_string text) (codes "PASS") ≡ true)

  handle_complete :
      (read_buf : Bytes) (cmd : CommandType) (s : ClientState) {s' : ClientState}
      → handle p cust_lic_sig_buf read_buf cmd s ≡ (ok true, s')
      → (cmd ≡ send_license_check_resp) × SaysPass read_buf
  unfolding handle get_license_check
  handle_complete read_buf send_nonce s e =
      absurd (not_complete (sign_send_nonce p read_buf cust_lic_sig_buf s) e)
  handle_complete read_buf send_ek_ak_bind s e =
      absurd (not_complete (sent s (p.send_ek_ak_bind_info s.clock s.outgoing)) e)
  handle_complete read_buf send_quote_nonce s e =
      absurd
        (not_complete (sent s (p.get_quote_nonce s.clock read_buf cust_lic_sig_buf s.outgoing)) e)
  handle_complete read_buf send_update_cust_license s e =
      absurd (not_complete (update_cust_license p read_buf s) e)
  handle_complete read_buf send_license_check_resp s e =
      let (u, s1, checked, rest) = next_step-ok (get_license_check p read_buf s) _ e in
      let (payload, s2, extracted, passed) =
        next_step-ok (extract_element p (some read_buf) (codes "payload"), s) _ checked in
      let (text, is, pass) = check_status-pass p payload (ap (λ r. r.0) passed) in
      (refl, (text, ap (λ r. r.0) extracted ∙ ap ok is, pass))
  handle_complete read_buf send_ek_ak_bind_info s e = absurd (cc)
  handle_complete read_buf send_sign_nonce s e = absurd (cc)
  handle_complete read_buf send_quote_info s e = absurd (cc)
  handle_complete read_buf send_cust_license s e = absurd (cc)
  handle_complete read_buf send_update_cust_license_ack s e = absurd (cc)
  handle_complete read_buf invalid_cmd s e = absurd (cc)

  -- A turn that completes the check has read a message that says so.
  abbrev pub ReadsPass : ClientState → Type 0
  ReadsPass s =
      (read_buf : Bytes) × (command : Option Bytes) × (s' : ClientState) × (read_message p s
        ≡ (ok (read_buf, command), s'))
      × (client_command_type p.sgx command ≡ ok send_license_check_resp)
      × SaysPass read_buf

  client_round_complete :
      (s : ClientState) {s' : ClientState}
      → client_round p cust_lic_sig_buf s ≡ (ok true, s')
      → ReadsPass s
  unfolding client_round
  client_round_complete s e =
      let (message, s1, run, e1) = next_step-ok (read_message p s) _ e in
      let (cmd, s2, typed, e2) = next_step-ok (client_command_type p.sgx message.1, s1) _ e1 in
      let (complete, s3, handled, e3) =
        next_step-ok (handle p cust_lic_sig_buf message.0 cmd s2) _ e2 in
      let is_true : complete ≡ true = cc in
      let (resp, says) =
        handle_complete message.0 cmd s2 (handled ∙ ap (λ b. (ok b, s3)) is_true) in
      (message.0, message.1, s1, run, ap (λ r. r.0) typed ∙ ap ok resp, says)

  -- States that turns which do not complete the check lead to.
  pub data Turns (s : ClientState) : ClientState → Type 0 where
    at_once : Turns s s
    one_more :
        {t u : ClientState}
        → Turns s t
        → client_round p cust_lic_sig_buf t ≡ (ok false, u)
        → Turns s u

  -- How a session that began in `first` ends.
  abbrev pub Ends : ClientState → ClientState → Type 0
  Ends first s' =
      (last : ClientState) × Turns first last
      × ReadsPass last
      × (client_round p cust_lic_sig_buf last ≡ (ok true, s'))

  client_turn_complete :
      (step : Result Bool × ClientState) (next : ClientState → Option (Result ⊤ × ClientState))
      (first s s' : ClientState)
      → Turns first s
      → client_round p cust_lic_sig_buf s ≡ step
      → client_turn step next ≡ some (ok tt, s')
      → ((t : ClientState) → Turns first t → next t ≡ some (ok tt, s') → Ends first s')
      → Ends first s'
  client_turn_complete (fault, t) next first s s' turns run e ends = absurd (cc)
  client_turn_complete (err x, t) next first s s' turns run e ends = absurd (cc)
  client_turn_complete (ok true, t) next first s s' turns run e ends =
      let same : t ≡ s' = cc in
      let done = run ∙ ap (λ (w : ClientState). (ok true, w)) same in
      (s, turns, client_round_complete s done, done)
  client_turn_complete (ok false, t) next first s s' turns run e ends =
      ends t (one_more turns run) e

  client_loop-Ends :
      (rounds : ℕ) (first s s' : ClientState)
      → Turns first s
      → client_loop p rounds cust_lic_sig_buf s ≡ some (ok tt, s')
      → Ends first s'
  unfolding client_loop
  client_loop-Ends zero first s s' turns e = absurd (cc)
  client_loop-Ends (suc rounds) first s s' turns e =
      client_turn_complete (client_round p cust_lic_sig_buf s)
        (client_loop p rounds cust_lic_sig_buf) first s s' turns refl e
        (λ t turns'. client_loop-Ends rounds first t s' turns')

  -- If the loop succeeds, the last message that it read, after turns that did not complete the check,
  -- is a response to the license's check, and its payload is "PASS", whatever the service sent before.
  pub client_loop-ReadsPass :
      (rounds : ℕ) (s s' : ClientState)
      → client_loop p rounds cust_lic_sig_buf s ≡ some (ok tt, s')
      → (last : ClientState) × Turns s last
        × ReadsPass last
        × (client_round p cust_lic_sig_buf last ≡ (ok true, s'))
  client_loop-ReadsPass rounds s s' e = client_loop-Ends rounds s s s' at_once e
