-- ===== src/Client/Takes.antt =====
-- What the client's steps take off the stream.
use security_addon.Base.{
  ℕ, ◌+◌, ◌≤◌, ap, Bool, true, false, not, ◌&&◌, ◌==◌, Option, none, some, List, [], arith, Bytes,
  Bool-cases, inl, inr, codes, length, length-append,
}
use security_addon.Strings.{get_string_length}
use security_addon.Status.{Result, fault, err, ok, ⊤}
use security_addon.Transport.{Arrival, Departure, service_read, service_write}
use security_addon.Transport.Exact.{pending, Delivers, service_read-Delivers}
use security_addon.Protocol.Json.{
  CommandType, send_nonce, send_ek_ak_bind, send_ek_ak_bind_info, send_quote_nonce, send_sign_nonce,
  send_quote_info, send_cust_license, send_update_cust_license, send_update_cust_license_ack,
  send_license_check_resp, invalid_cmd,
}
use security_addon.Client.{ClientPlatform, ClientState, Act, lift, next_step}
use security_addon.Client.Messages.{client_frame, extract_element}
use security_addon.Client.Session.{
  client_read, client_write, sent, client_send, write_text, write_license, sign_send_nonce,
  update_cust_license, check_status, get_license_check, handle,
}

-- A step that, where it succeeds, has taken `k` of the `n` bytes at least.
abbrev pub Takes {ℓ} : {A : Type ℓ} → ℕ → ℕ → Result A × ClientState → Type 0
Takes k n (ok _, s) = length (pending s.incoming) + k ≤ n
Takes k n (err _, s) = Unit
Takes k n (fault, s) = Unit

pub next_step-Takes {ℓ κ} :
    {A : Type ℓ} {B : Type κ} (j k n : ℕ) (step : Result A × ClientState) (next : A → Act B)
    → Takes j n step
    → ((a : A) (s : ClientState) → length (pending s.incoming) + j ≤ n → Takes k n (next a s))
    → Takes k n (next_step step next)
next_step-Takes j k n (fault, s) next first after = tt
next_step-Takes j k n (err e, s) next first after = tt
next_step-Takes j k n (ok a, s) next first after = after a s first

pub lift-Takes {ℓ} :
    {A : Type ℓ} (k n : ℕ) (result : Result A) (s : ClientState)
    → length (pending s.incoming) + k ≤ n
    → Takes k n (lift result s)
lift-Takes k n fault s left = tt
lift-Takes k n (err e) s left = tt
lift-Takes k n (ok a) s left = left

sent-Takes :
    (k n : ℕ) (s : ClientState) (step : Result ⊤ × Bytes × List Departure)
    → length (pending s.incoming) + k ≤ n
    → Takes k n (sent s step)
sent-Takes k n s (fault, bytes, rest) left = tt
sent-Takes k n s (err e, bytes, rest) left = tt
sent-Takes k n s (ok a, bytes, rest) left = left

taken :
    (len : ℕ) (s : ClientState) (r : Result Bytes × List Arrival)
    → Delivers [] len s.incoming r
    → Takes len (length (pending s.incoming)) (r.0, record s { incoming = r.1 })
taken len s (ok bs, es') (joined, count) =
    omega (arith, count, ap length joined, length-append bs (pending es'))
taken len s (err e, es') d = tt
taken len s (fault, es') d = tt

pub client_read-Takes :
    (len : ℕ) (s : ClientState) → Takes len (length (pending s.incoming)) (client_read len s)
unfolding client_read
client_read-Takes len s =
    taken len s (service_read s.incoming len) (service_read-Delivers s.incoming len)

module _ (p : ClientPlatform) (k n : ℕ) where
  client_send-Takes :
      (cmdtype : CommandType) (payload : Option Bytes) (s : ClientState)
      → length (pending s.incoming) + k ≤ n
      → Takes k n (client_send p cmdtype payload s)
  unfolding client_send client_write
  client_send-Takes cmdtype payload s left =
      next_step-Takes k k n (client_frame p cmdtype payload, s) client_write
        (lift-Takes k n (client_frame p cmdtype payload) s left)
        (λ buf s1. sent-Takes k n s1 (service_write s1.outgoing buf))

  sign_send_nonce-Takes :
      (nonce_buf cust_lic_sig_buf : Bytes) (s : ClientState)
      → length (pending s.incoming) + k ≤ n
      → Takes k n (sign_send_nonce p nonce_buf cust_lic_sig_buf s)
  unfolding sign_send_nonce
  sign_send_nonce-Takes nonce_buf cust_lic_sig_buf s left =
      next_step-Takes k k n (lift (extract_element p (some nonce_buf) (codes "payload")) s) _
        (lift-Takes k n _ s left)
        (λ payload s1 left1.
          next_step-Takes k k n (lift (get_string_length p.rsize_max_str (some nonce_buf)) s1) _
            (lift-Takes k n _ s1 left1)
            (λ buf_len s2 left2.
              next_step-Takes k k n (lift (p.sign_mem payload buf_len) s2) _
                (lift-Takes k n _ s2 left2)
                (λ nonce_signed s3 left3.
                  next_step-Takes k k n (client_send p send_sign_nonce (some nonce_signed) s3) _
                    (client_send-Takes send_sign_nonce (some nonce_signed) s3 left3)
                    (λ _. client_send-Takes send_cust_license (some cust_lic_sig_buf)))))

  write_text-Takes :
      (len : Result ℕ) (payload : Option Bytes) (s : ClientState)
      → length (pending s.incoming) + k ≤ n
      → Takes k n (write_text p len payload s)
  unfolding write_text
  write_text-Takes fault payload s left = tt
  write_text-Takes (err e) payload s left = tt
  write_text-Takes (ok len) none s left = tt
  write_text-Takes (ok len) (some payload) s left =
      elim (Bool-cases (p.writes s.clock && not (len == 0))) [ inl e ↦ rw e left | inr e ↦ rw e tt ]

  write_license-Takes :
      (payload : Option Bytes) (s : ClientState)
      → length (pending s.incoming) + k ≤ n
      → Takes k n (write_license p payload s)
  unfolding write_license
  write_license-Takes payload s left = elim (Bool-cases (p.opens s.clock)) [
    | inl e ↦ rw e (write_text-Takes (get_string_length p.rsize_max_str payload) payload _ left)
    | inr e ↦ rw e tt
  ]

  update_cust_license-Takes :
      (buf : Bytes) (s : ClientState)
      → length (pending s.incoming) + k ≤ n
      → Takes k n (update_cust_license p buf s)
  unfolding update_cust_license
  update_cust_license-Takes buf s left =
      next_step-Takes k k n (lift (extract_element p (some buf) (codes "payload")) s) _
        (lift-Takes k n _ s left)
        (λ payload s1 left1.
          next_step-Takes k k n (write_license p payload s1) _
            (write_license-Takes payload s1 left1)
            (λ _. client_send-Takes send_update_cust_license_ack (some [])))

  get_license_check-Takes :
      (buf : Bytes) (s : ClientState)
      → length (pending s.incoming) + k ≤ n
      → Takes k n (get_license_check p buf s)
  unfolding get_license_check
  get_license_check-Takes buf s left =
      next_step-Takes k k n (lift (extract_element p (some buf) (codes "payload")) s) _
        (lift-Takes k n _ s left) (λ payload s1. lift-Takes k n (check_status p payload) s1)

  -- A handler that then says whether the check is complete.
  answered :
      (step : Result ⊤ × ClientState) (complete : Bool)
      → Takes k n step
      → Takes k n (next_step step (λ _. lift (ok complete)))
  answered step complete first =
      next_step-Takes k k n step (λ _. lift (ok complete)) first
        (λ _ s. lift-Takes k n (ok complete) s)

  -- The answer to a message takes nothing off the stream.
  pub handle-Takes :
      (cust_lic_sig_buf read_buf : Bytes) (cmd : CommandType) (s : ClientState)
      → length (pending s.incoming) + k ≤ n
      → Takes k n (handle p cust_lic_sig_buf read_buf cmd s)
  unfolding handle
  handle-Takes cust read_buf send_nonce s left =
      answered (sign_send_nonce p read_buf cust s) false
        (sign_send_nonce-Takes read_buf cust s left)
  handle-Takes cust read_buf send_ek_ak_bind s left =
      answered _ false (sent-Takes k n s (p.send_ek_ak_bind_info s.clock s.outgoing) left)
  handle-Takes cust read_buf send_quote_nonce s left =
      answered _ false (sent-Takes k n s (p.get_quote_nonce s.clock read_buf cust s.outgoing) left)
  handle-Takes cust read_buf send_update_cust_license s left =
      answered (update_cust_license p read_buf s) false (update_cust_license-Takes read_buf s left)
  handle-Takes cust read_buf send_license_check_resp s left =
      answered (get_license_check p read_buf s) true (get_license_check-Takes read_buf s left)
  handle-Takes cust read_buf send_ek_ak_bind_info s left = tt
  handle-Takes cust read_buf send_sign_nonce s left = tt
  handle-Takes cust read_buf send_quote_info s left = tt
  handle-Takes cust read_buf send_cust_license s left = tt
  handle-Takes cust read_buf send_update_cust_license_ack s left = tt
  handle-Takes cust read_buf invalid_cmd s left = tt
