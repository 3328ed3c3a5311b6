-- ===== src/Client/Ends.antt =====
-- The client's loop ends.
use security_addon.Base.{
  ℕ, zero, suc, ◌+◌, ◌^◌, ◌≤◌, ◌<◌, ◌≡◌, refl, Bool, true, false, Option, some, arith, Bytes,
  Bool-cases, inl, inr, codes, length,
}
use security_addon.Base.{◌%◌}
use security_addon.Decimal.{atoi}
use security_addon.Status.{Result, fault, err, ok, ⊤}
use security_addon.Transport.Exact.{pending}
use security_addon.Client.{ClientPlatform, ClientState, lift}
use security_addon.Client.Messages.{extract_element, client_command_type}
use security_addon.Client.Session.{
  client_read, client_turn, to_size, read_body, read_message, handle, client_round, client_loop,
}
use security_addon.Client.Takes.{
  Takes, next_step-Takes, lift-Takes, client_read-Takes, handle-Takes,
}

-- A step that has taken bytes from a state with fewer than `n`.
weaken {ℓ} :
    {A : Type ℓ} (j k m n : ℕ) (step : Result A × ClientState)
    → m + k ≤ n
    → Takes j m step
    → Takes k n step
weaken j k m n (fault, s) less first = tt
weaken j k m n (err e, s) less first = tt
weaken j k m n (ok a, s) less first = omega (arith, less, first)

abbrev Ends : Option (Result ⊤ × ClientState) → Type 0
Ends outcome = (result : Result ⊤) × (s' : ClientState) × (outcome ≡ some (result, s'))

client_turn-Ends :
    (n rounds : ℕ) (step : Result Bool × ClientState)
    (next : ClientState → Option (Result ⊤ × ClientState))
    → n < suc rounds
    → Takes 8 n step
    → ((t : ClientState) → length (pending t.incoming) < rounds → Ends (next t))
    → Ends (client_turn step next)
client_turn-Ends n rounds (fault, t) next enough first rest = (fault, t, refl)
client_turn-Ends n rounds (err e, t) next enough first rest = (err e, t, refl)
client_turn-Ends n rounds (ok true, t) next enough first rest = (ok tt, t, refl)
client_turn-Ends n rounds (ok false, t) next enough first rest =
    rest t (omega (arith, enough, first))

module _ (p : ClientPlatform) where
  read_body-Takes :
      (k n size : ℕ) (s : ClientState)
      → length (pending s.incoming) + k ≤ n
      → Takes k n (read_body p size s)
  unfolding read_body
  read_body-Takes k n size s left = elim (Bool-cases (p.allocates ((size + 1) % 2 ^ 64))) [
    | inl e ↦ rw e (
        weaken size k (length (pending s.incoming)) n (client_read size s) left
          (client_read-Takes size s))
    | inr e ↦ rw e tt
  ]

  -- A message takes at least its length prefix off the stream.
  read_message-Takes : (s : ClientState) → Takes 8 (length (pending s.incoming)) (read_message p s)
  unfolding read_message
  read_message-Takes s =
      let n : ℕ = length (pending s.incoming) in
      next_step-Takes 8 8 n (client_read 8 s) _ (client_read-Takes 8 s) (λ str s1 l1.
        next_step-Takes 8 8 n (read_body p (to_size (atoi str)) s1) _
          (read_body-Takes 8 n (to_size (atoi str)) s1 l1)
          (λ buf s2 l2.
            next_step-Takes 8 8 n (lift (extract_element p (some buf) (codes "command")) s2) _
              (lift-Takes 8 n _ s2 l2) (λ command s3 l3. l3)))

  client_round-Takes :
      (cust_lic_sig_buf : Bytes) (s : ClientState)
      → Takes 8 (length (pending s.incoming)) (client_round p cust_lic_sig_buf s)
  unfolding client_round
  client_round-Takes cust_lic_sig_buf s =
      let n : ℕ = length (pending s.incoming) in
      next_step-Takes 8 8 n (read_message p s) _ (read_message-Takes s) (λ message s1 l1.
        next_step-Takes 8 8 n (lift (client_command_type p.sgx message.1) s1) _
          (lift-Takes 8 n _ s1 l1)
          (λ cmd s2 l2.
            next_step-Takes 8 8 n (handle p cust_lic_sig_buf message.0 cmd s2) _
              (handle-Takes p 8 n cust_lic_sig_buf message.0 cmd s2 l2) (λ complete s3 l3. l3)))

  -- With more rounds than there are bytes to read, the client's loop ends, with success or not.
  pub client_loop-ends :
      (rounds : ℕ) (cust_lic_sig_buf : Bytes) (s : ClientState)
      → length (pending s.incoming) < rounds
      → (result : Result ⊤) × (s' : ClientState) × (client_loop p rounds cust_lic_sig_buf s
          ≡ some (result, s'))
  unfolding client_loop
  client_loop-ends zero cust_lic_sig_buf s enough = absurd (omega (arith, enough))
  client_loop-ends (suc rounds) cust_lic_sig_buf s enough =
      client_turn-Ends (length (pending s.incoming)) rounds (client_round p cust_lic_sig_buf s)
        (client_loop p rounds cust_lic_sig_buf) enough (client_round-Takes cust_lic_sig_buf s)
        (λ t. client_loop-ends rounds cust_lic_sig_buf t)
