-- ===== src/Protocol/Callback/Pass.antt =====
-- What a client must have shown for the response "PASS".
use security_addon.Protocol.Bind.{do_exec_client_ek_ak_bind_validation}
use security_addon.Protocol.License.{do_exec_license_check_protocol}
use security_addon.Base.{ℕ, suc, ◌≡◌, refl, Bool, true, false, Option, List, if◌then◌else◌, Bytes}
use security_addon.Status.{⊤, ⊤, Result, ok, err, fault}
use security_addon.Transport.{Arrival}
use security_addon.Base.{When, when_true, codes}
use security_addon.Database.{validate_license_usage, Table}
use security_addon.Protocol.{pure, pure, ⊤, Platform, Session, Quote}
use security_addon.Protocol.Vouched.{untouched, Quiet}
use security_addon.Protocol.Bind.Quiet.{do_exec_client_ek_ak_bind_validation-Quiet}
use security_addon.Protocol.License.Quiet.{do_exec_license_check_protocol-Quiet}
use security_addon.Protocol.Callback.{
  no_quotes, do_exec_client_ek_ak_bind_validation, do_exec_license_check_protocol, check_platform,
  check_enclave, answer_usage, client_license_check, check_client, exec_bind, exec_check,
  exec_license, run_checks,
}
use security_addon.Protocol.Callback.Ends.{Denied, Ends, after-Ends, weaken-Ends, Ends-pass}
use security_addon.Protocol.Callback.Checks.{
  CertifiedPlatform, MeasuredPlatform, MeasuredEnclave, SignedNonce, Granted, PlatformOk, Held,
  check_platform-Ends, check_enclave-Ends, check_nonce-Ends, answer_usage-Ends,
}

-- What the client has shown, in the session in which its license's use is counted, with the license,
-- the nonce, the signature and the certificate that the exchanges of messages have left: the platform on
-- the TLS port, the enclave on the RA-TLS port, and the customer's key on both.
abbrev pub Shown : Platform → Session → Session → Quote × Quote → Table → Type 0
Shown p before exchanged quotes table =
    (s : Session) × Held p before exchanged s
    × When p.tls (CertifiedPlatform p s × MeasuredPlatform p quotes s)
    × When p.ratls (MeasuredEnclave p s)
    × SignedNonce p s
    × Granted p s table

module _ (p : Platform) (before exchanged : Session) where
  platform_stage :
      (tls : Bool) (quotes : Quote × Quote) (s : Session)
      → Held p before exchanged s
      → Ends
          (λ _ s'.
            Held p before exchanged s'
            × (tls ≡ true → CertifiedPlatform p s' × MeasuredPlatform p quotes s'))
          ((if tls then check_platform p quotes else pure tt) s)
  platform_stage true quotes s q =
      weaken-Ends (λ _ s'. Held p before exchanged s' × PlatformOk p before exchanged quotes s') _
        (λ _ s' (q', good). (q', λ _. good)) (check_platform p quotes s)
        (check_platform-Ends p before exchanged quotes s q)
  platform_stage false quotes s q = (q, λ e. absurd (cc))

  enclave_stage :
      (ratls : Bool) (s : Session) (R : Session → Type 0)
      → Held p before exchanged s
      → R s
      → Ends
          (λ _ s'. Held p before exchanged s' × R s' × (ratls ≡ true → MeasuredEnclave p s'))
          ((if ratls then check_enclave p else pure tt) s)
  enclave_stage true s R q r =
      weaken-Ends (λ _ s'. Held p before exchanged s' × R s' × MeasuredEnclave p s') _
        (λ _ s' (q', r', good). (q', r', λ _. good)) (check_enclave p s)
        (check_enclave-Ends p before exchanged s R q r)
  enclave_stage false s R q r = (q, r, λ e. absurd (cc))

  abbrev Stages : Quote × Quote → Session → Type 0
  Stages quotes s =
      (p.tls ≡ true → CertifiedPlatform p s × MeasuredPlatform p quotes s)
      × (p.ratls ≡ true → MeasuredEnclave p s)

  client_license_check-Ends :
      (s : Session) (quotes : Quote × Quote)
      → Held p before exchanged s
      → Stages quotes s
      → SignedNonce p s
      → Ends (λ _ s'. Shown p before exchanged quotes s'.table) (client_license_check p s)
  unfolding client_license_check
  client_license_check-Ends s quotes q stages n =
      let s1 : Session = record s { clock = suc s.clock } in
      let usage : Result ⊤ × Table =
        validate_license_usage (p.calls s.clock) s.table s.customer_license.license_guid
          s.customer_license.model_guid in
      weaken-Ends (λ _ s'. usage ≡ (ok tt, s'.table))
        (λ _ s'. Shown p before exchanged quotes s'.table)
        (λ _ s' granted.
          (s, q, when_true p.tls stages.0, when_true p.ratls stages.1, n, (s.clock, granted)))
        (answer_usage s1 usage) (answer_usage-Ends p before exchanged s1 usage q.1)

  check_client-Ends :
      (quotes : Quote × Quote) (s : Session)
      → Held p before exchanged s
      → Ends (λ _ s'. Shown p before exchanged quotes s'.table) (check_client p quotes s)
  unfolding check_client
  check_client-Ends quotes s q =
      let G : ⊤ → Session → Type 0 = λ _ s'. Shown p before exchanged quotes s'.table in
      after-Ends G
        (λ _ s'.
          Held p before exchanged s'
          × (p.tls ≡ true → CertifiedPlatform p s' × MeasuredPlatform p quotes s'))
        _ _ (platform_stage p.tls quotes s q)
        (λ _ s1 (q1, on_tls).
          after-Ends G
            (λ _ s'.
              Held p before exchanged s'
              × (p.tls ≡ true → CertifiedPlatform p s' × MeasuredPlatform p quotes s')
              × (p.ratls ≡ true → MeasuredEnclave p s'))
            _ _
            (enclave_stage p.ratls s1
              (λ s'. p.tls ≡ true → CertifiedPlatform p s' × MeasuredPlatform p quotes s') q1
              on_tls)
            (λ _ s2 (q2, on_tls2, on_ratls).
              after-Ends G
                (λ _ s'. Held p before exchanged s' × Stages quotes s' × SignedNonce p s') _ _
                (check_nonce-Ends p before exchanged s2 (Stages quotes) (λ _ r. r) q2
                  (on_tls2, on_ratls))
                (λ _ s3 (q3, stages, n). client_license_check-Ends s3 quotes q3 stages n)))

module _ (p : Platform) (before : Session) where
  exec_check-Ends :
      (quotes : Quote × Quote) (r : Result (Option Bytes) × Session × List Arrival)
      → Quiet p before r.1
      → Ends
          (λ _ s'.
            (payload : Option Bytes) × (r.0 ≡ ok payload) × Shown p before r.1 quotes s'.table)
          (exec_check p quotes r)
  unfolding exec_check
  exec_check-Ends quotes (ok payload, s, es) q =
      weaken-Ends (λ _ s'. Shown p before s quotes s'.table) _
        (λ _ s' shown. (payload, refl, shown)) _
        (check_client-Ends p before s quotes s (q.0, q.1, q.2, refl, refl, refl, refl))
  exec_check-Ends quotes (err e, s, es) q = q.1
  exec_check-Ends quotes (fault, s, es) q = q.1

  -- The first exchange gave the quotes, the second ended well, and the client has shown what it must
  -- in the session that the second has left.
  abbrev pub Answered : ℕ → Result (Quote × Quote) × Session × List Arrival → Table → Type 0
  Answered fuel bound table =
      (quotes : Quote × Quote) × (bound.0 ≡ ok quotes)
      × (payload : Option Bytes) × ((do_exec_license_check_protocol p fuel bound.2 bound.1).0
          ≡ ok payload)
      × Shown p before (do_exec_license_check_protocol p fuel bound.2 bound.1).1 quotes table

  exec_license-Ends :
      (fuel : ℕ) (r : Result (Quote × Quote) × Session × List Arrival)
      → Quiet p before r.1
      → Ends (λ _ s'. Answered fuel r s'.table) (exec_license p fuel r)
  unfolding exec_license
  exec_license-Ends fuel (ok quotes, s, es) q =
      weaken-Ends
        (λ _ s'.
          (payload : Option Bytes) × ((do_exec_license_check_protocol p fuel es s).0 ≡ ok payload)
          × Shown p before (do_exec_license_check_protocol p fuel es s).1 quotes s'.table)
        _ (λ _ s' (payload, ran, shown). (quotes, refl, payload, ran, shown)) _
        (exec_check-Ends quotes (do_exec_license_check_protocol p fuel es s)
          (do_exec_license_check_protocol-Quiet p before fuel es s q))
  exec_license-Ends fuel (err e, s, es) q = q.1
  exec_license-Ends fuel (fault, s, es) q = q.1

  pick-Quiet :
      (b : Bool) (x y : Result (Quote × Quote) × Session × List Arrival)
      → Quiet p before x.1
      → Quiet p before y.1
      → Quiet p before (if b then x else y).1
  pick-Quiet true x y qx qy = qx
  pick-Quiet false x y qx qy = qy

  exec_bind-Quiet :
      (fuel : ℕ) (es : List Arrival) (s : Session)
      → Quiet p before s
      → Quiet p before (exec_bind p fuel es s).1
  unfolding exec_bind
  exec_bind-Quiet fuel es s q =
      pick-Quiet p.tls (do_exec_client_ek_ak_bind_validation p fuel es s) (ok no_quotes, s, es)
        (do_exec_client_ek_ak_bind_validation-Quiet p before fuel es s q) q

-- If a session's response is "PASS" at `out1`, and was not before it began, then the first exchange
-- of messages gave quotes, the second succeeded, and the client has shown what it must, with the
-- license, the nonce, the signature and the certificate as the second exchange left them: on the TLS
-- port, that the buffer of its certificate, which only certificates that were verified in this
-- session have been written into, equals the certificate that the database has for the license, that
-- the quotes fit a TCB of the license and are signed; on the RA-TLS port, that the enclave fits a
-- TCB; and on both, that the nonce is signed under the database's second certificate, and that the
-- usage check on the unchanged table granted the use.
pub run_checks-Shown :
    (p : Platform) (fuel : ℕ) (es : List Arrival) (before : Session)
    → Denied before
    → (run_checks p fuel es before).1.response ≡ codes "PASS"
    → Answered p before fuel (exec_bind p fuel es before) (run_checks p fuel es before).1.table
unfolding run_checks
run_checks-Shown p fuel es before d pass =
    (Ends-pass _ (run_checks p fuel es before)
      (exec_license-Ends p before fuel (exec_bind p fuel es before)
        (exec_bind-Quiet p before fuel es before (untouched, d, refl)))
      pass).1
