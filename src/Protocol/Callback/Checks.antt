-- ===== src/Protocol/Callback/Checks.antt =====
-- What each check of the callback shows when it succeeds.
use security_addon.Base.{ℕ, suc, ◌≡◌, ◌≢◌, refl, Bool, true, false, Bytes, take}
use security_addon.Status.{
  Status, ⊤, db_timelimt_fail, db_usagelimit_fail, Status, ⊤, Result, ok, err, fault, guard,
  platform_cert_validation_failed,
}
use security_addon.Base.{codes, equal, equal_iff}
use security_addon.Memory.{c_string}
use security_addon.Database.{
  get_customer_primary_certificate, get_customer_secondary_certificate, validate_license_usage,
  Table,
}
use security_addon.Protocol.{Status, ⊤, Platform, Session, Quote}
use security_addon.Protocol.Tcb.{do_validate_tpm_quote, do_validate_sgx_measurement}
use security_addon.Protocol.Vouched.{Vouched, text_ne}
use security_addon.Protocol.Callback.{
  do_validate_platform_certificate, check_platform, check_enclave, nonce_size, check_nonce,
  failure_text, answer_usage,
}
use security_addon.Protocol.Callback.Ends.{Denied, Ends, lift-Ends, answered-Ends, after-Ends}

-- The certificate of the platform is the one of the database.
abbrev pub CertifiedPlatform : Platform → Session → Type 0
CertifiedPlatform p s =
    (clock : ℕ) × (cert : ℕ × Bytes) × (get_customer_primary_certificate (p.calls clock) s.table
        s.customer_license.license_guid s.customer_license.model_guid
      ≡ ok cert)
    × (c_string s.client_platform_cert ≡ cert.1)

-- The quotes fit a TCB of the license, and their signatures are right.
abbrev pub MeasuredPlatform : Platform → Quote × Quote → Session → Type 0
MeasuredPlatform p (sw, hw) s =
    (do_validate_tpm_quote p s.customer_license.tcb_signatures sw hw ≡ ok tt)
    × (p.verify_quote hw sw ≡ ok tt)

abbrev pub MeasuredEnclave : Platform → Session → Type 0
MeasuredEnclave p s =
    do_validate_sgx_measurement p s.customer_license.tcb_signatures p.sgx_measurement ≡ ok tt

-- The nonce of the session is signed by the customer of the license.
abbrev pub SignedNonce : Platform → Session → Type 0
SignedNonce p s =
    (clock : ℕ) × (cert : ℕ × Bytes) × (get_customer_secondary_certificate (p.calls clock) s.table
        s.customer_license.license_guid s.customer_license.model_guid
      ≡ ok cert)
    × (p.verify_mem cert.1 (take nonce_size s.nonce_buf) s.payload_signature ≡ ok tt)

-- The use of the license was free, or there was one and it is counted.
abbrev pub Granted : Platform → Session → Table → Type 0
Granted p s table =
    (clock : ℕ) × (validate_license_usage (p.calls clock) s.table s.customer_license.license_guid
        s.customer_license.model_guid
      ≡ (ok tt, table))

-- A session that has not been answered yet, with what the two exchanges have left in `exchanged`: its
-- license, its nonce, its signature and its certificate.
abbrev pub Held : Platform → Session → Session → Session → Type 0
Held p before exchanged s =
    Vouched p before.client_platform_cert s.client_platform_cert
    × (s.response ≢ codes "PASS")
    × (s.table ≡ before.table)
    × (s.customer_license ≡ exchanged.customer_license)
    × (s.nonce_buf ≡ exchanged.nonce_buf)
    × (s.payload_signature ≡ exchanged.payload_signature)
    × (s.client_platform_cert ≡ exchanged.client_platform_cert)

module _ (p : Platform) (before exchanged : Session) where
  abbrev Q : Session → Type 0
  Q = Held p before exchanged

  abbrev pub PlatformOk : Quote × Quote → Session → Type 0
  PlatformOk quotes s = CertifiedPlatform p s × MeasuredPlatform p quotes s

  guard-true : (b : Bool) (a : ⊤) → guard b platform_cert_validation_failed ≡ ok a → b ≡ true
  guard-true true a h = refl
  guard-true false a h = absurd (cc)

  do_validate_platform_certificate-Ends :
      (s : Session)
      → Q s
      → Ends (λ _ s'. Q s' × CertifiedPlatform p s') (do_validate_platform_certificate p s)
  unfolding do_validate_platform_certificate
  do_validate_platform_certificate-Ends s q =
      let s1 : Session = record s { clock = suc s.clock } in
      let primary : Result (ℕ × Bytes) =
        get_customer_primary_certificate (p.calls s.clock) s.table s.customer_license.license_guid
          s.customer_license.model_guid in
      after-Ends (λ _ s'. Q s' × CertifiedPlatform p s')
        (λ cert s'. (s' ≡ s1) × (primary ≡ ok cert)) _ _
        (lift-Ends (λ cert s'. (s' ≡ s1) × (primary ≡ ok cert)) primary s1 q.1
          (λ cert got. (refl, got)))
        (λ cert s2 (same, got). rw same (
          lift-Ends (λ _ s'. Q s' × CertifiedPlatform p s')
            (guard (equal (c_string s.client_platform_cert) cert.1) platform_cert_validation_failed)
            s1 q.1
            (λ a passed. (
              q,
              (
                s.clock,
                cert,
                got,
                (equal_iff (c_string s.client_platform_cert) cert.1).0 (guard-true _ a passed),
              ),
            ))))

  pub check_platform-Ends :
      (quotes : Quote × Quote) (s : Session)
      → Q s
      → Ends (λ _ s'. Q s' × PlatformOk quotes s') (check_platform p quotes s)
  unfolding check_platform equal
  check_platform-Ends (sw, hw) s q =
      after-Ends _ (λ _ s'. Q s' × CertifiedPlatform p s') _ _
        (answered-Ends _ _ (do_validate_platform_certificate p s) refl
          (do_validate_platform_certificate-Ends s q))
        (λ _ s1 (q1, c1).
          after-Ends _
            (λ _ s'.
              Q s'
              × CertifiedPlatform p s'
              × (do_validate_tpm_quote p s'.customer_license.tcb_signatures sw hw ≡ ok tt))
            _ _
            (answered-Ends
              (λ _ s'.
                Q s'
                × CertifiedPlatform p s'
                × (do_validate_tpm_quote p s'.customer_license.tcb_signatures sw hw ≡ ok tt))
              _ (do_validate_tpm_quote p s1.customer_license.tcb_signatures sw hw, s1) refl
              (lift-Ends
                (λ _ s'.
                  Q s'
                  × CertifiedPlatform p s'
                  × (do_validate_tpm_quote p s'.customer_license.tcb_signatures sw hw ≡ ok tt))
                _ s1 q1.1 (λ _ e. (q1, c1, e))))
            (λ _ s2 (q2, c2, e2).
              after-Ends _ (λ _ s'. Q s' × PlatformOk (sw, hw) s') _ _
                (answered-Ends (λ _ s'. Q s' × PlatformOk (sw, hw) s') _ (p.verify_quote hw sw, s2)
                  refl
                  (lift-Ends (λ _ s'. Q s' × PlatformOk (sw, hw) s') _ s2 q2.1
                    (λ _ e. (q2, (c2, (e2, e))))))
                (λ _ s3 good. good)))

  pub check_enclave-Ends :
      (s : Session) (R : Session → Type 0)
      → Q s
      → R s
      → Ends (λ _ s'. Q s' × R s' × MeasuredEnclave p s') (check_enclave p s)
  unfolding check_enclave equal
  check_enclave-Ends s R q r =
      answered-Ends (λ _ s'. Q s' × R s' × MeasuredEnclave p s') _
        (do_validate_sgx_measurement p s.customer_license.tcb_signatures p.sgx_measurement, s) refl
        (lift-Ends (λ _ s'. Q s' × R s' × MeasuredEnclave p s') _ s q.1 (λ _ e. (q, r, e)))

  pub check_nonce-Ends :
      (s : Session) (R : Session → Type 0)
      → ((s : Session) → R s → R (record s { clock = suc s.clock }))
      → Q s
      → R s
      → Ends (λ _ s'. Q s' × R s' × SignedNonce p s') (check_nonce p s)
  unfolding check_nonce equal
  check_nonce-Ends s R ticked q r =
      let s1 : Session = record s { clock = suc s.clock } in
      let secondary : Result (ℕ × Bytes) =
        get_customer_secondary_certificate (p.calls s.clock) s.table s.customer_license.license_guid
          s.customer_license.model_guid in
      after-Ends (λ _ s'. Q s' × R s' × SignedNonce p s')
        (λ cert s'. (s' ≡ s1) × (secondary ≡ ok cert)) _ _
        (answered-Ends (λ cert s'. (s' ≡ s1) × (secondary ≡ ok cert)) _ (secondary, s1) refl
          (lift-Ends (λ cert s'. (s' ≡ s1) × (secondary ≡ ok cert)) secondary s1 q.1
            (λ cert got. (refl, got))))
        (λ cert s2 (same, got). rw same (
          answered-Ends (λ _ s'. Q s' × R s' × SignedNonce p s') _
            (p.verify_mem cert.1 (take nonce_size s.nonce_buf) s.payload_signature, s1) refl
            (lift-Ends (λ _ s'. Q s' × R s' × SignedNonce p s') _ s1 q.1
              (λ _ e. (q, ticked s r, (s.clock, cert, got, e))))))

  failure_text-denies : (e : Status) → equal (failure_text e) (codes "PASS") ≡ false
  unfolding equal
  failure_text-denies db_timelimt_fail = refl
  failure_text-denies db_usagelimit_fail = refl
  failure_text-denies _ = refl

  pub answer_usage-Ends :
      (s : Session) (r : Result ⊤ × Table)
      → Denied s
      → Ends (λ _ s'. r ≡ (ok tt, s'.table)) (answer_usage s r)
  unfolding answer_usage
  answer_usage-Ends s (ok _, table) d = refl
  answer_usage-Ends s (err e, table) d =
      text_ne (failure_text e) (codes "PASS") (failure_text-denies e)
  answer_usage-Ends s (fault, table) d = d
