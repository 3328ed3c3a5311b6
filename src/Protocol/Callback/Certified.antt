-- ===== src/Protocol/Callback/Certified.antt =====
-- No session on the TLS port passes without a certificate of its own.
use security_addon.Database.{get_customer_primary_certificate}
use security_addon.Base.{
  ℕ, ◌<◌, ◌≡◌, refl, sym, ◌∙◌, ◌≢◌, Bool, true, false, none, List, [], Bytes, take,
}
use security_addon.Base.{codes, When}
use security_addon.Memory.{write_at, c_string}
use security_addon.Status.{ok}
use security_addon.Transport.{Arrival}
use security_addon.Database.Getters.{get_customer_primary_certificate-nonempty}
use security_addon.Protocol.{Platform, Session}
use security_addon.Protocol.Vouched.{Vouched, untouched, written}
use security_addon.Protocol.Callback.{get_customer_primary_certificate, run_checks}
use security_addon.Protocol.Callback.Ends.{Denied}
use security_addon.Protocol.Callback.Pass.{run_checks-Shown}

-- The last certificate that was written into the buffer, over what stood there before.
abbrev pub LastWritten : Platform → Bytes → Bytes → Type 0
LastWritten p start buffer =
    (old cert : Bytes) × (len : ℕ) × (p.verify_certificate cert none ≡ ok tt)
    × Vouched p start old
    × (buffer ≡ write_at old 0 (take len cert))

Vouched-LastWritten :
    (p : Platform) (start buffer : Bytes)
    → Vouched p start buffer
    → c_string start ≡ []
    → c_string buffer ≢ []
    → LastWritten p start buffer
Vouched-LastWritten p start buffer untouched cleared nonempty = absurd (nonempty cleared)
Vouched-LastWritten p start buffer (written old cert len verified counted v) cleared nonempty =
    (old, cert, len, verified, v, refl)

when-holds : {A : Type 0} (b : Bool) → b ≡ true → When b A → A
when-holds true h a = a
when-holds false h a = absurd (cc)

-- If a session on the TLS port starts with a cleared buffer for the platform's certificate and with a
-- response other than "PASS", and ends in "PASS", then a certificate was verified in it, and the
-- buffer that this certificate was last written into holds the text of the certificate that the
-- database of the start has for a license; the string library's RSIZE_MAX_STR is not 0.
pub run_checks-certified :
    (p : Platform) (fuel : ℕ) (es : List Arrival) (before : Session)
    → p.tls ≡ true
    → ((k : ℕ) → 0 < (p.calls k).rsize_max_str)
    → c_string before.client_platform_cert ≡ []
    → Denied before
    → (run_checks p fuel es before).1.response ≡ codes "PASS"
    → (buffer license_guid model_guid : Bytes) × (clock : ℕ) × (db : ℕ × Bytes)
      × (get_customer_primary_certificate (p.calls clock) before.table license_guid model_guid
          ≡ ok db)
      × (c_string buffer ≡ db.1)
      × LastWritten p before.client_platform_cert buffer
run_checks-certified p fuel es before on positive cleared denied pass =
    let (quotes, _, payload, _, (s, (vouched, _, same_table, _, _, _, _), platform, _, _, _)) =
      run_checks-Shown p fuel es before denied pass in
    let ((clock, cert, given, same), _) = when-holds p.tls on platform in
    (
      s.client_platform_cert,
      s.customer_license.license_guid,
      s.customer_license.model_guid,
      clock,
      cert,
      rw same_table at given,
      same,
      Vouched-LastWritten p before.client_platform_cert s.client_platform_cert vouched cleared
          (λ empty.
            get_customer_primary_certificate-nonempty (p.calls clock) s.table
              s.customer_license.license_guid s.customer_license.model_guid (positive clock) given
              (sym same ∙ empty)),
    )
