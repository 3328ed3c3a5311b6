-- ===== src/Protocol/Vouched.antt =====
-- What every message of a session keeps: the buffer of the platform's certificate holds nothing but
-- certificates that were verified, the response is not yet "PASS", and the database is as it was.
use security_addon.Base.{ℕ, ◌≡◌, ◌≢◌, false, Option, none, some, List, Bytes, take}
use security_addon.Base.{codes, equal, equal_refl}
use security_addon.Memory.{write_at}
use security_addon.Status.{Result, ok, ⊤}
use security_addon.Transport.{service_write, Departure}
use security_addon.Protocol.{service_write, Departure, Platform, Session, wrote, write}
use security_addon.Protocol.Json.{CommandType, send_nonce_to_client, send_message}
use security_addon.Protocol.Keeps.{Keeps, after-Keeps}
use security_addon.Protocol.Bind.{certificate_length}

-- The buffer behind writes of certificates that were verified, each over the one before.
pub data Vouched (p : Platform) (start : Bytes) : Bytes → Type 0 where
  untouched : Vouched p start start
  written :
      (buffer cert : Bytes) (len : ℕ)
      → p.verify_certificate cert none ≡ ok tt
      → certificate_length p (some cert) ≡ ok len
      → Vouched p start buffer
      → Vouched p start (write_at buffer 0 (take len cert))

abbrev pub Quiet : Platform → Session → Session → Type 0
Quiet p before s =
    Vouched p before.client_platform_cert s.client_platform_cert
    × (s.response ≢ codes "PASS")
    × (s.table ≡ before.table)

pub text_ne : (a b : Bytes) → equal a b ≡ false → a ≢ b
text_ne a b h e = let same = equal_refl a in cc

module _ (p : Platform) (before : Session) where
  pub respond-Quiet :
      (text : Bytes)
      → equal text (codes "PASS") ≡ false
      → (s : Session) → Quiet p before s
      → Quiet p before (record s { response = text })
  respond-Quiet text h s (v, r, t) = (v, text_ne text _ h, t)

  wrote-Quiet :
      (s : Session) (r : Result ⊤ × Bytes × List Departure)
      → Quiet p before s
      → Quiet p before (wrote s r).1
  wrote-Quiet s (r, sent, es) q = q

  write-Quiet : (buf : Bytes) → Keeps (Quiet p before) (write buf)
  unfolding write
  write-Quiet buf s q = wrote-Quiet s (service_write s.outgoing buf) q

  pub send_nonce_to_client-Quiet :
      (buf : Bytes) → Keeps (Quiet p before) (send_nonce_to_client p buf)
  unfolding send_nonce_to_client
  send_nonce_to_client-Quiet buf s q =
      after-Keeps (Quiet p before) _ (_, s) q (λ n _. write-Quiet (take n buf))

  pub send_message-Quiet :
      (cmd : CommandType) (payload : Option Bytes)
      → Keeps (Quiet p before) (send_message p cmd payload)
  unfolding send_message
  send_message-Quiet cmd payload s q =
      after-Keeps (Quiet p before) _ (_, s) q (λ buf _. send_nonce_to_client-Quiet buf)
