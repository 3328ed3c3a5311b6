-- ===== src/Protocol/Callback/Ends.antt =====
-- Runs that end in a success of which something holds, or deny the client.
use security_addon.Base.{◌≡◌, refl, ◌≢◌, false, Bytes}
use security_addon.Status.{Result, ok, err, fault}
use security_addon.Base.{codes, equal}
use security_addon.Protocol.{Session, after, settle_error, respond}
use security_addon.Protocol.Vouched.{text_ne}

-- The response is not "PASS".
abbrev pub Denied : Session → Type 0
Denied s = s.response ≢ codes "PASS"

-- A run that succeeds ends in `G`, and any other denies.
abbrev pub Ends : {A : Type 0} → (A → Session → Type 0) → Result A × Session → Type 0
Ends G (ok a, s) = G a s
Ends G (_, s) = Denied s

module _ {A : Type 0} (G : A → Session → Type 0) where
  pub lift-Ends :
      (r : Result A) (s : Session) → Denied s → ((a : A) → r ≡ ok a → G a s) → Ends G (r, s)
  lift-Ends (ok a) s d g = g a refl
  lift-Ends (err e) s d g = d
  lift-Ends fault s d g = d

  pub answered-Ends :
      (text : Bytes) (r : Result A × Session)
      → equal text (codes "PASS") ≡ false
      → Ends G r
      → Ends G (settle_error (respond text) r)
  answered-Ends text (ok a, s) t g = g
  answered-Ends text (err e, s) t d = text_ne text _ t
  answered-Ends text (fault, s) t d = d

  pub after-Ends :
      {B : Type 0} (H : B → Session → Type 0) (f : B → Session → Result A × Session)
      (r : Result B × Session)
      → Ends H r
      → ((b : B) (s : Session) → H b s → Ends G (f b s))
      → Ends G (after f r)
  after-Ends H f (ok b, s) h k = k b s h
  after-Ends H f (err e, s) d k = d
  after-Ends H f (fault, s) d k = d

  pub weaken-Ends :
      (H : A → Session → Type 0)
      → ((a : A) (s : Session) → G a s → H a s)
      → (r : Result A × Session) → Ends G r
      → Ends H r
  weaken-Ends H k (ok a, s) g = k a s g
  weaken-Ends H k (err e, s) d = d
  weaken-Ends H k (fault, s) d = d

  pub Ends-pass :
      (r : Result A × Session) → Ends G r → r.1.response ≡ codes "PASS" → (a : A) × G a r.1
  Ends-pass (ok a, s) g pass = (a, g)
  Ends-pass (err e, s) d pass = absurd (d pass)
  Ends-pass (fault, s) d pass = absurd (d pass)
