-- ===== src/Protocol/Keeps.antt =====
-- Invariants of a session through chains of steps.
use security_addon.Base.{◌≡◌, refl, Bytes}
use security_addon.Status.{Result, ok, err, fault}
use security_addon.Protocol.{Session, Action, after, lift, respond, or_respond, settle_error, ◌>>=◌}

module _ {ℓ} (P : Session → Type ℓ) where
  -- A step that keeps P, however it ends.
  abbrev pub Keeps : {A : Type 0} → Action A → Type ℓ
  Keeps m = (s : Session) → P s → P (m s).1

  module _ {A B : Type 0} where
    pub after-Keeps :
        (f : A → Action B) (r : Result A × Session)
        → P r.1
        → ((a : A) → r.0 ≡ ok a → Keeps (f a))
        → P (after f r).1
    after-Keeps f (ok a, s) ps kf = kf a refl s ps
    after-Keeps f (err e, s) ps kf = ps
    after-Keeps f (fault, s) ps kf = ps

    pub bind-Keeps :
        (m : Action A) (f : A → Action B) → Keeps m → ((a : A) → Keeps (f a)) → Keeps (m >>= f)
    bind-Keeps m f km kf s ps = after-Keeps f (m s) (km s ps) (λ a _. kf a)

    pub bind_lift-Keeps :
        (r : Result A) (f : A → Action B)
        → ((a : A) → r ≡ ok a → Keeps (f a))
        → Keeps (lift r >>= f)
    bind_lift-Keeps r f kf s ps = after-Keeps f (r, s) ps kf

  settle_error-Keeps :
      {A : Type 0} (f : Session → Session) (r : Result A × Session)
      → ((s : Session) → P s → P (f s))
      → P r.1
      → P (settle_error f r).1
  settle_error-Keeps f (ok a, s) kf ps = ps
  settle_error-Keeps f (err e, s) kf ps = kf s ps
  settle_error-Keeps f (fault, s) kf ps = ps

  pub or_respond-Keeps :
      {A : Type 0} (m : Action A) (text : Bytes)
      → ((s : Session) → P s → P (respond text s))
      → Keeps m
      → Keeps (or_respond m text)
  or_respond-Keeps m text kf km s ps = settle_error-Keeps (respond text) (m s) kf (km s ps)
