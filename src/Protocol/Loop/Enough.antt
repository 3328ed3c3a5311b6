-- ===== src/Protocol/Loop/Enough.antt =====
-- The loops end: every message that is read takes eight bytes of the stream at least, so as many
-- rounds as there are bytes, and one more, are enough.
use security_addon.Base.{
  ℕ, zero, suc, ◌<◌, ◌≡◌, refl, Bool, true, false, Option, List, arith, Bytes, length,
}
use security_addon.Status.{Result, ok, err, fault}
use security_addon.Transport.{Arrival}
use security_addon.Transport.Exact.{pending}
use security_addon.Protocol.{Platform, Session, Action}
use security_addon.Protocol.Json.{CommandType, read_payload}
use security_addon.Protocol.Json.Frames.{read_payload-consumes}
use security_addon.Protocol.Loop.{on_message, go_on, go_round, message_loop}

module _ {L : Type 0} (p : Platform) (unread : Session → Session)
    (handle : Bytes → CommandType → L → Action (Bool × L)) where
  go_on-agree :
      (f g : List Arrival → L → Session → Result L × Session × List Arrival) (es : List Arrival)
      → ((l : L) (s : Session) → f es l s ≡ g es l s)
      → (r : Result (Bool × L) × Session)
      → go_on p unread handle f es r ≡ go_on p unread handle g es r
  unfolding go_on
  go_on-agree f g es h (ok (true, l), s) = refl
  go_on-agree f g es h (ok (false, l), s) = h l s
  go_on-agree f g es h (err e, s) = refl
  go_on-agree f g es h (fault, s) = refl

  go_round-agree :
      (f g : List Arrival → L → Session → Result L × Session × List Arrival)
      (r : Result (Bytes × Option Bytes) × List Arrival)
      → ((m : Bytes × Option Bytes) (l : L) (s : Session) → r.0 ≡ ok m → f r.1 l s ≡ g r.1 l s)
      → (l : L) (s : Session) → go_round p unread handle f r l s ≡ go_round p unread handle g r l s
  unfolding go_round
  go_round-agree f g (ok m, es) h l s =
      go_on-agree f g es (λ l s. h m l s refl) (on_message p unread handle m l s)
  go_round-agree f g (err e, es) h l s = refl
  go_round-agree f g (fault, es) h l s = refl

  -- With more rounds than there are bytes to read, the outcome of a loop does not depend on how many:
  -- the loop ends, whatever its cases do.
  pub message_loop-enough :
      (fuel fuel' : ℕ) (es : List Arrival) (l : L) (s : Session)
      → length (pending es) < fuel
      → length (pending es) < fuel'
      → message_loop p unread handle fuel es l s ≡ message_loop p unread handle fuel' es l s
  unfolding message_loop
  message_loop-enough zero fuel' es l s h h' = absurd (omega arith)
  message_loop-enough (suc fuel) zero es l s h h' = absurd (omega arith)
  message_loop-enough (suc fuel) (suc fuel') es l s h h' =
      go_round-agree (message_loop p unread handle fuel) (message_loop p unread handle fuel')
        (read_payload p es)
        (λ m l s read.
          let less = read_payload-consumes p es m read in
          message_loop-enough fuel fuel' (read_payload p es).1 l s (omega (arith, less))
            (omega (arith, less)))
        l s
