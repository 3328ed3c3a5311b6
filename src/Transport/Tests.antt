-- ===== src/Transport/Tests.antt =====
-- The theorems on reads and writes at a stream in pieces.
use security_addon.Base.{◌≡◌, refl, List, [], ◌∷◌, arith, length}
use security_addon.Base.{codes}
use security_addon.Status.{ok}
use security_addon.Transport.{
  Arrival, again, received, Departure, retry, accepted, service_read, service_write,
}
use security_addon.Transport.Exact.{
  pending, Flows, Delivers, service_read-Delivers, service_read-Flows, Carries,
  service_write-Carries,
}

abbrev stream : List Arrival
stream = received (codes "ab") ∷ again ∷ received (codes "cde") ∷ []

service_read-Delivers_example : Delivers [] 4 stream (service_read stream 4)
service_read-Delivers_example = service_read-Delivers stream 4

service_read-Flows_example :
    (es' : List Arrival) × (service_read stream (length (codes "abcd")) ≡ (ok (codes "abcd"), es'))
    × Flows es'
    × (pending es' ≡ codes "e")
service_read-Flows_example =
    service_read-Flows stream (codes "abcd") (codes "e") (omega arith, (omega arith, tt))
      (omega arith) refl

abbrev answers : List Departure
answers = accepted 1 ∷ retry ∷ accepted 5 ∷ []

service_write-Carries_example : Carries (codes "abc") (service_write answers (codes "abc"))
service_write-Carries_example = service_write-Carries answers (codes "abc")
