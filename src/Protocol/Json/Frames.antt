-- ===== src/Protocol/Json/Frames.antt =====
-- Frames on the wire: what the reader takes off the stream, and that it reads what a sender framed.
use security_addon.Decimal.Laws.{atoi-print_padded, length-print_padded}
use security_addon.Strings.Frame.{frame}
use security_addon.Base.{
  codes, length-append, ℕ, ◌+◌, ◌^◌, ◌≤◌, ◌<◌, ◌≡◌, refl, ap, ◌∙◌, inl, inr, true, Option, some,
  List, [], ◌++◌, append_assoc, arith, Bytes, Bool-cases, length,
}
use security_addon.Base.Int.{ℤ, pos, negsuc}
use security_addon.Status.{Result, ok, err, fault}
use security_addon.Strings.{payload_length}
use security_addon.Decimal.{print_padded, atoi}
use security_addon.Transport.{Arrival, service_read}
use security_addon.Transport.Exact.{
  service_read-Flows, Flows, pending, Delivers, service_read-Delivers,
}
use security_addon.Protocol.{Platform}
use security_addon.Protocol.Json.{
  json_extract_element, read_blob, read_sized, read_behind, read_payload,
}

-- A result that has taken `k` of the `n` bytes at least, where it is one.
abbrev Takes : {A : Type 0} → ℕ → ℕ → Result A × List Arrival → Type 0
Takes k n (ok _, es) = length (pending es) + k ≤ n
Takes k n (_, es) = Unit

Delivers-Takes :
    (es : List Arrival) (len : ℕ) (r : Result Bytes × List Arrival)
    → Delivers [] len es r
    → Takes len (length (pending es)) r
Delivers-Takes es len (ok bs, es') (joined, count) =
    omega (arith, count, ap length joined, length-append bs (pending es'))
Delivers-Takes es len (err e, es') d = tt
Delivers-Takes es len (fault, es') d = tt

read_blob-Takes :
    (p : Platform) (k n : ℕ) (r : Result Bytes × List Arrival)
    → Takes k n r
    → (m : Bytes × Option Bytes) → (read_blob p r).0 ≡ ok m
    → length (pending (read_blob p r).1) ≤ n
unfolding read_blob
read_blob-Takes p k n (ok bs, es) h m e = omega (arith, h)
read_blob-Takes p k n (err x, es) h m e = absurd (cc)
read_blob-Takes p k n (fault, es) h m e = absurd (cc)

read_sized-Takes :
    (p : Platform) (size : ℤ) (es : List Arrival) (m : Bytes × Option Bytes)
    → (read_sized p size es).0 ≡ ok m
    → length (pending (read_sized p size es).1) ≤ length (pending es)
unfolding read_sized
read_sized-Takes p (negsuc k) es m e = absurd (cc)
read_sized-Takes p (pos size) es m e = elim (Bool-cases (p.allocates (size + 1))) [
  | inl has ↦ rw has (
      read_blob-Takes p size (length (pending es)) (service_read es size)
        (Delivers-Takes es size (service_read es size) (service_read-Delivers es size)) m
        (rw has at e))
  | inr not_has ↦ absurd (let e' = rw not_has at e in cc)
]

read_behind-Takes :
    (p : Platform) (k n : ℕ) (r : Result Bytes × List Arrival)
    → Takes k n r
    → (m : Bytes × Option Bytes) → (read_behind p r).0 ≡ ok m
    → length (pending (read_behind p r).1) + k ≤ n
unfolding read_behind
read_behind-Takes p k n (ok text, es) h m e =
    omega (arith, h, read_sized-Takes p (atoi text) es m e)
read_behind-Takes p k n (err x, es) h m e = absurd (cc)
read_behind-Takes p k n (fault, es) h m e = absurd (cc)

-- A message that is read takes at least its length prefix off the stream.
pub read_payload-consumes :
    (p : Platform) (es : List Arrival) (m : Bytes × Option Bytes)
    → (read_payload p es).0 ≡ ok m
    → length (pending (read_payload p es).1) + payload_length ≤ length (pending es)
unfolding read_payload
read_payload-consumes p es =
    read_behind-Takes p payload_length (length (pending es)) (service_read es payload_length)
      (Delivers-Takes es payload_length _ (service_read-Delivers es payload_length))

-- On a connection that holds, a message that was framed as the senders do is read back whole, with
-- its command, whatever the chunks that it arrives in, and the bytes behind it stay unread; the
-- message is below 10 ^ 8 bytes, its block can be allocated, and its JSON can be read.
pub read_payload-frame :
    (p : Platform) (es : List Arrival) (text rest : Bytes) (command : Option Bytes)
    → Flows es
    → pending es ≡ frame text ++ rest
    → length text < 10 ^ 8
    → p.allocates (length text + 1) ≡ true
    → json_extract_element p (some text) (codes "command") ≡ ok command
    → (es' : List Arrival) × (read_payload p es ≡ (ok (text, command), es'))
      × Flows es'
      × (pending es' ≡ rest)
unfolding read_payload read_behind read_sized read_blob
read_payload-frame p es text rest command f stream small has parsed =
    let header : Bytes = print_padded (length text) in
    let count : length header ≡ payload_length = length-print_padded (length text) small in
    let (es1, run1, f1, left1) =
      service_read-Flows es header (text ++ rest) f (omega (arith, count))
        (stream ∙ append_assoc header text rest) in
    let (es2, run2, f2, left2) = service_read-Flows es1 text rest f1 (omega arith) left1 in
    (
      es2,
      rw (rw count at run1)
          (rw (atoi-print_padded (length text) (omega arith)) (rw has (rw run2 (rw parsed refl)))),
      f2,
      left2,
    )
