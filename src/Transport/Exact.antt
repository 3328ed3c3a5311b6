-- ===== src/Transport/Exact.antt =====
-- Reads and writes against the stream of bytes: nothing is lost, repeated or reordered.
use security_addon.Base.{
  le→not_ltb, append-injective, length-drop, tests, length-take, length-append, ltb→lt,
  take-append-drop, ℕ, zero, suc, ◌+◌, ◌-◌, ◌≤◌, ◌<◌, ◌≡◌, refl, sym, ap, ◌∙◌, inl, inr, false,
  List, [], ◌∷◌, ◌++◌, append-nil, append_assoc, arith, ltb, ◌==◌, Bytes, Bool-cases, length, take,
  drop,
}
use security_addon.Status.{Result, ok, err, fault, ⊤}
use security_addon.Transport.{
  Arrival, again, failure, received, Departure, retry, refusal, accepted, int_max, read_loop,
  service_read, write_loop, service_write,
}

-- The bytes that the peer has sent and the server has not read.
abbrev pub pending : List Arrival → Bytes
pending [] = []
pending (received bs ∷ es) = bs ++ pending es
pending (_ ∷ es) = pending es

-- The connection holds: no error and no end is among the answers.
abbrev pub Flows : List Arrival → Type 0
Flows [] = Unit
Flows (again ∷ es) = Flows es
Flows (failure ∷ es) = ⊥
Flows (received bs ∷ es) = (0 < length bs) × Flows es

-- What a read of `need` bytes behind `buf` may come back with: on success, the next bytes.
abbrev pub Delivers : Bytes → ℕ → List Arrival → Result Bytes × List Arrival → Type 0
Delivers buf need es (ok bs, es') =
    (bs ++ pending es' ≡ buf ++ pending es) × (length bs ≡ length buf + need)
Delivers buf need es (_, es') = Unit

Delivers-stop : (es : List Arrival) (buf : Bytes) → Delivers buf 0 es (ok buf, es)
Delivers-stop es buf = (refl, omega arith)

-- The first bytes of a chunk are enough.
Delivers-part :
    (bs buf : Bytes) (need : ℕ) (es : List Arrival)
    → need < length bs
    → Delivers buf need (received bs ∷ es) (ok (buf ++ take need bs), received (drop need bs) ∷ es)
Delivers-part bs buf need es h = (
  append_assoc buf (take need bs) (drop need bs ++ pending es)
      ∙ ap (◌++◌ buf) (
          sym (append_assoc (take need bs) (drop need bs) (pending es))
          ∙ ap (λ x. x ++ pending es) (take-append-drop need bs)),
  omega (arith, length-append buf (take need bs), length-take need bs),
)

-- A whole chunk is taken, and more is wanted.
Delivers-chunk :
    (bs buf : Bytes) (need : ℕ) (es : List Arrival) (r : Result Bytes × List Arrival)
    → length bs ≤ need
    → Delivers (buf ++ bs) (need - length bs) es r
    → Delivers buf need (received bs ∷ es) r
Delivers-chunk bs buf need es (ok out, es') h (joined, count) =
    (joined ∙ append_assoc buf bs (pending es), omega (arith, count, length-append buf bs))
Delivers-chunk bs buf need es (err e, es') h d = tt
Delivers-chunk bs buf need es (fault, es') h d = tt

suc-not_zero : (n : ℕ) → (suc n == 0) ≡ false
suc-not_zero n = ground arith

read_loop-Delivers :
    (es : List Arrival) (need : ℕ) (buf : Bytes) → Delivers buf need es (read_loop es need buf)
unfolding read_loop
read_loop-Delivers [] zero buf = Delivers-stop [] buf
read_loop-Delivers [] (suc need) buf = rw (suc-not_zero need) tt
read_loop-Delivers (again ∷ es) zero buf = Delivers-stop (again ∷ es) buf
read_loop-Delivers (again ∷ es) (suc need) buf =
    rw (suc-not_zero need) (read_loop-Delivers es (suc need) buf)
read_loop-Delivers (failure ∷ es) zero buf = Delivers-stop (failure ∷ es) buf
read_loop-Delivers (failure ∷ es) (suc need) buf = rw (suc-not_zero need) tt
read_loop-Delivers (received [] ∷ es) zero buf = Delivers-stop (received [] ∷ es) buf
read_loop-Delivers (received [] ∷ es) (suc need) buf = rw (suc-not_zero need) tt
read_loop-Delivers (received (b ∷ bs) ∷ es) zero buf = Delivers-stop (received (b ∷ bs) ∷ es) buf
read_loop-Delivers (received (b ∷ bs) ∷ es) (suc need) buf =
    rw (suc-not_zero need) (elim (Bool-cases (ltb (suc need) (length (b ∷ bs)))) [
      | inl part ↦ rw part (Delivers-part (b ∷ bs) buf (suc need) es (ltb→lt _ _ part))
      | inr whole ↦ rw whole (
          Delivers-chunk (b ∷ bs) buf (suc need) es _ (ground arith)
            (read_loop-Delivers es (suc need - length (b ∷ bs)) (buf ++ (b ∷ bs))))
    ])

-- Whatever mbedTLS answers, a read that succeeds gives exactly the next `len` bytes of the stream,
-- and leaves the rest for the next read.
pub service_read-Delivers : (es : List Arrival) (len : ℕ) → Delivers [] len es (service_read es len)
unfolding service_read
service_read-Delivers es len = elim (Bool-cases (ltb int_max len)) [
  | inl long ↦ rw long tt
  | inr fits ↦ rw fits (read_loop-Delivers es len [])
]

write_loop-sent :
    (es : List Departure) (bs sent : Bytes)
    → let (r, sent', _) = write_loop es bs sent in
      (unsent : Bytes) × (sent' ++ unsent ≡ sent ++ bs) × (r ≡ ok tt → unsent ≡ [])
unfolding write_loop
write_loop-sent es [] sent = ([], refl, λ _. refl)
write_loop-sent [] (b ∷ bs) sent = (b ∷ bs, refl, λ e. cc)
write_loop-sent (retry ∷ es) (b ∷ bs) sent = write_loop-sent es (b ∷ bs) sent
write_loop-sent (refusal ∷ es) (b ∷ bs) sent = (b ∷ bs, refl, λ e. cc)
write_loop-sent (accepted n ∷ es) (b ∷ bs) sent =
    let (unsent, joined, done) = write_loop-sent es (drop n (b ∷ bs)) (sent ++ take n (b ∷ bs)) in
    (
      unsent,
      joined
          ∙ rw (append_assoc sent (take n (b ∷ bs)) (drop n (b ∷ bs)), take-append-drop n (b ∷ bs)),
      done,
    )

-- What a write may come back with: on success the whole message is on the wire, else a prefix.
abbrev pub Carries : Bytes → Result ⊤ × Bytes × List Departure → Type 0
Carries buf (ok _, sent, _) = sent ≡ buf
Carries buf (_, sent, _) = (unsent : Bytes) × (sent ++ unsent ≡ buf)

Carries-sent :
    (buf unsent : Bytes) (r : Result ⊤ × Bytes × List Departure)
    → r.1 ++ unsent ≡ buf
    → (r.0 ≡ ok tt → unsent ≡ [])
    → Carries buf r
Carries-sent buf unsent (ok _, sent, es) joined done =
    sym (append-nil sent) ∙ ap (◌++◌ sent) (sym (done refl)) ∙ joined
Carries-sent buf unsent (err e, sent, es) joined done = (unsent, joined)
Carries-sent buf unsent (fault, sent, es) joined done = (unsent, joined)

-- Whatever mbedTLS answers, the wire carries a prefix of the message, and all of it on success.
pub service_write-Carries : (es : List Departure) (buf : Bytes) → Carries buf (service_write es buf)
unfolding service_write
service_write-Carries es buf = elim (Bool-cases (ltb int_max (length buf))) [
  | inl long ↦ rw long (buf, refl)
  | inr fits ↦ rw fits (
      let (unsent, joined, done) = write_loop-sent es buf [] in
      Carries-sent buf unsent (write_loop es buf []) joined done)
]

-- On a connection that holds, with the bytes on their way, a read succeeds and leaves it holding.
read_loop-Flows :
    (es : List Arrival) (need : ℕ) (buf : Bytes)
    → Flows es
    → need ≤ length (pending es)
    → (bs : Bytes) × (es' : List Arrival) × (read_loop es need buf ≡ (ok bs, es')) × Flows es'
unfolding read_loop
read_loop-Flows [] zero buf f h = (buf, [], refl, tt)
read_loop-Flows [] (suc need) buf f h = absurd (omega arith)
read_loop-Flows (again ∷ es) zero buf f h = (buf, again ∷ es, refl, f)
read_loop-Flows (again ∷ es) (suc need) buf f h =
    rw (suc-not_zero need) (read_loop-Flows es (suc need) buf f h)
read_loop-Flows (failure ∷ es) need buf f h = absurd f
read_loop-Flows (received [] ∷ es) need buf f h = absurd (omega (arith, f.0))
read_loop-Flows (received (b ∷ bs) ∷ es) zero buf f h = (buf, received (b ∷ bs) ∷ es, refl, f)
read_loop-Flows (received (b ∷ bs) ∷ es) (suc need) buf f h =
    rw (suc-not_zero need) (elim (Bool-cases (ltb (suc need) (length (b ∷ bs)))) [
      | inl part ↦ rw part (
        buf ++ take (suc need) (b ∷ bs),
        received (drop (suc need) (b ∷ bs)) ∷ es,
        refl,
        (omega (tests, length-drop need bs, part), f.1),
      )
      | inr whole ↦ rw whole (
          read_loop-Flows es (suc need - length (b ∷ bs)) (buf ++ (b ∷ bs)) f.1
            (omega (arith, length-append (b ∷ bs) (pending es))))
    ])

-- A read of no more than INT_MAX bytes that are next on their way, over a connection that holds,
-- succeeds with them, and leaves the connection holding and the bytes behind them unread.
pub service_read-Flows :
    (es : List Arrival) (bs rest : Bytes)
    → Flows es
    → length bs ≤ int_max
    → pending es ≡ bs ++ rest
    → (es' : List Arrival) × (service_read es (length bs) ≡ (ok bs, es'))
      × Flows es'
      × (pending es' ≡ rest)
unfolding service_read
service_read-Flows es bs rest f short stream =
    let enough : length bs ≤ length (pending es) =
      omega (arith, ap length stream, length-append bs rest) in
    let (out, es', run, f') = read_loop-Flows es (length bs) [] f enough in
    let (joined, count) = rw run at (read_loop-Delivers es (length bs) []) in
    let (same, left) =
      append-injective out (pending es') bs rest (omega (arith, count)) (joined ∙ stream) in
    (es', rw (le→not_ltb _ _ short) (run ∙ ap (λ x. (ok x, es')) same), f', left)
