-- ===== src/Transport.antt =====
-- ovsa_license_service_read, _write and _close of
-- License_service/src/app/license_service_server.c, on what mbedTLS returns call after call. Where
-- the list of answers ends, the peer says no more, and mbedTLS reports a timeout.
pub mod Exact
pub mod Tests
use security_addon.Base.{
  ℕ, zero, suc, ◌+◌, ◌-◌, ◌*◌, ◌/◌, ◌%◌, ◌^◌, ◌≤◌, ◌<◌, min, ◌≡◌, refl, sym, ap, ◌∙◌, ◌≢◌, ◌⊎◌, inl,
  inr, Bool, true, false, not, ◌&&◌, ◌||◌, Option, none, some, List, [], ◌∷◌, ◌++◌, append-nil,
  append_assoc, arith, ltb, leb, ◌==◌, if◌then◌else◌, Bytes, Bool-cases, Option-cases, length, take,
  drop,
}
use security_addon.Status.{Result, ok, err, ⊤, invalid_parameter, einval, econnreset}
use security_addon.Status.{
  mbedtls_ssl_read_failed, mbedtls_ssl_write_failed, mbedtls_ssl_close_failed,
}

-- `mbedtls_ssl_read`: WANT_READ or WANT_WRITE, another error, or bytes; 0 bytes is the peer's end.
-- Bytes that the caller has no room for are left for the next call.
pub data Arrival : Type 0 where
  again failure : Arrival
  received : Bytes → Arrival

-- `mbedtls_ssl_write`: WANT_READ or WANT_WRITE, another error, or a number of bytes taken.
pub data Departure : Type 0 where
  retry refusal : Departure
  accepted : ℕ → Departure

-- `mbedtls_ssl_close_notify`
pub data Notice : Type 0 where
  wait unsent notified : Notice

-- INT_MAX
abbrev pub int_max : ℕ
int_max = 2 ^ 31 - 1

-- `read < len` with `need` bytes missing.
unfoldable pub read_loop : List Arrival → ℕ → Bytes → Result Bytes × List Arrival
read_loop [] need buf = if need == 0 then (ok buf, []) else (err mbedtls_ssl_read_failed, [])
read_loop (again ∷ es) need buf = if need == 0 then (ok buf, again ∷ es) else read_loop es need buf
read_loop (failure ∷ es) need buf =
    if need == 0 then (ok buf, failure ∷ es) else (err mbedtls_ssl_read_failed, es)
read_loop (received [] ∷ es) need buf =
    if need == 0 then (ok buf, received [] ∷ es) else (err econnreset, es)
read_loop (received (b ∷ bs) ∷ es) need buf =
    let rest = read_loop es (need - length (b ∷ bs)) (buf ++ (b ∷ bs)) in
    if need == 0
    then (ok buf, received (b ∷ bs) ∷ es)
    else if ltb need (length (b ∷ bs))
    then (ok (buf ++ take need (b ∷ bs)), received (drop need (b ∷ bs)) ∷ es)
    else rest

-- `ovsa_license_service_read`
unfoldable pub service_read : List Arrival → ℕ → Result Bytes × List Arrival
unfolding read_loop
service_read es len = if ltb int_max len then (err invalid_parameter, es) else read_loop es len []

-- `written < len` with the bytes `unwritten` left; the bytes on the wire come second.
unfoldable pub write_loop : List Departure → Bytes → Bytes → Result ⊤ × Bytes × List Departure
write_loop es [] sent = (ok tt, sent, es)
write_loop [] (b ∷ bs) sent = (err mbedtls_ssl_write_failed, sent, [])
write_loop (retry ∷ es) (b ∷ bs) sent = write_loop es (b ∷ bs) sent
write_loop (refusal ∷ es) (b ∷ bs) sent = (err mbedtls_ssl_write_failed, sent, es)
write_loop (accepted n ∷ es) (b ∷ bs) sent =
    write_loop es (drop n (b ∷ bs)) (sent ++ take n (b ∷ bs))

-- `ovsa_license_service_write`
unfoldable pub service_write : List Departure → Bytes → Result ⊤ × Bytes × List Departure
unfolding write_loop
service_write es buf =
    if ltb int_max (length buf) then (err einval, [], es) else write_loop es buf []

-- `ovsa_license_service_close`
unfoldable pub service_close : List Notice → Result ⊤ × List Notice
service_close [] = (err mbedtls_ssl_close_failed, [])
service_close (wait ∷ ns) = service_close ns
service_close (unsent ∷ ns) = (err mbedtls_ssl_close_failed, ns)
service_close (notified ∷ ns) = (ok tt, ns)
