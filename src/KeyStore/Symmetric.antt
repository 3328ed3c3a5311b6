-- ===== src/KeyStore/Symmetric.antt =====
-- The symmetric keys of libovsa: symmetric.c, `ovsa_crypto_RNG`,
-- `ovsa_crypto_add_symmetric_keystore_array` and `ovsa_crypto_generate_symmetric_key`, and utils.c,
-- `ovsa_crypto_clear_symmetric_key_slot`. OpenSSL's random bytes and memory BIO are parameters.
pub mod Slots
pub mod Spec
pub mod Refines
pub mod Digits
pub mod Generate
use security_addon.Base.{
  ℕ, zero, suc, ◌+◌, ◌-◌, ◌*◌, ◌/◌, ◌%◌, ◌^◌, ◌≤◌, ◌<◌, min, ◌≡◌, refl, sym, ap, ◌∙◌, ◌≢◌, ◌⊎◌, inl,
  inr, Bool, true, false, not, ◌&&◌, ◌||◌, Option, none, some, List, [], ◌∷◌, ◌++◌, append-nil,
  append_assoc, arith, ltb, leb, ◌==◌, if◌then◌else◌, Bytes, Bool-cases, Option-cases, length, take,
  drop,
}
use security_addon.Base.{replicate, set}
use security_addon.Base.Int.{ℤ, pos, negsuc}
use security_addon.Memory.{strnlen_s, write_at, zeros}
use security_addon.KeyStore.{one_more, found_slot, Mutex, max_key_slot, unlocked}
use security_addon.Status.{
  Result, fault, ok, err, guard, ◌>>=◌, ◌>>◌, invalid_parameter, crypto_bio_error,
  crypto_generic_error, memio_error, mutex_lock_fail,
}

-- MAX_EKEY_SIZE and MAX_SYM_KEY_SIZE
abbrev pub max_ekey_size : ℕ
max_ekey_size = 256

abbrev pub max_sym_key_size : ℕ
max_sym_key_size = 4096

-- What a fresh memory BIO, `RAND_bytes` call after call, the BIO's writes, its flush and its memory
-- answer.
pub record OpenSsl : Type 0 where
  pub bio_new : Bool
  pub rand_bytes : ℕ → ℕ → Option Bytes
  pub bio_printf : ℕ → Bool
  pub bio_flush : Bool
  pub bio_get_mem_ptr : Bool

-- `%02x`
abbrev pub hex_digit : ℕ → ℕ
hex_digit d = if ltb d 10 then b'0' + d else b'a' + (d - 10)

unfoldable pub hex_text : Bytes → Bytes
hex_text [] = []
hex_text (byte ∷ bytes) = hex_digit (byte / 16) ∷ hex_digit (byte % 16) ∷ hex_text bytes

abbrev pub or_error : Option Bytes → Result Bytes
or_error none = err crypto_generic_error
or_error (some bytes) = ok bytes

-- `while (key_size > 0)`: the digits of the chunks left, behind those in `sym_key_mem`. The fuel
-- bounds the chunks.
unfoldable pub rng_loop : OpenSsl → ℕ → ℕ → ℕ → Bytes → Result Bytes
unfolding hex_text
rng_loop o zero key_size call sym_key_mem = ok sym_key_mem
rng_loop o (suc fuel) key_size call sym_key_mem =
    let chunk = min key_size max_sym_key_size in
    let next = or_error (o.rand_bytes call chunk) >>= λ buff.
    guard (o.bio_printf call) crypto_generic_error
    >> rng_loop o fuel (key_size - chunk) (suc call) (sym_key_mem ++ hex_text buff) in
    if ltb 0 key_size then next else ok sym_key_mem

-- `ovsa_crypto_RNG` into a buffer. A negative size passes the test for zero, and writes the line's
-- end alone.
unfoldable pub crypto_rng : OpenSsl → ℤ → Bytes → Result Bytes
unfolding rng_loop
crypto_rng o (negsuc n) symmetric_key = do
  guard o.bio_new crypto_bio_error
  guard o.bio_flush crypto_bio_error
  guard o.bio_get_mem_ptr crypto_bio_error
  ok (write_at symmetric_key 0 (b'\n' ∷ []))
crypto_rng o (pos key_size) symmetric_key = do
  guard (not (key_size == 0)) invalid_parameter
  guard o.bio_new crypto_bio_error
  digits ← rng_loop o key_size key_size 0 []
  guard o.bio_flush crypto_bio_error
  guard o.bio_get_mem_ptr crypto_bio_error
  let text = digits ++ b'\n' ∷ []
  guard (leb (length text) max_ekey_size) memio_error
  ok (write_at symmetric_key 0 text)

-- `for (symmetric_index = 0; ...)`: the slots after it, and the index at which it stopped, where it
-- did not run through.
unfoldable pub put_key : List Bytes → Bytes → List Bytes × Option ℕ
put_key [] key = ([], none)
put_key (slot ∷ slots) key =
    let rest = put_key slots key in
    if strnlen_s slot max_ekey_size == 0
    then (write_at slot 0 key ∷ slots, some 0)
    else (slot ∷ rest.0, one_more rest.1)

-- `ovsa_crypto_add_symmetric_keystore_array`
unfoldable pub add_symmetric_key : Mutex → List Bytes → Option Bytes → List Bytes × Result ℕ
unfolding put_key
add_symmetric_key mutex g_sym_key none = (g_sym_key, err invalid_parameter)
add_symmetric_key mutex g_sym_key (some symmetric_key) =
    let symmetric_key_len = strnlen_s symmetric_key max_ekey_size in
    let put = put_key g_sym_key (take symmetric_key_len symmetric_key) in
    if not mutex.locks
    then (g_sym_key, err mutex_lock_fail)
    else if symmetric_key_len == 0
    then (g_sym_key, unlocked mutex (err crypto_generic_error))
    else (put.0, unlocked mutex (found_slot put.1))

-- `ovsa_crypto_generate_symmetric_key`, from what the random key's text is.
abbrev pub add_generated : Mutex → List Bytes → Result Bytes → List Bytes × Result ℕ
add_generated mutex g_sym_key fault = (g_sym_key, fault)
add_generated mutex g_sym_key (err ret) = (g_sym_key, err ret)
add_generated mutex g_sym_key (ok symmetric_key) =
    add_symmetric_key mutex g_sym_key (some symmetric_key)

unfoldable pub generate_symmetric_key : OpenSsl → Mutex → List Bytes → ℤ → List Bytes × Result ℕ
unfolding crypto_rng add_symmetric_key
generate_symmetric_key o mutex g_sym_key key_size =
    add_generated mutex g_sym_key (crypto_rng o key_size (zeros max_ekey_size))

-- `ovsa_crypto_clear_symmetric_key_slot`
unfoldable pub clear_symmetric_key_slot : Mutex → List Bytes → ℤ → List Bytes
clear_symmetric_key_slot mutex g_sym_key (negsuc _) = g_sym_key
clear_symmetric_key_slot mutex g_sym_key (pos sym_key_slot) =
    if mutex.locks && ltb sym_key_slot max_key_slot
    then set g_sym_key sym_key_slot (zeros max_ekey_size)
    else g_sym_key
