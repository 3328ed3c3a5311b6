-- ===== src/KeyStore/Certificates.antt =====
-- The certificates of the key slots and the clearing of a pair: asymmetric.c,
-- `ovsa_crypto_add_cert_keystore_array`, `ovsa_crypto_get_certificate` and
-- `ovsa_crypto_store_certificate_keystore`, and utils.c, `ovsa_crypto_clear_asymmetric_key_slot`. The
-- checks of a certificate and the writing of the keystore's file are parameters, in `Checks`.
pub mod Laws
use security_addon.KeyStore.Compare.{nonempty_length}
use security_addon.Base.{
  ℕ, zero, suc, ◌+◌, ◌-◌, ◌*◌, ◌/◌, ◌%◌, ◌^◌, ◌≤◌, ◌<◌, min, ◌≡◌, refl, sym, ap, ◌∙◌, ◌≢◌, ◌⊎◌, inl,
  inr, Bool, true, false, not, ◌&&◌, ◌||◌, Option, none, some, List, [], ◌∷◌, ◌++◌, append-nil,
  append_assoc, arith, ltb, leb, ◌==◌, if◌then◌else◌, Bytes, Bool-cases, Option-cases, length, take,
  drop,
}
use security_addon.Base.{set, get_elem?}
use security_addon.Base.Int.{ℤ, pos, negsuc}
use security_addon.Status.{
  ◌>>◌, ◌>>=◌, Result, fault, ok, err, ⊤, invalid_parameter, invalid_file_path,
  crypto_generic_error, memory_alloc_fail, mutex_lock_fail, mutex_unlock_fail,
}
use security_addon.Strings.{get_string_length}
use security_addon.KeyStore.{Mutex, max_key_slot}
use security_addon.KeyStore.Asymmetric.{IsvKeystore, cleared}

-- `ovsa_crypto_verify_certificate`, `ovsa_crypto_compare_certkey_and_keystore`, and the keystore's
-- text, its encryption and its file.
pub record Checks : Type 0 where
  pub verify_certificate : ℕ → Bytes → Result ⊤
  pub compare_certkey : List IsvKeystore → ℕ → Bytes → Result ⊤
  pub write_keystore : List IsvKeystore → ℕ → Result ⊤

abbrev pub in_slots : ℤ → Bool
in_slots (negsuc _) = false
in_slots (pos n) = ltb n max_key_slot

abbrev pub with_certificate : List IsvKeystore → ℕ → Option Bytes → List IsvKeystore
with_certificate [] n certificate = []
with_certificate (slot ∷ slots) zero certificate =
    record slot { isv_certificate = certificate } ∷ slots
with_certificate (slot ∷ slots) (suc n) certificate = slot ∷ with_certificate slots n certificate

abbrev pub certificate_at : List IsvKeystore → ℕ → Option Bytes
certificate_at [] n = none
certificate_at (slot ∷ slots) zero = slot.isv_certificate
certificate_at (slot ∷ slots) (suc n) = certificate_at slots n

module _ (rsize_max_str : ℕ) (allocates : ℕ → Bool) where
  -- The certificate's copy, once its length is known. An empty certificate is left with OVSA_OK.
  abbrev pub add_sized : List IsvKeystore → ℕ → Bytes → Result ℕ → List IsvKeystore × Result ⊤
  add_sized g_key_store n cert fault = (g_key_store, fault)
  add_sized g_key_store n cert (err ret) = (g_key_store, err ret)
  add_sized g_key_store n cert (ok cert_len) =
      if cert_len == 0
      then (g_key_store, ok tt)
      else if allocates (cert_len + 1)
      then (with_certificate g_key_store n (some (take cert_len cert ++ 0 ∷ [])), ok tt)
      else (with_certificate g_key_store n none, err memory_alloc_fail)

  -- `ovsa_crypto_add_cert_keystore_array`
  unfoldable pub add_cert_keystore_array :
      List IsvKeystore → ℤ → Option Bytes → List IsvKeystore × Result ⊤
  add_cert_keystore_array g_key_store (negsuc _) cert = (g_key_store, err invalid_parameter)
  add_cert_keystore_array g_key_store (pos n) none = (g_key_store, err invalid_parameter)
  add_cert_keystore_array g_key_store (pos n) (some cert) =
      if ltb n max_key_slot
      then add_sized g_key_store n cert (get_string_length rsize_max_str (some cert))
      else (g_key_store, err invalid_parameter)

  abbrev pub copy_sized : Bytes → Result ℕ → Result Bytes
  copy_sized cert fault = fault
  copy_sized cert (err _) = err crypto_generic_error
  copy_sized cert (ok cert_buff_len) =
      if cert_buff_len == 0
      then err crypto_generic_error
      else if allocates (cert_buff_len + 1)
      then ok (take cert_buff_len cert ++ 0 ∷ [])
      else err memory_alloc_fail

  abbrev pub copy_certificate : Option Bytes → Result Bytes
  copy_certificate none = err crypto_generic_error
  copy_certificate (some cert) = copy_sized cert (get_string_length rsize_max_str (some cert))

  -- `ovsa_crypto_get_certificate`
  unfoldable pub get_certificate : List IsvKeystore → ℤ → Result Bytes
  get_certificate g_key_store (negsuc _) = err invalid_parameter
  get_certificate g_key_store (pos n) =
      if ltb n max_key_slot
      then copy_certificate (certificate_at g_key_store n)
      else err invalid_parameter

  -- What `ovsa_crypto_store_certificate_keystore` leaves: the slots, whether their lock is still
  -- held, and what is returned.
  abbrev pub Stored : Type 0
  Stored = List IsvKeystore × Bool × Result ⊤

  -- `exit:`, and the unlocking before the keystore is written.
  abbrev pub release : Checks → Mutex → ℕ → List IsvKeystore × Result ⊤ → Stored
  release c mutex n (g_key_store, ret) =
      if mutex.unlocks
      then (g_key_store, false, ret >>= λ _. c.write_keystore g_key_store n)
      else (g_key_store, true, err mutex_unlock_fail)

  abbrev pub store_in : Checks → Mutex → List IsvKeystore → ℕ → ℕ → Bytes → Stored
  store_in c mutex g_key_store n store_key_slot cert =
      release c mutex n (add_cert_keystore_array g_key_store (pos store_key_slot) (some cert))

  -- The two comparisons. Where the second fails, too, the function ends without unlocking.
  abbrev pub second_key : Checks → Mutex → List IsvKeystore → ℕ → Bytes → Result ⊤ → Stored
  second_key c mutex g_key_store n cert fault = (g_key_store, true, fault)
  second_key c mutex g_key_store n cert (err ret) = (g_key_store, true, err ret)
  second_key c mutex g_key_store n cert (ok _) = store_in c mutex g_key_store n (suc n) cert

  abbrev pub first_key : Checks → Mutex → List IsvKeystore → ℕ → Bytes → Result ⊤ → Stored
  first_key c mutex g_key_store n cert fault = (g_key_store, true, fault)
  first_key c mutex g_key_store n cert (err _) =
      second_key c mutex g_key_store n cert (c.compare_certkey g_key_store (suc n) cert)
  first_key c mutex g_key_store n cert (ok _) = store_in c mutex g_key_store n n cert

  -- The checks before the lock is taken.
  abbrev pub checked : Checks → ℕ → Bytes → Result ⊤
  checked c n cert =
      c.verify_certificate n cert
      >> (nonempty_length (get_string_length rsize_max_str (some cert)) >>= λ _. ok tt)

  abbrev pub lock_and_store : Checks → Mutex → List IsvKeystore → ℕ → Bytes → Result ⊤ → Stored
  lock_and_store c mutex g_key_store n cert fault = (g_key_store, false, fault)
  lock_and_store c mutex g_key_store n cert (err ret) = (g_key_store, false, err ret)
  lock_and_store c mutex g_key_store n cert (ok _) =
      if mutex.locks
      then first_key c mutex g_key_store n cert (c.compare_certkey g_key_store n cert)
      else (g_key_store, false, err mutex_lock_fail)

  -- `ovsa_crypto_store_certificate_keystore`
  unfoldable pub store_certificate_keystore :
      Checks → Mutex → List IsvKeystore → ℤ → Option Bytes → Stored
  unfolding add_cert_keystore_array
  store_certificate_keystore c mutex g_key_store (negsuc _) cert =
      (g_key_store, false, err invalid_parameter)
  store_certificate_keystore c mutex g_key_store (pos n) none =
      (g_key_store, false, err invalid_parameter)
  store_certificate_keystore c mutex g_key_store (pos n) (some cert) =
      if ltb n max_key_slot
      then lock_and_store c mutex g_key_store n cert (checked c n cert)
      else (g_key_store, false, err invalid_parameter)

-- `ovsa_crypto_clear_asymmetric_key_slot`: the slot and the one behind it, whatever that holds.
unfoldable pub clear_asymmetric_key_slot : Mutex → List IsvKeystore → ℤ → List IsvKeystore
clear_asymmetric_key_slot mutex g_key_store (negsuc _) = g_key_store
clear_asymmetric_key_slot mutex g_key_store (pos n) =
    if mutex.locks && ltb n (max_key_slot - 1)
    then set (set g_key_store n cleared) (suc n) cleared
    else g_key_store
