-- ===== src/KeyStore/Asymmetric.antt =====
-- The key pairs and certificates of libovsa: asymmetric.c and, for clearing a slot, utils.c. A
-- file's keystores, the checks of a certificate, the allocator, `strcmp_s` and RSIZE_MAX_STR are
-- parameters. The lock of the slots is taken by the functions that take it in the source; what it
-- guards is passed on as state.
pub mod Lowest
pub mod Found
pub mod Tests
use security_addon.Base.{
  ℕ, zero, suc, ◌+◌, ◌-◌, ◌*◌, ◌/◌, ◌%◌, ◌^◌, ◌≤◌, ◌<◌, min, ◌≡◌, refl, sym, ap, ◌∙◌, ◌≢◌, ◌⊎◌, inl,
  inr, Bool, true, false, not, ◌&&◌, ◌||◌, Option, none, some, List, [], ◌∷◌, ◌++◌, append-nil,
  append_assoc, arith, ltb, leb, ◌==◌, if◌then◌else◌, Bytes, Bool-cases, Option-cases, length, take,
  drop,
}
use security_addon.Base.{replicate, set, get_elem?}
use security_addon.Base.Int.{ℤ, pos, negsuc, sub_ℕ}
use security_addon.Memory.{c_string, zeros}
use security_addon.Status.{
  or_status, Result, fault, ok, err, ⊤, guard, ◌>>=◌, ◌>>◌, invalid_parameter, invalid_file_path,
  crypto_generic_error, memory_alloc_fail, mutex_lock_fail, mutex_unlock_fail,
}
use security_addon.Strings.{get_string_length}
use security_addon.KeyStore.{Mutex, max_key_slot, unlocked, one_more, found_slot}
use security_addon.KeyStore.Compare.{compare_strings}

-- ovsa_isv_keystore_t
pub record IsvKeystore : Type 0 where
  pub isv_name : Bytes
  pub public_key : Bytes
  pub private_key : Bytes
  pub key_guid : Bytes
  pub isv_certificate : Option Bytes

-- MAX_NAME_SIZE, MAX_KEY_SIZE and sizeof(GUID)
abbrev pub max_name_size : ℕ
max_name_size = 256

abbrev pub max_key_size : ℕ
max_key_size = 512

abbrev pub sizeof_guid : ℕ
sizeof_guid = 37

-- A slot that `memset_s` has cleared.
abbrev pub cleared : IsvKeystore
cleared = record {
  isv_name = zeros max_name_size;
  public_key = zeros max_key_size;
  private_key = zeros max_key_size;
  key_guid = zeros sizeof_guid;
  isv_certificate = none;
}

-- `empty_string`, for each text.
abbrev pub empty_texts : IsvKeystore
empty_texts = record {
  isv_name = 0 ∷ [];
  public_key = 0 ∷ [];
  private_key = 0 ∷ [];
  key_guid = 0 ∷ [];
  isv_certificate = none;
}

abbrev pub holds : Result Bool → Bool
holds fault = false
holds (err _) = false
holds (ok b) = b

-- One round: an error ends the function, a blank slot without certificate takes the keystore.
abbrev pub put_at :
    Result Bool
    → Bool
    → IsvKeystore
    → List IsvKeystore
    → IsvKeystore
    → List IsvKeystore × Result (Option ℕ)
    → List IsvKeystore × Result (Option ℕ)
put_at fault blank slot slots isv_keystore rest = (slot ∷ slots, fault)
put_at (err ret) blank slot slots isv_keystore rest = (slot ∷ slots, err ret)
put_at (ok free) blank slot slots isv_keystore rest =
    if blank && free
    then (isv_keystore ∷ slots, ok (some 0))
    else (slot ∷ rest.0, rest.1 >>= λ index. ok (one_more index))

module _ (rsize_max_str : ℕ) (strcmp_s : Bytes → ℕ → Bytes → Bool) where
  -- The four comparisons of a slot's texts with another keystore's.
  abbrev pub same_texts : IsvKeystore → IsvKeystore → Bool
  same_texts slot k =
      strcmp_s slot.isv_name max_name_size k.isv_name
      && strcmp_s slot.public_key max_key_size k.public_key
      && strcmp_s slot.private_key max_key_size k.private_key
      && strcmp_s slot.key_guid sizeof_guid k.key_guid

  -- The length of a slot's certificate, and the length kept from before where it has none.
  abbrev pub cert_length : Option Bytes → ℕ → Result ℕ
  cert_length none before = ok before
  cert_length (some certificate) before = get_string_length rsize_max_str (some certificate)

  -- Whether `cert_indicator` is 0 at a slot: it becomes so where the slot has no certificate, and
  -- stays so for the slots behind.
  abbrev pub cert_free : Option Bytes → Bool → Result Bool
  cert_free none cert_indicator = ok true
  cert_free (some certificate) cert_indicator =
      get_string_length rsize_max_str (some certificate) >>= λ keystore_cert_len.
      ok (keystore_cert_len == 0 || cert_indicator)

  -- `for (asymmetric_index = 0; ...)` of the addition.
  unfoldable pub put_keystore :
      List IsvKeystore → IsvKeystore → Bool → List IsvKeystore × Result (Option ℕ)
  put_keystore [] isv_keystore cert_indicator = ([], ok none)
  put_keystore (slot ∷ slots) isv_keystore cert_indicator =
      let checked = cert_free slot.isv_certificate cert_indicator in
      let rest = put_keystore slots isv_keystore (holds checked) in
      put_at checked (same_texts slot empty_texts) slot slots isv_keystore rest

  -- `ovsa_crypto_add_asymmetric_keystore_array`
  unfoldable pub add_asymmetric_keystore_array :
      List IsvKeystore → IsvKeystore → List IsvKeystore × Result ℕ
  unfolding put_keystore
  add_asymmetric_keystore_array g_key_store isv_keystore =
      let put = put_keystore g_key_store isv_keystore false in (put.0, put.1 >>= found_slot)

  -- The pair of a keystore file, and the primary key's slot: the second key's less one.
  abbrev pub then_add :
      Mutex → IsvKeystore → List IsvKeystore × Result ℕ → List IsvKeystore × Result ℤ
  then_add mutex secondary (g_key_store, fault) = (g_key_store, fault)
  then_add mutex secondary (g_key_store, err ret) = (g_key_store, unlocked mutex (err ret))
  then_add mutex secondary (g_key_store, ok _) =
      let added = add_asymmetric_keystore_array g_key_store secondary in
      (added.0, unlocked mutex (added.1 >>= λ asym_key_slot. ok (sub_ℕ asym_key_slot 1)))

  -- `ovsa_crypto_load_asymmetric_key`, on what `ovsa_crypto_extract_keystore` makes of the file; the
  -- end of `ovsa_crypto_generate_asymmetric_key_pair` is the same on the pair it has made.
  unfoldable pub load_asymmetric_key :
      Mutex → List IsvKeystore → Result (IsvKeystore × IsvKeystore) → List IsvKeystore × Result ℤ
  unfolding add_asymmetric_keystore_array
  load_asymmetric_key mutex g_key_store fault = (g_key_store, fault)
  load_asymmetric_key mutex g_key_store (err ret) = (g_key_store, err ret)
  load_asymmetric_key mutex g_key_store (ok (primary, secondary)) =
      if not mutex.locks
      then (g_key_store, err mutex_lock_fail)
      else then_add mutex secondary (add_asymmetric_keystore_array g_key_store primary)

  -- `cert_indicator` of the search: whether the certificates agree. The length of the slot's is the
  -- one kept from before where the slot has none.
  abbrev pub certificates_agree : Option Bytes → ℕ → Option Bytes → ℕ → Result Bool
  certificates_agree slot_cert keystore_cert_len certificate cert_len =
      if not (cert_len == 0) && not (keystore_cert_len == 0)
      then both_compared slot_cert certificate
      else ok true
    where
      both_compared : Option Bytes → Option Bytes → Result Bool
      both_compared none _ = ok false
      both_compared (some _) none = ok false
      both_compared (some slot_cert) (some certificate) =
          or_status (compare_strings rsize_max_str strcmp_s slot_cert certificate)
            crypto_generic_error

  -- `for (asymmetric_index = 0; ...)` of the search.
  unfoldable pub find_keystore : List IsvKeystore → IsvKeystore → ℕ → ℕ → Result (Option ℕ)
  unfolding compare_strings
  find_keystore [] keystore cert_len keystore_cert_len = ok none
  find_keystore (slot ∷ slots) keystore cert_len keystore_cert_len =
      cert_length slot.isv_certificate keystore_cert_len >>= λ slot_len.
      certificates_agree slot.isv_certificate slot_len keystore.isv_certificate cert_len
      >>= λ agree.
          let rest =
            find_keystore slots keystore cert_len slot_len >>= λ index. ok (one_more index) in
          if same_texts slot keystore && agree then ok (some 0) else rest

  -- `ovsa_crypto_get_asymmetric_key_slot`
  unfoldable pub get_asymmetric_key_slot :
      List IsvKeystore → Result (IsvKeystore × IsvKeystore) → Result ℕ
  unfolding find_keystore
  get_asymmetric_key_slot g_key_store extracted = do
    (keystore, _) ← extracted
    cert_len ← cert_length keystore.isv_certificate 0
    index ← find_keystore g_key_store keystore cert_len 0
    found_slot index
