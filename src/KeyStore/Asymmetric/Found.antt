-- ===== src/KeyStore/Asymmetric/Found.antt =====
-- Which slot the search for a key pair returns.
use security_addon.Base.{both}
use security_addon.Base.{
  ℕ, zero, suc, ◌≡◌, ◌⊎◌, ◌==◌, false, arith, take, refl, sym, ap, ◌∙◌, inl, inr, Bool, true, ◌&&◌,
  Option, none, some, List, [], ◌∷◌, Bytes, Bool-cases,
}
use security_addon.Base.{get_elem?}
use security_addon.Status.{
  Result, fault, err, ok, ◌>>=◌, or_status, crypto_generic_error, ok_of_>>=, ok-injective,
}
use security_addon.KeyStore.Compare.{compare_strings}
use security_addon.KeyStore.{one_more, found_slot}
use security_addon.KeyStore.Asymmetric.{
  IsvKeystore, same_texts, cert_length, certificates_agree, find_keystore, get_asymmetric_key_slot,
}

one_more-some :
    (index : Option ℕ) {i : ℕ} → one_more index ≡ some i → (j : ℕ) × (index ≡ some j) × (i ≡ suc j)
one_more-some none h = absurd (cc)
one_more-some (some j) h = (j, refl, cc)

found_slot-some : (index : Option ℕ) {i : ℕ} → found_slot index ≡ ok i → index ≡ some i
found_slot-some none h = absurd (cc)
found_slot-some (some j) h = ap some (ok-injective h)

suc-not_zero : (n : ℕ) → (suc n == 0) ≡ false
suc-not_zero n = ground arith

module _ (rsize_max_str : ℕ) (strcmp_s : Bytes → ℕ → Bytes → Bool) where
  -- The length of the last certificate of some slots, or the one before where they have none.
  abbrev pub kept_length : ℕ → List IsvKeystore → Result ℕ
  kept_length before [] = ok before
  kept_length before (slot ∷ slots) =
      cert_length rsize_max_str strcmp_s slot.isv_certificate before >>= λ n. kept_length n slots

  -- Both have a certificate, and the comparison finds the two equal.
  abbrev pub SameCertificate : IsvKeystore → IsvKeystore → Type 0
  SameCertificate slot k =
      (slot_cert certificate : Bytes) × (slot.isv_certificate ≡ some slot_cert)
      × (k.isv_certificate ≡ some certificate)
      × (compare_strings rsize_max_str strcmp_s slot_cert certificate ≡ ok true)

  -- A slot whose four texts do not differ from a keystore's, and whose certificate is the same,
  -- unless the keystore's, or the last one of the slots up to this one, has no length.
  abbrev pub IsMatch : ℕ → List IsvKeystore → ℕ → IsvKeystore → ℕ → Type 0
  IsMatch before slots i k cert_len =
      (slot : IsvKeystore) × (get_elem? slots i ≡ some slot)
      × (same_texts rsize_max_str strcmp_s slot k ≡ true)
      × (slot_len : ℕ) × (kept_length before (take (suc i) slots) ≡ ok slot_len)
      × ((cert_len ≡ 0) ⊎ ((slot_len ≡ 0) ⊎ SameCertificate slot k))

  or_status-ok : (r : Result Bool) {b : Bool} → or_status r crypto_generic_error ≡ ok b → r ≡ ok b
  or_status-ok fault h = absurd (cc)
  or_status-ok (err e) h = absurd (cc)
  or_status-ok (ok b) h = h

  certificates_agree-cases :
      (slot_cert certificate : Option Bytes) (slot_len cert_len : ℕ)
      → certificates_agree rsize_max_str strcmp_s slot_cert slot_len certificate cert_len ≡ ok true
      → (cert_len ≡ 0)
        ⊎ ((slot_len ≡ 0)
            ⊎ ((c d : Bytes) × (slot_cert ≡ some c)
                × (certificate ≡ some d)
                × (compare_strings rsize_max_str strcmp_s c d ≡ ok true)))
  certificates_agree-cases c d slot_len zero h = inl refl
  certificates_agree-cases c d zero (suc m) h = inr (inl refl)
  certificates_agree-cases none d (suc n) (suc m) h =
      absurd (let e = rw (suc-not_zero n, suc-not_zero m) at h in cc)
  certificates_agree-cases (some c) none (suc n) (suc m) h =
      absurd (let e = rw (suc-not_zero n, suc-not_zero m) at h in cc)
  certificates_agree-cases (some c) (some d) (suc n) (suc m) h =
      let e = rw (suc-not_zero n, suc-not_zero m) at h in
      inr (inr (c, d, refl, refl, or_status-ok (compare_strings rsize_max_str strcmp_s c d) e))

  find_keystore-IsMatch :
      (slots : List IsvKeystore) (k : IsvKeystore) (cert_len before i : ℕ)
      → find_keystore rsize_max_str strcmp_s slots k cert_len before ≡ ok (some i)
      → IsMatch before slots i k cert_len
  unfolding find_keystore
  find_keystore-IsMatch [] k cert_len before i h = absurd (cc)
  find_keystore-IsMatch (slot ∷ slots) k cert_len before i h =
      let (slot_len, measured, h1) =
        ok_of_>>= (cert_length rsize_max_str strcmp_s slot.isv_certificate before) _ h in
      let (agree, compared, h2) =
        ok_of_>>=
          (certificates_agree rsize_max_str strcmp_s slot.isv_certificate slot_len k.isv_certificate
            cert_len)
          _ h1 in
      elim (Bool-cases (same_texts rsize_max_str strcmp_s slot k && agree)) [
        | inl e ↦
            let here : some 0 ≡ some i = ok-injective (rw e at h2) in
            let first : 0 ≡ i = cc in
            let (texts, certificates) = both (same_texts rsize_max_str strcmp_s slot k) agree e in
            (
              slot,
              ap (get_elem? (slot ∷ slots)) (sym first),
              texts,
              slot_len,
              ap (λ j. kept_length before (take (suc j) (slot ∷ slots))) (sym first)
                  ∙ ap (λ r. r >>= λ n. ok n) measured,
              certificates_agree-cases slot.isv_certificate k.isv_certificate slot_len cert_len
                  (compared ∙ ap ok certificates),
            )
        | inr e ↦
            let (index, run, done) =
              ok_of_>>= (find_keystore rsize_max_str strcmp_s slots k cert_len slot_len) _
                (rw e at h2) in
            let (i', is, next) = one_more-some index (ok-injective done) in
            let (other, at_i, texts, other_len, kept, certificates) =
              find_keystore-IsMatch slots k cert_len slot_len i' (run ∙ ap ok is) in
            (
              other,
              ap (get_elem? (slot ∷ slots)) next ∙ at_i,
              texts,
              other_len,
              ap (λ j. kept_length before (take (suc j) (slot ∷ slots))) next
                  ∙ ap (λ r. r >>= λ n. kept_length n (take (suc i') slots)) measured
                  ∙ kept,
              certificates,
            )
      ]

  -- If the search for a file's pair succeeds, its primary keystore could be read, and the slot
  -- returned holds one whose four texts do not differ from it, and whose certificate the comparison
  -- finds equal, unless the primary's certificate, or the last one of the slots up to this one, has
  -- no length.
  pub get_asymmetric_key_slot-IsMatch :
      (g_key_store : List IsvKeystore) (extracted : Result (IsvKeystore × IsvKeystore)) (i : ℕ)
      → get_asymmetric_key_slot rsize_max_str strcmp_s g_key_store extracted ≡ ok i
      → (primary secondary : IsvKeystore) × (extracted ≡ ok (primary, secondary))
        × (cert_len : ℕ) × (cert_length rsize_max_str strcmp_s primary.isv_certificate 0
            ≡ ok cert_len)
        × IsMatch 0 g_key_store i primary cert_len
  unfolding get_asymmetric_key_slot
  get_asymmetric_key_slot-IsMatch g_key_store extracted i h =
      let ((primary, secondary), read, h1) = ok_of_>>= extracted _ h in
      let (cert_len, measured, h2) =
        ok_of_>>= (cert_length rsize_max_str strcmp_s primary.isv_certificate 0) _ h1 in
      let (index, run, done) =
        ok_of_>>= (find_keystore rsize_max_str strcmp_s g_key_store primary cert_len 0) _ h2 in
      (
        primary,
        secondary,
        read,
        cert_len,
        measured,
        find_keystore-IsMatch g_key_store primary cert_len 0 i
            (run ∙ ap ok (found_slot-some index done)),
      )
