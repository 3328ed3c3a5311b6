-- ===== src/KeyStore/Certificates/Laws.antt =====
-- Storing and reading a certificate, the lock of the slots, and the clearing of a pair.
use security_addon.Base.{
  length-set, take-append, length-append, take_all, lt→ltb, ℕ, zero, suc, ◌+◌, ◌^◌, ◌<◌, ◌≡◌, refl,
  ap, ◌∙◌, inl, inr, Bool, true, false, ◌&&◌, ◌||◌, Option, some, List, [], ◌∷◌, ◌++◌, arith, ltb,
  ◌==◌, if◌then◌else◌, Bytes, Bool-cases, length, take,
}
use security_addon.Base.{set, get_elem?}
use security_addon.Base.Int.{pos, negsuc}
use security_addon.Memory.{c_string}
use security_addon.Memory.Laws.{
  length-c_string-le, c_string-NulFree, c_string-append_nul, take-c_string,
}
use security_addon.Status.{ok}
use security_addon.Strings.Length.{get_string_length-exact}
use security_addon.KeyStore.{Mutex, max_key_slot}
use security_addon.KeyStore.Asymmetric.{IsvKeystore, cleared}
use security_addon.KeyStore.Certificates.{
  with_certificate, certificate_at, add_cert_keystore_array, get_certificate,
  clear_asymmetric_key_slot,
}

certificate_at-with_certificate :
    (slots : List IsvKeystore) (n : ℕ) (cert : Option Bytes)
    → n < length slots
    → certificate_at (with_certificate slots n cert) n ≡ cert
certificate_at-with_certificate [] n cert h = elim h [ ]
certificate_at-with_certificate (slot ∷ slots) zero cert h = refl
certificate_at-with_certificate (slot ∷ slots) (suc n) cert h =
    certificate_at-with_certificate slots n cert (omega arith)

text_taken : (p : Bytes) → take (length (c_string p)) p ≡ c_string p
text_taken p =
    take-c_string (length (c_string p)) p (omega arith)
    ∙ take_all (length (c_string p)) (c_string p) (omega arith)

module _ (rsize_max_str : ℕ) (r_pos : 0 < rsize_max_str) (allocates : ℕ → Bool) where
  -- A certificate added to one of the 64 slots is read back as its text and a NUL, if memory is
  -- allocated; the empty certificate is not kept, although the addition succeeds.
  pub get_certificate-add_cert_keystore_array :
      (g_key_store : List IsvKeystore) (n : ℕ) (cert : Bytes)
      → length g_key_store ≡ max_key_slot
      → n < max_key_slot
      → length cert + 1 < 2 ^ 64
      → allocates (length (c_string cert) + 1) ≡ true
      → ((add_cert_keystore_array rsize_max_str allocates g_key_store (pos n) (some cert)).1
          ≡ ok tt)
        × (get_certificate rsize_max_str allocates
              (add_cert_keystore_array rsize_max_str allocates g_key_store (pos n) (some cert)).0
              (pos n)
            ≡ (if length (c_string cert) == 0
                then get_certificate rsize_max_str allocates g_key_store (pos n)
                else ok (c_string cert ++ 0 ∷ [])))
  unfolding add_cert_keystore_array get_certificate
  get_certificate-add_cert_keystore_array g_key_store n cert size within small room =
      let inside : ltb n max_key_slot ≡ true = lt→ltb n max_key_slot within in
      let measured = (get_string_length-exact rsize_max_str r_pos cert (omega arith)).0 in
      elim (Bool-cases (length (c_string cert) == 0)) [
        | inl e ↦ rw (inside, measured, e) (refl, refl)
        | inr e ↦
            let at_n =
              certificate_at-with_certificate g_key_store n (some (c_string cert ++ 0 ∷ []))
                (omega arith) in
            let stored = c_string-append_nul (c_string cert) [] (c_string-NulFree cert) in
            let long : length (c_string cert ++ 0 ∷ []) < 2 ^ 64 =
              omega (arith, length-append (c_string cert) (0 ∷ []), length-c_string-le cert) in
            let again =
              (get_string_length-exact rsize_max_str r_pos (c_string cert ++ 0 ∷ []) long).0 in
            rw (inside, measured, e, room, text_taken cert, at_n, again, stored, e, room)
              (refl, ap (λ t. ok (t ++ 0 ∷ [])) (take-append (c_string cert) (0 ∷ [])))
      ]

get_elem?-set :
    {A : Type 0} (xs : List A) (i j : ℕ) (v : A)
    → i < length xs
    → get_elem? (set xs i v) j ≡ (if j == i then some v else get_elem? xs j)
get_elem?-set [] i j v h = elim h [ ]
get_elem?-set (x ∷ xs) zero zero v h = refl
get_elem?-set (x ∷ xs) zero (suc j) v h = let e : (suc j == 0) ≡ false = ground arith in rw e
get_elem?-set (x ∷ xs) (suc i) zero v h = let e : (0 == suc i) ≡ false = ground arith in rw e
get_elem?-set (x ∷ xs) (suc i) (suc j) v h =
    let e : (suc j == suc i) ≡ (j == i) = ground arith in
    rw e (get_elem?-set xs i j v (omega arith))

-- With the lock taken, a pair is cleared from any slot but the last: the slot and the next become
-- empty, whatever they held, and no other slot changes. From the last slot on, and below zero,
-- nothing does.
pub clear_asymmetric_key_slot-exact :
    (mutex : Mutex) (g_key_store : List IsvKeystore) (n j : ℕ)
    → mutex.locks ≡ true
    → length g_key_store ≡ max_key_slot
    → j < max_key_slot
    → (get_elem? (clear_asymmetric_key_slot mutex g_key_store (pos n)) j
        ≡ (if ltb n 63 && (j == n || j == n + 1) then some cleared else get_elem? g_key_store j))
      × (clear_asymmetric_key_slot mutex g_key_store (negsuc n) ≡ g_key_store)
unfolding clear_asymmetric_key_slot
clear_asymmetric_key_slot-exact mutex g_key_store n j locks size within = (
  elim (Bool-cases (ltb n 63)) [
    | inr e ↦ rw (locks, e)
    | inl e ↦
        let low : n < length g_key_store = ground arith in
        let high : suc n < length (set g_key_store n cleared) =
          ground (arith, length-set g_key_store n cleared) in
        rw (locks, e)
          (get_elem?-set (set g_key_store n cleared) (suc n) j cleared high
            ∙ rw (get_elem?-set g_key_store n j cleared low) (
                either (j == n) (j == n + 1) (j == suc n) (some cleared) (get_elem? g_key_store j)
                  (ground arith)))
  ],
  refl,
)
  where
    either :
        {A : Type 0} (here next next' : Bool) (a b : A)
        → next' ≡ next
        → (if next' then a else if here then a else b) ≡ (if here || next then a else b)
    either true true next' a b e = rw e
    either true false next' a b e = rw e
    either false next next' a b e = rw e
