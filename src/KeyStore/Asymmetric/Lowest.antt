-- ===== src/KeyStore/Asymmetric/Lowest.antt =====
-- Which slots a key pair gets.
use security_addon.Base.{
  ℕ, zero, suc, ◌^◌, ◌<◌, ◌≡◌, refl, sym, ap, ◌∙◌, inl, inr, Bool, true, false, ◌||◌, Option, none,
  some, List, [], ◌∷◌, ◌==◌, if◌then◌else◌, Bytes, Bool-cases, length,
}
use security_addon.Base.{set}
use security_addon.Base.Int.{ℤ, sub_ℕ}
use security_addon.Memory.{c_string}
use security_addon.Status.{Result, ok, err, ◌>>=◌, crypto_generic_error}
use security_addon.Strings.Length.{get_string_length-exact}
use security_addon.KeyStore.{unlocked, Mutex, one_more, found_slot}
use security_addon.KeyStore.Asymmetric.{
  IsvKeystore, empty_texts, same_texts, cert_free, put_keystore, add_asymmetric_keystore_array,
  then_add, load_asymmetric_key,
}

module _ (rsize_max_str : ℕ) (r_pos : 0 < rsize_max_str) (strcmp_s : Bytes → ℕ → Bytes → Bool) where
  -- A slot none of whose texts differs from the empty one.
  abbrev pub is_blank : IsvKeystore → Bool
  is_blank slot = same_texts rsize_max_str strcmp_s slot empty_texts

  -- A blank slot has no certificate, or an empty one.
  abbrev pub IsKept : IsvKeystore → Type 0
  IsKept slot =
      (cert : Bytes)
      → slot.isv_certificate ≡ some cert
      → (length cert < 2 ^ 64) × (is_blank slot ≡ true → length (c_string cert) ≡ 0)

  abbrev pub AreKept : List IsvKeystore → Type 0
  AreKept [] = Unit
  AreKept (slot ∷ slots) = IsKept slot × AreKept slots

  abbrev pub first_blank : List IsvKeystore → Option ℕ
  first_blank [] = none
  first_blank (slot ∷ slots) = if is_blank slot then some 0 else one_more (first_blank slots)

  abbrev pub place : List IsvKeystore → Option ℕ → IsvKeystore → List IsvKeystore
  place slots none k = slots
  place slots (some i) k = set slots i k

  place-one_more :
      (slot : IsvKeystore) (slots : List IsvKeystore) (index : Option ℕ) (k : IsvKeystore)
      → place (slot ∷ slots) (one_more index) k ≡ slot ∷ place slots index k
  place-one_more slot slots none k = refl
  place-one_more slot slots (some i) k = refl

  -- The certificate's test at a slot: it succeeds, and allows a blank slot.
  cert_free-kept :
      (cert : Option Bytes) (indicator : Bool)
      → ((c : Bytes) → cert ≡ some c → length c < 2 ^ 64)
      → (free : Bool) × (cert_free rsize_max_str strcmp_s cert indicator ≡ ok free)
        × (((c : Bytes) → cert ≡ some c → length (c_string c) ≡ 0) → free ≡ true)
  cert_free-kept none indicator small = (true, refl, λ _. refl)
  cert_free-kept (some c) indicator small = (
    length (c_string c) == 0 || indicator,
    rw (get_string_length-exact rsize_max_str r_pos c (small c refl)).0,
    λ empty. rw (empty c refl),
  )

  put_keystore-first :
      (slots : List IsvKeystore) (k : IsvKeystore) (indicator : Bool)
      → AreKept slots
      → put_keystore rsize_max_str strcmp_s slots k indicator
        ≡ (place slots (first_blank slots) k, ok (first_blank slots))
  unfolding put_keystore
  put_keystore-first [] k indicator kept = refl
  put_keystore-first (slot ∷ slots) k indicator kept =
      let (free, checked, allowed) =
        cert_free-kept slot.isv_certificate indicator (λ c e. (kept.0 c e).0) in
      elim (Bool-cases (is_blank slot)) [
        | inl e ↦
            let is_free : free ≡ true = allowed (λ c is. (kept.0 c is).1 e) in
            rw (checked, e, is_free)
        | inr e ↦
            rw (checked, e, put_keystore-first slots k free kept.1)
              (ap (λ s. (s, ok (one_more (first_blank slots))))
                (sym (place-one_more slot slots (first_blank slots) k)))
      ]

  abbrev pub after : List IsvKeystore → IsvKeystore → Option ℕ → List IsvKeystore × Result ℕ
  after slots k none = (slots, err crypto_generic_error)
  after slots k (some i) = (set slots i k, ok i)

  -- Where no blank slot has a certificate, a keystore goes to the first blank slot, whose number is
  -- returned, and every other slot stays as it is; without a blank slot nothing changes, and the
  -- call fails.
  pub add_asymmetric_keystore_array-first :
      (g_key_store : List IsvKeystore) (k : IsvKeystore)
      → AreKept g_key_store
      → add_asymmetric_keystore_array rsize_max_str strcmp_s g_key_store k
        ≡ after g_key_store k (first_blank g_key_store)
  unfolding add_asymmetric_keystore_array
  add_asymmetric_keystore_array-first g_key_store k kept =
      rw (put_keystore-first g_key_store k false kept) (settled (first_blank g_key_store))
    where
      settled :
          (index : Option ℕ)
          → (place g_key_store index k, found_slot index) ≡ after g_key_store k index
      settled none = refl
      settled (some i) = refl

  set-AreKept :
      (slots : List IsvKeystore) (i : ℕ) (k : IsvKeystore)
      → AreKept slots
      → IsKept k
      → AreKept (set slots i k)
  set-AreKept [] i k kept is_kept = tt
  set-AreKept (slot ∷ slots) zero k kept is_kept = (is_kept, kept.1)
  set-AreKept (slot ∷ slots) (suc i) k kept is_kept = (kept.0, set-AreKept slots i k kept.1 is_kept)

  -- With the lock working, a pair is put into the two first blank slots, and the number returned
  -- is the second's less one: the primary key's where the two are neighbours, and else not.
  pub load_asymmetric_key-pair :
      (mutex : Mutex) (g_key_store : List IsvKeystore) (primary secondary : IsvKeystore) (i j : ℕ)
      → mutex.locks ≡ true
      → mutex.unlocks ≡ true
      → AreKept g_key_store
      → IsKept primary
      → first_blank g_key_store ≡ some i
      → first_blank (set g_key_store i primary) ≡ some j
      → load_asymmetric_key rsize_max_str strcmp_s mutex g_key_store (ok (primary, secondary))
        ≡ (set (set g_key_store i primary) j secondary, ok (sub_ℕ j 1))
  unfolding load_asymmetric_key
  load_asymmetric_key-pair mutex g_key_store primary secondary i j locks unlocks kept is_kept e e' =
      let kept' = set-AreKept g_key_store i primary kept is_kept in
      let first : add_asymmetric_keystore_array rsize_max_str strcmp_s g_key_store primary
          ≡ (set g_key_store i primary, ok i) =
        add_asymmetric_keystore_array-first g_key_store primary kept
        ∙ ap (after g_key_store primary) e in
      let second : add_asymmetric_keystore_array rsize_max_str strcmp_s (set g_key_store i primary)
            secondary
          ≡ (set (set g_key_store i primary) j secondary, ok j) =
        add_asymmetric_keystore_array-first (set g_key_store i primary) secondary kept'
        ∙ ap (after (set g_key_store i primary) secondary) e' in
      let finish : List IsvKeystore × Result ℕ → List IsvKeystore × Result ℤ =
        λ added. (added.0, unlocked mutex (added.1 >>= λ slot. ok (sub_ℕ slot 1))) in
      rw locks
        (ap (then_add rsize_max_str strcmp_s mutex secondary) first ∙ ap finish second ∙ rw unlocks)

-- A blank slot that holds a certificate loses it when the slot before it holds a keystore without
-- one: the indicator of that slot still stands.
pub add_asymmetric_keystore_array-overwrites :
    (rsize_max_str : ℕ) (r_pos : 0 < rsize_max_str) (strcmp_s : Bytes → ℕ → Bytes → Bool)
    (before slot k : IsvKeystore) (slots : List IsvKeystore) (cert : Bytes)
    → is_blank rsize_max_str r_pos strcmp_s before ≡ false
    → before.isv_certificate ≡ none
    → is_blank rsize_max_str r_pos strcmp_s slot ≡ true
    → slot.isv_certificate ≡ some cert
    → length cert < 2 ^ 64
    → add_asymmetric_keystore_array rsize_max_str strcmp_s (before ∷ slot ∷ slots) k
      ≡ (before ∷ k ∷ slots, ok 1)
unfolding add_asymmetric_keystore_array put_keystore
add_asymmetric_keystore_array-overwrites rsize_max_str r_pos strcmp_s before slot k slots cert used
      no_cert blank has_cert small =
    rw (
      no_cert,
      has_cert,
      (get_string_length-exact rsize_max_str r_pos cert small).0,
      or_true (length (c_string cert) == 0),
      used,
      blank,
    )
  where
    or_true : (b : Bool) → (b || true) ≡ true
    or_true true = refl
    or_true false = refl
