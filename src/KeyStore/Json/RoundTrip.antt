-- ===== src/KeyStore/Json/RoundTrip.antt =====
-- A key pair written as JSON and read again.
use security_addon.Strings.{get_string_length}
use security_addon.Base.{
  ℕ, ◌+◌, ◌^◌, ◌≤◌, ◌<◌, ◌≡◌, refl, sym, ap, ◌∙◌, inl, inr, Bool, true, false, Option, none, some,
  List, [], ◌∷◌, ◌++◌, arith, ◌==◌, Bytes, Bool-cases, length,
}
use security_addon.Base.{codes, equal}
use security_addon.Memory.{c_string, strnlen_s, memcpy_s, zeros}
use security_addon.Memory.Laws.{c_string-NulFree, c_string_self, length-c_string-le}
use security_addon.Status.{json_error_create_object, Status, ok, ok_of_>>=, ok-injective}
use security_addon.Strings.Length.{get_string_length-exact}
use security_addon.KeyStore.Asymmetric.{IsvKeystore, cleared}
use security_addon.KeyStore.Json.{
  get_string_length, json_error_create_object, Member, CJson, get_string, or_fail, or_empty,
  add_member, keystore_document, create_isv_keystore, copy_text, copy_certificate_text,
  extract_keystore_info, getitem_size, allocate_block, extract_pair,
}
use security_addon.KeyStore.Json.Laws.{
  string_member, IsLawful, c_string-memcpy_s, c_string-copied, print_into-members,
}

-- The members of a pair's object.
abbrev pub keystore_members : IsvKeystore → IsvKeystore → List Member
keystore_members primary secondary =
    string_member (codes "name") primary.isv_name
    ∷ string_member (codes "key_guid") primary.key_guid
    ∷ string_member (codes "public_key") primary.public_key
    ∷ string_member (codes "private_key") primary.private_key
    ∷ string_member (codes "certificate") (or_empty primary.isv_certificate)
    ∷ string_member (codes "public_key_2") secondary.public_key
    ∷ string_member (codes "private_key_2") secondary.private_key
    ∷ string_member (codes "certificate_2") (or_empty secondary.isv_certificate)
    ∷ []

-- A keystore's texts fit their arrays, all but a NUL where the array has room for it; the GUID has 36
-- bytes at most.
abbrev pub KeysFit : IsvKeystore → Type 0
KeysFit k =
    (length (c_string k.public_key) ≤ 512)
    × (length (c_string k.private_key) ≤ 512)
    × (length (or_empty k.isv_certificate) < 2 ^ 64)

abbrev pub TextsFit : IsvKeystore → Type 0
TextsFit k = (length (c_string k.isv_name) ≤ 256) × (length (c_string k.key_guid) ≤ 36) × KeysFit k

-- Two keystores have the same keys and certificate, and the same name and GUID.
abbrev pub SameKeys : IsvKeystore → IsvKeystore → Type 0
SameKeys k l =
    (c_string k.public_key ≡ c_string l.public_key)
    × (c_string k.private_key ≡ c_string l.private_key)
    × (c_string (or_empty k.isv_certificate) ≡ c_string (or_empty l.isv_certificate))

abbrev pub SameNames : IsvKeystore → IsvKeystore → Type 0
SameNames k l =
    (c_string k.isv_name ≡ c_string l.isv_name) × (c_string k.key_guid ≡ c_string l.key_guid)

or_fail-some {ℓ} :
    {A : Type ℓ} (o : Option A) (ret : Status) {a : A} → or_fail o ret ≡ ok a → o ≡ some a
or_fail-some none ret h = absurd (cc)
or_fail-some (some a) ret h = ap some (ok-injective h)

module _ (j : CJson) (size : List Member → ℕ) (lawful : IsLawful j size) (rsize_max_str : ℕ)
    (r_pos : 0 < rsize_max_str) where
  added :
      (d : j.Doc) (key value : Bytes) {d' : j.Doc} {ms : List Member}
      → add_member j rsize_max_str d key value ≡ ok d'
      → j.members d ≡ ms
      → j.members d' ≡ ms ++ string_member key value ∷ []
  added d key value h e =
      lawful.1 d _ key value (or_fail-some _ _ h) ∙ ap (λ ms. ms ++ string_member key value ∷ []) e

  keystore_document-members :
      (primary secondary : IsvKeystore) {d : j.Doc}
      → keystore_document j rsize_max_str primary secondary ≡ ok d
      → j.members d ≡ keystore_members primary secondary
  unfolding keystore_document
  keystore_document-members primary secondary h =
      let (d0, created, h0) = ok_of_>>= (or_fail j.create_object json_error_create_object) _ h in
      let (d1, a1, h1) =
        ok_of_>>= (add_member j rsize_max_str d0 (codes "name") primary.isv_name) _ h0 in
      let (d2, a2, h2) =
        ok_of_>>= (add_member j rsize_max_str d1 (codes "key_guid") primary.key_guid) _ h1 in
      let (d3, a3, h3) =
        ok_of_>>= (add_member j rsize_max_str d2 (codes "public_key") primary.public_key) _ h2 in
      let (d4, a4, h4) =
        ok_of_>>= (add_member j rsize_max_str d3 (codes "private_key") primary.private_key) _ h3 in
      let (d5, a5, h5) =
        ok_of_>>=
          (add_member j rsize_max_str d4 (codes "certificate") (or_empty primary.isv_certificate)) _
          h4 in
      let (d6, a6, h6) =
        ok_of_>>= (add_member j rsize_max_str d5 (codes "public_key_2") secondary.public_key) _
          h5 in
      let (d7, a7, h7) =
        ok_of_>>= (add_member j rsize_max_str d6 (codes "private_key_2") secondary.private_key) _
          h6 in
      let empty = lawful.0 d0 (or_fail-some _ _ created) in
      added d7 _ _ h7 (
        added d6 _ _ a7 (
          added d5 _ _ a6 (
            added d4 _ _ a5
              (added d3 _ _ a4 (added d2 _ _ a3 (added d1 _ _ a2 (added d0 _ _ a1 empty)))))))

  empty_text : (s : Bytes) → (length s == 0) ≡ true → [] ≡ s
  empty_text [] e = refl
  empty_text (b ∷ s) e = absurd (ground arith)

  -- A certificate's block, and what is copied into it.
  certificate_copied :
      (allocates : ℕ → Bool) (cert : Bytes)
      → ((n : ℕ) → allocates n ≡ true)
      → length cert < 2 ^ 64
      → (get_string_length rsize_max_str (some (c_string cert)) ≡ ok (length (c_string cert)))
        × (block copy : Option Bytes) × (allocate_block j rsize_max_str allocates
              (length (c_string cert))
            ≡ ok block)
        × (copy_certificate_text j rsize_max_str block (some (c_string cert)) ≡ ok copy)
        × (c_string (or_empty copy) ≡ c_string cert)
  unfolding copy_certificate_text
  certificate_copied allocates cert room small =
      let text : Bytes = c_string cert in
      let self : c_string text ≡ text = c_string_self text (c_string-NulFree cert) in
      let measured : get_string_length rsize_max_str (some text) ≡ ok (length text) =
        (get_string_length-exact rsize_max_str r_pos text
          (omega (arith, length-c_string-le cert))).0
        ∙ ap (λ t. ok (length t)) self in
      elim (Bool-cases (length text == 0)) [
        | inl e ↦ (measured, none, none, rw e, rw measured, empty_text text e)
        | inr e ↦ (
          measured,
          some (zeros (length text + 1)),
          some (memcpy_s (zeros (length text + 1)) (length text) text (length text)),
          rw (e, room (length text + 1)),
          rw measured,
          ap (λ n. c_string (memcpy_s (zeros (length text + 1)) (length text) text n))
                (sym (ap length self))
              ∙ c_string-memcpy_s (length text + 1) (length text) text (rw self (omega arith))
              ∙ self,
        )
      ]

  -- A pair that has been written into a cleared buffer with room for it is read again from that
  -- buffer, if its object can be made and memory is allocated: both keystores have their keys and
  -- certificates back, and the primary its name and GUID; the secondary's are not kept.
  pub extract_pair-create_isv_keystore :
      (allocates : ℕ → Bool) (primary secondary : IsvKeystore) (d : j.Doc) (k output_len : ℕ)
      → ((n : ℕ) → allocates n ≡ true)
      → TextsFit primary
      → KeysFit secondary
      → keystore_document j rsize_max_str primary secondary ≡ ok d
      → size (j.members d) ≤ output_len
      → size (j.members d) < 2 ^ 64
      → 0 < output_len
      → (buf : Bytes) × (create_isv_keystore j rsize_max_str primary secondary
            (some (zeros k))
            output_len
          ≡ ok buf)
        × (primary' secondary' : IsvKeystore) × (extract_pair j rsize_max_str allocates buf
            ≡ ok (primary', secondary'))
        × SameNames primary' primary
        × SameKeys primary' primary
        × SameNames secondary' cleared
        × SameKeys secondary' secondary
  unfolding create_isv_keystore extract_pair extract_keystore_info getitem_size copy_text get_string
      equal
  extract_pair-create_isv_keystore allocates primary secondary d k output_len room fits fits' made
        fit small pos =
      let nonzero : (output_len == 0) ≡ false = ground arith in
      let (buf, printed, d1, parsed, same) =
        print_into-members j size lawful rsize_max_str r_pos d k output_len fit small in
      let members1 : j.members d1 ≡ keystore_members primary secondary =
        same ∙ keystore_document-members primary secondary made in
      let (measured, block, copy, allocated, copied, recovered) =
        certificate_copied allocates (or_empty primary.isv_certificate) room fits.2.2 in
      let (measured', block', copy', allocated', copied', recovered') =
        certificate_copied allocates (or_empty secondary.isv_certificate) room fits'.2 in
      let array : ℕ → Bytes → Bytes =
        λ n text. memcpy_s (zeros n) n (c_string text) (strnlen_s (c_string text) n) in
      (
        buf,
        rw (nonzero, made, printed),
        record {
          isv_name = array 256 primary.isv_name;
          key_guid =
              memcpy_s (zeros 37) 36 (c_string primary.key_guid)
                (strnlen_s (c_string primary.key_guid) 36);
          public_key = array 512 primary.public_key;
          private_key = array 512 primary.private_key;
          isv_certificate = copy;
        },
        record cleared {
          public_key = array 512 secondary.public_key;
          private_key = array 512 secondary.private_key;
          isv_certificate = copy';
        },
        rw (parsed, members1, measured, allocated, measured', allocated', copied, copied'),
        (
          c_string-copied 256 256 primary.isv_name fits.0,
          c_string-copied 37 36 primary.key_guid fits.1,
        ),
        (
          c_string-copied 512 512 primary.public_key fits.2.0,
          c_string-copied 512 512 primary.private_key fits.2.1,
          recovered,
        ),
        (refl, refl),
        (
          c_string-copied 512 512 secondary.public_key fits'.0,
          c_string-copied 512 512 secondary.private_key fits'.1,
          recovered',
        ),
      )
