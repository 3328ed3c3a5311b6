-- ===== src/Pcr/Blank.antt =====
-- What the digests' values mean to `ovsa_license_service_do_verify_pcr_ids`.
use security_addon.Status.{err, err, Result, ok}
use security_addon.Base.Int.{ℤ}
use security_addon.Base.{map, arith, ◌∷◌, take, suc, Bytes, ℕ, [], ◌≡◌, List}
use security_addon.Memory.{strnlen_s, zeros, write_at, strcat_s}
use security_addon.Base.{ℕ, suc, ◌≡◌, refl, List, [], ◌∷◌, arith, Bytes, take}
use security_addon.Pcr.{
  Result, ok, ℤ, List, ℕ, strcat_s, [], Digest, Digests, Pcrs, Tpm, hex, pcr_text, text_of,
}
use security_addon.Memory.Laws.{strnlen_s-eq}

-- The same measurements with no digest in them: only the sizes are left.
abbrev pub blank_digest : Digest → Digest
blank_digest b = record { size = b.size; buffer = [] }

abbrev pub blank_digests : Digests → Digests
blank_digests v = record { count = v.count; digests = map blank_digest v.digests }

abbrev pub blank : Pcrs → Pcrs
blank pcrs = record { count = pcrs.count; pcr_values = map blank_digests pcrs.pcr_values }

-- `strcat_s` is never given room for a byte's digits, and leaves the buffer empty.
strcat_s_no_room :
    (n : ℕ) (src : Bytes) (k : ℕ) → strcat_s (zeros (suc n)) 0 (strnlen_s src k) src ≡ zeros (suc n)
unfolding strcat_s write_at
strcat_s_no_room n src k = ground (arith, strnlen_s-eq src k)

pcr_text-zeros : (n : ℕ) (bytes : Bytes) → pcr_text (zeros (suc n)) bytes ≡ zeros (suc n)
unfolding pcr_text
pcr_text-zeros n [] = refl
pcr_text-zeros n (byte ∷ bytes) = rw (strcat_s_no_room n (hex byte) 2) (pcr_text-zeros n bytes)

pub text_of-zeros : (t : Tpm) (b : Digest) → text_of t b ≡ zeros (suc t.sizeof_tpmu_ha)
text_of-zeros t b = pcr_text-zeros t.sizeof_tpmu_ha (take b.size b.buffer)
