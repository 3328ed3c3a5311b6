-- ===== src/Pcr/Tests.antt =====
-- A small TPM library, and the theorems on the comparison of PCRs at it.
use security_addon.Memory.{strcat_s, strnlen_s, write_at}
use security_addon.Status.{pcr_validation_failed, err, ok}
use security_addon.Base.{
  ℕ, ◌≡◌, refl, true, ◌||◌, Option, none, some, [], ◌∷◌, ltb, ◌==◌, if◌then◌else◌, Bytes, take,
}
use security_addon.Base.{codes, equal, equal_refl, Bool-cases, inl, inr, sym}
use security_addon.Base.Int.{ℤ, pos}
use security_addon.Pcr.{
  pcr_text, write_at, pcr_validation_failed, err, ok, Digests, Pcrs, Selections, Tpm,
  do_verify_pcr_ids,
}
use security_addon.Pcr.Row.{NeverDiffers}
use security_addon.Pcr.Placed.{SomePlaced, do_verify_pcr_ids-SomePlaced}

abbrev compare_bytes : Bytes → ℕ → Bytes → ℕ → Option ℤ
compare_bytes dest dmax src slen =
    if dmax == 0 || slen == 0 || ltb dmax slen
    then none
    else some (if equal (take slen dest) (take slen src) then pos 0 else pos 1)

abbrev first_selected : Selections
first_selected = record {
  count = 1;
  pcr_selections = record { sizeof_select = 1; pcr_select = 1 ∷ [] } ∷ [];
}

abbrev pub one_digest : Bytes → Digests
one_digest bytes = record { count = 1; digests = record { size = 1; buffer = bytes } ∷ [] }

-- Every struct is a byte: a selection of PCR 0, and a digest of one byte.
abbrev pub small_tpm : Tpm
small_tpm = record {
  num_pcr_banks = 16;
  pcr_select_max = 4;
  max_pcrs = 32;
  sizeof_tpmu_ha = 4;
  sizeof_selections = 1;
  sizeof_digests = 1;
  selections_of = λ _. first_selected;
  uint32_of = λ bytes. 1;
  digests_of = one_digest;
  memcmp_s = compare_bytes;
  bio_new = true;
  bio_new_mem_buf = true;
  bio_read = λ text. some text;
  pcr_bin = λ _. some (codes "S0001a");
  stack = one_digest [] ∷ [];
}

abbrev measured : Bytes → Pcrs
measured digest = record { count = 1; pcr_values = one_digest digest ∷ [] }

-- PCR 0 has another digest than the golden one, and passes.
passes :
    do_verify_pcr_ids small_tpm first_selected
      (measured (codes "a"))
      first_selected
      (measured (codes "z"))
      (pos 1)
    ≡ ok tt
unfolding do_verify_pcr_ids equal pcr_text strcat_s strnlen_s write_at
passes = refl

-- Without a PCR in the set nothing is compared, and the check fails.
none_compared :
    do_verify_pcr_ids small_tpm first_selected
      (measured (codes "a"))
      first_selected
      (measured (codes "a"))
      (pos 2)
    ≡ err pcr_validation_failed
unfolding do_verify_pcr_ids equal pcr_text strcat_s strnlen_s write_at
none_compared = refl

small_tpm-NeverDiffers : NeverDiffers small_tpm
small_tpm-NeverDiffers p m n diff h = elim (Bool-cases (m == 0 || n == 0 || ltb m n)) [
  | inl e ↦ absurd (let none_found = rw e at h in cc)
  | inr e ↦
      let found = rw (e, equal_refl (take n p)) at h in
      let is : pos 0 ≡ diff = cc in rw (sym is) refl
]

do_verify_pcr_ids-SomePlaced_example :
    SomePlaced small_tpm
      (pos 1)
      first_selected
      (measured (codes "a"))
      first_selected
      (measured (codes "z"))
      small_tpm-NeverDiffers
do_verify_pcr_ids-SomePlaced_example =
    do_verify_pcr_ids-SomePlaced small_tpm (pos 1) first_selected (measured (codes "a"))
      first_selected (measured (codes "z")) small_tpm-NeverDiffers passes
