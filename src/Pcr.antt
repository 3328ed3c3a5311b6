-- ===== src/Pcr.antt =====
-- The comparison of the PCRs that a platform has quoted with a TCB's: license_service_server.c of
-- License_service/src/app, `ovsa_license_service_do_verify_pcr_ids` and
-- `ovsa_license_service_do_validate_pcr`. The types and limits of the TPM library, its structs'
-- layout, `memcmp_s`, the base64 decoder and the files are parameters, in `Tpm`.
pub mod Blank
pub mod Row
pub mod Scanned
pub mod Placed
pub mod Read
pub mod Tests
use security_addon.Base.{
  ℕ, zero, suc, ◌+◌, ◌-◌, ◌*◌, ◌/◌, ◌%◌, ◌^◌, ◌≤◌, ◌<◌, min, ◌≡◌, refl, sym, ap, ◌∙◌, ◌≢◌, ◌⊎◌, inl,
  inr, Bool, true, false, not, ◌&&◌, ◌||◌, Option, none, some, List, [], ◌∷◌, ◌++◌, append-nil,
  append_assoc, arith, ltb, leb, ◌==◌, if◌then◌else◌, Bytes, Bool-cases, Option-cases, length, take,
  drop,
}
use security_addon.Base.Int.{ℤ, pos, negsuc}
use security_addon.Memory.{strcat_s, strnlen_s, write_at, zeros}
use security_addon.Status.{
  crypto_bio_error, invalid_parameter, Result, fault, ok, err, ⊤, guard, ◌>>=◌, ◌>>◌,
  pcr_count_not_valid, pcr_id_not_valid, pcr_digest_not_valid, pcr_validation_failed, fileopen_fail,
  fileio_fail, or_status,
}
use security_addon.Strings.{size_max, get_string_length, safe_malloc}

-- TPM2B_DIGEST and TPML_DIGEST
pub record Digest : Type 0 where
  pub size : ℕ
  pub buffer : Bytes

pub record Digests : Type 0 where
  pub count : ℕ
  pub digests : List Digest

-- tpm2_pcrs of license_service.h
pub record Pcrs : Type 0 where
  pub count : ℕ
  pub pcr_values : List Digests

-- TPMS_PCR_SELECTION and TPML_PCR_SELECTION
pub record Selection : Type 0 where
  pub sizeof_select : ℕ
  pub pcr_select : Bytes

pub record Selections : Type 0 where
  pub count : ℕ
  pub pcr_selections : List Selection

-- TPM2_NUM_PCR_BANKS, TPM2_PCR_SELECT_MAX, TPM2_MAX_PCRS, sizeof(TPMU_HA); the sizes of
-- TPML_PCR_SELECTION and TPML_DIGEST, and the values that the bytes of a struct spell. `memcmp_s`
-- is `none` where it reports a violation, else the difference. `bio_new` and `bio_new_mem_buf` say
-- whether they succeed, `bio_read` what a base64 text decodes to, `none` for -1. `pcr_bin` is the
-- file that was written for a quote, where there is one, and `stack` what an unset array of
-- TPML_DIGEST holds.
pub record Tpm : Type 0 where
  pub num_pcr_banks : ℕ
  pub pcr_select_max : ℕ
  pub max_pcrs : ℕ
  pub sizeof_tpmu_ha : ℕ
  pub sizeof_selections : ℕ
  pub sizeof_digests : ℕ
  pub selections_of : Bytes → Selections
  pub uint32_of : Bytes → ℕ
  pub digests_of : Bytes → Digests
  pub memcmp_s : Bytes → ℕ → Bytes → ℕ → Option ℤ
  pub bio_new : Bool
  pub bio_new_mem_buf : Bool
  pub bio_read : Bytes → Option Bytes
  pub pcr_bin : Option Bytes → Option Bytes
  pub stack : List Digests

-- `vi`, `di` and `is_valid_PCR`
pub record Scan : Type 0 where
  pub vi : ℕ
  pub di : ℕ
  pub is_valid_pcr : Bool

-- An element of an array; outside it the read is undefined.
abbrev pub elem_at {ℓ} : {A : Type ℓ} → List A → ℕ → Result A
elem_at [] i = fault
elem_at (x ∷ xs) zero = ok x
elem_at (x ∷ xs) (suc i) = elem_at xs i

-- `%02X`
abbrev pub hex_digit : ℕ → ℕ
hex_digit d = if ltb d 10 then b'0' + d else b'A' + (d - 10)

abbrev pub hex : ℕ → Bytes
hex byte = hex_digit (byte / 16) ∷ hex_digit (byte % 16) ∷ 0 ∷ []

-- `for (k = 0; k < b->size; k++)`: the text of a digest behind what the buffer holds. The size that
-- `strcat_s` is given is that of the two digits, not of the buffer.
unfoldable pub pcr_text : Bytes → Bytes → Bytes
pcr_text pcrbuf [] = pcrbuf
pcr_text pcrbuf (byte ∷ bytes) =
    pcr_text (strcat_s pcrbuf 0 (strnlen_s (hex byte) 2) (hex byte)) bytes

-- A bit of an int or of a byte.
abbrev pub bit : ℕ → ℕ → Bool
bit n i = n / 2 ^ i % 2 == 1

abbrev pub in_set : ℤ → ℕ → Bool
in_set (pos n) i = bit n i
in_set (negsuc n) i = not (bit n i)

abbrev pub is_zero : ℤ → Bool
is_zero (pos n) = n == 0
is_zero (negsuc n) = false

-- `pcrSelect[pcr_id / 8] & (1 << (pcr_id % 8))`
abbrev pub is_selected : Selection → ℕ → Result Bool
is_selected selection pcr_id =
    elem_at selection.pcr_select (pcr_id / 8) >>= λ byte. ok (bit byte (pcr_id % 8))

-- Whether `memcmp_s` finds no difference.
abbrev pub texts_agree : Option ℤ → Result (Option Bool)
texts_agree none = err pcr_validation_failed
texts_agree (some diff) = ok (some (is_zero diff))

abbrev pub text_of : Tpm → Digest → Bytes
text_of t b = pcr_text (zeros (suc t.sizeof_tpmu_ha)) (take b.size b.buffer)

module _ (t : Tpm) (pcr_id_set : ℤ) where
  -- Steps 1 to 3 for one PCR: whether the texts agree, where the PCR is in the set.
  unfoldable pub compare_digests : ℕ → Digest → Digest → Result (Option Bool)
  compare_digests pcr_id b golden_b =
      let diff = t.memcmp_s (text_of t golden_b) golden_b.size (text_of t b) b.size in
      guard (not (ltb t.sizeof_tpmu_ha b.size)) pcr_digest_not_valid
      >> guard (not (ltb t.sizeof_tpmu_ha golden_b.size)) pcr_digest_not_valid
      >> (if in_set pcr_id_set pcr_id then texts_agree diff else ok none)

  -- `if (++di < pcrs->pcr_values[vi].count) continue; di = 0; ++vi`
  abbrev pub advance : ℕ → Scan → Scan
  advance values s =
      if ltb (s.di + 1) values
      then record s { di = s.di + 1 }
      else record s { vi = s.vi + 1; di = 0 }

  -- What follows a comparison: the next PCR, or the end of the bank where the texts differ.
  abbrev pub next_pcr : ℕ → Scan → Option Bool → Bool × Scan
  next_pcr values s none = (true, advance values s)
  next_pcr values s (some true) = (true, advance values (record s { is_valid_pcr = true }))
  next_pcr values s (some false) = (false, record s { is_valid_pcr = false })

  module _ (pcrs golden_pcrs : Pcrs) where
    -- The comparison of a PCR that both have selected. The received values' position finds the
    -- golden ones too.
    unfoldable pub check_selected : ℕ → Scan → Result (Bool × Scan)
    unfolding compare_digests
    check_selected pcr_id s = do
      values ← elem_at pcrs.pcr_values s.vi
      b ← elem_at values.digests s.di
      golden_values ← elem_at golden_pcrs.pcr_values s.vi
      golden_b ← elem_at golden_values.digests s.di
      compared ← compare_digests pcr_id b golden_b
      ok (next_pcr values.count s compared)

    -- The body of the inner loop; `false` is its `break`.
    unfoldable pub check_pcr : Selection → Selection → ℕ → Scan → Result (Bool × Scan)
    unfolding check_selected
    check_pcr selection golden_selection pcr_id s =
        guard (ltb (pcr_id / 8) t.pcr_select_max) pcr_id_not_valid
        >> (is_selected selection pcr_id >>= λ selected.
            let golden = is_selected golden_selection pcr_id >>= λ golden_selected.
            let checked = check_selected pcr_id s in
            if golden_selected then checked else ok (true, s) in
            if selected then golden else ok (true, s))

    -- The inner loop, with the PCRs of the bank that are left.
    unfoldable pub bank_loop : Selection → Selection → ℕ → ℕ → Scan → Result Scan
    unfolding check_pcr
    bank_loop selection golden_selection zero pcr_id s = ok s
    bank_loop selection golden_selection (suc left) pcr_id s =
        check_pcr selection golden_selection pcr_id s >>= λ (more, s').
        let rest = bank_loop selection golden_selection left (suc pcr_id) s' in
        if more then rest else ok s'

    -- The outer loop, with the banks that are left. Both banks' selections have the same index.
    unfoldable pub banks_loop : Selections → Selections → ℕ → ℕ → Scan → Result Scan
    unfolding bank_loop
    banks_loop pcr_select golden_pcr_select zero i s = ok s
    banks_loop pcr_select golden_pcr_select (suc left) i s =
        elem_at pcr_select.pcr_selections i >>= λ selection.
        elem_at golden_pcr_select.pcr_selections i >>= λ golden_selection.
        let ids = min (selection.sizeof_select * 8) (golden_selection.sizeof_select * 8) in
        bank_loop selection golden_selection ids 0 s >>= λ s'.
        banks_loop pcr_select golden_pcr_select left (suc i) s'

abbrev pub start : Scan
start = record { vi = 0; di = 0; is_valid_pcr = false }

-- `ovsa_license_service_do_verify_pcr_ids`
unfoldable pub do_verify_pcr_ids : Tpm → Selections → Pcrs → Selections → Pcrs → ℤ → Result ⊤
unfolding banks_loop
do_verify_pcr_ids t pcr_select pcrs golden_pcr_select golden_pcrs pcr_id_set = do
  guard (not (ltb t.num_pcr_banks pcr_select.count || ltb t.num_pcr_banks golden_pcr_select.count))
      pcr_count_not_valid
  s ←
      banks_loop t pcr_id_set pcrs golden_pcrs pcr_select golden_pcr_select
        (min pcr_select.count golden_pcr_select.count) 0 start
  guard s.is_valid_pcr pcr_validation_failed
