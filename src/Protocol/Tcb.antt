-- ===== src/Protocol/Tcb.antt =====
-- The platform of a session against the TCBs of its license: the checks of PCRs and of an SGX
-- measurement in license_service_server.c.
pub mod Fits
use security_addon.Pcr.Read.{do_validate_pcr}
use security_addon.Base.{
  ℕ, zero, suc, ◌+◌, ◌-◌, ◌*◌, ◌/◌, ◌%◌, ◌^◌, ◌≤◌, ◌<◌, min, ◌≡◌, refl, sym, ap, ◌∙◌, ◌≢◌, ◌⊎◌, inl,
  inr, Bool, true, false, not, ◌&&◌, ◌||◌, Option, none, some, List, [], ◌∷◌, ◌++◌, append-nil,
  append_assoc, arith, ltb, leb, ◌==◌, if◌then◌else◌, Bytes, Bool-cases, Option-cases, length, take,
  drop,
}
use security_addon.Base.{equal}
use security_addon.Base.Int.{ℤ, pos, ltb_ℤ, to_int32}
use security_addon.Memory.{c_string, strcpy_s, zeros}
use security_addon.Status.{
  fault, ◌>>=◌, ◌>>◌, Result, ok, err, ⊤, guard, tcb_validation_failed, tcb_not_valid,
  pcr_validation_failed,
}
use security_addon.Protocol.{Platform, Quote, TcbInfo, SgxMeasurement, CustomerLicense}

-- DEFAULT_PCR_ID_SET
abbrev pub default_pcr_id_set : ℤ
default_pcr_id_set = pos (2 ^ 24 - 1)

-- The set of PCRs that a TCB names, `(int)strtol(...)`, and all 24 where it names none.
unfoldable pub pcr_id_set : Platform → Bytes → ℤ
pcr_id_set p text =
    let (id_set, endptr) =
      p.strtol (c_string (strcpy_s (zeros p.tpm.max_pcrs) 0 p.tpm.max_pcrs text)) in
    let parsed = if equal endptr [] then to_int32 id_set else default_pcr_id_set in
    if ltb_ℤ (pos 0) parsed && not (ltb_ℤ default_pcr_id_set parsed)
    then parsed
    else default_pcr_id_set

-- One of the two quotes of a TCB, where it has one.
unfoldable pub validate_quote_pcrs : Platform → Option Bytes → Bytes → Bytes → Result Bool
validate_quote_pcrs p quote_pcr golden_quote id_set =
    if equal golden_quote []
    then ok false
    else (do_validate_pcr p.tpm p.rsize_max_str p.allocates quote_pcr golden_quote
          (pcr_id_set p id_set)
        >> ok true)

abbrev pub is_some : Option Bytes → Bool
is_some none = false
is_some (some _) = true

-- `ovsa_license_service_do_validate_sw_hw_pcrs`: `*is_valid_TCB` is true exactly on success.
unfoldable pub do_validate_sw_hw_pcrs : Platform → TcbInfo → Quote → Quote → Result ⊤
unfolding validate_quote_pcrs
do_validate_sw_hw_pcrs p tcbinfo sw hw = do
  is_valid_swpcr ← validate_quote_pcrs p sw.quote_pcr tcbinfo.sw_quote tcbinfo.sw_pcr_id_set
  is_valid_hwpcr ← validate_quote_pcrs p hw.quote_pcr tcbinfo.hw_quote tcbinfo.hw_pcr_id_set
  let has_sw = not (equal tcbinfo.sw_quote [])
  let has_hw = not (equal tcbinfo.hw_quote [])
  guard
      (not (
        has_sw && not is_valid_swpcr
        || has_hw && not is_valid_hwpcr
        || has_sw && has_hw && (not is_valid_swpcr && not is_valid_hwpcr)))
      pcr_validation_failed
  let sw_quoted = is_some sw.quote_pcr
  let hw_quoted = is_some hw.quote_pcr
  guard
      (sw_quoted && hw_quoted && (is_valid_swpcr && is_valid_hwpcr)
        || sw_quoted && not hw_quoted && is_valid_swpcr
        || hw_quoted && not sw_quoted && is_valid_hwpcr)
      tcb_not_valid

-- A TCB that fails its check is passed over; one that cannot be read ends the search.
unfoldable pub next_tcb : Result ⊤ → Result ⊤ → Result ⊤
next_tcb (ok _) rest = ok tt
next_tcb (err _) rest = rest
next_tcb fault rest = fault

-- `ovsa_license_service_do_validate_tpm_quote`, on the license's TCBs.
unfoldable pub do_validate_tpm_quote : Platform → List Bytes → Quote → Quote → Result ⊤
unfolding next_tcb
do_validate_tpm_quote p [] sw hw = err tcb_validation_failed
do_validate_tpm_quote p (tcb_signature ∷ tcb_list) sw hw =
    let rest = do_validate_tpm_quote p tcb_list sw hw in
    p.extract_tcb_signature tcb_signature >>= λ tcbinfo.
    next_tcb (do_validate_sw_hw_pcrs p tcbinfo sw hw) rest

abbrev pub is_measured : SgxMeasurement → TcbInfo → Bool
is_measured m tcbinfo =
    equal tcbinfo.mrenclave m.quoting_enclave
    && equal tcbinfo.mrsigner m.quoting_signer
    && m.quoting_isv_svn == tcbinfo.isv_svn
    && m.quoting_isv_prod_id == tcbinfo.isv_prod_id

-- `ovsa_license_service_do_validate_sgx_measurement`
unfoldable pub do_validate_sgx_measurement : Platform → List Bytes → SgxMeasurement → Result ⊤
do_validate_sgx_measurement p [] measured = err tcb_validation_failed
do_validate_sgx_measurement p (tcb_signature ∷ tcb_list) measured =
    let rest = do_validate_sgx_measurement p tcb_list measured in
    p.extract_tcb_signature tcb_signature >>= λ tcbinfo.
    if is_measured measured tcbinfo then ok tt else rest
