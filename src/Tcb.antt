-- ===== src/Tcb.antt =====
-- Reference TCBs as JSON texts: Ovsa_tool/src/app/json.c, `ovsa_json_create_tcb_signature`, by which
-- the runtime's TCB generator writes one, and License_service/src/app/json.c,
-- `ovsa_license_service_json_extract_tcb_signature`, which reads it. `sgx` says whether the build has
-- ENABLE_SGX_GRAMINE.
pub mod Written
pub mod RoundTrip
pub mod Tests
use security_addon.Base.{
  ℕ, zero, suc, Bool, true, false, not, ◌&&◌, Option, none, some, List, [], ◌∷◌, ◌==◌,
  if◌then◌else◌, Bytes, codes,
}
use security_addon.Base.Int.{ℤ}
use security_addon.Memory.{strnlen_s, memcpy_s}
use security_addon.Status.{Result, fault, ok, err, ◌>>=◌, json_invalid_input}
use security_addon.Json.{
  Json, get_item, valuestring, valueint, JsonLibrary, copy_member, duplicate, add_strings,
  add_number, new_object, print_item, read_json,
}
use security_addon.Licensing.Read.{or_else}

-- The quote of one TPM in ovsa_tcb_info_t: `hw_quote`, `hw_pub_key` and `hw_pcr_id_set` (in the tool
-- `hw_pcr_reg_id`), and likewise for `sw`.
pub record TpmQuote : Type 0 where
  pub quote : Bytes
  pub pub_key : Bytes
  pub pcr_set : Bytes

-- What ovsa_tcb_info_t has of an enclave.
pub record SgxQuote : Type 0 where
  pub mrenclave : Bytes
  pub mrsigner : Bytes
  pub isv_svn : ℤ
  pub isv_prod_id : ℤ

-- ovsa_tcb_sig_t
pub record TcbSig : Type 0 where
  pub signature : Bytes
  pub tcb_name : Bytes
  pub tcb_version : Bytes
  pub hw : TpmQuote
  pub sw : TpmQuote
  pub enclave : SgxQuote
  pub isv_certificate : Option Bytes

-- `*text != 0`
abbrev pub has_text : Bytes → Bool
has_text [] = false
has_text (b ∷ bs) = not (b == 0)

abbrev pub is_quoted : TpmQuote → Bool
is_quoted q = has_text q.quote && has_text q.pub_key

-- The names of a TPM's members.
pub record QuoteNames : Type 0 where
  pub tpm_quote : Bytes
  pub quote_pcr : Bytes
  pub ak_pub_key : Bytes

abbrev pub hw_names : QuoteNames
hw_names = record {
  tpm_quote = codes "HW_TPM_Quote";
  quote_pcr = codes "HW_Quote_PCR";
  ak_pub_key = codes "HW_AK_Pub_Key";
}

abbrev pub sw_names : QuoteNames
sw_names = record {
  tpm_quote = codes "SW_TPM_Quote";
  quote_pcr = codes "SW_Quote_PCR";
  ak_pub_key = codes "SW_AK_Pub_key";
}

module _ (j : JsonLibrary) where
  -- The member for a TPM, which is added only if there are a quote and a key.
  unfoldable pub tpm_quote_item : QuoteNames → TpmQuote → Result j.Item
  tpm_quote_item names q = do
    tpm_quote ← new_object j
    quote ← new_object j
    filled ←
        add_strings j quote
          ((names.quote_pcr, some q.quote) ∷ (names.ak_pub_key, some q.pub_key) ∷ [])
    add_strings j (j.add_item tpm_quote (codes "Quote") filled)
        ((codes "PCR_Exclusion", some q.pcr_set) ∷ [])

  unfoldable pub add_tpm_quote : QuoteNames → TpmQuote → j.Item → Result j.Item
  unfolding tpm_quote_item
  add_tpm_quote names q tcb_sign =
      if is_quoted q
      then (tpm_quote_item names q >>= λ item. ok (j.add_item tcb_sign names.tpm_quote item))
      else ok tcb_sign

  unfoldable pub add_sgx_quote : SgxQuote → j.Item → Result j.Item
  add_sgx_quote e tcb_sign = do
    sgx_quote ← new_object j
    measured ←
        add_strings j sgx_quote
          ((codes "mrenclave", some e.mrenclave) ∷ (codes "mrsigner", some e.mrsigner) ∷ [])
    numbered ← add_number j measured (codes "isv_svn") e.isv_svn
    filled ← add_number j numbered (codes "isv_prod_id") e.isv_prod_id
    ok (j.add_item tcb_sign (codes "SGX_ENCLAVE_Quote") filled)

  -- The object of a TCB. An object is filled before it is added, which the source does the other way
  -- round, by the pointer that it keeps. Only a build for SGX writes the certificate.
  unfoldable pub tcb_document : Bool → TcbSig → Result j.Item
  tcb_document false tsig = do
    made ← new_object j
    named ←
        add_strings j made
          ((codes "name", some tsig.tcb_name) ∷ (codes "version", some tsig.tcb_version) ∷ [])
    tcb_sign ← new_object j
    with_hw ← add_tpm_quote hw_names tsig.hw tcb_sign
    with_sw ← add_tpm_quote sw_names tsig.sw with_hw
    ok (j.add_item named (codes "TCB Signature") with_sw)
  tcb_document true tsig = do
    made ← new_object j
    named ←
        add_strings j made
          ((codes "name", some tsig.tcb_name) ∷ (codes "version", some tsig.tcb_version) ∷ [])
    tcb_sign ← new_object j
    with_sgx ← add_sgx_quote tsig.enclave tcb_sign
    add_strings j (j.add_item named (codes "TCB Signature") with_sgx)
        ((codes "isv_certificate", tsig.isv_certificate) ∷ [])

  -- `ovsa_json_create_tcb_signature`
  unfoldable pub create_tcb_signature : Bool → ℕ → Option TcbSig → ℕ → Option Bytes → Result Bytes
  create_tcb_signature sgx rsize_max_str none output_buf_size output_buf = err json_invalid_input
  create_tcb_signature sgx rsize_max_str (some tsig) output_buf_size none = err json_invalid_input
  create_tcb_signature sgx rsize_max_str (some tsig) output_buf_size (some output_buf) =
      tcb_document sgx tsig >>= λ d. print_item j rsize_max_str d output_buf output_buf_size

-- The texts of a TPM. The set of PCRs is copied by the size of a quote, although its array has 32
-- bytes.
unfoldable pub read_tpm_quote : QuoteNames → Option Json → TpmQuote → TpmQuote
unfolding get_item copy_member
read_tpm_quote names tcb_sign before =
    let tpm_quote = get_item tcb_sign names.tpm_quote in
    let quote = get_item tpm_quote (codes "Quote") in
    record {
      quote = copy_member before.quote 3072 (valuestring (get_item quote names.quote_pcr));
      pub_key = copy_member before.pub_key 512 (valuestring (get_item quote names.ak_pub_key));
      pcr_set =
          copy_member before.pcr_set 3072
            (valuestring (get_item tpm_quote (codes "PCR_Exclusion")));
    }

-- A measurement: `memcpy_s` is told that the array is as long as the text.
unfoldable pub copy_measure : Bytes → Option Bytes → Bytes
copy_measure dest none = dest
copy_measure dest (some value) = memcpy_s dest (strnlen_s value 65) value (strnlen_s value 65)

unfoldable pub read_sgx_quote : Bool → Option Json → SgxQuote → SgxQuote
unfolding get_item copy_measure
read_sgx_quote false tcb_sign before = before
read_sgx_quote true tcb_sign before =
    let sgx_quote = get_item tcb_sign (codes "SGX_ENCLAVE_Quote") in
    record {
      mrenclave =
          copy_measure before.mrenclave (valuestring (get_item sgx_quote (codes "mrenclave")));
      mrsigner = copy_measure before.mrsigner (valuestring (get_item sgx_quote (codes "mrsigner")));
      isv_svn = or_else before.isv_svn (valueint (get_item sgx_quote (codes "isv_svn")));
      isv_prod_id =
          or_else before.isv_prod_id (valueint (get_item sgx_quote (codes "isv_prod_id")));
    }

-- `ovsa_license_service_json_extract_tcb_signature`
unfoldable pub extract_tcb_signature :
    Bool → ℕ → (ℕ → Bool) → JsonLibrary → Option Bytes → TcbSig → Result TcbSig
unfolding read_tpm_quote read_sgx_quote get_item copy_member duplicate
extract_tcb_signature sgx rsize_max_str allocates j input_buf tsig = do
  parse_json ← read_json j input_buf
  let text = λ (key : Bytes). valuestring (get_item (some parse_json) key)
  let tcb_sign = get_item (some parse_json) (codes "TCB Signature")
  certificate ←
      duplicate rsize_max_str allocates tsig.isv_certificate (text (codes "isv_certificate"))
  ok record {
    signature = copy_member tsig.signature 128 (text (codes "signature"));
    tcb_name = copy_member tsig.tcb_name 256 (text (codes "name"));
    tcb_version = copy_member tsig.tcb_version 32 (text (codes "version"));
    hw = read_tpm_quote hw_names tcb_sign tsig.hw;
    sw = read_tpm_quote sw_names tcb_sign tsig.sw;
    enclave = read_sgx_quote sgx tcb_sign tsig.enclave;
    isv_certificate = certificate;
  }
