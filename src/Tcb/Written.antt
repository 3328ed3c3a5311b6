-- ===== src/Tcb/Written.antt =====
-- What a reference TCB says, and the value that its writing makes.
use security_addon.Base.{
  ◌≡◌, ◌∙◌, inl, inr, Bool, true, false, Option, none, some, [], ◌∷◌, Bytes, Bool-cases,
}
use security_addon.Base.{codes}
use security_addon.Base.Int.{pos}
use security_addon.Memory.{c_string, zeros}
use security_addon.Status.{ok}
use security_addon.Json.{Json, text, number, object, Members, end, member, JsonLibrary}
use security_addon.Json.Laws.{IsLawful, join, one, join_end, new_object-view, add_strings-view}
use security_addon.Tcb.{
  TpmQuote, SgxQuote, TcbSig, is_quoted, QuoteNames, hw_names, sw_names, tpm_quote_item,
  add_tpm_quote, add_sgx_quote, tcb_document,
}

-- Texts in the place of arrays.
abbrev pub quote_content : TpmQuote → TpmQuote
quote_content q = record {
  quote = c_string q.quote;
  pub_key = c_string q.pub_key;
  pcr_set = c_string q.pcr_set;
}

abbrev pub enclave_content : SgxQuote → SgxQuote
enclave_content e = record e { mrenclave = c_string e.mrenclave; mrsigner = c_string e.mrsigner }

abbrev pub text_content : Option Bytes → Option Bytes
text_content none = none
text_content (some t) = some (c_string t)

abbrev pub tcb_content : TcbSig → TcbSig
tcb_content t = record {
  signature = c_string t.signature;
  tcb_name = c_string t.tcb_name;
  tcb_version = c_string t.tcb_version;
  hw = quote_content t.hw;
  sw = quote_content t.sw;
  enclave = enclave_content t.enclave;
  isv_certificate = text_content t.isv_certificate;
}

-- Cleared memory.
abbrev pub no_quote : TpmQuote
no_quote = record { quote = zeros 3072; pub_key = zeros 512; pcr_set = zeros 32 }

abbrev pub no_enclave : SgxQuote
no_enclave = record {
  mrenclave = zeros 65;
  mrsigner = zeros 65;
  isv_svn = pos 0;
  isv_prod_id = pos 0;
}

abbrev pub cleared_tcb : TcbSig
cleared_tcb = record {
  signature = zeros 128;
  tcb_name = zeros 256;
  tcb_version = zeros 32;
  hw = no_quote;
  sw = no_quote;
  enclave = no_enclave;
  isv_certificate = none;
}

-- A quote that is written: one without a quote or a key is not, nor its set of PCRs.
abbrev pub kept : Bool → TpmQuote → TpmQuote
kept true q = q
kept false q = no_quote

-- What is read back of a TCB, by the build.
abbrev pub written : Bool → TcbSig → TcbSig
written false t = record t {
  signature = zeros 128;
  hw = kept (is_quoted t.hw) t.hw;
  sw = kept (is_quoted t.sw) t.sw;
  enclave = no_enclave;
  isv_certificate = none;
}
written true t = record t { signature = zeros 128; hw = no_quote; sw = no_quote }

-- The value of a TPM's member, and of an enclave's.
abbrev pub quote_value : QuoteNames → TpmQuote → Json
quote_value names q = object (
    member (codes "Quote")
      (object (
        member (c_string names.quote_pcr) (text (c_string q.quote))
          (member (c_string names.ak_pub_key) (text (c_string q.pub_key)) end)))
      (member (codes "PCR_Exclusion") (text (c_string q.pcr_set)) end))

abbrev pub part : Bool → QuoteNames → TpmQuote → Members
part true names q = one (c_string names.tpm_quote) (quote_value names q)
part false names q = end

abbrev pub enclave_value : SgxQuote → Json
enclave_value e = object (
    member (codes "mrenclave") (text (c_string e.mrenclave)) (
      member (codes "mrsigner") (text (c_string e.mrsigner)) (
        member (codes "isv_svn") (number e.isv_svn)
          (member (codes "isv_prod_id") (number e.isv_prod_id) end))))

abbrev pub tpm_parts : Bool → Bool → TcbSig → Json
tpm_parts h s t = object (join (part h hw_names t.hw) (part s sw_names t.sw))

-- The value of a TCB, by the build and, for SGX, its certificate.
abbrev pub tcb_value : Bool → TcbSig → Bytes → Json
tcb_value false t certificate = object (
    member (codes "name") (text (c_string t.tcb_name)) (
      member (codes "version") (text (c_string t.tcb_version))
        (member (codes "TCB Signature") (tpm_parts (is_quoted t.hw) (is_quoted t.sw) t) end)))
tcb_value true t certificate = object (
    member (codes "name") (text (c_string t.tcb_name)) (
      member (codes "version") (text (c_string t.tcb_version)) (
        member (codes "TCB Signature")
          (object (one (codes "SGX_ENCLAVE_Quote") (enclave_value t.enclave)))
          (member (codes "isv_certificate") (text (c_string certificate)) end))))

module _ (j : JsonLibrary) (lawful : IsLawful j) where
  tpm_quote_item-view :
      (names : QuoteNames) (q : TpmQuote)
      → (d : j.Item) × (tpm_quote_item j names q ≡ ok d) × (j.view d ≡ quote_value names q)
  unfolding tpm_quote_item
  tpm_quote_item-view names q =
      let (d0, made, e0) = new_object-view j lawful in
      let (d1, filled, e1) =
        add_strings-view j lawful d0 end
          ((names.quote_pcr, q.quote) ∷ (names.ak_pub_key, q.pub_key) ∷ []) e0 in
      let e2 = lawful.adds_item d0 d1 end (codes "Quote") e0 in
      let (d3, excluded, e3) =
        add_strings-view j lawful (j.add_item d0 (codes "Quote") d1) _
          ((codes "PCR_Exclusion", q.pcr_set) ∷ []) e2 in
      (d3, rw (made, filled, excluded), e3 ∙ rw e1)

  add_tpm_quote-view :
      (names : QuoteNames) (q : TpmQuote) (d : j.Item) (ms : Members)
      → j.view d ≡ object ms
      → (d' : j.Item) × (add_tpm_quote j names q d ≡ ok d')
        × (j.view d' ≡ object (join ms (part (is_quoted q) names q)))
  unfolding add_tpm_quote
  add_tpm_quote-view names q d ms e = elim (Bool-cases (is_quoted q)) [
    | inl yes_quoted ↦
        let (item, made, v) = tpm_quote_item-view names q in
        (
          j.add_item d names.tpm_quote item,
          rw (yes_quoted, made),
          lawful.adds_item d item ms names.tpm_quote e ∙ rw (yes_quoted, v),
        )
    | inr not_quoted ↦ (d, rw not_quoted, e ∙ rw (not_quoted, join_end ms))
  ]

  add_sgx_quote-view :
      (q : SgxQuote) (d : j.Item)
      → j.view d ≡ object end
      → (d' : j.Item) × (add_sgx_quote j q d ≡ ok d')
        × (j.view d' ≡ object (one (codes "SGX_ENCLAVE_Quote") (enclave_value q)))
  unfolding add_sgx_quote
  add_sgx_quote-view q d e =
      let (d0, made, e0) = new_object-view j lawful in
      let (d1, measured, e1) =
        add_strings-view j lawful d0 end
          ((codes "mrenclave", q.mrenclave) ∷ (codes "mrsigner", q.mrsigner) ∷ []) e0 in
      let (d2, numbered, e2) = lawful.adds_number d1 _ (codes "isv_svn") q.isv_svn e1 in
      let (d3, filled, e3) = lawful.adds_number d2 _ (codes "isv_prod_id") q.isv_prod_id e2 in
      (
        j.add_item d (codes "SGX_ENCLAVE_Quote") d3,
        rw (made, measured, numbered, filled),
        lawful.adds_item d d3 end (codes "SGX_ENCLAVE_Quote") e ∙ rw e3,
      )

  -- The value of a TCB's object; a build for SGX needs the certificate to make it.
  pub tcb_document-view :
      (sgx : Bool) (t : TcbSig) (certificate : Bytes)
      → t.isv_certificate ≡ some certificate
      → (d : j.Item) × (tcb_document j sgx t ≡ ok d) × (j.view d ≡ tcb_value sgx t certificate)
  unfolding tcb_document
  tcb_document-view false t certificate cert =
      let (d0, made, e0) = new_object-view j lawful in
      let (d1, named, e1) =
        add_strings-view j lawful d0 end
          ((codes "name", t.tcb_name) ∷ (codes "version", t.tcb_version) ∷ []) e0 in
      let (d2, with_hw, e2) = add_tpm_quote-view hw_names t.hw d0 end e0 in
      let (d3, with_sw, e3) = add_tpm_quote-view sw_names t.sw d2 _ e2 in
      (
        j.add_item d1 (codes "TCB Signature") d3,
        rw (made, named, with_hw, with_sw),
        lawful.adds_item d1 d3 _ (codes "TCB Signature") e1 ∙ rw e3,
      )
  tcb_document-view true t certificate cert =
      let (d0, made, e0) = new_object-view j lawful in
      let (d1, named, e1) =
        add_strings-view j lawful d0 end
          ((codes "name", t.tcb_name) ∷ (codes "version", t.tcb_version) ∷ []) e0 in
      let (d2, with_sgx, e2) = add_sgx_quote-view t.enclave d0 e0 in
      let e3 = lawful.adds_item d1 d2 _ (codes "TCB Signature") e1 in
      let (d4, certified, e4) =
        add_strings-view j lawful (j.add_item d1 (codes "TCB Signature") d2) _
          ((codes "isv_certificate", certificate) ∷ []) e3 in
      (d4, rw (made, named, with_sgx, cert, certified), e4 ∙ rw e2)
