-- ===== src/Tcb/RoundTrip.antt =====
-- A reference TCB that the generator has written and the license service reads.
use security_addon.Base.{
  ℕ, ◌^◌, ◌≤◌, ◌<◌, ◌≡◌, refl, sym, ap, ◌∙◌, Bool, true, false, Option, none, some, arith, Bytes,
  length,
}
use security_addon.Base.{codes, equal}
use security_addon.Memory.{c_string, zeros, strnlen_s}
use security_addon.Memory.Laws.{c_string-NulFree, c_string_self, strnlen_s-eq}
use security_addon.Status.{ok}
use security_addon.KeyStore.Json.Laws.{c_string-memcpy_s}
use security_addon.Json.{Json, object, JsonLibrary, get_item, copy_member, duplicate}
use security_addon.Json.Laws.{
  IsLawful, Prints, one, copy_member-zeros, duplicate-some, print_item-parse,
}
use security_addon.Tcb.{
  TpmQuote, SgxQuote, TcbSig, is_quoted, QuoteNames, hw_names, sw_names, create_tcb_signature,
  read_tpm_quote, copy_measure, read_sgx_quote, extract_tcb_signature,
}
use security_addon.Tcb.Written.{
  quote_content, enclave_content, text_content, tcb_content, no_quote, no_enclave, cleared_tcb,
  kept, written, enclave_value, tpm_parts, tcb_value, tcb_document-view,
}

-- The texts of a TCB fit the arrays of the reader, but for a NUL.
abbrev pub QuoteFits : TpmQuote → Type 0
QuoteFits q =
    (length (c_string q.quote) ≤ 3072)
    × (length (c_string q.pub_key) ≤ 512)
    × (length (c_string q.pcr_set) ≤ 32)

abbrev pub TcbFits : TcbSig → Type 0
TcbFits t =
    (length (c_string t.tcb_name) ≤ 256)
    × (length (c_string t.tcb_version) ≤ 32)
    × QuoteFits t.hw
    × QuoteFits t.sw
    × (length (c_string t.enclave.mrenclave) ≤ 65)
    × (length (c_string t.enclave.mrsigner) ≤ 65)

module _ (q : TpmQuote) (fits : QuoteFits q) where
  copied_quote :
      quote_content record {
        quote = copy_member (zeros 3072) 3072 (some (c_string q.quote));
        pub_key = copy_member (zeros 512) 512 (some (c_string q.pub_key));
        pcr_set = copy_member (zeros 32) 3072 (some (c_string q.pcr_set));
      }
      ≡ quote_content q
  copied_quote = λ i. record {
    quote = copy_member-zeros 3072 3072 q.quote fits.0 i;
    pub_key = copy_member-zeros 512 512 q.pub_key fits.1 i;
    pcr_set = copy_member-zeros 32 3072 q.pcr_set (omega (arith, fits.2)) i;
  }

  read_hw :
      (h s : Bool) (t : TcbSig)
      → t.hw ≡ q
      → quote_content (read_tpm_quote hw_names (some (tpm_parts h s t)) no_quote)
        ≡ quote_content (kept h q)
  unfolding read_tpm_quote get_item equal
  read_hw true true t e = rw e copied_quote
  read_hw true false t e = rw e copied_quote
  read_hw false true t e = refl
  read_hw false false t e = refl

  read_sw :
      (h s : Bool) (t : TcbSig)
      → t.sw ≡ q
      → quote_content (read_tpm_quote sw_names (some (tpm_parts h s t)) no_quote)
        ≡ quote_content (kept s q)
  unfolding read_tpm_quote get_item equal
  read_sw true true t e = rw e copied_quote
  read_sw false true t e = rw e copied_quote
  read_sw true false t e = refl
  read_sw false false t e = refl

copy_measure-zeros :
    (t : Bytes)
    → length (c_string t) ≤ 65
    → c_string (copy_measure (zeros 65) (some (c_string t))) ≡ c_string t
unfolding copy_measure
copy_measure-zeros t fits =
    let value : Bytes = c_string t in
    let self : c_string value ≡ value = c_string_self value (c_string-NulFree t) in
    let counted : strnlen_s value 65 ≡ length (c_string value) =
      rw (strnlen_s-eq value 65, self) (omega arith) in
    rw counted (c_string-memcpy_s 65 (length (c_string value)) value (omega arith) ∙ self)

read_enclave :
    (e : SgxQuote)
    → length (c_string e.mrenclave) ≤ 65
    → length (c_string e.mrsigner) ≤ 65
    → enclave_content (
        read_sgx_quote true
          (some (object (one (codes "SGX_ENCLAVE_Quote") (enclave_value e))))
          no_enclave)
      ≡ enclave_content e
unfolding read_sgx_quote get_item equal
read_enclave e a b = λ i. record {
  mrenclave = copy_measure-zeros e.mrenclave a i;
  mrsigner = copy_measure-zeros e.mrsigner b i;
  isv_svn = e.isv_svn;
  isv_prod_id = e.isv_prod_id;
}

no_string : (dest : Bytes) (size : ℕ) → copy_member dest size none ≡ dest
unfolding copy_member
no_string dest size = refl

no_certificate :
    (rsize_max_str : ℕ) (allocates : ℕ → Bool) (before : Option Bytes)
    → duplicate rsize_max_str allocates before none ≡ ok before
unfolding duplicate
no_certificate rsize_max_str allocates before = refl

no_tpm :
    (names : QuoteNames) (e : SgxQuote)
    → equal (codes "SGX_ENCLAVE_Quote") names.tpm_quote ≡ false
    → read_tpm_quote names
        (some (object (one (codes "SGX_ENCLAVE_Quote") (enclave_value e))))
        no_quote
      ≡ no_quote
unfolding read_tpm_quote get_item
no_tpm names e other = rw (other, no_string)

module _ (rsize_max_str : ℕ) (allocates : ℕ → Bool) (j : JsonLibrary) (buf : Bytes) (t : TcbSig)
    (certificate : Bytes) (fits : TcbFits t) where
  -- What is read of a TCB's value, in a build without SGX.
  extract_tcb_signature-tpm :
      j.parse buf ≡ some (tcb_value false t certificate)
      → (read : TcbSig) × (extract_tcb_signature false rsize_max_str allocates j
            (some buf)
            cleared_tcb
          ≡ ok read)
        × (tcb_content read ≡ tcb_content (written false t))
  unfolding extract_tcb_signature get_item equal read_sgx_quote
  extract_tcb_signature-tpm parsed =
      let tcb_sign : Json = tpm_parts (is_quoted t.hw) (is_quoted t.sw) t in
      (
        record {
          signature = copy_member (zeros 128) 128 none;
          tcb_name = copy_member (zeros 256) 256 (some (c_string t.tcb_name));
          tcb_version = copy_member (zeros 32) 32 (some (c_string t.tcb_version));
          hw = read_tpm_quote hw_names (some tcb_sign) no_quote;
          sw = read_tpm_quote sw_names (some tcb_sign) no_quote;
          enclave = no_enclave;
          isv_certificate = none;
        },
        rw parsed,
        λ i. record {
          signature = c_string (no_string (zeros 128) 128 i);
          tcb_name = copy_member-zeros 256 256 t.tcb_name fits.0 i;
          tcb_version = copy_member-zeros 32 32 t.tcb_version fits.1 i;
          hw = read_hw t.hw fits.2 (is_quoted t.hw) (is_quoted t.sw) t refl i;
          sw = read_sw t.sw fits.3 (is_quoted t.hw) (is_quoted t.sw) t refl i;
          enclave = enclave_content no_enclave;
          isv_certificate = none;
        },
      )

  -- And in a build for SGX.
  extract_tcb_signature-sgx :
      0 < rsize_max_str
      → ((n : ℕ) → allocates n ≡ true)
      → length certificate < 2 ^ 64
      → t.isv_certificate ≡ some certificate
      → j.parse buf ≡ some (tcb_value true t certificate)
      → (read : TcbSig) × (extract_tcb_signature true rsize_max_str allocates j
            (some buf)
            cleared_tcb
          ≡ ok read)
        × (tcb_content read ≡ tcb_content (written true t))
  unfolding extract_tcb_signature get_item equal
  extract_tcb_signature-sgx r_pos room small cert parsed =
      let tcb_sign : Json = object (one (codes "SGX_ENCLAVE_Quote") (enclave_value t.enclave)) in
      let (block, copied, same) =
        duplicate-some rsize_max_str allocates none certificate r_pos room small in
      (
        record {
          signature = copy_member (zeros 128) 128 none;
          tcb_name = copy_member (zeros 256) 256 (some (c_string t.tcb_name));
          tcb_version = copy_member (zeros 32) 32 (some (c_string t.tcb_version));
          hw = read_tpm_quote hw_names (some tcb_sign) no_quote;
          sw = read_tpm_quote sw_names (some tcb_sign) no_quote;
          enclave = read_sgx_quote true (some tcb_sign) no_enclave;
          isv_certificate = some block;
        },
        rw (parsed, copied),
        λ i. record {
          signature = c_string (no_string (zeros 128) 128 i);
          tcb_name = copy_member-zeros 256 256 t.tcb_name fits.0 i;
          tcb_version = copy_member-zeros 32 32 t.tcb_version fits.1 i;
          hw = quote_content (no_tpm hw_names t.enclave refl i);
          sw = quote_content (no_tpm sw_names t.enclave refl i);
          enclave = read_enclave t.enclave fits.4 fits.5 i;
          isv_certificate = (ap some same ∙ ap text_content (sym cert)) i;
        },
      )

module _ (j : JsonLibrary) (lawful : IsLawful j) (rsize_max_str : ℕ) (allocates : ℕ → Bool)
    (r_pos : 0 < rsize_max_str) (room : (n : ℕ) → allocates n ≡ true) where
  read_back :
      (sgx : Bool) (buf : Bytes) (t : TcbSig) (certificate : Bytes)
      → TcbFits t
      → t.isv_certificate ≡ some certificate
      → length certificate < 2 ^ 64
      → j.parse buf ≡ some (tcb_value sgx t certificate)
      → (read : TcbSig) × (extract_tcb_signature sgx rsize_max_str allocates j
            (some buf)
            cleared_tcb
          ≡ ok read)
        × (tcb_content read ≡ tcb_content (written sgx t))
  read_back false buf t certificate fits cert small parsed =
      extract_tcb_signature-tpm rsize_max_str allocates j buf t certificate fits parsed
  read_back true buf t certificate fits cert small parsed =
      extract_tcb_signature-sgx rsize_max_str allocates j buf t certificate fits r_pos room small
        cert parsed

  -- A buffer that was written, and whatever has its text, is read.
  pub create_tcb_signature-read :
      (sgx : Bool) (t : TcbSig) (certificate : Bytes) (n k output_buf_size : ℕ)
      → t.isv_certificate ≡ some certificate
      → TcbFits t
      → length certificate < 2 ^ 64
      → Prints j n (tcb_value sgx t certificate)
      → n ≤ output_buf_size
      → n < 2 ^ 64
      → (buf : Bytes) × (create_tcb_signature j sgx rsize_max_str
            (some t)
            output_buf_size
            (some (zeros k))
          ≡ ok buf)
        × ((p : Bytes)
            → c_string p ≡ c_string buf
            → (read : TcbSig) × (extract_tcb_signature sgx rsize_max_str allocates j
                  (some p)
                  cleared_tcb
                ≡ ok read)
              × (tcb_content read ≡ tcb_content (written sgx t)))
  unfolding create_tcb_signature
  create_tcb_signature-read sgx t certificate n k output_buf_size cert fits small prints room_out
        fits_out =
      let (d, made, e) = tcb_document-view j lawful sgx t certificate cert in
      let (buf, printed, parsed) =
        print_item-parse j rsize_max_str d (tcb_value sgx t certificate) n k output_buf_size prints
          e r_pos room_out fits_out in
      (
        buf,
        rw made printed,
        λ p same_text. read_back sgx p t certificate fits cert small (parsed p same_text),
      )

  -- A reference TCB with a certificate, written into a cleared buffer with room and read by the
  -- license service, in a build without SGX: its name and version are read as they are, a TPM's texts
  -- if it has a quote and a key and else none of them, no certificate and no enclave. In a build for
  -- SGX: its name, version, enclave and certificate as they are, and no TPM. cJSON is lawful, memory
  -- can be had, and the texts fit the arrays of the license service.
  pub extract_tcb_signature-create_tcb_signature :
      (sgx : Bool) (t : TcbSig) (certificate : Bytes) (n k output_buf_size : ℕ)
      → t.isv_certificate ≡ some certificate
      → TcbFits t
      → length certificate < 2 ^ 64
      → Prints j n (tcb_value sgx t certificate)
      → n ≤ output_buf_size
      → n < 2 ^ 64
      → (buf : Bytes) × (create_tcb_signature j sgx rsize_max_str
            (some t)
            output_buf_size
            (some (zeros k))
          ≡ ok buf)
        × (read : TcbSig) × (extract_tcb_signature sgx rsize_max_str allocates j
              (some buf)
              cleared_tcb
            ≡ ok read)
        × (tcb_content read ≡ tcb_content (written sgx t))
  extract_tcb_signature-create_tcb_signature sgx t certificate n k output_buf_size cert fits small
        prints room_out fits_out =
      let (buf, made, readable) =
        create_tcb_signature-read sgx t certificate n k output_buf_size cert fits small prints
          room_out fits_out in
      let (read, done, same) = readable buf refl in (buf, made, read, done, same)
