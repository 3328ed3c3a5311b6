-- ===== src/Tcb/Tests.antt =====
-- The round trip of a reference TCB with a software TPM's quote and none of a hardware TPM.
use security_addon.Base.{◌≡◌, refl, true, false, some, [], Bytes, arith, codes}
use security_addon.Memory.{zeros}
use security_addon.Status.{ok}
use security_addon.Json.{Json}
use security_addon.Json.Plain.{plain, plain-IsLawful, plain-Prints}
use security_addon.Tcb.{TcbSig, create_tcb_signature, extract_tcb_signature}
use security_addon.Tcb.Written.{tcb_content, no_enclave, cleared_tcb, written, tcb_value}
use security_addon.Tcb.RoundTrip.{extract_tcb_signature-create_tcb_signature}

abbrev generated : TcbSig
generated = record {
  signature = [];
  tcb_name = codes "tcb";
  tcb_version = codes "1";
  hw = record { quote = codes "q"; pub_key = []; pcr_set = codes "0xFF" };
  sw = record { quote = codes "quote"; pub_key = codes "key"; pcr_set = codes "0x0F" };
  enclave = no_enclave;
  isv_certificate = some (codes "cert");
}

abbrev generated_value : Json
generated_value = tcb_value false generated (codes "cert")

extract_tcb_signature-create_tcb_signature_example :
    (buf : Bytes) × (create_tcb_signature
        (plain (λ _. generated_value))
        false
        100
        (some generated)
        4096
        (some (zeros 4096))
      ≡ ok buf)
    × (read : TcbSig) × (extract_tcb_signature false 100
          (λ _. true)
          (plain (λ _. generated_value))
          (some buf)
          cleared_tcb
        ≡ ok read)
    × (tcb_content read ≡ tcb_content (written false generated))
extract_tcb_signature-create_tcb_signature_example =
    extract_tcb_signature-create_tcb_signature (plain (λ _. generated_value))
      (plain-IsLawful (λ _. generated_value)) 100 (λ _. true) (omega arith) (λ _. refl) false
      generated (codes "cert") 1 4096 4096 refl
      (
        omega arith,
        omega arith,
        (omega arith, omega arith, omega arith),
        (omega arith, omega arith, omega arith),
        omega arith,
        omega arith,
      )
      (omega arith) (plain-Prints (λ _. generated_value) generated_value refl) (omega arith)
      (omega arith)
