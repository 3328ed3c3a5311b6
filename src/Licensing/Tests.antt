-- ===== src/Licensing/Tests.antt =====
-- The theorems on licenses at a license with a URL and a TCB.
use security_addon.Base.{◌≡◌, refl, true, some, [], ◌∷◌, Bytes, arith, codes}
use security_addon.Base.Int.{pos}
use security_addon.Memory.{c_string, zeros}
use security_addon.Status.{ok}
use security_addon.Json.{Json, object}
use security_addon.Json.Plain.{plain, plain-IsLawful, plain-Prints}
use security_addon.Licensing.{instance_limit, LicenseSig, get_license_type_string}
use security_addon.Licensing.Write.{create_customer_license}
use security_addon.Licensing.Read.{service_extract_license}
use security_addon.Licensing.Config.{LicenseConfig, create_license_config, extract_license_config}
use security_addon.Licensing.Config.RoundTrip.{
  config_content, cleared_config, config_value, extract_license_config-create_license_config,
}
use security_addon.Licensing.Master.{MasterLicense, create_master_license, extract_master_license}
use security_addon.Licensing.Master.RoundTrip.{
  master_content, cleared_master, master_value, extract_master_license-create_master_license,
}
use security_addon.Licensing.Written.{content, license_members}
use security_addon.Licensing.RoundTrip.{
  cleared_license, service_extract_license-create_customer_license,
}

abbrev sold : LicenseSig
sold = record {
  signature = [];
  license_name = codes "face";
  license_version = codes "1.0";
  creation_date = codes "2021";
  model_hash = codes "h";
  encryption_key = codes "k";
  license_type = instance_limit;
  usage_count = pos 5;
  time_limit = pos 0;
  license_guid = codes "g";
  model_guid = codes "m";
  isv_certificate = some (codes "cert");
  license_url_list =
      record {
        license_serv_url = codes "host:4451";
        cur_cert_hash = codes "c";
        fut_cert_hash = codes "f";
      }
      ∷ [];
  tcb_signatures = some (codes "tcb") ∷ [];
}

abbrev sold_value : Json
sold_value = object (license_members sold (codes "cert") (codes "InstanceLimit") (codes "tcb" ∷ []))

named_type : get_license_type_string instance_limit ≡ some (codes "InstanceLimit")
unfolding get_license_type_string
named_type = refl

service_extract_license-create_customer_license_example :
    (buf : Bytes) × (create_customer_license
        (plain (λ _. sold_value))
        100
        (some sold)
        4096
        (some (zeros 4096))
      ≡ ok buf)
    × (read : LicenseSig) × (service_extract_license 100
          (λ _. true)
          (plain (λ _. sold_value))
          (some buf)
          (cleared_license 128 128)
        ≡ ok read)
    × (content read ≡ record (content sold) { signature = c_string (zeros 128) })
service_extract_license-create_customer_license_example =
    service_extract_license-create_customer_license (plain (λ _. sold_value))
      (plain-IsLawful (λ _. sold_value)) 100 (λ _. true) (omega arith) (λ _. refl) sold
      (codes "cert") (codes "InstanceLimit") (codes "tcb" ∷ []) 1 4096 4096 refl named_type refl
      (
        omega arith,
        omega arith,
        omega arith,
        omega arith,
        omega arith,
        omega arith,
        omega arith,
        (omega arith, omega arith, omega arith, tt),
      )
      (omega arith) (omega arith, tt) (omega arith) (omega arith)
      (plain-Prints (λ _. sold_value) sold_value refl) (omega arith) (omega arith)

abbrev configured : LicenseConfig
configured = record {
  license_name = codes "face";
  license_version = codes "1.0";
  usage_count = pos 5;
  time_limit = pos 0;
  license_type = instance_limit;
  license_url_list = sold.license_url_list;
  isv_certificate = some (codes "cert");
}

abbrev configured_value : Json
configured_value = config_value configured (codes "cert") (codes "InstanceLimit")

extract_license_config-create_license_config_example :
    (buf : Bytes) × (create_license_config
        (plain (λ _. configured_value))
        100
        (some configured)
        4096
        (some (zeros 4096))
      ≡ ok buf)
    × (read : LicenseConfig) × (extract_license_config
          (plain (λ _. configured_value))
          100
          (λ _. true)
          (some buf)
          cleared_config
        ≡ ok read)
    × (config_content read ≡ config_content configured)
extract_license_config-create_license_config_example =
    extract_license_config-create_license_config (plain (λ _. configured_value)) 100 (λ _. true)
      configured (codes "cert") (codes "InstanceLimit") 1 4096 4096
      (plain-IsLawful (λ _. configured_value)) (omega arith) (λ _. refl) refl named_type
      (omega arith) (omega arith) (omega arith, omega arith, omega arith, tt) (omega arith)
      (omega arith) (plain-Prints (λ _. configured_value) configured_value refl) (omega arith)
      (omega arith)

abbrev master : MasterLicense
master = record {
  signature = [];
  creation_date = codes "2021";
  model_hash = codes "h";
  encryption_key = codes "k";
  license_guid = codes "g";
  model_guid = codes "m";
  isv_certificate = some (codes "cert");
}

abbrev master_text : Json
master_text = master_value master (codes "cert")

extract_master_license-create_master_license_example :
    (buf : Bytes) × (create_master_license
        (plain (λ _. master_text))
        100
        (some master)
        4096
        (some (zeros 4096))
      ≡ ok buf)
    × (read : MasterLicense) × (extract_master_license
          (plain (λ _. master_text))
          100
          (λ _. true)
          (some buf)
          cleared_master
        ≡ ok read)
    × (master_content read ≡ record (master_content master) { signature = c_string (zeros 256) })
extract_master_license-create_master_license_example =
    extract_master_license-create_master_license (plain (λ _. master_text)) 100 (λ _. true) master
      (codes "cert") 1 4096 4096 (plain-IsLawful (λ _. master_text)) (omega arith) (λ _. refl) refl
      (omega arith, omega arith, omega arith, omega arith, omega arith) (omega arith)
      (plain-Prints (λ _. master_text) master_text refl) (omega arith) (omega arith)
