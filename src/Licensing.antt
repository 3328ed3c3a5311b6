-- ===== src/Licensing.antt =====
-- Customer licenses as JSON texts: Ovsa_tool/src/app/json.c writes them when a license is sold, and
-- the same file and License_service/src/app/json.c read them. The structs are those of
-- License_service/include/license_service.h and Ovsa_tool/include/ovsa_tool.h.
pub mod Write
pub mod Read
pub mod Names
pub mod Written
pub mod RoundTrip
pub mod Config
pub mod Master
pub mod Tests
use security_addon.Base.{Bool, true, false, Option, none, some, List, [], ◌∷◌, if◌then◌else◌, Bytes}
use security_addon.Base.{codes, equal}
use security_addon.Base.Int.{ℤ, pos}
use security_addon.Memory.{c_string, zeros}
use security_addon.Status.{Result, fault, ok}

-- ovsa_license_type_t
pub data LicenseType : Type 0 where
  sale instance_limit time_limit max_license_type : LicenseType

-- ovsa_license_serv_url_list_t but for `next`.
pub record ServUrl : Type 0 where
  pub license_serv_url : Bytes
  pub cur_cert_hash : Bytes
  pub fut_cert_hash : Bytes

-- ovsa_customer_license_sig_t with the license in it. A `tcb_signature` may be NULL.
pub record LicenseSig : Type 0 where
  pub signature : Bytes
  pub license_name : Bytes
  pub license_version : Bytes
  pub creation_date : Bytes
  pub model_hash : Bytes
  pub encryption_key : Bytes
  pub license_type : LicenseType
  pub usage_count : ℤ
  pub time_limit : ℤ
  pub license_guid : Bytes
  pub model_guid : Bytes
  pub isv_certificate : Option Bytes
  pub license_url_list : List ServUrl
  pub tcb_signatures : List (Option Bytes)

-- `ovsa_json_get_license_type_string`
unfoldable pub get_license_type_string : LicenseType → Option Bytes
get_license_type_string sale = some (codes "Sale")
get_license_type_string instance_limit = some (codes "InstanceLimit")
get_license_type_string time_limit = some (codes "TimeLimit")
get_license_type_string max_license_type = none

-- `ovsa_license_service_json_map_license_type`
unfoldable pub map_license_type : Bytes → LicenseType
unfolding equal
map_license_type lictype =
    if equal lictype (codes "Sale")
    then sale
    else if equal lictype (codes "InstanceLimit")
    then instance_limit
    else if equal lictype (codes "TimeLimit")
    then time_limit
    else max_license_type
