-- ===== src/Status.antt =====
-- `ovsa_status_t` of License_service/include/license_service.h, and what a call comes back with.
-- A C function of the license service returns 0 or more for success and a negative status for
-- an error; every caller tests `ret < OVSA_OK`, so a value and an error are told apart by `Result`.
use security_addon.Base.{◌≡◌, refl, Bool, true, false}

-- The negative members of `ovsa_status_t` that the modelled code returns. The last three are the
-- bare -1, `-EINVAL` and `-ECONNRESET` that some functions return instead.
pub data Status : Type 0 where
  invalid_parameter invalid_file_path fileopen_fail fileio_fail memio_error memory_alloc_fail :
      Status
  crypto_bio_error crypto_generic_error mutex_lock_fail mutex_unlock_fail : Status
  json_error_add_element json_memory_alloc_fail json_error_create_object : Status
  json_invalid_input json_parse_fail json_print_fail : Status
  mbedtls_ssl_write_failed mbedtls_ssl_read_failed mbedtls_ssl_close_failed : Status
  tcb_validation_failed tpm2_credential_secret_validation_failed invalid_cmd_type : Status
  db_init_fail db_update_fail db_query_fail db_timelimt_fail db_usagelimit_fail : Status
  tpm2_cmd_exec_fail integer_overflow pcr_validation_failed pcr_id_not_valid : Status
  pcr_count_not_valid platform_cert_validation_failed pcr_digest_not_valid tcb_not_valid : Status
  fail minus_one einval econnreset license_check_fail : Status

-- `fault` is no return: the code has dereferenced a null pointer, and the process is gone.
pub data Result {ℓ} (A : Type ℓ) : Type ℓ where
  fault : Result A
  err : (ret : Status) → Result A
  ok : (value : A) → Result A

abbrev pub ⊤ : Type 0
⊤ = Unit

-- `if (!b) { ret = e; goto out; }`
abbrev pub guard : (holds : Bool) (otherwise : Status) → Result ⊤
guard holds otherwise = elim holds [ true ↦ ok tt | false ↦ err otherwise ]

-- `ret < OVSA_OK` with the status replaced by another, as in `ret = OVSA_MEMORY_ALLOC_FAIL`.
abbrev pub or_status {ℓ} : {A : Type ℓ} → Result A → Status → Result A
or_status fault _ = fault
or_status (err _) instead = err instead
or_status (ok value) _ = ok value

-- `if (ret < OVSA_OK) goto out;` between two steps.
infixl 5 ◌>>=◌ ◌>>◌
abbrev pub ◌>>=◌ {ℓ κ} :
    {A : Type ℓ} {B : Type κ} (step : Result A) (next : A → Result B) → Result B
fault >>= next = fault
err ret >>= next = err ret
ok value >>= next = next value

abbrev pub ◌>>◌ {ℓ κ} : {A : Type ℓ} {B : Type κ} (step : Result A) (last : Result B) → Result B
step >> last = step >>= λ _. last

module _ {ℓ κ} {A : Type ℓ} {B : Type κ} where
  -- Both steps of a chain that succeeds have succeeded.
  pub ok_of_>>= :
      (step : Result A) (next : A → Result B) {out : B}
      → (step >>= next) ≡ ok out
      → (value : A) × (step ≡ ok value) × (next value ≡ ok out)
  ok_of_>>= fault next done = cc
  ok_of_>>= (err ret) next done = cc
  ok_of_>>= (ok value) next done = (value, refl, done)

pub guard-ok :
    (holds : Bool) (otherwise : Status) {done : ⊤} → guard holds otherwise ≡ ok done → holds ≡ true
guard-ok true otherwise h = refl
guard-ok false otherwise h = absurd (cc)

pub ok-injective {ℓ} : {A : Type ℓ} {a b : A} → ok a ≡ ok b → a ≡ b
ok-injective e = cc
