-- ===== src/Protocol.antt =====
-- License_service/src/app/license_service_server.c: the state of one session, what the session
-- takes from libraries and the TPM tools, and the chain of fallible steps on it. What a step has
-- written stays written when it fails. Other parts of the service that a session calls are fields
-- of Platform too: the crypto wrappers, the JSON readers of licenses, the readers of quotes.
pub mod Json
pub mod Loop
pub mod Bind
pub mod Tcb
pub mod License
pub mod Callback
pub mod Keeps
pub mod Vouched
pub mod Tests
use security_addon.Base.{
  ℕ, zero, suc, ◌+◌, ◌-◌, ◌*◌, ◌/◌, ◌%◌, ◌^◌, ◌≤◌, ◌<◌, min, ◌≡◌, refl, sym, ap, ◌∙◌, ◌≢◌, ◌⊎◌, inl,
  inr, Bool, true, false, not, ◌&&◌, ◌||◌, Option, none, some, List, [], ◌∷◌, ◌++◌, append-nil,
  append_assoc, arith, ltb, leb, ◌==◌, if◌then◌else◌, Bytes, Bool-cases, Option-cases, length, take,
  drop,
}
use security_addon.Base.{codes}
use security_addon.Base.Int.{ℤ}
use security_addon.Status.{Status, Result, ok, err, fault, ⊤, guard}
use security_addon.Transport.{Arrival, Departure, Notice, service_write}
use security_addon.Pcr.{Tpm}
use security_addon.Database.{Table, Calls}

-- ovsa_quote_info_t: `quote_pcr` and the signed message.
pub record Quote : Type 0 where
  pub quote_pcr : Option Bytes
  pub quote_message : Option Bytes

-- ovsa_tcb_info_t
pub record TcbInfo : Type 0 where
  pub sw_quote : Bytes
  pub sw_pcr_id_set : Bytes
  pub hw_quote : Bytes
  pub hw_pcr_id_set : Bytes
  pub mrenclave : Bytes
  pub mrsigner : Bytes
  pub isv_svn : ℕ
  pub isv_prod_id : ℕ

-- ovsa_sgx_measurement_t
pub record SgxMeasurement : Type 0 where
  pub quoting_enclave : Bytes
  pub quoting_signer : Bytes
  pub quoting_isv_svn : ℕ
  pub quoting_isv_prod_id : ℕ

-- What the session reads of ovsa_customer_license_sig_t.
pub record CustomerLicense : Type 0 where
  pub license_guid : Bytes
  pub model_guid : Bytes
  pub tcb_signatures : List Bytes

-- What a session calls. A clock counts the calls whose answer may differ from one to the next.
-- `parse` is cJSON_Parse with cJSON_GetObjectItemCaseSensitive and cJSON_IsString on its result;
-- `print` is the creation and the printing of an object with a command and a payload; `strtol`
-- gives the number and the text behind it; `tls` and `ratls` say whether the port is g_tls_port,
-- and, in a build with SGX, g_ratls_port.
pub record Platform : Type 0 where
  pub rsize_max_str : ℕ
  pub allocates : ℕ → Bool
  pub tls : Bool
  pub ratls : Bool
  pub sgx_measurement : SgxMeasurement
  pub calls : ℕ → Calls
  pub create_nonce : ℕ → Result Bytes
  pub parse : Bytes → Option (Bytes → Option Bytes)
  pub print : Bytes → Bytes → Result Bytes
  pub strtol : Bytes → ℤ × Bytes
  pub verify_certificate : Bytes → Option Bytes → Result ⊤
  pub verify_mem : Bytes → Bytes → Option Bytes → Result ⊤
  pub extract_pubkey : Bytes → Result Bytes
  pub extract_customer_license : Option Bytes → CustomerLicense → Result CustomerLicense
  pub extract_tcb_signature : Bytes → Result TcbInfo
  pub make_credential : ℕ → Option Bytes → Bytes → Result Bytes
  pub credential_quote : ℕ → Result Bytes
  pub extract_sw_quote : Option Bytes → Result Quote
  pub extract_hw_quote : Option Bytes → Quote → Result (Quote × Quote)
  pub tpm : Tpm
  pub verify_quote : Quote → Quote → Result ⊤

-- A session but for what it reads: the connection's answers to writes and what has gone out, the
-- database, the response, `client_platform_cert` of its ovsa_thread_info, the nonce and its
-- signature, the license, and the secret in the session's temporary directory.
pub record Session : Type 0 where
  pub clock : ℕ
  pub outgoing : List Departure
  pub wire : Bytes
  pub closing : List Notice
  pub table : Table
  pub response : Bytes
  pub client_platform_cert : Bytes
  pub nonce_buf : Bytes
  pub payload_signature : Option Bytes
  pub customer_license : CustomerLicense
  pub secret_file : Option Bytes

abbrev pub Action : Type 0 → Type 0
Action A = Session → Result A × Session

module _ {A : Type 0} where
  abbrev pub pure : A → Action A
  pure a s = (ok a, s)

  -- A step that leaves the session alone.
  abbrev pub lift : Result A → Action A
  lift r s = (r, s)

  abbrev pub gets : (Session → A) → Action A
  gets f s = (ok (f s), s)

abbrev pub modify : (Session → Session) → Action ⊤
modify f s = (ok tt, f s)

abbrev pub after : {A B : Type 0} → (A → Action B) → Result A × Session → Result B × Session
after f (ok a, s) = f a s
after f (err e, s) = (err e, s)
after f (fault, s) = (fault, s)

infixl 5 ◌>>=◌ ◌>>◌
abbrev pub ◌>>=◌ : {A B : Type 0} → Action A → (A → Action B) → Action B
◌>>=◌ m f s = after f (m s)

abbrev pub ◌>>◌ : {A B : Type 0} → Action A → Action B → Action B
◌>>◌ m k = m >>= λ _. k

-- `if (ret < OVSA_OK) { memcpy_s(response, ...); goto out; }` behind a step.
abbrev settle_error : {A : Type 0} → (Session → Session) → Result A × Session → Result A × Session
settle_error f (err e, s) = (err e, f s)
settle_error f (ok a, s) = (ok a, s)
settle_error f (fault, s) = (fault, s)

-- `memcpy_s(response, MAX_NAME_SIZE, text, strnlen_s(text, MAX_NAME_SIZE))`. Every write of the
-- response is the only one of its session, so it falls on a cleared buffer, and the C string there
-- is the text.
abbrev pub respond : Bytes → Session → Session
respond text s = record s { response = text }

abbrev pub or_respond : {A : Type 0} → Action A → Bytes → Action A
or_respond m text s = settle_error (respond text) (m s)

-- The number of the next call of a library.
abbrev pub tick : Action ℕ
tick s = (ok s.clock, record s { clock = suc s.clock })

-- ovsa_license_service_write on the session.
abbrev wrote : Session → Result ⊤ × Bytes × List Departure → Result ⊤ × Session
wrote s (r, sent, es) = (r, record s { outgoing = es; wire = s.wire ++ sent })

unfoldable pub write : Bytes → Action ⊤
write buf s = wrote s (service_write s.outgoing buf)
