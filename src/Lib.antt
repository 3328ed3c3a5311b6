-- ===== src/Lib.antt =====
-- A model of the license service of the security add-on, and what is proved of it.
--
-- A client that wants to run a protected model connects to the license service. One session has two
-- exchanges of JSON messages, each message behind eight digits with its length. In the first, on the
-- TLS port only, the client shows its platform's certificate and its TPM's key, gets a secret that
-- only this TPM can open and a nonce to quote, and answers with the secret and the quotes. In the
-- second it signs a nonce and shows its license, which the service brings up to date. Then the
-- service checks the certificate, the quotes and the signature against its database and the license,
-- counts one use of the license, and sends one response, which is "PASS" or says what failed.
--
-- On the other side, the tool's crypto library keeps the vendor's and the customer's keys in slots:
-- symmetric keys, key pairs, and the certificates of the pairs.
--
-- The modules, and the code that they model, of License_service/src/app where nothing else is said:
--   Base: names of the libraries, tests, lists, texts and integers for every other module.
--   Status: ovsa_status_t of License_service/include/license_service.h, and a call's outcome: a
--   value, an error, or the crash of a null pointer.
--   Memory: the bounded string functions of the C standard's Annex K that the service calls, on
--   lists of bytes.
--   Decimal: "%08ld" of snprintf, and atoi.
--   Strings: utils.c: ovsa_license_service_safe_add, _safe_malloc, _get_string_length,
--   _string_concat and _append_payload_len_to_blob.
--   Database: db.c: ovsa_db_get_customer_primary_certificate, _secondary_certificate and
--   _license_blob, and ovsa_db_validate_license_usage, whose select and update are apart, so that
--   Database/Concurrent can interleave those of several threads.
--   Transport: license_service_server.c: ovsa_license_service_read, _write and _close, on the list of
--   what mbedTLS answers call after call.
--   Protocol: license_service_server.c: a session. Protocol/Json: json.c (one element out of a
--   message, one message made) and the frames; Protocol/Loop: the two loops of messages;
--   Protocol/Bind: the first exchange; Protocol/License: the second; Protocol/Tcb: the quotes or the
--   SGX measurement against the license's TCBs; Protocol/Callback: the callback itself.
--   Pcr: license_service_server.c: ovsa_license_service_do_verify_pcr_ids; Pcr/Read: do_validate_pcr,
--   and crypto.c, ovsa_license_service_crypto_convert_base64_to_bin.
--   KeyStore: Ovsa_tool/src/lib/libovsa. KeyStore/Symmetric: symmetric.c, ovsa_crypto_RNG and the
--   adding, generating and (utils.c) clearing of a key; KeyStore/Symmetric/Spec: the map of keys that
--   they promise. KeyStore/Asymmetric: asymmetric.c, the adding, loading and finding of a key pair;
--   KeyStore/Certificates: the adding, storing and reading of a certificate, and (utils.c) the
--   clearing of a pair; KeyStore/Compare: utils.c, ovsa_compare_strings;
--   KeyStore/Json: utils.c, ovsa_json_create_isv_keystore, _extract_keystore_info,
--   _create_encrypted_keystore, _extract_encrypted_keystore, _apend_signature,
--   _extract_and_strip_signature and _getitem_size, and the end of ovsa_crypto_extract_keystore.
--   Json: the values of cJSON and the calls of it. Licensing: Ovsa_tool/src/app/json.c, the writing of
--   customer licenses (Licensing/Write), license configurations (Config) and master licenses
--   (Master); Licensing/Read: json.c of both programs, the reading of a customer license. Tcb: the
--   writing of a reference TCB in Ovsa_tool/src/app/json.c and its reading in json.c. Models: the
--   writing and reading of protected models in Ovsa_tool/src/app/json.c.
--   Socket: Ovsa_runtime/src/common/license_service_client.c: ovsa_socket_read, on what recv answers.
--   Client: the session of the runtime with the license service, of the same file. Client/Messages:
--   its messages, with Ovsa_tool/src/app/json.c; Client/Session: the loop of
--   ovsa_perform_tls_license_check and what it calls but for the two messages of the TPM;
--   Client/Received puts the sender of a message and its receiver together.
-- Children named Laws, Length, Frame, Exact, Usage, Quiet, Pass and the like hold proofs, and those
-- named Tests the theorems at concrete inputs.
--
-- Fuel: the loops of strings take one round more than the object has bytes, and every round takes
-- a chunk of at least one byte. The loops of messages take their rounds as an argument; each
-- message takes eight bytes of the stream at least, so one round more than there are bytes is
-- enough; the client's loop takes its own in the same way.
--
-- Parameters, since their code is not here or is not modelled: SQLite's answers and the clock
-- (Calls), mbedTLS, the allocator, RSIZE_MAX_STR, cJSON (CJson, JsonLibrary), strtol,
-- strlastchar_s, the verification of certificates and signatures, the TPM tools with the
-- credential and the quotes that they make, the TPM library's types and limits, memcmp_s,
-- strcmp_s, OpenSSL's random bytes, BIOs and base64, the keystore's file, and the extraction of
-- licenses and TCBs from JSON (Platform, Tpm, OpenSsl, Checks); for the client, the signing of a
-- nonce, the answers of fopen and fwrite, and the answers to the TPM's messages (ClientPlatform).
-- A session has its table to itself; what other sessions do in between is in Database/Concurrent
-- alone.
--
-- The safe string library's own bound on the sizes of copies, RSIZE_MAX_MEM (256 MB), is not in the
-- model of its functions; its comparison of strings has no error, since no caller passes a null
-- pointer or a bound that is zero or too large.
--
-- Not modelled: the sockets, threads and TLS configuration of the server, certverify.c, the
-- OpenSSL wrappers of crypto.c but for base64, the command line tool of Ovsa_tool but for the
-- JSON of its artifacts and messages, the rest of its library (signing, encryption, certificates'
-- verification, the files of keystores) and of Ovsa_runtime.
pub mod Base
pub mod Status
pub mod Memory
pub mod Decimal
pub mod Strings
pub mod Database
pub mod Transport
pub mod KeyStore
pub mod Pcr
pub mod Protocol
pub mod Socket
pub mod Json
pub mod Licensing
pub mod Tcb
pub mod Models
pub mod Client
