-- ===== src/Client.antt =====
-- The client of the license service in the runtime: Ovsa_runtime/src/common/license_service_client.c,
-- and the messages that it makes with Ovsa_tool/src/app/json.c.
pub mod Messages
pub mod Session
pub mod Passed
pub mod Arrives
pub mod Received
pub mod Takes
pub mod Ends
pub mod Updated
pub mod Tests
use security_addon.Base.{
  ℕ, zero, suc, ◌+◌, ◌-◌, ◌*◌, ◌/◌, ◌%◌, ◌^◌, ◌≤◌, ◌<◌, min, ◌≡◌, refl, sym, ap, ◌∙◌, ◌≢◌, ◌⊎◌, inl,
  inr, Bool, true, false, not, ◌&&◌, ◌||◌, Option, none, some, List, [], ◌∷◌, ◌++◌, append-nil,
  append_assoc, arith, ltb, leb, ◌==◌, if◌then◌else◌, Bytes, Bool-cases, Option-cases, length, take,
  drop, map,
}
use security_addon.Status.{Result, fault, err, ok, ⊤}
use security_addon.Transport.{Arrival, Departure}
use security_addon.Json.{JsonLibrary}

-- What the client calls. `sign_mem` signs with the second key of its pair; `opens` and `writes` are
-- the answers of fopen and fwrite for the license's file, call after call; the two answers to the
-- TPM's messages (tcb_tpm.c) only write to the connection.
pub record ClientPlatform : Type 1 where
  pub rsize_max_str : ℕ
  pub allocates : ℕ → Bool
  pub sgx : Bool
  pub json : JsonLibrary
  pub sign_mem : Option Bytes → ℕ → Result Bytes
  pub opens : ℕ → Bool
  pub writes : ℕ → Bool
  pub send_ek_ak_bind_info : ℕ → List Departure → Result ⊤ × Bytes × List Departure
  pub get_quote_nonce : ℕ → Bytes → Bytes → List Departure → Result ⊤ × Bytes × List Departure

-- The connection's answers, what has been sent, and the license's file. The clock counts messages.
pub record ClientState : Type 0 where
  pub clock : ℕ
  pub incoming : List Arrival
  pub outgoing : List Departure
  pub wire : Bytes
  pub license_file : Bytes

abbrev pub Act {ℓ} : Type ℓ → Type ℓ
Act A = ClientState → Result A × ClientState

abbrev pub lift {ℓ} : {A : Type ℓ} → Result A → Act A
lift result s = (result, s)

-- `if (ret < OVSA_OK) goto out;`
abbrev pub next_step {ℓ κ} :
    {A : Type ℓ} {B : Type κ} → Result A × ClientState → (A → Act B) → Result B × ClientState
next_step (fault, s) next = (fault, s)
next_step (err e, s) next = (err e, s)
next_step (ok a, s) next = next a s

infixl 5 ◌>>=◌ ◌>>◌
abbrev pub ◌>>=◌ {ℓ κ} : {A : Type ℓ} {B : Type κ} → Act A → (A → Act B) → Act B
◌>>=◌ step next s = next_step (step s) next

abbrev pub ◌>>◌ {ℓ κ} : {A : Type ℓ} {B : Type κ} → Act A → Act B → Act B
step >> last = step >>= λ _. last
