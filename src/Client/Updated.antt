-- ===== src/Client/Updated.antt =====
-- The license's file behind an update of it.
use security_addon.Base.{◌^◌, ◌<◌, ◌≡◌, ◌⊎◌, some, [], Bytes, codes, length}
use security_addon.Memory.{c_string}
use security_addon.Status.{Result, fault, err, ok, ⊤}
use security_addon.Protocol.Json.{send_update_cust_license_ack}
use security_addon.Client.{ClientPlatform, ClientState, next_step}
use security_addon.Client.Messages.{extract_element}
use security_addon.Client.Session.{client_send}

module _ (p : ClientPlatform) (r_pos : 0 < p.rsize_max_str) (update_cust_lic_buf : Bytes)
    (sized : (payload : Bytes)
      → extract_element p (some update_cust_lic_buf) (codes "payload") ≡ ok (some payload)
      → length payload < 2 ^ 64) where
  -- The file holds the text of the message's payload.
  abbrev pub IsPayload : Bytes → Type 0
  IsPayload file =
      (payload : Bytes) × (extract_element p (some update_cust_lic_buf) (codes "payload")
        ≡ ok (some payload))
      × (0 < length (c_string payload))
      × (file ≡ c_string payload)

  -- What an update leaves: on success the payload; else the file of before, nothing, or the payload.
  abbrev pub Updated : Bytes → Result ⊤ × ClientState → Type 0
  Updated before (ok _, s) = IsPayload s.license_file
  Updated before (err _, s) =
      (s.license_file ≡ before) ⊎ ((s.license_file ≡ []) ⊎ IsPayload s.license_file)
  Updated before (fault, s) =
      (s.license_file ≡ before) ⊎ ((s.license_file ≡ []) ⊎ IsPayload s.license_file)

  -- The file is written, and the acknowledgement sent.
  abbrev acknowledged : Result ⊤ × ClientState → Result ⊤ × ClientState
  acknowledged step = next_step step (λ _. client_send p send_update_cust_license_ack (some []))
