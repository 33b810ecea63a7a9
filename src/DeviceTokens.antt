-- ===== src/DeviceTokens.antt =====
-- src/deviceTokens.ts: the tokens of the devices. The file is the list `records`, times are milliseconds
-- but for the expiry in a token, which is in seconds. `sign` is the signature with the server's key, of
-- the id, the account name, the account id and the expiry. A token is taken apart already: its three
-- parts after the prefix.
pub mod Issue
pub mod Revoke
mod Tests
use hydra_umc_server.Prelude.{
  is_same, ℕ, ◌+◌, ◌-◌, ◌*◌, ◌/◌, String, Option, none, some, Bool, true, false, ◌&&◌, List, [],
  ◌∷◌, ◌++◌, length, keep, not, ltb, leb, ◌==◌, if◌then◌else◌, string_discrete, ite,
}

abbrev pub day_ms : ℕ
day_ms = 86400000

abbrev pub device_record_keep_days : ℕ
device_record_keep_days = 90

pub record DeviceTokenRecord : Type 0 where
  pub id : String
  pub name : String
  pub username : String
  pub account_id : String
  pub created_at : ℕ
  pub created_by : String
  pub expires_at : ℕ
  pub revoked_at : Option ℕ
  pub last_used_at : Option ℕ

pub data DeviceTokenState : Type 0 where
  active expired revoked : DeviceTokenState

pub record DeviceToken : Type 0 where
  pub id : String
  pub expires_at_seconds : ℕ
  pub given : String

pub data VerifyReason : Type 0 where
  unknown bad_signature is_expired is_revoked : VerifyReason

pub data VerifyResult : Type 0 where
  verified : DeviceTokenRecord → VerifyResult
  rejected : VerifyReason → VerifyResult

abbrev pub state_by : ℕ → ℕ → Option ℕ → DeviceTokenState
state_by now expires_at (some t) = revoked
state_by now expires_at none = if leb expires_at now then expired else active

abbrev pub state_of : ℕ → DeviceTokenRecord → DeviceTokenState
state_of now r = state_by now r.expires_at r.revoked_at

abbrev pub is_active_state : DeviceTokenState → Bool
is_active_state active = true
is_active_state _ = false

abbrev pub is_active_record : ℕ → DeviceTokenRecord → Bool
is_active_record now r = is_active_state (state_of now r)

pub active_count : ℕ → List DeviceTokenRecord → ℕ
active_count now records = length (keep (is_active_record now) records)

pub find_record : String → List DeviceTokenRecord → Option DeviceTokenRecord
find_record id [] = none
find_record id (r ∷ records) = if is_same r.id id then some r else find_record id records

abbrev pub is_active_option : ℕ → Option DeviceTokenRecord → Bool
is_active_option now none = false
is_active_option now (some r) = is_active_record now r

pub is_active : ℕ → String → List DeviceTokenRecord → Bool
unfolding find_record
is_active now id records = is_active_option now (find_record id records)

abbrev pub ended_at : Option ℕ → ℕ → ℕ
ended_at none expires_at = expires_at
ended_at (some t) expires_at = t

abbrev pub is_forgotten : ℕ → DeviceTokenRecord → Bool
is_forgotten now r =
    not (is_active_record now r)
    && ltb (device_record_keep_days * day_ms) (now - ended_at r.revoked_at r.expires_at)

pub record IssueInput : Type 0 where
  pub name : String
  pub username : String
  pub account_id : String
  pub days : ℕ
  pub created_by : String
  pub max_devices : ℕ

abbrev pub kept_records : ℕ → List DeviceTokenRecord → List DeviceTokenRecord
kept_records now records = keep (λ r. not (is_forgotten now r)) records

abbrev pub expiry_seconds : ℕ → IssueInput → ℕ
expiry_seconds now input = (now + input.days * day_ms) / 1000

abbrev pub issued_record : ℕ → String → IssueInput → DeviceTokenRecord
issued_record now id input = record {
  id = id;
  name = input.name;
  username = input.username;
  account_id = input.account_id;
  created_at = now;
  created_by = input.created_by;
  expires_at = expiry_seconds now input * 1000;
  revoked_at = none;
  last_used_at = none;
}

-- The first record with the id, changed.
pub update_record :
    String
    → (DeviceTokenRecord → DeviceTokenRecord)
    → List DeviceTokenRecord
    → List DeviceTokenRecord
update_record id f [] = []
update_record id f (r ∷ records) =
    if is_same r.id id then f r ∷ records else r ∷ update_record id f records

abbrev pub revoke_found :
    ℕ → String → List DeviceTokenRecord → Option DeviceTokenRecord → List DeviceTokenRecord × Bool
revoke_found now id records none = (records, false)
revoke_found now id records (some r) = elim r.revoked_at [
  | some t ↦ (records, false)
  | none ↦ (update_record id (λ x. record x { revoked_at = some now }) records, true)
]

pub revoke : ℕ → String → List DeviceTokenRecord → List DeviceTokenRecord × Bool
revoke now id records = revoke_found now id records (find_record id records)

module _ (sign : String → String → String → ℕ → String) where
  -- `none` is the error 409: there are too many active tokens.
  pub issue :
      ℕ
      → String
      → IssueInput
      → List DeviceTokenRecord
      → Option (List DeviceTokenRecord × DeviceToken)
  issue now id input records =
      let kept = kept_records now records in
      let seconds = expiry_seconds now input in
      if leb input.max_devices (active_count now kept)
      then none
      else some (
        kept ++ issued_record now id input ∷ [],
        record {
          id = id;
          expires_at_seconds = seconds;
          given = sign id input.username input.account_id seconds;
        },
      )

  abbrev pub verify_time :
      ℕ
      → DeviceToken
      → List DeviceTokenRecord
      → DeviceTokenRecord
      → Option ℕ
      → List DeviceTokenRecord × VerifyResult
  verify_time now token records r (some t) = (records, rejected is_revoked)
  verify_time now token records r none =
      if leb (token.expires_at_seconds * 1000) now then (records, rejected is_expired) else (
        update_record token.id (λ x. record x { last_used_at = some now }) records,
        verified (record r { last_used_at = some now }),
      )

  abbrev pub verify_found :
      ℕ
      → DeviceToken
      → List DeviceTokenRecord
      → Option DeviceTokenRecord
      → List DeviceTokenRecord × VerifyResult
  verify_found now token records none = (records, rejected unknown)
  verify_found now token records (some r) =
      if not (is_same (sign token.id r.username r.account_id token.expires_at_seconds) token.given)
      then (records, rejected bad_signature)
      else if not (r.expires_at / 1000 == token.expires_at_seconds)
      then (records, rejected bad_signature)
      else verify_time now token records r r.revoked_at

  pub verify : ℕ → DeviceToken → List DeviceTokenRecord → List DeviceTokenRecord × VerifyResult
  verify now token records = verify_found now token records (find_record token.id records)
