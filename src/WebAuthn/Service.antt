-- ===== src/WebAuthn/Service.antt =====
-- `WebAuthnService`. The fido2 library, base64 and the JSON reader are parameters: a call of them
-- gives its value, or the message of the exception that it raises. The options that a ceremony
-- starts with are the library's; its challenge and its state are arguments here.
use auth_n_z.Common.{
  leb, if◌then◌else◌, is_some, or_default, Dict, lookup, insert, remove, ℕ, ◌+◌, String, Option,
  none, some, List, [], ◌∷◌, ◌==◌, text_append,
}
use auth_n_z.Common.Rows.{Reply, ok, raised}
use auth_n_z.Common.Redis.{Redis}

-- a verified attestation
pub record Attested : Type 0 where
  pub credential_id : String
  pub public_key : String
  pub counter : ℕ
  pub aaguid : String

pub record Passkey : Type 0 where
  pub credential_id : String
  pub public_key : String
  pub device_label : String
  pub created_at : ℕ
  pub last_used_at : ℕ
  pub sign_count : ℕ
  pub transports : List String
  pub aaguid : String

-- the answer of an authenticator to an authentication
pub record Assertion : Type 0 where
  pub client_data : String
  pub credential_id : String
  pub authenticator_data : String
  pub signature : String
  pub user_handle : Option String

-- the answer of an authenticator to a registration
pub record Registration : Type 0 where
  pub client_data : String
  pub attestation : String
  pub credential_id : Option String
  pub device_label : Option String
  pub transports : List String

pub record Fido : Type 1 where
  pub State : Type 0
  pub Credential : Type 0
  -- the "challenge" of a clientDataJSON
  pub challenge_of : String → Reply (Option String)
  pub decode : String → Reply String
  -- the id of an attestation object's credential, encoded, if it has credential data
  pub attestation_id : String → Reply (Option String)
  pub register_complete : State → (client_data attestation id : String) → Reply (Option Attested)
  -- a stored public key
  pub unpack : String → Reply Credential
  pub counter_of : String → Reply ℕ
  pub authenticate_complete : State → Credential → Assertion → Reply (Unit {0})

-- an exception of a library becomes a ValueError with its message
unfoldable pub wrap {ℓ} : {A : Type ℓ} → (message : String) → Reply A → Reply A
wrap message (ok a) = ok a
wrap message (raised e) = raised (text_append message e)

module _ (F : Fido) where
  -- the challenge that an answer names
  unfoldable pub challenge_in : (client_data : String) → Reply String
  challenge_in client_data =
      elim (wrap "Invalid clientDataJSON encoding: " (F.challenge_of client_data)) [
        | raised e ↦ raised e
        | ok found ↦
            if or_default found "" == ""
            then raised "Missing challenge in clientDataJSON."
            else ok (or_default found "")
      ]

  -- the data of a pending ceremony
  pub record Ceremony : Type 0 where
    pub kind : String
    pub user_id : Option String
    pub state : F.State

  pub record Json : Type 0 where
    pub dumps : Ceremony → String
    pub loads : String → Option Ceremony

  module _ (R : Redis) (J : Json) where
    pub record Service : Type 0 where
      pub redis : Option R.Db
      pub challenges : Dict (Ceremony × ℕ)

    abbrev pub challenge_key : String → String
    challenge_key id = text_append "webauthn_challenge:" id

    abbrev pub save_in_memory : (now : ℕ) (id : String) → Ceremony → (ttl : ℕ) → Service → Service
    save_in_memory now id data' ttl s = record s {
      challenges = insert id (data', now + ttl) s.challenges;
    }

    -- `_save_challenge`
    unfoldable pub save_challenge :
        (now : ℕ) (id : String) → Ceremony → (ttl : ℕ) → Service → Service
    save_challenge now id data' ttl s = elim s.redis [
      | none ↦ save_in_memory now id data' ttl s
      | some db ↦
          let (done, db') = R.set (challenge_key id) (J.dumps data') ttl db in
          let s' : Service = record s { redis = some db' } in
          if is_some done then s' else save_in_memory now id data' ttl s'
    ]

    -- the Redis part of `_consume_challenge`; none if it finds nothing, or if a call raises
    unfoldable pub consume_in_redis : (id : String) → R.Db → Option Ceremony × R.Db
    consume_in_redis id db =
        let (answer, db1) = R.get (challenge_key id) db in
        elim answer [
          | none ↦ (none, db1)
          | some found ↦
              let (deleted, db2) = R.delete (challenge_key id ∷ []) db1 in
              if or_default found "" == ""
              then (none, db1)
              else (if is_some deleted then J.loads (or_default found "") else none, db2)
        ]

    unfoldable pub pop_challenge : (now : ℕ) (id : String) → Service → Option Ceremony × Service
    pop_challenge now id s = elim (lookup id s.challenges) [
      | none ↦ (none, s)
      | some (data', expires_at) ↦ (
        if leb now expires_at then some data' else none,
        record s { challenges = remove id s.challenges },
      )
    ]

    -- `_consume_challenge`
    unfoldable pub consume_challenge : (now : ℕ) (id : String) → Service → Option Ceremony × Service
    consume_challenge now id s = elim s.redis [
      | none ↦ pop_challenge now id s
      | some db ↦
          let (found, db') = consume_in_redis id db in
          let s' : Service = record s { redis = some db' } in
          if is_some found then (found, s') else pop_challenge now id s'
    ]

    -- `generate_registration_options`, as far as it changes the state
    unfoldable pub generate_registration_options :
        (now : ℕ) (challenge user_id : String) → F.State → Service → Service
    generate_registration_options now challenge user_id state s =
        save_challenge now challenge
          (record { kind = "registration"; user_id = some user_id; state = state }) 300 s

    -- `generate_authentication_options`, as far as it changes the state
    unfoldable pub generate_authentication_options :
        (now : ℕ) (challenge : String) (user_id : Option String) → F.State → Service → Service
    generate_authentication_options now challenge user_id state s =
        save_challenge now challenge
          (record { kind = "authentication"; user_id = user_id; state = state }) 300 s
