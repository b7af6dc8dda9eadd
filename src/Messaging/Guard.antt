-- ===== src/Messaging/Guard.antt =====
-- backend/internal/modules/messaging/service/aegis_messaging_guard.go: the guard's maps and its methods.
-- Instants are in milliseconds; the events that it publishes for audit are left out.
use merope.Prelude.{Bool, false, ◌||◌, Option, none, some, String, if◌then◌else◌}
use merope.Prelude.Int.{ℤ, pos, ltb_ℤ, leb_ℤ, sub_int64}
use merope.Prelude.Text.{str_eq, is_empty, str_append}
use merope.Prelude.Outcome.{Result, ok, err}

pub record AegisPayload : Type 0 where
  pub ciphertext_hex : String
  pub iv_hex : String
  pub salt_hex : String
  pub signature_hex : String
  pub ratchet_sequence : ℤ
  pub timestamp_ms : ℤ

pub data GuardError : Type 0 where
  nil_payload missing_field stale_timestamp replayed invalid_identity : GuardError

pub record AegisGuard : Type 0 where
  pub ratchet_state : String → Option ℤ
  pub identity_bundles : String → Option String

-- `NewAegisMessagingGuard`
abbrev pub new_guard : AegisGuard
new_guard = record { ratchet_state = λ _. none; identity_bundles = λ _. none }

abbrev pub is_replay : Option ℤ → ℤ → Bool
is_replay none sequence = false
is_replay (some last) sequence = leb_ℤ sequence last

-- `ValidateRatchetSequence`
unfoldable pub validate_ratchet_sequence :
    String → ℤ → AegisGuard → Result GuardError (Unit {0}) × AegisGuard
validate_ratchet_sequence conversation sequence g =
    if is_replay (g.ratchet_state conversation) sequence then (err replayed, g) else (
      ok tt,
      record g {
        ratchet_state = λ c. if str_eq c conversation then some sequence else g.ratchet_state c;
      },
    )

abbrev pub is_stale : ℤ → ℤ → Bool
is_stale now sent =
    ltb_ℤ (pos 300000) (sub_int64 now sent) || ltb_ℤ (pos 300000) (sub_int64 sent now)

-- `VerifyMessageIntegrity`
unfoldable pub verify_message_integrity :
    ℤ → String → Option AegisPayload → AegisGuard → Result GuardError (Unit {0}) × AegisGuard
unfolding validate_ratchet_sequence
verify_message_integrity now conversation none g = (err nil_payload, g)
verify_message_integrity now conversation (some p) g =
    if is_empty p.ciphertext_hex || is_empty p.signature_hex
    then (err missing_field, g)
    else if is_stale now p.timestamp_ms
    then (err stale_timestamp, g)
    else validate_ratchet_sequence conversation p.ratchet_sequence g

-- `RegisterKeyBundle`
unfoldable pub register_key_bundle :
    String → String → String → AegisGuard → Result GuardError (Unit {0}) × AegisGuard
register_key_bundle user device identity_key g =
    if is_empty user || is_empty identity_key then (err invalid_identity, g) else (
      ok tt,
      record g {
        identity_bundles = λ k.
            if str_eq k (str_append (str_append user ":") device)
            then some identity_key
            else g.identity_bundles k;
      },
    )

-- `PurgeEphemeralSession`
unfoldable pub purge_ephemeral_session : String → AegisGuard → AegisGuard
purge_ephemeral_session conversation g = record g {
  ratchet_state = λ c. if str_eq c conversation then none else g.ratchet_state c;
}
