-- ===== src/BusAndKick.antt =====
-- kernel/core/src/bus_and_kick/mod.rs: the class of a verb and the composed envelope.
pub mod Verbs
use asolaria_os.Prelude.{ℕ, ◌++◌, Bytes, bytes, contains, ◌||◌, if◌then◌else◌, Option, none, some}

pub data ActionClass : Type 0 where
  bus_only kick_only post_and_kick heartbeat : ActionClass

-- `str::to_uppercase` is a function.
module _ (to_uppercase : Bytes → Bytes) where
  unfoldable pub classify_verb : Bytes → ActionClass
  classify_verb verb =
      let v = to_uppercase verb in
      if contains v (bytes "HEARTBEAT")
        || contains v (bytes "PULSE_LOOP")
        || contains v (bytes "STEADY")
      then heartbeat
      else if contains v (bytes "ACTIONABLE")
          || contains v (bytes "DIRECTIVE")
          || contains v (bytes "WAKE")
          || contains v (bytes "ALERT")
          || contains v (bytes "KICK_REQUIRED")
      then post_and_kick
      else bus_only

  unfoldable pub heartbeat_verb_for : Bytes → Bytes
  heartbeat_verb_for host = bytes "EVT-" ++ (to_uppercase host ++ bytes "-HEARTBEAT")

pub record ComposedEnvelope : Type 0 where
  pub id : Bytes
  pub from : Bytes
  pub to : Bytes
  pub mode : Bytes
  pub actor : Bytes
  pub target : Bytes
  pub ts_iso : Bytes
  pub verb : Bytes
  pub payload : Bytes

unfoldable pub compose :
    (envelope_id_hint : Option Bytes) (from to actor target ts_iso verb payload : Bytes)
    → ComposedEnvelope
compose envelope_id_hint from to actor target ts_iso verb payload = record {
  id = elim envelope_id_hint [ some s ↦ s | none ↦ from ++ (bytes "-batk-" ++ ts_iso) ];
  from = from;
  to = to;
  mode = bytes "real";
  actor = actor;
  target = target;
  ts_iso = ts_iso;
  verb = verb;
  payload = payload;
}
