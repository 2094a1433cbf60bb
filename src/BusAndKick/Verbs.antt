-- ===== src/BusAndKick/Verbs.antt =====
-- The classes that bus_and_kick/mod.rs gives to verbs.
use asolaria_os.Prelude.{
  ◌≡◌, refl, ◌≢◌, arith, [], ◌++◌, Bytes, bytes, contains, contains_iff, true,
}
use mathlib.Core.List.{append_assoc}
use asolaria_os.BusAndKick.{kick_only, heartbeat, classify_verb, heartbeat_verb_for}

module _ (to_uppercase : Bytes → Bytes) where
  -- No verb asks for the kick alone.
  never_kick_only : (verb : Bytes) → classify_verb to_uppercase verb ≢ kick_only
  unfolding classify_verb
  never_kick_only verb = ground arith

  -- The heartbeat verb of any host is a heartbeat, if the upper case of a text is that of its parts
  -- and the fixed words are in upper case.
  heartbeat_verb_for-heartbeat :
      ((s t : Bytes) → to_uppercase (s ++ t) ≡ to_uppercase s ++ to_uppercase t)
      → (to_uppercase (bytes "-HEARTBEAT") ≡ bytes "-HEARTBEAT")
      → (host : Bytes)
      → classify_verb to_uppercase (heartbeat_verb_for to_uppercase host) ≡ heartbeat
  unfolding classify_verb heartbeat_verb_for
  heartbeat_verb_for-heartbeat append fixed host =
      let shout = bytes "HEARTBEAT" in
      let v = to_uppercase (heartbeat_verb_for to_uppercase host) in
      let head = to_uppercase (bytes "EVT-") in
      let name = to_uppercase (to_uppercase host) in
      let split_ : v ≡ (head ++ (name ++ bytes "-")) ++ (shout ++ []) =
        rw
          (
            append (bytes "EVT-") (to_uppercase host ++ bytes "-HEARTBEAT"),
            append (to_uppercase host) (bytes "-HEARTBEAT"),
            fixed,
          )
          (simp append_assoc refl) in
      let found : contains v shout ≡ true =
        (contains_iff v shout).1 (head ++ (name ++ bytes "-"), [], split_) in
      rw found refl
