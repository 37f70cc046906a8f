-- ===== src/Handshake/Attempts/Options.antt =====
-- No call of internal/handshake/cache.go changes the options of the cache.
use wg.Prelude.{ℕ, ◌≡◌, refl, ◌∙◌, Option, none, some, List, [], ◌∷◌, arith}
use wg.Handshake.Attempts.{AttemptError, Bytes, AttemptEntry, Attempts, cleanup, tombstone_attempt}
use wg.Handshake.Attempts.Methods.{
  acquire_found, acquire, publish_found, publish, fail_found, fail, promote_found, promote,
  grace_found, confirm_grace_active, remove_found, remove_attempt,
}
use wg.Handshake.Attempts.Events.{
  Event, acquire_event, publish_event, fail_event, promote_event, grace_event, remove_event,
  cleanup_event, step, run,
}

pub options-acquire_found :
    (key initial : Bytes) (now : ℕ) (s : Attempts) (o : Option AttemptEntry)
    → (acquire_found key initial now s o).0.options ≡ s.options
unfolding acquire_found
options-acquire_found key initial now s none = ground arith
options-acquire_found key initial now s (some e) = ground arith

options-publish_found :
    (id : ℕ) (key : Bytes) (session : ℕ) (response : Bytes) (now : ℕ) (s : Attempts)
    (o : Option AttemptEntry)
    → (publish_found id key session response now s o).0.options ≡ s.options
unfolding publish_found
options-publish_found id key session response now s none = refl
options-publish_found id key session response now s (some e) = ground arith

options-fail_found :
    (id : ℕ) (key : Bytes) (failure : AttemptError) (s : Attempts) (o : Option AttemptEntry)
    → (fail_found id key failure s o).options ≡ s.options
unfolding fail_found
options-fail_found id key failure s none = refl
options-fail_found id key failure s (some e) = ground arith

options-promote_found :
    (key : Bytes) (session now : ℕ) (s : Attempts) (o : Option AttemptEntry)
    → (promote_found key session now s o).0.options ≡ s.options
unfolding promote_found tombstone_attempt
options-promote_found key session now s none = refl
options-promote_found key session now s (some e) = ground arith

options-grace_found :
    (key : Bytes) (session now : ℕ) (s : Attempts) (o : Option AttemptEntry)
    → (grace_found key session now s o).0.options ≡ s.options
unfolding grace_found tombstone_attempt
options-grace_found key session now s none = refl
options-grace_found key session now s (some e) = ground arith

options-remove_found :
    (key : Bytes) (session : ℕ) (reason : Option AttemptError) (now : ℕ) (s : Attempts)
    (o : Option AttemptEntry)
    → (remove_found key session reason now s o).options ≡ s.options
unfolding remove_found tombstone_attempt
options-remove_found key session reason now s none = refl
options-remove_found key session reason now s (some e) = ground arith

options-step : (now : ℕ) (v : Event) (s : Attempts) → (step now v s).options ≡ s.options
unfolding step acquire publish fail promote confirm_grace_active remove_attempt cleanup
options-step now (acquire_event key initial) s = options-acquire_found key initial now _ _
options-step now (publish_event id key session response) s =
    options-publish_found id key session response now s _
options-step now (fail_event id key failure) s = options-fail_found id key failure s _
options-step now (promote_event key session) s = options-promote_found key session now s _
options-step now (grace_event key session) s = options-grace_found key session now s _
options-step now (remove_event key session reason) s =
    options-remove_found key session reason now s _
options-step now cleanup_event s = refl

pub options-run : (vs : List (ℕ × Event)) (s : Attempts) → (run vs s).options ≡ s.options
unfolding run
options-run [] s = refl
options-run ((now, v) ∷ vs) s = options-run vs (step now v s) ∙ options-step now v s
