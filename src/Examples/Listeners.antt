-- ===== src/Examples/Listeners.antt =====
-- The theorems on the accepting loop at concrete inputs.
use deep_protocol.Base.{◌*◌, ◌≡◌, ◌≤◌, refl, true, [], ◌∷◌, length, codes, equal, none, some, ok}
use deep_protocol.Base.Int.{pos}
use deep_protocol.Uri.{valid_label, is_lower_alnum, validate_authority, split_dots}
use deep_protocol.Limits.{
  ServerLimits, second, configured, with_defaults, new_peer_limiter, acquire, enroll, admit, find,
  put, reset_budget,
}
use deep_protocol.Security.{
  signer, mldsa65, validate_server_identity, validate_local_identity, identity_leaf,
  validate_identity, validate_identity_key,
}
use deep_protocol.Listener
use deep_protocol.Listener.{Setup, listen, Pool, opened, accept, place, Step, Reach}
use deep_protocol.Listener.Reachable.{IsServing, count, Reach-IsServing, count-le-share}
use deep_protocol.Listener.Draining.{Steps, IsIdle, Reach-Drains}
use deep_protocol.Listener.Starting.{IsListening, listen-IsListening}
use deep_protocol.Examples.Identities.{toy_crypto}

abbrev limits : ServerLimits
limits = record {
  timeout = pos second;
  max_connections = pos 2;
  max_connections_per_peer = pos 1;
  max_requests_per_session = 2;
  max_bytes = pos 1000;
  requests_per_minute = pos 10;
  handshake_timeout = pos second;
  idle_timeout = pos second;
  session_timeout = pos second;
}

abbrev setup : Setup
setup = record {
  authority = codes "a.b";
  certificates =
      some (record { chain = codes "der" ∷ []; private_key = signer (mldsa65 (codes "key")) } ∷ []);
  has_handler = true;
  limits = limits;
}

listening : listen toy_crypto (2 * second) setup ≡ ok limits
unfolding listen configured with_defaults validate_server_identity validate_local_identity
    identity_leaf validate_identity validate_identity_key validate_authority valid_label
    is_lower_alnum split_dots equal
listening = refl

listen-IsListening_example : IsListening toy_crypto (2 * second) setup limits
listen-IsListening_example = listen-IsListening toy_crypto (2 * second) setup listening

abbrev accepted : Pool
accepted = accept (codes "a") 0 (opened limits)

granted : accepted.pending ≡ some (codes "a")
unfolding accept opened new_peer_limiter acquire enroll admit find put reset_budget
granted = refl

abbrev served : Pool
served = place 2 (codes "a") accepted

opened_free : (opened limits).pending ≡ none
unfolding opened
opened_free = refl

serving : Reach limits served
serving =
    Listener.later (Listener.later Listener.start (Listener.accepts (codes "a") 0 opened_free))
      (Listener.places (codes "a") granted)

Reach-IsServing_example : IsServing limits served
Reach-IsServing_example = Reach-IsServing limits serving

count-le-share_example : (length served.running ≤ 2) × (count (codes "a") served.running ≤ 1)
count-le-share_example = count-le-share limits (codes "a") serving

Reach-Drains_example : (q : Pool) × Steps 2 served q × IsIdle q
Reach-Drains_example = Reach-Drains limits serving
