-- ===== src/Calls/Tests.antt =====
-- A fault on its way from a server object to the exception of a client.
use kdsoap.Prelude.{[]}
use kdsoap.Security.{Surroundings}

abbrev quiet : Surroundings
quiet = record { random_nonce = []; current_time = []; to_base64 = λ t. t; sha1 = λ t. t }
