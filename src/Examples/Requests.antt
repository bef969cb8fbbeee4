-- ===== src/Examples/Requests.antt =====
-- Requests to the federation protocol (pi4/lib/hioc/availability_protocol.py) at concrete times,
-- to which the theorems are applied.
use hioc.Base.{ℕ, ◌+◌, ◌*◌, ◌≡◌, ◌≢◌, refl, none, [], ok, arith}
use hioc.Protocol.Gate.{
  Gate, Request, Operation, is_current, live, is_used, drop_old, count, quota, meter, pass, admit,
}
use hioc.Protocol.Replay.{request, done, admit_once}
use hioc.Protocol.Bounds.{IsBounded, admit-IsBounded}
use hioc.Examples.{noon}

abbrev fresh : Gate
fresh = record { last_clock = none; nonces = []; attempts = []; read_attempts = [] }

abbrev signed : ℕ → Request
signed n = record {
  operation = Operation.create;
  issuer = 1;
  actor = "anna";
  request = n;
  issued = noon;
  expiry = noon + 30 * 1000000;
}

run_signed : (admit 4096 noon (ok tt) (signed 5) fresh).0 ≡ ok tt
unfolding admit pass meter quota drop_old count live is_used is_current
run_signed = refl

admit_once_example :
    (admit 4096
      (noon + 2000000)
      (ok tt)
      (signed 5)
      (admit 4096
        (noon + 1000000)
        (ok tt)
        (signed 6)
        (admit 4096 noon (ok tt) (signed 5) fresh).1).1).0
    ≢ ok tt
admit_once_example =
    admit_once 4096 noon (noon + 2000000) (ok tt) (ok tt) (signed 5) fresh run_signed
      (request (noon + 1000000) (ok tt) (signed 6) done)

fresh-IsBounded : IsBounded 4096 fresh
unfolding count
fresh-IsBounded = record {
  nonces = omega arith;
  mutations = record { all_attempts = omega arith; own_attempts = λ i a. omega arith };
  reads = record { all_attempts = omega arith; own_attempts = λ i a. omega arith };
}

admit-IsBounded_example : IsBounded 4096 (admit 4096 noon (ok tt) (signed 5) fresh).1
admit-IsBounded_example = admit-IsBounded 4096 noon (ok tt) (signed 5) fresh fresh-IsBounded
