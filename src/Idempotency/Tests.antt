-- ===== src/Idempotency/Tests.antt =====
-- One payment that is asked for twice, with an application that counts how often it has run.
use merope.Prelude.{
  ℕ, suc, ◌≡◌, refl, arith, true, false, Option, none, some, [], String, if◌then◌else◌, inl, inr,
  Bool-cases,
}
use merope.Prelude.Int.{pos}
use merope.Prelude.Text.{str_eq, trim_space, byte_len}
use merope.Redis.{Redis, get}
use merope.Idempotency.Stages.{
  Request, Outcome, Stored, replayed, lock, finish, serve, response, response_key,
}
use merope.Idempotency.Replay.{Visit, visit, visits, replayed_until_expiry}
use merope.Idempotency.Race.{well, handler_runs_twice}

program : Unit {0}
unfolding serve trim_space visits get
program = tt

abbrev digest : String → String
digest s =
    if str_eq s "pay 5"
    then "5000000000000000000000000000000000000000000000000000000000000000"
    else "9000000000000000000000000000000000000000000000000000000000000000"

digest-IsHex : (s : String) → byte_len (digest s) ≡ 64
digest-IsHex s = elim (Bool-cases (str_eq s "pay 5")) [
  | inl same ↦ rw same refl
  | inr other ↦ rw other refl
]

abbrev pay : Request → ℕ → Outcome × ℕ
pay r n = (record { failed = false; status = 201; content_type = "text"; body = "paid" }, suc n)

abbrev request : Request
request = record {
  method = "POST";
  path = "/pay";
  key_header = "k1";
  user_id = "ada";
  body = "pay 5";
}

abbrev marshal : Stored → String
marshal s = "json"

abbrev unmarshal : String → Option Stored
unmarshal s = some (response digest request (pay request 0).0)

abbrev empty : Redis
empty = λ _. none

abbrev first : Visit
first = record {
  connected = true;
  faults = well;
  now = 0;
  later = 10;
  token = "t1";
  ttl = pos 3600000000000;
  request = request;
}

replayed_until_expiry_example :
    let (m', w') =
      visits digest marshal unmarshal pay []
        (visit digest marshal unmarshal pay first (empty, 0)) in
    serve digest marshal unmarshal pay true well 500 600 "t2" (pos 3600000000000) request m' w'
    ≡ (replayed 201 "text" "paid", m', w')
unfolding program
replayed_until_expiry_example =
    replayed_until_expiry digest digest-IsHex marshal unmarshal pay first [] well 500 600 "t2"
      "pay 5" (pos 3600000000000) empty 0 refl refl refl refl refl tt (omega arith) refl

handler_runs_twice_example :
    let (refused, m1) = lock digest marshal unmarshal well 0 "t1" request empty in
    let (_, m2, w1) =
      finish digest marshal unmarshal pay well 10 "t1" (pos 3600000000000) request m1 0 in
    let (refused', m3) = lock digest marshal unmarshal well 20 "t2" request m2 in
    let (_, _, w2) =
      finish digest marshal unmarshal pay well 30 "t2" (pos 3600000000000) request m3 w1 in
    (refused ≡ none)
    × ((text : String) × (get 20 (response_key digest request) m2 ≡ some text))
    × (refused' ≡ none)
    × (w2 ≡ 2)
unfolding program
handler_runs_twice_example =
    handler_runs_twice digest digest-IsHex marshal unmarshal pay 0 10 20 30 "t1" "t2"
      (pos 3600000000000) request empty 0 refl refl refl (omega arith) (omega arith) (omega arith)
