-- ===== src/Examples/Members.antt =====
-- The theorems on accounts and on the counters at concrete inputs.
use echo_services.Prelude.{ℕ, ◌+◌, ◌-◌, ◌%◌, ◌^◌, String, true, false, some, [], ◌∷◌, ◌≡◌, arith}
use echo_services.Db.{Db, World, open_db}
use echo_services.Db.MemberCalls
use echo_services.Db.MemberCalls.{member_call, cert_call}
use echo_services.Db.HostTracing
use echo_services.Db.MemberTracing
use echo_services.Db.Traced.{Traced}
use echo_services.Counter.{default_counters, hit, count}
use echo_services.Counter.Exact
use echo_services.Counter.Exact.{Ran, within}

abbrev world : World
world = record { now = 100; disk = λ _ _. true; compiles = λ _. true }

abbrev registration : MemberCalls.MemberCall
registration =
    MemberCalls.register (record { registration_vouch = false; email_enabled = true }) "Alice"
      (record { scram256 = "v256"; scram512 = "v512" }) (some "alice@example.org")

member_call-Traced_example :
    Traced (open_db "node" []) (member_call world (open_db "node" []) registration)
member_call-Traced_example = HostTracing.member_call-Traced world (open_db "node" []) registration

abbrev joined : Db
joined = (member_call world (open_db "node" []) registration).0

abbrev fp : String
fp = "AA:BB:CC:DD:EE:FF:00:11:22:33:44:55:66:77:88:99"

cert_call-Traced_example : Traced joined (cert_call world joined (MemberCalls.add "alice" fp))
cert_call-Traced_example = MemberTracing.cert_call-Traced world joined (MemberCalls.add "alice" fp)

abbrev life : String → ℕ
life key = 10

-- Two events of one key, and one of another between them
ran :
    Ran life
      (hit (hit (hit default_counters "cf|a" 100 10).0 "cf|b" 103 10).0 "cf|a" 105 10).0
      (("cf|a", 105) ∷ ("cf|b", 103) ∷ ("cf|a", 100) ∷ [])
      105
ran =
    Exact.hits
      (Exact.hits (Exact.hits Exact.start "cf|a" 100 (omega arith)) "cf|b" 103 (omega arith)) "cf|a"
      105 (omega arith)

Ran-exact_example :
    ((hit
        (hit (hit (hit default_counters "cf|a" 100 10).0 "cf|b" 103 10).0 "cf|a" 105 10).0
        "cf|a"
        111
        10).1
      ≡ (within (111 - 10) "cf|a" (("cf|a", 105) ∷ ("cf|b", 103) ∷ ("cf|a", 100) ∷ []) + 1)
        % 2 ^ 32)
    × ((count
          (hit (hit (hit default_counters "cf|a" 100 10).0 "cf|b" 103 10).0 "cf|a" 105 10).0
          "cf|a"
          111
          10).1
        ≡ within (111 - 10) "cf|a" (("cf|a", 105) ∷ ("cf|b", 103) ∷ ("cf|a", 100) ∷ []) % 2 ^ 32)
Ran-exact_example = Exact.Ran-exact life (λ k. omega arith) ran "cf|a" 111 (omega arith)
