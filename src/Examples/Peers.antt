-- ===== src/Examples/Peers.antt =====
-- The theorems on catching up at concrete inputs.
use echo_services.Prelude.{true, List, [], ◌∷◌, ◌≡◌, refl, arith}
use echo_services.HashMap
use echo_services.Event.{Event, scope}
use echo_services.Log.{LogEntry, EventLog, Disk, append, closed, missing_for, next_seq, notify}
use echo_services.Log.CatchUp
use echo_services.Log.CatchUp.{deliver, joined, Trusts, globals, IsOrderly}
use echo_services.Log.Orderly
use echo_services.Log.Orderly.{Grew}

abbrev disk : Disk
disk entries entry = true

abbrev once : EventLog
once = (append disk (closed "a") (Event.nick_grouped "al" "alice")).0

abbrev twice : EventLog
twice = (append disk once (Event.nick_ungrouped "al")).0

twice-Grew : Grew twice
unfolding append next_seq scope HashMap.get HashMap.insert notify
twice-Grew =
    Orderly.appends
      (Orderly.appends (Orderly.empty (closed "a") refl refl) disk (Event.nick_grouped "al" "alice")
        (omega arith))
      disk (Event.nick_ungrouped "al") (omega arith)

Grew-IsOrderly_example : IsOrderly twice
Grew-IsOrderly_example = Orderly.Grew-IsOrderly twice-Grew

trusting-Trusts : (xs : List LogEntry) → Trusts (closed "b") xs
trusting-Trusts [] = tt
trusting-Trusts (x ∷ xs) = (refl, trusting-Trusts xs)

deliver-missing_for_example :
    HashMap.get (deliver disk (closed "b") (missing_for twice (closed "b").versions)).versions "a"
    ≡ joined (HashMap.get (closed "b").versions "a") (HashMap.get twice.versions "a")
deliver-missing_for_example =
    CatchUp.deliver-missing_for disk twice (closed "b") (λ _ _. refl) Grew-IsOrderly_example
      (trusting-Trusts (globals twice)) "a"
