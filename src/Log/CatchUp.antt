-- ===== src/Log/CatchUp.antt =====
-- A peer that is behind catches up: `missing_for` and `ingest` together (src/engine/db/mod.rs).
use echo_services.Prelude.{
  ℕ, ◌<◌, ◌≡◌, refl, sym, ap, ◌∙◌, subst, if_rule, inl, inr, String, Bool, true, false, ◌==◌,
  eq_iff, Option, none, some, List, [], ◌∷◌, if◌then◌else◌, retain, u64_max, arith, Bool-cases,
}
use mathlib.Core.Bool.{false≢true}
use echo_services.HashMap
use echo_services.HashMap.{HashMap}
use echo_services.HashMap.Laws.{get-insert}
use echo_services.Event.{scope, global}
use echo_services.Log.{
  LogEntry, EventLog, Disk, accepts, ingest, keep, receive, verified, notify, cursor_newer, lacks,
  is_global, missing_for,
}
use echo_services.Log.Gossip.{ingest_global}
use echo_services.Log.Recovery.{scope_cases}

abbrev Cursor : Type 0
Cursor = Option (ℕ × ℕ)

-- The newer of two cursors
abbrev pub joined : Cursor → Cursor → Cursor
joined none v = v
joined (some p) none = some p
joined (some p) (some v) = if cursor_newer p v then some v else some p

-- Whether a peer at this cursor lacks what stands at that place
abbrev behind : Cursor → ℕ × ℕ → Bool
behind none c = true
behind (some h) c = cursor_newer h c

-- What the peer has at the place before the entry accepts it, if the peer lacks it.
accepts-joined :
    (p v : Cursor) (e s : ℕ)
    → ((ev sv : ℕ) → v ≡ some (ev, sv) → sv < u64_max)
    → accepts v e s ≡ true
    → behind p (e, s) ≡ true
    → accepts (joined p v) e s ≡ true
unfolding accepts cursor_newer
accepts-joined none v e s room h k = h
accepts-joined (some (ep, sp)) none e s room h k = ground (arith, h, k)
accepts-joined (some (ep, sp)) (some (ev, sv)) e s room h k = ground (arith, h, k, room ev sv refl)

-- Then the entry is where the peer is; and if the peer did not lack it, it stays where it was.
joined-behind : (p : Cursor) (c : ℕ × ℕ) → behind p c ≡ true → joined p (some c) ≡ some c
joined-behind none c k = refl
joined-behind (some h) c k = rw k refl

joined-ahead :
    (p v : Cursor) (e s : ℕ)
    → ((ev sv : ℕ) → v ≡ some (ev, sv) → sv < u64_max)
    → accepts v e s ≡ true
    → behind p (e, s) ≡ false
    → joined p v ≡ joined p (some (e, s))
unfolding accepts cursor_newer
joined-ahead none v e s room h k = ground (arith, k)
joined-ahead (some (ep, sp)) none e s room h k = ground (arith, h, k)
joined-ahead (some (ep, sp)) (some (ev, sv)) e s room h k = ground (arith, h, k, room ev sv refl)

abbrev place : LogEntry → ℕ × ℕ
place x = (x.epoch, x.seq)

lacks-behind :
    (peer : HashMap (ℕ × ℕ)) (x : LogEntry)
    → lacks peer x ≡ behind (HashMap.get peer x.origin) (place x)
lacks-behind peer x = go (HashMap.get peer x.origin)
  where
    go :
        (o : Cursor)
        → (elim o [ none ↦ true | some h ↦ cursor_newer h (x.epoch, x.seq) ]) ≡ behind o (place x)
    go none = refl
    go (some h) = refl

-- The cursors after these entries
unfoldable pub after : HashMap (ℕ × ℕ) → List LogEntry → HashMap (ℕ × ℕ)
after v [] = v
after v (x ∷ xs) = after (HashMap.insert v x.origin (place x)) xs

-- Each entry is in order after the cursor of its origin, and has a next sequence number.
abbrev pub Chained : HashMap (ℕ × ℕ) → List LogEntry → Type 0
Chained v [] = Unit {0}
Chained v (x ∷ xs) =
    (accepts (HashMap.get v x.origin) x.epoch x.seq ≡ true)
    × (x.seq < u64_max)
    × Chained (HashMap.insert v x.origin (place x)) xs

abbrev pub AllGlobal : List LogEntry → Type 0
AllGlobal [] = Unit {0}
AllGlobal (x ∷ xs) = (scope x.event ≡ global) × AllGlobal xs

-- The log trusts the signature of each entry, where it wants signatures.
abbrev pub Trusts : EventLog → List LogEntry → Type 0
Trusts log [] = Unit {0}
Trusts log (x ∷ xs) = (verified log x ≡ true) × Trusts log xs

-- The peer is offered these entries one after the other.
unfoldable pub deliver : Disk → EventLog → List LogEntry → EventLog
unfolding ingest
deliver disk log [] = log
deliver disk log (x ∷ xs) = deliver disk (ingest disk log x).0 xs

Trusts-keep :
    (log : EventLog) (x : LogEntry) (xs : List LogEntry)
    → Trusts log xs
    → Trusts (keep (receive log x) x) xs
unfolding notify
Trusts-keep log x [] t = tt
Trusts-keep log x (y ∷ ys) t = (t.0, Trusts-keep log x ys t.1)

module _ (disk : Disk) (writes : (es : List LogEntry) (e : LogEntry) → disk es e ≡ true)
    (peer : HashMap (ℕ × ℕ)) where
  -- The cursors of the log are the newer ones of the peer's at the start and these.
  abbrev Agrees : HashMap (ℕ × ℕ) → EventLog → Type 0
  Agrees v log =
      (o : String) → HashMap.get log.versions o ≡ joined (HashMap.get peer o) (HashMap.get v o)

  abbrev HasNext : HashMap (ℕ × ℕ) → Type 0
  HasNext v = (o : String) (e s : ℕ) → HashMap.get v o ≡ some (e, s) → s < u64_max

  HasNext-insert :
      (v : HashMap (ℕ × ℕ)) (x : LogEntry)
      → x.seq < u64_max
      → HasNext v
      → HasNext (HashMap.insert v x.origin (place x))
  HasNext-insert v x h n o e s g = elim (Bool-cases (x.origin == o)) [
    | inl same ↦ ground (arith, get-insert v x.origin (place x) o, same)
    | inr other ↦ n o e s (rw other at (sym (get-insert v x.origin (place x) o) ∙ g))
  ]

  taken :
      (log : EventLog) (x : LogEntry)
      → scope x.event ≡ global
      → verified log x ≡ true
      → accepts (HashMap.get log.versions x.origin) x.epoch x.seq ≡ true
      → (ingest disk log x).0 ≡ keep (receive log x) x
  taken log x g t a = rw (ingest_global disk log x g) (rw (t, a, writes log.entries x) refl)

  Agrees-taken :
      (v : HashMap (ℕ × ℕ)) (log : EventLog) (x : LogEntry)
      → behind (HashMap.get peer x.origin) (place x) ≡ true
      → Agrees v log
      → Agrees (HashMap.insert v x.origin (place x)) (keep (receive log x) x)
  unfolding notify
  Agrees-taken v log x lag h o = elim (Bool-cases (x.origin == o)) [
    | inl same ↦
        let e : x.origin ≡ o = (eq_iff x.origin o).0 same in
        get-insert log.versions x.origin (place x) o
        ∙ rw same (
            sym (joined-behind (HashMap.get peer o) (place x) (rw e at lag))
            ∙ ap (joined (HashMap.get peer o))
                (sym (rw same at (get-insert v x.origin (place x) o))))
    | inr other ↦
        get-insert log.versions x.origin (place x) o
        ∙ rw other (
            h o
            ∙ ap (joined (HashMap.get peer o))
                (sym (rw other at (get-insert v x.origin (place x) o))))
  ]

  Agrees-passed :
      (v : HashMap (ℕ × ℕ)) (log : EventLog) (x : LogEntry)
      → HasNext v
      → accepts (HashMap.get v x.origin) x.epoch x.seq ≡ true
      → behind (HashMap.get peer x.origin) (place x) ≡ false
      → Agrees v log
      → Agrees (HashMap.insert v x.origin (place x)) log
  Agrees-passed v log x n a ahead h o = elim (Bool-cases (x.origin == o)) [
    | inl same ↦
        let e : x.origin ≡ o = (eq_iff x.origin o).0 same in
        h o
        ∙ rw e at (
            joined-ahead (HashMap.get peer x.origin) (HashMap.get v x.origin) x.epoch x.seq
              (n x.origin) a ahead)
        ∙ ap (joined (HashMap.get peer o)) (sym (rw same at (get-insert v x.origin (place x) o)))
    | inr other ↦
        h o
        ∙ ap (joined (HashMap.get peer o)) (sym (rw other at (get-insert v x.origin (place x) o)))
  ]

  deliver-Agrees :
      (v : HashMap (ℕ × ℕ)) (log : EventLog) (xs : List LogEntry)
      → Chained v xs
      → AllGlobal xs
      → Trusts log xs
      → HasNext v
      → Agrees v log
      → Agrees (after v xs) (deliver disk log (retain (lacks peer) xs))
  unfolding after deliver retain
  deliver-Agrees v log [] c g t n h = h
  deliver-Agrees v log (x ∷ xs) c g t n h = elim (Bool-cases (lacks peer x)) [
    | inl lag ↦
        let late : behind (HashMap.get peer x.origin) (place x) ≡ true =
          sym (lacks-behind peer x) ∙ lag in
        let open_to : accepts (HashMap.get log.versions x.origin) x.epoch x.seq ≡ true =
          ap (λ (c : Cursor). accepts c x.epoch x.seq) (h x.origin)
          ∙ accepts-joined (HashMap.get peer x.origin) (HashMap.get v x.origin) x.epoch x.seq
              (n x.origin) c.0 late in
        rw lag (
          subst
            (λ (l : EventLog).
              Agrees (after (HashMap.insert v x.origin (place x)) xs)
                (deliver disk l (retain (lacks peer) xs)))
            (sym (taken log x g.0 t.0 open_to))
            (deliver-Agrees (HashMap.insert v x.origin (place x)) (keep (receive log x) x) xs c.2
              g.1 (Trusts-keep log x xs t.1) (HasNext-insert v x c.1 n)
              (Agrees-taken v log x late h)))
    | inr ahead ↦ rw ahead (
        deliver-Agrees (HashMap.insert v x.origin (place x)) log xs c.2 g.1 t.1
          (HasNext-insert v x c.1 n)
          (Agrees-passed v log x n c.0 (sym (lacks-behind peer x) ∙ ahead) h))
  ]

unfoldable pub globals : EventLog → List LogEntry
globals log = retain (λ (e : LogEntry). is_global e.event) log.entries

is_global-scope : (x : LogEntry) → is_global x.event ≡ true → scope x.event ≡ global
is_global-scope x h = elim (scope_cases x.event) [
  | inl g ↦ g
  | inr l ↦ absurd (false≢true (rw (l, is_global) at h))
]

AllGlobal-retain :
    (xs : List LogEntry) → AllGlobal (retain (λ (e : LogEntry). is_global e.event) xs)
unfolding retain
AllGlobal-retain [] = tt
AllGlobal-retain (x ∷ xs) =
    if_rule AllGlobal (is_global x.event) {x = x ∷ retain (λ (e : LogEntry). is_global e.event) xs}
      {y = retain (λ (e : LogEntry). is_global e.event) xs}
      (λ h. (is_global-scope x h, AllGlobal-retain xs)) (λ _. AllGlobal-retain xs)

-- The entries that a log may send on are in order from the first on, and lead to its cursors.
pub record IsOrderly (log : EventLog) : Type 0 where
  pub chained : Chained [] (globals log)
  pub versions : (o : String) → HashMap.get (after [] (globals log)) o ≡ HashMap.get log.versions o

nothing_known : (o : String) (e s : ℕ) → HashMap.get {V = ℕ × ℕ} [] o ≡ some (e, s) → s < u64_max
unfolding HashMap.get
nothing_known o e s h = ground arith

joined-nothing : (c : Cursor) (o : String) → c ≡ joined c (HashMap.get {V = ℕ × ℕ} [] o)
unfolding HashMap.get
joined-nothing none o = refl
joined-nothing (some c) o = refl

-- A peer that takes in what it lacks catches up: where the log of a node is orderly, and the peer's
-- disk takes every write and it trusts the signatures, delivering what `missing_for` picks for the
-- peer's cursors, in order, leaves the peer with the newer cursor of the two for every origin.
pub deliver-missing_for :
    (disk : Disk) (node peer : EventLog)
    → ((es : List LogEntry) (e : LogEntry) → disk es e ≡ true)
    → IsOrderly node
    → Trusts peer (globals node)
    → (o : String)
    → HashMap.get (deliver disk peer (missing_for node peer.versions)).versions o
      ≡ joined (HashMap.get peer.versions o) (HashMap.get node.versions o)
unfolding missing_for globals
deliver-missing_for disk node peer writes orderly trusted o =
    deliver-Agrees disk writes peer.versions [] peer (globals node) orderly.chained
      (AllGlobal-retain node.entries) trusted nothing_known
      (λ o. joined-nothing (HashMap.get peer.versions o) o) o
    ∙ ap (joined (HashMap.get peer.versions o)) (orderly.versions o)
