-- ===== src/Dispatcher/Promises.antt =====
-- src/service_dispatcher.rs: what a backend task promises of the reply channels that it is given, in
-- whatever order it keeps them: a bag of open channels.
use nexus_net.Base.Bags.{Bag, put, bag, bag-eq, put-bag, count-append}
use nexus_net.Base.{◌≡◌, subst, sym, List, [], ◌∷◌, ◌++◌, map, arith, Name, nat_eq}
use nexus_net.Dispatcher.Types.{Channel}
use nexus_net.Dispatcher.Task.{Task, new_task}
use nexus_net.Dispatcher.Runs.{Event, act, run, held, settled, accepted}
use nexus_net.Dispatcher.Conserved.{IsTable}
use nexus_net.Dispatcher.Kept.{act-Keeps}

pub data Label : Type 0 where
  accept settle : Channel → Label

-- The abstract service: any channel may be opened, only an open one may be used, and then it is
-- closed.
pub data Serves : Bag Channel → List Label → Bag Channel → Type 0 where
  done : {x : Bag Channel} → Serves x [] x
  accepts :
      {x y : Bag Channel} {ls : List Label} (c : Channel)
      → Serves (put c x) ls y
      → Serves x (accept c ∷ ls) y
  settles :
      {x y : Bag Channel} {ls : List Label} (c : Channel)
      → Serves x ls y
      → Serves (put c x) (settle c ∷ ls) y

-- The open channels of a task, up to their order.
unfoldable pub ledger : Task → Bag Channel
ledger t = bag (held t)

-- What an event shows: the channels that the task takes over, then those that it uses up.
unfoldable pub labels : Event → Task → List Label
labels event t =
    map (λ c. accept c) (accepted event t) ++ map (λ c. settle c) (settled (act event t).1)

unfoldable pub trace : List Event → Task → List Label
trace [] t = []
trace (event ∷ events) t = labels event t ++ trace events (act event t).0

append-Serves :
    {x y z : Bag Channel} {ls ms : List Label}
    → Serves x ls y
    → Serves y ms z
    → Serves x (ls ++ ms) z
append-Serves done g = g
append-Serves (accepts c h) g = accepts c (append-Serves h g)
append-Serves (settles c h) g = settles c (append-Serves h g)

from_equal : {x x' y : Bag Channel} {ls : List Label} → x ≡ x' → Serves x ls y → Serves x' ls y
from_equal {y = y} {ls = ls} e h = subst (λ b. Serves b ls y) e h

accept_all :
    (cs xs : List Channel) {ls : List Label} {y : Bag Channel}
    → Serves (bag (cs ++ xs)) ls y
    → Serves (bag xs) (map (λ c. accept c) cs ++ ls) y
accept_all [] xs h = h
accept_all (c ∷ cs) xs h =
    let moved : bag ((c ∷ cs) ++ xs) ≡ bag (cs ++ c ∷ xs) =
      bag-eq ((c ∷ cs) ++ xs) (cs ++ c ∷ xs)
        λ a. ground (arith, count-append a cs xs, count-append a cs (c ∷ xs)) in
    accepts c (from_equal (sym (put-bag c xs)) (accept_all cs (c ∷ xs) (from_equal moved h)))

settle_all : (cs xs : List Channel) → Serves (bag (cs ++ xs)) (map (λ c. settle c) cs) (bag xs)
settle_all [] xs = done
settle_all (c ∷ cs) xs = from_equal (put-bag c (cs ++ xs)) (settles c (settle_all cs xs))

act_refines :
    (event : Event) (t : Task)
    → IsTable t.phase
    → Serves (ledger t) (labels event t) (ledger (act event t).0)
unfolding ledger labels
act_refines event t m =
    let r = act event t in
    let conserved : bag (settled r.1 ++ held r.0) ≡ bag (accepted event t ++ held t) =
      bag-eq (settled r.1 ++ held r.0) (accepted event t ++ held t) λ a. ground (
        arith,
        (act-Keeps a event t m).same,
        count-append a (settled r.1) (held r.0),
        count-append a (accepted event t) (held t),
      ) in
    accept_all (accepted event t) (held t)
      (from_equal conserved (settle_all (settled r.1) (held r.0)))

run_refines :
    (events : List Event) (t : Task)
    → IsTable t.phase
    → Serves (ledger t) (trace events t) (ledger (run events t).0)
unfolding trace run
run_refines [] t m = done
run_refines (event ∷ events) t m =
    append-Serves (act_refines event t m)
      (run_refines events (act event t).0 (act-Keeps 0 event t m).table)

-- Whatever happens to a new backend task, the reply channels of the requests that it takes over are
-- a run of the abstract service: each is open from then on, until it is answered or dropped, once.
pub run-new_task_refines :
    (service : Name) (events : List Event)
    → Serves (bag []) (trace events (new_task service)) (ledger (run events (new_task service)).0)
unfolding new_task held ledger
run-new_task_refines service events = run_refines events (new_task service) tt
