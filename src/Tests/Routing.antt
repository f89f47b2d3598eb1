-- ===== src/Tests/Routing.antt =====
-- A routing table for one destination, whose requests to add fail after they were carried out.
use wg_kotlin.Base.{
  ℕ, ◌≡◌, refl, ap, inr, true, Option, none, some, [], ◌∷◌, arith, ◌==◌, ==_iff, Result, ok, err,
}
use wg_kotlin.Frame.{interrupted}
use wg_kotlin.MacRoutes.{
  Operation, rtm_add, rtm_delete, Snapshots, RouteTable, install, restore_with,
}
use wg_kotlin.RoutingMessage.{RouteError, io}
use wg_kotlin.MacRoutes.Table.{IsFiled, Ready, Done, Outcome, MayFail, Works}
use wg_kotlin.MacRoutes.Restore.{Same, restore_with-install}

abbrev snapshots : Snapshots (Unit {0}) ℕ
snapshots = record {
  key = λ s. ok tt;
  message = λ s op. ok [];
  same_path = λ s t. ok (s == t);
  key_eq = λ j k. true;
}

abbrev look : Option ℕ → Unit {0} → Option ℕ
look w k = w

abbrev faulty_request : ℕ → Operation → Option ℕ → Result RouteError (Unit {0}) × Option ℕ
faulty_request s rtm_add w = (err (io interrupted), some s)
faulty_request s rtm_delete w = (ok tt, none)

abbrev request : ℕ → Operation → Option ℕ → Result RouteError (Unit {0}) × Option ℕ
request s rtm_add w = (ok tt, some s)
request s rtm_delete w = (ok tt, none)

abbrev faulty : RouteTable (Option ℕ) (Unit {0}) ℕ
faulty = record { find = λ k w. (ok w, w); request = faulty_request }

abbrev table : RouteTable (Option ℕ) (Unit {0}) ℕ
table = record { find = λ k w. (ok w, w); request = request }

filed : IsFiled snapshots look
filed = record { filed = λ w k s e. refl; key_eq_iff = λ j k. (λ e. refl, λ e. refl) }

faults : MayFail snapshots look faulty
faults = record { finds = λ k w. (refl, λ j. refl); requests = requests }
  where
    requests :
        (k : Unit {0}) (s : ℕ) (op : Operation) (w : Option ℕ)
        → snapshots.key s ≡ ok k
        → Ready snapshots look k op w
        → Outcome snapshots look k s op w (faulty_request s op w)
    requests k s rtm_add w e ready =
        inr ((λ j f. absurd (ground (arith, f))), (s, refl, ap ok ((==_iff s s).1 refl)))
    requests k s rtm_delete w e ready = ((λ j f. absurd (ground (arith, f))), refl)

works : Works snapshots look table
works = record { finds = λ k w. (w, refl, λ j. refl); requests = requests }
  where
    requests :
        (k : Unit {0}) (s : ℕ) (op : Operation) (w : Option ℕ)
        → snapshots.key s ≡ ok k
        → Ready snapshots look k op w
        → (w' : Option ℕ) × (request s op w ≡ (ok tt, w')) × Done snapshots look k s op w w'
    requests k s rtm_add w e ready = (
      some s,
      refl,
      ((λ j f. absurd (ground (arith, f))), (s, refl, ap ok ((==_iff s s).1 refl))),
    )
    requests k s rtm_delete w e ready = (none, refl, ((λ j f. absurd (ground (arith, f))), refl))

restore_with-install_example :
    let (r, after) = install snapshots faulty (ok 5 ∷ ok 6 ∷ []) ([], some 4) in
    let (r', (changes', w')) = restore_with snapshots table after in
    (r' ≡ ok tt)
    × (changes' ≡ [])
    × ((k : Unit {0}) → Same snapshots look filed (some 4) table works (look w' k) (some 4))
restore_with-install_example =
    restore_with-install snapshots look filed (some 4) table works faulty faults (ok 5 ∷ ok 6 ∷ [])
