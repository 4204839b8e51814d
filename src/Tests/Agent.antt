-- ===== src/Tests/Agent.antt =====
-- Sessions of one provider, and a day of the coordinator.
use fluxip.Base.{
  String, ◌≡◌, ◌≢◌, refl, true, false, some, none, List, [], ◌∷◌, ◌++◌, arith, eq_iff, lookup, put,
  distinct, if◌then◌else◌, ◌==◌,
}
use fluxip.Agent.Registry.{
  ActiveSession, SessionRegistry, register, unregister, register_lem, unregister_superseded,
  unregister_own, IsOneEach, registry-IsOneEach,
}
use fluxip.Agent.Coordinator.{schedule, schedule_all, run_start, run_end}
use fluxip.Agent.Coordinator.Trace.{
  Op, trigger, fire, finish, start, run_all, AllAllowed, accounted, handed, triggered, IsSound,
}
use fluxip.Agent.Coordinator.Causes.{run_all-accounted, start-IsSound}

abbrev session : String → ActiveSession
session id = record {
  provider_id = "P";
  account_id = "A";
  session_id = id;
  token_id = "T";
  connected_at = "t";
}

register_lem_example :
    ((register (session "s1") []).0 ≡ lookup "P" [])
    × (lookup "P" (register (session "s1") []).1
        ≡ (if "P" == "P" then some (session "s1") else lookup "P" []))
register_lem_example = register_lem (session "s1") [] "P"

s1-ne-s2 : ◌≢◌ {A = String} "s1" "s2"
s1-ne-s2 = ground (arith, eq_iff "s1" "s2")

unregister_superseded_example :
    let after = (register (session "s2") (register (session "s1") []).1).1 in
    (unregister "P" "s1" after ≡ (false, after)) × (lookup "P" after ≡ some (session "s2"))
unregister_superseded_example = unregister_superseded (session "s1") (session "s2") [] refl s1-ne-s2

abbrev one_session : SessionRegistry
one_session = ("P", session "s1") ∷ []

found : lookup "P" one_session ≡ some (session "s1")
unfolding lookup
found = refl

unregister_own_example :
    ((unregister "P" "s1" one_session).0 ≡ true)
    × (lookup "Q" (unregister "P" "s1" one_session).1
        ≡ (if "P" == "Q" then none else lookup "Q" one_session))
unregister_own_example = unregister_own (session "s1") one_session "Q" found

one_session-IsOneEach : IsOneEach one_session
unfolding lookup
one_session-IsOneEach = (refl, refl, tt)

registry-IsOneEach_example :
    IsOneEach (register (session "s2") one_session).1
    × IsOneEach (unregister "P" "s2" one_session).1
registry-IsOneEach_example =
    registry-IsOneEach (session "s2") "P" "s2" one_session one_session-IsOneEach

-- A trigger, its run, a second trigger during the run, the end of the run and a second run.
abbrev day : List Op
day =
    trigger "A" ("P" ∷ "P" ∷ []) (some "c1")
    ∷ trigger "A" ("P" ∷ []) (some "c2")
    ∷ fire "P"
    ∷ trigger "A" ("P" ∷ []) (some "c3")
    ∷ finish "P"
    ∷ fire "P"
    ∷ []

day-accounted : accounted "P" (run_all day start) ≡ "c1" ∷ "c2" ∷ "c3" ∷ []
unfolding run_all lookup put schedule run_start run_end handed schedule_all distinct
day-accounted = refl

day-AllAllowed : AllAllowed day start
unfolding run_all lookup put schedule run_start run_end schedule_all distinct
day-AllAllowed = (tt, (tt, (refl, (tt, (refl, (refl, tt))))))

run_all-accounted_example :
    IsSound (run_all day start).coordinator
    × ((p : String) → accounted p (run_all day start) ≡ accounted p start ++ triggered p day)
run_all-accounted_example = run_all-accounted day start start-IsSound day-AllAllowed
