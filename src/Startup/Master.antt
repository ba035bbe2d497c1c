-- ===== src/Startup/Master.antt =====
-- src/client.cpp, the loop that waits for the master: when it ends, and when an exception leaves it.
use open_workload_scheduler.Base.{
  String, Bool, true, false, some, List, [], ◌∷◌, ◌++◌, ◌≡◌, refl, arith, ◌⊎◌, inr, not, ◌&&◌, ◌||◌,
  empty,
}
use open_workload_scheduler.Base.Int.{ℤ, pos, leb_ℤ}
use open_workload_scheduler.Effect.{Outcome, Exception, returned, thrown}
use open_workload_scheduler.Platform.{Platform, int}
use open_workload_scheduler.Model.{Route}
use open_workload_scheduler.StringMap.{StringMap, in_key_order}
use open_workload_scheduler.Config.{Config, get_param}
use open_workload_scheduler.Router.Index.{Insert}
use open_workload_scheduler.Router.Table.{Router, set_master_node, insert_route}
use open_workload_scheduler.Router.Peers.{
  Neighbours, read_port, reach_master, reach_through_any, reach_master_through,
}
use open_workload_scheduler.Startup.{wait_for_master}

-- The answer names a master that can be reached.
abbrev pub is_route : Outcome Route → Bool
is_route (returned r) = not (empty r.destination_name) && leb_ℤ (pos 0) r.hops
is_route _ = false

-- A peer of the list answers so.
unfoldable pub any_route : Neighbours → ℤ → StringMap String → Bool
any_route net port [] = false
any_route net port ((host, key) ∷ hosts) =
    is_route (net.reach_master host port) || any_route net port hosts

-- In one of the rounds a peer of the list answers so.
unfoldable pub any_round : List Neighbours → ℤ → StringMap String → Bool
any_round [] port hosts = false
any_round (net ∷ nets) port hosts = any_route net port hosts || any_round nets port hosts

-- Every call of `reach_master` at that port is answered.
abbrev pub Answers : ℤ → Neighbours → Type 0
Answers port net = (host : String) → (r : Route) × (net.reach_master host port ≡ returned r)

abbrev pub AllAnswer : ℤ → List Neighbours → Type 0
AllAnswer port [] = Unit
AllAnswer port (net ∷ nets) = Answers port net × AllAnswer port nets

module _ (p : Platform) (place : Insert) (c : Config) (port : ℤ) where
  -- The parameter `port` is that number.
  abbrev pub HasPort : Type 0
  HasPort = (text : String) × (get_param "port" c ≡ some text) × (p.cast int text ≡ some port)

  module _ (net : Neighbours) (has_port : HasPort) where
    through_answer :
        (host : String) (r : Router)
        → ((a : Route) × (net.reach_master host port ≡ returned a))
        → let (found, r') = reach_master_through p place net c host r in
          (found ≡ returned (is_route (net.reach_master host port)))
          × ((is_route (net.reach_master host port) ≡ true) ⊎ (r' ≡ r))
    unfolding reach_master_through read_port set_master_node insert_route
    through_answer host r (a, answered) = ground (arith, has_port.1, has_port.2)

    reach_through_any_answered :
        (hosts : StringMap String) (r : Router)
        → Answers port net
        → let (found, r') = reach_through_any p place net c hosts r in
          (found ≡ returned (any_route net port hosts))
          × ((any_route net port hosts ≡ true) ⊎ (r' ≡ r))
    unfolding reach_through_any any_route
    reach_through_any_answered [] r answers = (refl, inr refl)
    reach_through_any_answered ((host, key) ∷ hosts) r answers =
        ground
          (arith, through_answer host r (answers host), reach_through_any_answered hosts r answers)

    through_down :
        (host : String) (e : Exception) (r : Router)
        → net.reach_master host port ≡ thrown e
        → reach_master_through p place net c host r ≡ (thrown e, r)
    unfolding reach_master_through read_port set_master_node insert_route
    through_down host e r down = ground (arith, has_port.1, has_port.2)

  -- If no master is known, the port is a number and every peer answers, then the loop of the client
  -- that waits for the master ends within the given rounds if and only if in one of them some peer
  -- answers with a name and a number of hops that is not negative.
  pub wait_for_master-ends :
      (nets : List Neighbours) (r : Router)
      → HasPort
      → empty r.master_node ≡ true
      → AllAnswer port nets
      → (wait_for_master p place c nets r).0
        ≡ returned (any_round nets port (in_key_order r.hosts_keys))
  unfolding wait_for_master any_round reach_master
  wait_for_master-ends [] r has_port unknown answer = refl
  wait_for_master-ends (net ∷ nets) r has_port unknown answer = ground (
    arith,
    reach_through_any_answered net has_port (in_key_order r.hosts_keys) r answer.0,
    wait_for_master-ends nets r has_port unknown answer.1,
  )

  -- If no master is known and the port is a number, then after rounds in which every peer answers
  -- and none names a master, an exception of the first peer in the order of the names ends the loop
  -- that waits for the master with that exception, whatever the peers after it answer, and the
  -- router is as it was.
  pub wait_for_master-throws :
      (quiet later : List Neighbours) (net : Neighbours) (r : Router) (host key : String)
      (hosts : StringMap String) (e : Exception)
      → HasPort
      → empty r.master_node ≡ true
      → AllAnswer port quiet
      → in_key_order r.hosts_keys ≡ (host, key) ∷ hosts
      → any_round quiet port ((host, key) ∷ hosts) ≡ false
      → net.reach_master host port ≡ thrown e
      → wait_for_master p place c (quiet ++ net ∷ later) r ≡ (thrown e, r)
  unfolding wait_for_master any_round reach_master
  wait_for_master-throws [] later net r host key hosts e has_port unknown answer order none_yet
        down =
      ground (arith, through_down net has_port host e r down)
  wait_for_master-throws (q ∷ quiet) later net r host key hosts e has_port unknown answer order
        none_yet down =
      ground (
        arith,
        reach_through_any_answered q has_port (in_key_order r.hosts_keys) r answer.0,
        wait_for_master-throws quiet later net r host key hosts e has_port unknown answer.1 order,
      )
