-- ===== src/Router/Peers.antt =====
-- src/router.cpp: the discovery of the peers and of the master. The answers of the other nodes are a
-- parameter: a call opens the connection and sends the request.
use open_workload_scheduler.Base.{
  String, Bool, true, false, Option, none, some, List, [], ◌∷◌, ◌&&◌, ◌||◌, eqb, empty, not,
  if◌then◌else◌,
}
use Prim.Native.Char.{code}
use Prim.Native.String as Text
use open_workload_scheduler.Base.Int.{ℤ, pos, leb_ℤ, pos_part}
use open_workload_scheduler.Effect.{
  M, Outcome, std_exception, ◌>>=◌, ◌>>◌, pure, lift, try_catch, or_throw, gets, modify, deref,
}
use open_workload_scheduler.Platform.{Platform, int}
use open_workload_scheduler.Model.{Hello, Route, Node, new_node}
use open_workload_scheduler.StringMap.{StringMap, in_key_order, erase, insert}
use open_workload_scheduler.Config.{Config, get_param, split_at}
use open_workload_scheduler.Router.Index.{Insert}
use open_workload_scheduler.Router.Table.{Router, set_master_node, insert_route}

-- The remote calls of the router: the host, the port and the arguments.
pub record Neighbours : Type 0 where
  pub hello : String → ℤ → Node → Outcome Hello
  pub reach_master : String → ℤ → Outcome Route

-- The port of the other nodes: the parameter `port`, read through a pointer and cast.
unfoldable pub read_port : {S : Type 0} → Platform → Config → M S ℤ
unfolding get_param
read_port p c = do text ← deref (get_param "port" c); or_throw (p.cast int text) std_exception

-- The router and the last answer to `hello`, which `update_peers_list` keeps across its loop.
pub record Discovery : Type 0 where
  pub router : Router
  pub hello_result : Hello

abbrev pub new_hello : Hello
new_hello = record { domain = ""; name = ""; is_master = false }

abbrev pub on_router : (Router → Router) → M Discovery (Unit {0})
on_router f = modify (λ s. record s { router = f s.router })

-- `line.compare(0, 1, "#") == 0`
abbrev pub is_comment : String → Bool
is_comment Text.[] = false
is_comment (Text.◌∷◌ c s) = eqb (code c) b'#'

module _ (p : Platform) (place : Insert) (net : Neighbours) (c : Config) where
  -- The `try` of the loop: an exception forgets the key of the peer.
  unfoldable pub greet : String → M Discovery (Unit {0})
  unfolding read_port
  greet name =
      try_catch
        (do
          port ← read_port p c
          answer ← lift (net.hello name port (record new_node { name = name }))
          modify (λ s. record s { hello_result = answer }))
        (λ e. on_router (λ r. record r { hosts_keys = erase name r.hosts_keys }))

  -- What a line with a name and a key does.
  unfoldable pub add_peer : String → String → M Discovery (Unit {0})
  unfolding greet set_master_node insert_route
  add_peer name public_key = do
    greet name
    on_router (λ r. record r { hosts_keys = insert name public_key r.hosts_keys })
    on_router (insert_route place name name 0)
    hello ← gets (λ s. s.hello_result)
    if hello.is_master then on_router (λ r. (set_master_node (some hello.name) r).1) else pure tt

  -- The loop of `update_peers_list` over the lines of the file.
  unfoldable pub update_from_lines : List String → M Discovery Bool
  unfolding add_peer split_at
  update_from_lines [] = pure true
  update_from_lines (line ∷ lines) =
      if is_comment line || empty line
      then update_from_lines lines
      else elim (split_at b'\t' line) [
        | none ↦ pure false
        | some (name, public_key) ↦
            (if empty name then pure tt else add_peer name public_key) >> update_from_lines lines
      ]

  unfoldable pub update_from_file : Option (List String) → M Discovery Bool
  unfolding update_from_lines
  update_from_file none = pure false
  update_from_file (some lines) = update_from_lines lines

  -- `update_peers_list`
  unfoldable pub update_peers_list : M Discovery Bool
  unfolding update_from_file get_param
  update_peers_list = elim (get_param "peers_keys" c) [
    | none ↦ pure false
    | some path ↦ if empty path then pure false else update_from_file (p.read_lines path)
  ]

  -- `reach_master(const char*)`: an answer with a name and a number of hops that is not negative.
  unfoldable pub reach_master_through : String → M Router Bool
  unfolding read_port set_master_node insert_route
  reach_master_through target = do
    port ← read_port p c
    result ← lift (net.reach_master target port)
    if not (empty result.destination_name) && leb_ℤ (pos 0) result.hops
        then modify (λ r. (set_master_node (some result.destination_name) r).1)
          >> modify (insert_route place result.destination_name target (pos_part result.hops))
          >> pure true
        else pure false

  -- The loop of `reach_master` over the peers.
  unfoldable pub reach_through_any : StringMap String → M Router Bool
  unfolding reach_master_through
  reach_through_any [] = pure false
  reach_through_any ((host, key) ∷ hosts) = do
    reached ← reach_master_through host
    if reached then pure true else reach_through_any hosts

  -- `reach_master()`
  unfoldable pub reach_master : M Router Bool
  unfolding reach_through_any
  reach_master = do
    known ← gets (λ r. not (empty r.master_node))
    hosts ← gets (λ r. in_key_order r.hosts_keys)
    if known then pure true else reach_through_any hosts
