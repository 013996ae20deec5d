-- ===== src/Cluster/Net.antt =====
-- hircluster.c: how a command reaches a node. The connections of hiredis, the dictionary and the
-- splitting of strings are an interface, and so is what a server's report on the route is parsed to.
use hiredis_vip.Base.{
  ℕ, zero, suc, ◌+◌, ◌-◌, ◌*◌, List, [], ◌∷◌, Option, none, some, Bool, true, false, ◌||◌, ◌==◌,
  ltb, if◌then◌else◌, Bytes,
}
use hiredis_vip.Base.Int.{ℤ, pos, negsuc}
use hiredis_vip.Command.Keywords.{codes}
use hiredis_vip.Cluster.{ClusterSlot}
use hiredis_vip.Cluster.Context.{
  ClusterNode, RedisClusterContext, role_master, set_error, err_other, err_oom,
}
use hiredis_vip.Cluster.Reply.{Reply, reply_status, reply_error, cluster_reply_error_type, err_ask}
use hiredis_vip.Cluster.Route.{update_route}

-- The fields of a `redisContext` that say what is wrong with it.
pub record Conn : Type 0 where
  pub conn_err : ℕ
  pub conn_errstr : Bytes

-- A reply, or NULL with the error of the connection.
pub data Answer : Type 0 where
  replied : Reply → Answer
  broken : Conn → Answer

-- What becomes of the request for the route: an error, or nodes.
pub data Report {ℓ} (A : Type ℓ) : Type ℓ where
  unreachable : ℕ → Bytes → Report A
  reported : List (ClusterNode A) → Report A

-- `W` is all that the calls read and change outside of the context: the nodes' connections and
-- addresses, the sockets and the servers.
pub record Net {ℓ} (A W : Type ℓ) : Type ℓ where
  -- `node->con`, `node->host` and `node->port`
  pub con : A → W → Option Conn
  pub host : A → W → Option Bytes
  pub port : A → W → ℤ
  -- `redisConnect` or `redisConnectWithTimeout`, stored in `node->con`, and `redisReconnect`
  pub connect : A → Bytes → ℤ → W → W
  pub reconnect : A → W → W
  -- `__redisAppendCommand`, whose failure leaves the error of the connection
  pub append_command : A → Bytes → W → Option Conn × W
  -- `__redisBlockForReply` and `redisCommand`
  pub block_for_reply : A → W → Answer × W
  pub redis_command : A → Bytes → W → Answer × W
  -- the request for the route, sent to an address and parsed
  pub ask_route : Bytes → ℤ → W → Report A × W
  -- the exchange of connections between the old nodes and the new
  pub swap_ctx : Option (List (ClusterNode A)) → List (ClusterNode A) → W → W
  -- `sdssplitlen`, `hi_alloc` with the node's fields, `dictFind`, `dictAdd` and `qsort`
  pub split : Bytes → Bytes → Option (List Bytes)
  pub new_node : Bytes → Bytes → ℤ → W → Option A × W
  pub dict_find : List (ClusterNode A) → Bytes → Option A
  pub dict_add : ClusterNode A → List (ClusterNode A) → List (ClusterNode A)
  pub qsort : (ClusterSlot A → ClusterSlot A → ℤ) → List (ClusterSlot A) → List (ClusterSlot A)

-- `port <= 0`, and `port < 0`
abbrev pub not_positive : ℤ → Bool
not_positive (pos zero) = true
not_positive (pos (suc n)) = false
not_positive (negsuc n) = true

abbrev pub negative : ℤ → Bool
negative (pos n) = false
negative (negsuc n) = true

-- The loop of `_hi_atoi`; a value past the range of `int`, which C leaves undefined, counts on.
unfoldable pub atoi_loop : Bytes → ℕ → ℤ
atoi_loop [] value = pos value
atoi_loop (c ∷ line) value =
    let rest = atoi_loop line (value * 10 + (c - b'0')) in
    if ltb c b'0' || ltb b'9' c then negsuc 0 else rest

unfoldable pub hi_atoi : Bytes → ℤ
unfolding atoi_loop
hi_atoi [] = negsuc 0
hi_atoi (c ∷ line) = atoi_loop (c ∷ line) 0

-- `strcmp(x, y) == 0`
unfoldable pub same_text : Bytes → Bytes → Bool
same_text [] [] = true
same_text [] (y ∷ ys) = false
same_text (x ∷ xs) [] = false
same_text (x ∷ xs) (y ∷ ys) = let rest = same_text xs ys in if x == y then rest else false

abbrev pub is_pong : Answer → Bool
is_pong (replied (reply_status str)) = same_text str (codes "PONG")
is_pong _ = false

abbrev pub list_of {ℓ} : {A : Type ℓ} → Option (List A) → List A
list_of none = []
list_of (some xs) = xs

-- `cc->ip != NULL && cc->port > 0` fails.
abbrev pub no_address {ℓ} : {A : Type ℓ} → RedisClusterContext A → Bool
no_address cc = elim cc.ip [ none ↦ true | some ip ↦ not_positive cc.port ]

module _ {ℓ} {A W : Type ℓ} (net : Net A W) where
  unfoldable pub ctx_get_by_node : A → W → Option Conn × W
  ctx_get_by_node node w = elim (net.con node w) [
    | some c ↦
        let w' = net.reconnect node w in
        if c.conn_err == 0 then (some c, w) else (net.con node w', w')
    | none ↦ elim (net.host node w) [
      | none ↦ (none, w)
      | some host ↦
          let w' = net.connect node host (net.port node w) w in
          if not_positive (net.port node w) then (none, w) else (net.con node w', w')
    ]
  ]

  -- `node_get_witch_connected`, over the nodes that the iterator gives.
  unfoldable pub node_get_witch_connected : List (ClusterNode A) → W → Option A × W
  unfolding same_text ctx_get_by_node
  node_get_witch_connected [] w = (none, w)
  node_get_witch_connected (n ∷ nodes) w =
      let r = ctx_get_by_node n.self w in
      elim r.0 [
        | none ↦ node_get_witch_connected nodes r.1
        | some c ↦ elim (c.conn_err == 0) [
          | false ↦ node_get_witch_connected nodes r.1
          | true ↦
              let p = net.redis_command n.self (codes "PING") r.1 in
              elim (is_pong p.0) [
                | true ↦ (some n.self, p.1)
                | false ↦ node_get_witch_connected nodes p.1
              ]
        ]
      ]

  -- `cluster_update_route_by_addr`: the guards, and the request for the route.
  unfoldable pub update_route_by_addr :
      RedisClusterContext A → Option Bytes → ℤ → W → Bool × RedisClusterContext A × W
  unfolding update_route
  update_route_by_addr cc none port w =
      (false, set_error cc err_other (codes "Ip or port error!"), w)
  update_route_by_addr cc (some ip) port w =
      let report = net.ask_route ip port w in
      if not_positive port
      then (false, set_error cc err_other (codes "Ip or port error!"), w)
      else elim report.0 [
        | unreachable type str ↦ (false, set_error cc type str, report.1)
        | reported nodes ↦
            let r = update_route net.qsort cc nodes in
            (r.0, r.1, if r.0 then net.swap_ctx cc.nodes nodes report.1 else report.1)
      ]

  -- The loop of `cluster_update_route` on the nodes; `tried` says that an address was tried.
  unfoldable pub update_route_loop :
      List (ClusterNode A) → Bool → RedisClusterContext A → W → Bool × RedisClusterContext A × W
  unfolding update_route_by_addr
  update_route_loop [] tried cc w =
      (false, if tried then cc else set_error cc err_other (codes "no valid server address"), w)
  update_route_loop (n ∷ nodes) tried cc w = elim (net.host n.self w) [
    | none ↦ update_route_loop nodes tried cc w
    | some host ↦ elim (negative (net.port n.self w)) [
      | true ↦ update_route_loop nodes tried cc w
      | false ↦
          let r = update_route_by_addr cc (some host) (net.port n.self w) w in
          elim r.0 [
            | true ↦ (true, if r.1.err == 0 then r.1 else record r.1 { err = 0; errstr = [] }, r.2)
            | false ↦ update_route_loop nodes true r.1 r.2
          ]
    ]
  ]

  -- `cluster_update_route`
  unfoldable pub cluster_update_route : RedisClusterContext A → W → Bool × RedisClusterContext A × W
  unfolding update_route_by_addr update_route_loop
  cluster_update_route cc w =
      let untried = no_address cc in
      let r = if untried then (false, cc, w) else update_route_by_addr cc cc.ip cc.port w in
      elim r.0 [
        | true ↦ r
        | false ↦ elim r.1.nodes [
          | none ↦ (
            false,
            if untried then set_error cc err_other (codes "no server address") else r.1,
            r.2,
          )
          | some nodes ↦ update_route_loop nodes (if untried then false else true) r.1 r.2
        ]
      ]

  -- `node_get_by_ask_error_reply`
  unfoldable pub node_get_by_ask_error_reply :
      RedisClusterContext A → Reply → W → Option A × RedisClusterContext A × W
  unfolding hi_atoi
  node_get_by_ask_error_reply cc (reply_error str) w =
      elim (cluster_reply_error_type (some (reply_error str))) [
        | err_ask ↦ elim (net.split str (codes " ")) [
          | some (word ∷ slot ∷ addr ∷ []) ↦ elim (net.split addr (codes ":")) [
            | some (host ∷ port ∷ []) ↦ elim (net.dict_find (list_of cc.nodes) addr) [
              | some node ↦ (some node, cc, w)
              | none ↦
                  let made = net.new_node slot host (hi_atoi port) w in
                  elim made.0 [
                    | none ↦ (none, set_error cc err_oom (codes "Out of memory"), made.1)
                    | some node ↦
                        let entry : ClusterNode A = record {
                          key = slot;
                          self = node;
                          role = role_master;
                          slots = none;
                        } in
                        (
                          some node,
                          record cc { nodes = some (net.dict_add entry (list_of cc.nodes)) },
                          made.1,
                        )
                  ]
            ]
            | _ ↦ (
              none,
              set_error cc err_other (codes "ask error reply address part parse error!"),
              w,
            )
          ]
          | _ ↦ (none, set_error cc err_other (codes "ask error reply parse error!"), w)
        ]
        | _ ↦ (none, set_error cc err_other (codes "reply is not ask error!"), w)
      ]
  node_get_by_ask_error_reply cc reply w =
      (none, set_error cc err_other (codes "reply is not ask error!"), w)
