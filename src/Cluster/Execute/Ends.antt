-- ===== src/Cluster/Execute/Ends.antt =====
-- How a run of a command ends.
use hiredis_vip.Base.{
  ℕ, zero, suc, ◌+◌, ◌≤◌, ◌<◌, none, some, true, false, ◌==◌, ltb, Bytes, ◌≡◌, ◌≢◌, refl, ap, ◌∙◌,
  ◌⊎◌, inl, inr, arith, Bool-cases, Option-cases,
}
use hiredis_vip.Array.{u32}
use hiredis_vip.Command.Keywords.{codes}
use hiredis_vip.Cluster.Context.{
  RedisClusterContext, set_error, node_get_by_table, err_other, err_oom,
  err_cluster_too_many_redirect,
}
use hiredis_vip.Cluster.Reply.{
  Reply, ErrorType, err_moved, err_ask, err_tryagain, err_crossslot, err_clusterdown, redis_err,
  not_err, err_sentinel, cluster_reply_error_type,
}
use hiredis_vip.Cluster.Net.{
  Net, Answer, replied, broken, list_of, ctx_get_by_node, node_get_witch_connected,
  cluster_update_route, node_get_by_ask_error_reply,
}
use hiredis_vip.Cluster.Execute.{
  Request, Run, returned, out_of_fuel, redirected, retried, elsewhere, retry, follow, ask_retry,
  redis_cluster_command_execute,
}
use hiredis_vip.Cluster.Execute.Counts.{update-SameCounts, ask-SameCounts}

module _ {ℓ} {A W : Type ℓ} where
  -- What holds of the errors that the code reports, and of those of connections that fail.
  pub record Blames (net : Net A W) (Q : ℕ → Type 0) : Type ℓ where
    pub other : Q err_other
    pub oom : Q err_oom
    pub many : Q err_cluster_too_many_redirect
    pub down : (n : ℕ) → n ≢ 0 → Q n
    pub unsent :
        (node : A) (text : Bytes) (w : W) (c : _)
        → (net.append_command node text w).0 ≡ some c
        → Q c.conn_err
    pub unanswered :
        (node : A) (w : W) (c : _) → (net.block_for_reply node w).0 ≡ broken c → Q c.conn_err
    pub refused :
        (node : A) (text : Bytes) (w : W) (c : _)
        → (net.redis_command node text w).0 ≡ broken c
        → Q c.conn_err

  -- A run comes to a reply that is no redirection, or to NULL with an error that Q holds of.
  abbrev pub Ends : (ℕ → Type 0) → Run A W → Type 0
  Ends Q out_of_fuel = ⊥
  Ends Q (returned (some reply) cc w) = redirected (cluster_reply_error_type (some reply)) ≡ false
  Ends Q (returned none cc w) = Q cc.err

up : (n : ℕ) → (n == 0) ≡ false → n ≢ 0
up n h e = absurd (cc (h, ap (λ (m : ℕ). m == 0) e))

Answer-cases : (a : Answer) → ((c : _) × (a ≡ broken c)) ⊎ ((reply : Reply) × (a ≡ replied reply))
Answer-cases (broken c) = inl (c, refl)
Answer-cases (replied reply) = inr (reply, refl)

module _ {ℓ} {A W : Type ℓ} (net : Net A W) (command : Request) (Q : ℕ → Type 0)
    (blames : Blames net Q) (limit : ℕ) where
  -- A continuation that ends well once so many redirections have been counted.
  abbrev EndsFrom : ℕ → (A → RedisClusterContext A → W → Run A W) → Type ℓ
  EndsFrom low again =
      (node : A) (ctx : RedisClusterContext A) (w : W)
      → ctx.max_redirect_count ≡ limit
      → low ≤ ctx.retry_count
      → Ends Q (again node ctx w)

  elsewhere-Ends :
      (low : ℕ) (again : A → RedisClusterContext A → W → Run A W)
      → EndsFrom low again
      → (ctx : RedisClusterContext A) (w : W) → ctx.max_redirect_count ≡ limit
      → low ≤ ctx.retry_count
      → Ends Q (elsewhere net command again ctx w)
  unfolding elsewhere set_error
  elsewhere-Ends low again ends ctx w top count =
      let m = node_get_witch_connected net (list_of ctx.nodes) w in
      elim (Option-cases m.0) [
        | inl e ↦ rw (e, elsewhere) blames.other
        | inr (node, e) ↦ elim (Bool-cases (ltb ctx.max_redirect_count (ctx.retry_count + 1))) [
          | inl e1 ↦ rw (e, e1, elsewhere) blames.many
          | inr e1 ↦
              let r = ctx_get_by_node net node m.1 in
              elim (Option-cases r.0) [
                | inl e2 ↦ rw (e, e1, e2, elsewhere) blames.other
                | inr (c, e2) ↦ elim (Bool-cases (c.conn_err == 0)) [
                  | inl e3 ↦
                      rw (e, e1, e2, e3, elsewhere) (ends node (retried ctx) r.1 top (omega arith))
                  | inr e3 ↦
                      rw (e, e1, e2, e3, elsewhere) (blames.down c.conn_err (up c.conn_err e3))
                ]
              ]
        ]
      ]

  retry-Ends :
      (low : ℕ) (again : A → RedisClusterContext A → W → Run A W)
      → EndsFrom low again
      → (ctx : RedisClusterContext A) (w : W) → ctx.max_redirect_count ≡ limit
      → low ≤ ctx.retry_count
      → Ends Q (retry net command again ctx w)
  unfolding retry set_error
  retry-Ends low again ends ctx w top count =
      elim (Option-cases (node_get_by_table ctx (u32 command.slot_num))) [
        | inl e ↦ rw (e, retry) blames.other
        | inr (node, e) ↦
            let r = ctx_get_by_node net node w in
            elim (Option-cases r.0) [
              | inl e1 ↦ rw (e, e1, retry) blames.other
              | inr (c, e1) ↦ elim (Bool-cases (c.conn_err == 0)) [
                | inl e2 ↦ rw (e, e1, e2, retry) (ends node ctx r.1 top count)
                | inr e2 ↦ rw (e, e1, e2, retry) (elsewhere-Ends low again ends ctx r.1 top count)
              ]
            ]
      ]

  ask-err :
      (ctx : RedisClusterContext A) (reply : Reply) (w : W)
      → (node_get_by_ask_error_reply net ctx reply w).0 ≡ none
      → ((node_get_by_ask_error_reply net ctx reply w).1.err ≡ err_other)
        ⊎ ((node_get_by_ask_error_reply net ctx reply w).1.err ≡ err_oom)
  unfolding node_get_by_ask_error_reply set_error
  ask-err ctx reply w e = ground arith

  ask-blames :
      (ctx : RedisClusterContext A) (reply : Reply) (w : W)
      → (node_get_by_ask_error_reply net ctx reply w).0 ≡ none
      → Q (node_get_by_ask_error_reply net ctx reply w).1.err
  ask-blames ctx reply w e = elim (ask-err ctx reply w e) [
    | inl h ↦ rw (h) blames.other
    | inr h ↦ rw (h) blames.oom
  ]

  follow-Ends :
      (low : ℕ) (type : ErrorType) (reply : Reply) (again : A → RedisClusterContext A → W → Run A W)
      → EndsFrom low again
      → (ctx : RedisClusterContext A) (w : W) → redirected type ≡ true
      → ctx.max_redirect_count ≡ limit
      → low ≤ ctx.retry_count
      → Ends Q (follow net command type reply again ctx w)
  unfolding follow set_error
  follow-Ends low err_moved reply again ends ctx w _ top count =
      let r = cluster_update_route net ctx w in
      let (top', count') = update-SameCounts net ctx w in
      elim (Bool-cases r.0) [
        | inl e ↦ rw (e, follow) (retry-Ends low again ends r.1 r.2 (top' ∙ top) (omega arith))
        | inr e ↦ rw (e, follow) blames.other
      ]
  follow-Ends low err_ask reply again ends ctx w _ top count =
      let n = node_get_by_ask_error_reply net ctx reply w in
      let (top', count') = ask-SameCounts net ctx reply w in
      elim (Option-cases n.0) [
        | inl e ↦ rw (e, follow) (ask-blames ctx reply w e)
        | inr (node, e) ↦
            let r = ctx_get_by_node net node n.2 in
            elim (Option-cases r.0) [
              | inl e1 ↦ rw (e, e1, follow) blames.other
              | inr (c, e1) ↦ elim (Bool-cases (c.conn_err == 0)) [
                | inr e2 ↦ rw (e, e1, e2, follow) (blames.down c.conn_err (up c.conn_err e2))
                | inl e2 ↦
                    let p = net.redis_command node (codes "ASKING") r.1 in
                    elim (Answer-cases p.0) [
                      | inl (c', e3) ↦
                          rw (e, e1, e2, e3, follow)
                            (blames.refused node (codes "ASKING") r.1 c' e3)
                      | inr (reply', e3) ↦
                          rw (e, e1, e2, e3, follow) (ends node n.1 p.1 (top' ∙ top) (omega arith))
                    ]
              ]
            ]
      ]
  follow-Ends low err_tryagain reply again ends ctx w _ top count =
      retry-Ends low again ends ctx w top count
  follow-Ends low err_crossslot reply again ends ctx w _ top count =
      retry-Ends low again ends ctx w top count
  follow-Ends low err_clusterdown reply again ends ctx w _ top count =
      retry-Ends low again ends ctx w top count
  follow-Ends low redis_err reply again ends ctx w h top count = absurd (cc h)
  follow-Ends low not_err reply again ends ctx w h top count = absurd (cc h)
  follow-Ends low err_sentinel reply again ends ctx w h top count = absurd (cc h)

  ask_retry-Ends :
      (fuel : ℕ) (node : A) (ctx : RedisClusterContext A) (w : W)
      → ctx.max_redirect_count ≡ limit
      → limit < fuel + ctx.retry_count
      → 0 < fuel
      → Ends Q (ask_retry net command fuel node ctx w)
  unfolding ask_retry set_error
  ask_retry-Ends zero node ctx w top count some_fuel = absurd (omega arith)
  ask_retry-Ends (suc fuel) node ctx w top count some_fuel =
      let sent = net.append_command node command.text w in
      elim (Option-cases sent.0) [
        | inr (c, e) ↦ rw (e, ask_retry) (blames.unsent node command.text w c e)
        | inl e ↦
            let got = net.block_for_reply node sent.1 in
            elim (Answer-cases got.0) [
              | inl (c, e1) ↦ rw (e, e1, ask_retry) (blames.unanswered node sent.1 c e1)
              | inr (reply, e1) ↦
                  let type = cluster_reply_error_type (some reply) in
                  elim (Bool-cases (redirected type)) [
                    | inr e2 ↦ rw (e, e1, e2, ask_retry) e2
                    | inl e2 ↦
                        elim (Bool-cases (ltb ctx.max_redirect_count (ctx.retry_count + 1))) [
                          | inl e3 ↦ rw (e, e1, e2, e3, ask_retry) blames.many
                          | inr e3 ↦
                              rw (e, e1, e2, e3, ask_retry)
                                (follow-Ends (ctx.retry_count + 1) type reply
                                  (ask_retry net command fuel)
                                  (λ node' ctx' w' top' count'.
                                    ask_retry-Ends fuel node' ctx' w' top' (omega arith)
                                      (ground arith))
                                  (retried ctx) got.1 e2 top (omega arith))
                        ]
                  ]
            ]
      ]

  pub execute-Ends :
      (ctx : RedisClusterContext A) (w : W)
      → ctx.max_redirect_count ≡ limit
      → Ends Q (redis_cluster_command_execute net command ctx w)
  unfolding redis_cluster_command_execute
  execute-Ends ctx w top =
      retry-Ends 0 (ask_retry net command (ctx.max_redirect_count + 1))
        (λ node' ctx' w' top' count'.
          ask_retry-Ends (ctx.max_redirect_count + 1) node' ctx' w' top' (omega arith)
            (omega arith))
        ctx w top (omega arith)
