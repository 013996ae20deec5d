-- ===== src/Cluster/Pipeline/Laws.antt =====
-- A reply takes its request on every path, and a reset comes to its end.
use hiredis_vip.Base.{
  ℕ, List, [], ◌∷◌, Option, none, some, Bool, true, false, ◌≡◌, refl, ◌⊎◌, inl, inr, Option-cases,
}
use hiredis_vip.Base.Int.{pos}
use hiredis_vip.Cluster.Context.{RedisClusterContext, err_other}
use hiredis_vip.Cluster.Reply.{Reply}
use hiredis_vip.Cluster.Net.{Net, cluster_update_route}
use hiredis_vip.Cluster.Pipeline.{Pending, Lines, Session}
use hiredis_vip.Cluster.Pipeline.Replies.{
  Handed, handed, handed_whole, get_reply_from_node, get_first, redis_cluster_get_reply,
}

-- A request that went whole, to one slot.
abbrev pub IsWhole : Pending → Type 0
IsWhole p = (n : ℕ) × (p.slot_num ≡ pos n)

-- What `redisClusterGetReply` makes of the list of requests: the list, whether it returns REDIS_OK, the
-- reply, which is the caller's where the request went whole, and the list behind it.
pub data Took : Option (List Pending) → Bool → Option Handed → Option (List Pending) → Type 0 where
  no_list : Took none false none none
  none_left : Took (some []) true none (some [])
  got :
      (p : Pending) (rest : List Pending) (given : Handed)
      → (IsWhole p → (reply : Reply) × (given ≡ handed reply))
      → Took (some (p ∷ rest)) true (some given) (some rest)
  failed : (p : Pending) (rest : List Pending) → Took (some (p ∷ rest)) false none (some rest)

handed_whole-handed :
    (o : Option Reply) (given : Handed)
    → handed_whole o ≡ some given
    → (reply : Reply) × (given ≡ handed reply)
handed_whole-handed none given e = absurd (cc e)
handed_whole-handed (some reply) given e = (reply, cc e)

module _ {ℓ} {A W : Type ℓ} (net : Net A W) (lines : Lines A W) where
  get_first-IsWhole :
      (p : Pending) (ctx : RedisClusterContext A) (w : W) (given : Handed)
      → (get_first net lines p ctx w).0 ≡ some given
      → IsWhole p
      → (reply : Reply) × (given ≡ handed reply)
  unfolding get_first
  get_first-IsWhole p ctx w given e (n, slot) =
      handed_whole-handed (get_reply_from_node net lines n ctx w).0 given
        (rw (slot, get_first) at e)

  takes :
      (s : Session A W) (o : Option (List Pending))
      → s.requests ≡ o
      → let r = redis_cluster_get_reply net lines s in Took o r.0 r.1 r.2.requests
  unfolding redis_cluster_get_reply
  takes s none e = rw (e, redis_cluster_get_reply, e) no_list
  takes s (some []) e = rw (e, redis_cluster_get_reply, e) none_left
  takes s (some (p ∷ rest)) e =
      let ctx = record s.cc { err = 0; errstr = [] } in
      elim (Option-cases (get_first net lines p ctx s.world).0) [
        | inl h ↦ rw (e, h, redis_cluster_get_reply) (failed p rest)
        | inr (given, h) ↦
            rw (e, h, redis_cluster_get_reply)
              (got p rest given (get_first-IsWhole p ctx s.world given h))
      ]

  -- `redisClusterGetReply` takes the first request, whether it comes to a reply or to an error; without
  -- requests it gives NULL, and without a list of them REDIS_ERR. The reply to a request that went whole
  -- is the caller's.
  pub redis_cluster_get_reply-takes :
      (s : Session A W)
      → let r = redis_cluster_get_reply net lines s in Took s.requests r.0 r.1 r.2.requests
  redis_cluster_get_reply-takes s = takes s s.requests refl

  -- What the update of the route makes of the first session: nothing where none is needed, and else its
  -- result, with the flag cleared, or the error that it failed.
  abbrev pub Renews : Session A W → Session A W → Type ℓ
  Renews s1 s' =
      let r = cluster_update_route net s1.cc s1.world in
      ((s1.cc.need_update_route ≡ false) × (s'.cc ≡ s1.cc))
      ⊎ ((s1.cc.need_update_route ≡ true)
          × ((s'.world ≡ r.2)
              × (((r.0 ≡ true) × (s'.cc ≡ record r.1 { need_update_route = false }))
                  ⊎ ((r.0 ≡ false) × (s'.cc.err ≡ err_other)))))
