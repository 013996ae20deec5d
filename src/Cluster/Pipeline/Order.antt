-- ===== src/Cluster/Pipeline/Order.antt =====
-- Over connections that are queues, each request gets its own reply, in the order of the requests.
use hiredis_vip.Base.{
  ℕ, List, [], ◌∷◌, ◌++◌, Option, none, some, ltb, if◌then◌else◌, ◌≡◌, refl, sym, ap, subst, ◌∙◌,
  inl, inr, Option-cases, arith,
}
use hiredis_vip.Base.Int.{pos, negsuc}
use hiredis_vip.Array.{u32}
use hiredis_vip.Command.Types.{CmdType}
use hiredis_vip.Cluster.{redis_cluster_slots}
use hiredis_vip.Cluster.Context.{RedisClusterContext, node_get_by_table, set_error}
use hiredis_vip.Cluster.Reply.{Reply}
use hiredis_vip.Cluster.Net.{Net, list_of}
use hiredis_vip.Cluster.Fragment.{SubCommand}
use hiredis_vip.Cluster.Gather.{Part, command_post_fragment}
use hiredis_vip.Cluster.Client.{PartReplies, stopped, with_part, collected, sequence}
use hiredis_vip.Cluster.Pipeline.{Pending, Lines, Session, requests_of}
use hiredis_vip.Cluster.Pipeline.Replies.{
  Handed, handed_whole, handed_joined, noted, get_reply_from_node, get_parts, get_first,
  redis_cluster_get_reply,
}
use hiredis_vip.Cluster.Pipeline.Fifo.{Fifo, Awaits, get-Awaits}

-- The replies to sub commands, each with the slot of its command.
abbrev pub parts_of {ℓ} : {A : Type ℓ} → List SubCommand → List (A × Reply) → List Part
parts_of [] items = []
parts_of (sub ∷ commands) [] = []
parts_of (sub ∷ commands) ((x, r) ∷ items) = (sub.slot_num, some r) ∷ parts_of commands items

-- `node_get_by_table` over a table.
abbrev pub node_of {ℓ} : {A : Type ℓ} → (ℕ → Option A) → ℕ → Option A
node_of table s = if ltb (u32 s) redis_cluster_slots then table (u32 s) else none

-- The items are read from the nodes of the sub commands' slots.
pub data Routed {ℓ} {A : Type ℓ} (table : ℕ → Option A)
    : List SubCommand → List (A × Reply) → Type ℓ where
  routed_end : Routed table [] []
  routed_next :
      (sub : SubCommand) (x : A) (r : Reply) (commands : List SubCommand) (items : List (A × Reply))
      → node_of table sub.slot_num ≡ some x
      → Routed table commands items
      → Routed table (sub ∷ commands) ((x, r) ∷ items)

-- What a request is owed: the reply of the node of its slot, or one from the node of each part.
pub data Owed {ℓ} {A : Type ℓ} (table : ℕ → Option A) : Pending → List (A × Reply) → Type ℓ where
  owed_whole :
      (type : CmdType) (s : ℕ) (subs : Option (List SubCommand)) (seq : Option (List ℕ)) (x : A)
      (r : Reply)
      → node_of table s ≡ some x
      → Owed table
          (record { type = type; slot_num = pos s; sub_commands = subs; frag_seq = seq })
          ((x, r) ∷ [])
  owed_parts :
      (type : CmdType) (n : ℕ) (commands : List SubCommand) (seq : Option (List ℕ))
      (items : List (A × Reply))
      → Routed table commands items
      → Owed table
          (record {
            type = type;
            slot_num = negsuc n;
            sub_commands = some commands;
            frag_seq = seq;
          })
          items

abbrev first_reply {ℓ} : {A : Type ℓ} → List (A × Reply) → Option Reply
first_reply [] = none
first_reply ((x, r) ∷ items) = some r

-- The reply that is made of what a request is owed, which is freed where it is the error of a part.
abbrev pub joined {ℓ} :
    {A : Type ℓ} → RedisClusterContext A → Pending → List (A × Reply) → Option Handed
joined ctx p items = elim p.slot_num [
  | pos slot ↦ handed_whole (first_reply items)
  | negsuc n ↦
      let parts = parts_of (list_of p.sub_commands) items in
      let r = command_post_fragment ctx p.type parts (sequence p.frag_seq) in handed_joined r.0
]

abbrev pub flatten {ℓ} : {A : Type ℓ} → List (List A) → List A
flatten [] = []
flatten (xs ∷ xss) = xs ++ flatten xss

pub data AllOwed {ℓ} {A : Type ℓ} (table : ℕ → Option A)
    : List Pending → List (List (A × Reply)) → Type ℓ where
  owed_end : AllOwed table [] []
  owed_next :
      (p : Pending) (items : List (A × Reply)) (requests : List Pending)
      (queue : List (List (A × Reply)))
      → Owed table p items
      → AllOwed table requests queue
      → AllOwed table (p ∷ requests) (items ∷ queue)

first_pending {ℓ} :
    {A : Type ℓ} {table : ℕ → Option A} (listing : Option (List Pending)) (requests : List Pending)
    (items : List (A × Reply)) (queue : List (List (A × Reply)))
    → requests_of listing ≡ requests
    → AllOwed table requests (items ∷ queue)
    → (p : Pending) × (rest : List Pending) × (listing ≡ some (p ∷ rest))
      × Owed table p items
      × AllOwed table rest queue
first_pending none _ _ _ listed (owed_next p items requests queue first others) = absurd (cc listed)
first_pending (some ps) _ _ _ listed (owed_next p items requests queue first others) =
    (p, requests, ap some listed, first, others)

noted-table {ℓ} :
    {A : Type ℓ} (r : Reply) (ctx : RedisClusterContext A) → (noted r ctx).table ≡ ctx.table
noted-table r ctx = ground arith

-- The reply that `command_post_fragment` makes does not depend on the context, whose table stays.
post_fragment-Same {ℓ} :
    {A : Type ℓ} (ctx ctx' : RedisClusterContext A) (type : CmdType) (parts : List Part)
    (frag_seq : List ℕ)
    → ((command_post_fragment ctx type parts frag_seq).0
        ≡ (command_post_fragment ctx' type parts frag_seq).0)
      × ((command_post_fragment ctx type parts frag_seq).1.table ≡ ctx.table)
unfolding command_post_fragment set_error
post_fragment-Same ctx ctx' type parts frag_seq = ground arith

module _ {ℓ} {A W : Type ℓ} (net : Net A W) (lines : Lines A W) (fifo : Fifo net lines)
    (table : ℕ → Option A) where
  -- The requests are owed the items of the queue, one after the other, which are what is to be read.
  pub record InStep (s : Session A W) (queue : List (List (A × Reply))) : Type ℓ where
    pub requests : List Pending
    pub listed : requests_of s.requests ≡ requests
    pub owed : AllOwed table requests queue
    pub same_table : s.cc.table ≡ table
    pub awaits : Awaits net lines fifo s.world (flatten queue)

  -- One round of the loop on the sub commands.
  get_parts-next :
      (sub : SubCommand) (commands : List SubCommand) (ctx ctx1 : RedisClusterContext A) (w w1 : W)
      (r : Reply)
      → get_reply_from_node net lines sub.slot_num ctx w ≡ (some r, ctx1, w1)
      → get_parts net lines (sub ∷ commands) ctx w
        ≡ with_part (sub.slot_num, some r) (get_parts net lines commands ctx1 w1)
  unfolding get_parts
  get_parts-next sub commands ctx ctx1 w w1 r e =
      let round : Option Reply × RedisClusterContext A × W → PartReplies A W = λ t. elim t.0 [
        | none ↦ stopped none t.1 t.2
        | some reply ↦ with_part (sub.slot_num, some reply) (get_parts net lines commands t.1 t.2)
      ] in
      ap round e

  get_parts-collected :
      (commands : List SubCommand) (items rest : List (A × Reply)) (ctx : RedisClusterContext A)
      (w : W)
      → Routed table commands items
      → ctx.table ≡ table
      → Awaits net lines fifo w (items ++ rest)
      → (ctx' : RedisClusterContext A) × (w' : W) × (get_parts net lines commands ctx w
          ≡ collected (parts_of commands items) ctx' w')
        × (ctx'.table ≡ table)
        × Awaits net lines fifo w' rest
  unfolding get_parts node_get_by_table
  get_parts-collected _ _ rest ctx w routed_end at awaits = (ctx, w, refl, at, awaits)
  get_parts-collected _ _ rest ctx w (routed_next sub x r commands items here routed) at awaits =
      let found = rw (sym at) at here in
      let (w1, e1, awaits1) =
        get-Awaits net lines fifo sub.slot_num ctx w x r (items ++ rest) found awaits in
      let (ctx2, w2, e2, at2, awaits2) =
        get_parts-collected commands items rest (noted r ctx) w1 routed (noted-table r ctx ∙ at)
          awaits1 in
      (
        ctx2,
        w2,
        get_parts-next sub commands ctx (noted r ctx) w w1 r e1
            ∙ ap (with_part (sub.slot_num, some r)) e2,
        at2,
        awaits2,
      )

  get_first-joined :
      (p : Pending) (items rest : List (A × Reply)) (ctx any : RedisClusterContext A) (w : W)
      → Owed table p items
      → ctx.table ≡ table
      → Awaits net lines fifo w (items ++ rest)
      → ((get_first net lines p ctx w).0 ≡ joined any p items)
        × ((get_first net lines p ctx w).1.table ≡ table)
        × Awaits net lines fifo (get_first net lines p ctx w).2 rest
  unfolding get_first node_get_by_table
  get_first-joined _ _ rest ctx any w (owed_whole type s subs seq x r here) at awaits =
      let found = rw (sym at) at here in
      let (w1, e, awaits1) = get-Awaits net lines fifo s ctx w x r rest found awaits in
      (
        rw (e) refl,
        rw (e) (noted-table r ctx ∙ at),
        subst (λ v. Awaits net lines fifo v rest) (sym (ap (λ t. t.2) e)) awaits1,
      )
  get_first-joined _ items rest ctx any w (owed_parts type n commands seq _ routed) at awaits =
      let (ctx1, w1, e, at1, awaits1) =
        get_parts-collected commands items rest ctx w routed at awaits in
      let (same, kept) =
        post_fragment-Same ctx1 any type (parts_of commands items) (sequence seq) in
      (
        rw (e, get_first) (ap handed_joined same),
        rw (e, get_first) (kept ∙ at1),
        rw (e, get_first) awaits1,
      )

  -- What `redisClusterGetReply` takes from the first request.
  taken :
      (s : Session A W) (p : Pending) (rest : List Pending)
      → s.requests ≡ some (p ∷ rest)
      → let r = redis_cluster_get_reply net lines s in
        let first = get_first net lines p (record s.cc { err = 0; errstr = [] }) s.world in
        (r.1 ≡ first.0)
        × (r.2.requests ≡ some rest)
        × (r.2.cc.table ≡ first.1.table)
        × (r.2.world ≡ first.2)
  unfolding redis_cluster_get_reply
  taken s p rest listed =
      let first = get_first net lines p (record s.cc { err = 0; errstr = [] }) s.world in
      elim (Option-cases first.0) [
        | inl e ↦ rw (listed, e, redis_cluster_get_reply) (refl, refl, refl, refl)
        | inr (reply, e) ↦ rw (listed, e, redis_cluster_get_reply) (refl, refl, refl, refl)
      ]

  -- Where the requests are in step with what is to be read, `redisClusterGetReply` gives the reply that
  -- is made of what the first of them is owed, and those that are left are in step with the rest. The
  -- reply is the caller's, save where it is the error of a part: that is freed with its sub command.
  pub redis_cluster_get_reply-order :
      (s : Session A W) (items : List (A × Reply)) (queue : List (List (A × Reply)))
      → InStep s (items ∷ queue)
      → (p : Pending) × (rest : List Pending) × (s.requests ≡ some (p ∷ rest))
        × ((redis_cluster_get_reply net lines s).1 ≡ joined s.cc p items)
        × InStep (redis_cluster_get_reply net lines s).2 queue
  unfolding redis_cluster_get_reply
  redis_cluster_get_reply-order s items queue step =
      let cc0 = record s.cc { err = 0; errstr = [] } in
      let (p, rest, listed, first, others) =
        first_pending s.requests step.requests items queue step.listed step.owed in
      let awaits : Awaits net lines fifo s.world (items ++ flatten queue) = step.awaits in
      let (reply, table1, awaits1) =
        get_first-joined p items (flatten queue) cc0 s.cc s.world first step.same_table awaits in
      let r = redis_cluster_get_reply net lines s in
      let (given, listed1, same1, world1) = taken s p rest listed in
      (
        p,
        rest,
        listed,
        given ∙ reply,
        record {
          requests = rest;
          listed = ap requests_of listed1;
          owed = others;
          same_table = same1 ∙ table1;
          awaits = subst (λ v. Awaits net lines fifo v (flatten queue)) (sym world1) awaits1;
        },
      )
