-- ===== src/Cluster/Pipeline/Asks.antt =====
-- Over connections that are queues, a command that is appended joins the requests behind the others.
use hiredis_vip.Base.{
  ℕ, List, [], ◌∷◌, ◌++◌, append_assoc, append-nil, Option, none, some, Bool, true, false, leb,
  Bytes, ◌≡◌, refl, sym, ap, subst, ◌∙◌, if◌then◌else◌,
}
use hiredis_vip.Base.Int.{pos}
use hiredis_vip.Command.Types.{CmdType, ParseFault, Cmd}
use hiredis_vip.Cluster.{redis_cluster_slots}
use hiredis_vip.Cluster.Context.{RedisClusterContext, node_get_by_table}
use hiredis_vip.Cluster.Reply.{Reply}
use hiredis_vip.Cluster.Net.{Net}
use hiredis_vip.Cluster.Fragment.{SubCommand, Fragments}
use hiredis_vip.Cluster.Plan.{command_format_by_slot}
use hiredis_vip.Cluster.Client.{request_of, parsed_type}
use hiredis_vip.Cluster.Pipeline.{
  Pending, Lines, Session, requests_of, pending, append_parts, append_planned,
  redis_cluster_append_formatted_command,
}
use hiredis_vip.Cluster.Pipeline.Fifo.{Fifo, Awaits, append-Awaits}
use hiredis_vip.Cluster.Pipeline.Order.{
  node_of, Routed, routed_end, routed_next, Owed, owed_whole, owed_parts, AllOwed, owed_end,
  owed_next, flatten, InStep,
}

flatten-append {ℓ} :
    {A : Type ℓ} (xss : List (List A)) (ys : List A)
    → flatten (xss ++ (ys ∷ [])) ≡ flatten xss ++ ys
flatten-append [] ys = append-nil ys
flatten-append (xs ∷ xss) ys =
    ap (λ l. xs ++ l) (flatten-append xss ys) ∙ sym (append_assoc xs (flatten xss) ys)

AllOwed-append {ℓ} :
    {A : Type ℓ} {table : ℕ → Option A} (requests : List Pending) (queue : List (List (A × Reply)))
    (p : Pending) (items : List (A × Reply))
    → AllOwed table requests queue
    → Owed table p items
    → AllOwed table (requests ++ (p ∷ [])) (queue ++ (items ∷ []))
AllOwed-append _ _ p items owed_end last = owed_next p items [] [] last owed_end
AllOwed-append _ _ p items (owed_next q its requests queue first others) last =
    owed_next q its _ _ first (AllOwed-append requests queue p items others last)

module _ {ℓ} {A : Type ℓ} (table : ℕ → Option A) (answer : A → Bytes → Reply) where
  -- The sub commands are sent to the nodes of their slots, and the items are their answers.
  pub data Asked : List SubCommand → List (A × Reply) → Type ℓ where
    asked_end : Asked [] []
    asked_next :
        (sub : SubCommand) (x : A) (commands : List SubCommand) (items : List (A × Reply))
        → node_of table sub.slot_num ≡ some x
        → Asked commands items
        → Asked (sub ∷ commands) ((x, answer x (request_of sub).text) ∷ items)

  -- A plan, with the answers to it.
  pub data Asks (text : Bytes) (f : Fragments) : List (A × Reply) → Type ℓ where
    asks_whole :
        (s : ℕ) (x : A)
        → f.slot ≡ pos s
        → leb redis_cluster_slots s ≡ false
        → f.commands ≡ []
        → node_of table s ≡ some x
        → Asks text f ((x, answer x text) ∷ [])
    asks_parts :
        (s : ℕ) (sub : SubCommand) (commands : List SubCommand) (items : List (A × Reply))
        → f.slot ≡ pos s
        → leb redis_cluster_slots s ≡ false
        → f.commands ≡ sub ∷ commands
        → Asked (sub ∷ commands) items
        → Asks text f items

  Asked-Routed :
      (commands : List SubCommand) (items : List (A × Reply))
      → Asked commands items
      → Routed table commands items
  Asked-Routed _ _ asked_end = routed_end
  Asked-Routed _ _ (asked_next sub x commands items at asked) =
      routed_next sub x _ commands items at (Asked-Routed commands items asked)

  Asks-Owed :
      (text : Bytes) (f : Fragments) (type : CmdType) (items : List (A × Reply))
      → Asks text f items
      → Owed table (pending type f) items
  Asks-Owed text f type _ (asks_whole s x slot small empty at) =
      rw (empty, slot) (owed_whole type s none f.frag_seq x (answer x text) at)
  Asks-Owed text f type items (asks_parts s sub commands _ slot small some_part asked) =
      rw (some_part)
        (owed_parts type 0 (sub ∷ commands) f.frag_seq items (Asked-Routed _ items asked))

module _ {ℓ} {A W : Type ℓ} (net : Net A W) (lines : Lines A W) (fifo : Fifo net lines)
    (table : ℕ → Option A) where
  append_parts-Awaits :
      (commands : List SubCommand) (before items : List (A × Reply)) (ctx : RedisClusterContext A)
      (w : W)
      → Asked table fifo.answer commands items
      → ctx.table ≡ table
      → Awaits net lines fifo w before
      → (w' : W) × (append_parts net commands ctx w ≡ (true, ctx, w'))
        × Awaits net lines fifo w' (before ++ items)
  unfolding append_parts node_get_by_table
  append_parts-Awaits _ before _ ctx w asked_end at awaits =
      (w, refl, subst (Awaits net lines fifo w) (sym (append-nil before)) awaits)
  append_parts-Awaits _ before _ ctx w (asked_next sub x commands items here asked) at awaits =
      let (w1, e1, awaits1) =
        append-Awaits net lines fifo (request_of sub) ctx w x before (rw (sym at) at here) awaits in
      let (w2, e2, awaits2) = append_parts-Awaits commands _ items ctx w1 asked at awaits1 in
      let round : Bool × RedisClusterContext A × W → Bool × RedisClusterContext A × W =
        λ r. elim r.0 [ true ↦ append_parts net commands r.1 r.2 | false ↦ r ] in
      (w2, ap round e1 ∙ e2, subst (Awaits net lines fifo w2) (append_assoc before _ items) awaits2)

  append_planned-Awaits :
      (text : Bytes) (f : Fragments) (before items : List (A × Reply)) (ctx : RedisClusterContext A)
      (w : W)
      → Asks table fifo.answer text f items
      → ctx.table ≡ table
      → Awaits net lines fifo w before
      → (w' : W) × (append_planned net text f ctx w ≡ (true, ctx, w'))
        × Awaits net lines fifo w' (before ++ items)
  unfolding append_parts node_get_by_table
  append_planned-Awaits text f before _ ctx w (asks_whole s x slot small empty here) at awaits =
      let (w1, e1, awaits1) =
        append-Awaits net lines fifo (record { text = text; slot_num = s }) ctx w x before
          (rw (sym at) at here) awaits in
      (w1, rw (slot, small, empty, append_planned) e1, awaits1)
  append_planned-Awaits text f before items ctx w
        (asks_parts s sub commands _ slot small some_part asked) at awaits =
      let (w1, e1, awaits1) =
        append_parts-Awaits (sub ∷ commands) before items ctx w asked at awaits in
      (w1, rw (slot, small, some_part, append_planned) e1, awaits1)

  -- Where the requests are in step with what is to be read, a command that is planned, and for whose
  -- slots there are nodes, is appended, and the requests with it at their end are in step with what is
  -- to be read and its answers behind it.
  pub redis_cluster_append_formatted_command-order :
      (grant : ℕ → Bool) (report : Option ParseFault → Bytes) (text : Bytes) (command : Cmd)
      (num_str : Bytes) (s : Session A W) (f : Fragments) (items : List (A × Reply))
      (queue : List (List (A × Reply)))
      → InStep net lines fifo table s queue
      → command_format_by_slot grant report s.cc text command num_str ≡ some (f, s.cc)
      → Asks table fifo.answer text f items
      → (s' : Session A W) × (redis_cluster_append_formatted_command net grant report text command
            num_str s
          ≡ some (true, s'))
        × InStep net lines fifo table s' (queue ++ (items ∷ []))
  unfolding redis_cluster_append_formatted_command
  redis_cluster_append_formatted_command-order grant report text command num_str s f items queue
        step planned asks =
      let (w', e, awaits) =
        append_planned-Awaits text f (flatten queue) items s.cc s.world asks step.same_table
          step.awaits in
      let entry = pending (parsed_type grant text command) f in
      let s' : Session A W = record {
        cc = s.cc;
        requests = some (requests_of s.requests ++ (entry ∷ []));
        world = w';
      } in
      let finish : Bool × RedisClusterContext A × W → Option (Bool × Session A W) = λ r. some (
        r.0,
        record {
          cc = r.1;
          requests =
              some (if r.0 then requests_of s.requests ++ (entry ∷ []) else requests_of s.requests);
          world = r.2;
        },
      ) in
      (
        s',
        rw (planned, redis_cluster_append_formatted_command) (ap finish e),
        record {
          requests = step.requests ++ (entry ∷ []);
          listed = ap (λ l. l ++ (entry ∷ [])) step.listed;
          owed =
              AllOwed-append step.requests queue entry items step.owed
                (Asks-Owed table fifo.answer text f _ items asks);
          same_table = step.same_table;
          awaits = subst (Awaits net lines fifo w') (sym (flatten-append queue items)) awaits;
        },
      )
