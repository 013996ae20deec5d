-- ===== src/Cluster/Client/Closes.antt =====
-- A command ends as its runs end, with no retry counted.
use hiredis_vip.Base.{
  ℕ, List, [], ◌∷◌, Option, none, some, false, Bytes, ◌≡◌, ◌≢◌, refl, subst, ◌⊎◌, inl, inr, leb,
  Bool-cases,
}
use hiredis_vip.Base.Int.{ℤ, pos, negsuc}
use hiredis_vip.Command.Types.{CmdType}
use hiredis_vip.Cluster.{redis_cluster_slots}
use hiredis_vip.Cluster.Context.{RedisClusterContext, set_error, err_other}
use hiredis_vip.Cluster.Reply.{Reply, cluster_reply_error_type}
use hiredis_vip.Cluster.Net.{Net}
use hiredis_vip.Cluster.Execute.{Run, returned, out_of_fuel, redirected}
use hiredis_vip.Cluster.Execute.Ends.{Blames, Ends, execute-Ends}
use hiredis_vip.Cluster.Fragment.{SubCommand, Fragments}
use hiredis_vip.Cluster.Client.{
  PartReplies, collected, stopped, parts_out_of_fuel, sequence, finished_run, joined_parts,
  execute_plan,
}
use hiredis_vip.Cluster.Client.Ends.{Settles, post_fragment-Ends, execute_parts-Settles}

module _ {ℓ} {A W : Type ℓ} where
  -- A run ends as `Ends` says, and with no retry counted.
  abbrev pub Closes : (ℕ → Type 0) → Run A W → Type 0
  Closes Q out_of_fuel = ⊥
  Closes Q (returned (some reply) cc w) =
      (redirected (cluster_reply_error_type (some reply)) ≡ false) × (cc.retry_count ≡ 0)
  Closes Q (returned none cc w) = Q cc.err × (cc.retry_count ≡ 0)

  finished_run-Closes : (Q : ℕ → Type 0) (run : Run A W) → Ends Q run → Closes Q (finished_run run)
  finished_run-Closes Q out_of_fuel e = e
  finished_run-Closes Q (returned (some reply) cc w) e = (e, refl)
  finished_run-Closes Q (returned none cc w) e = (e, refl)

  joined_parts-Closes :
      (Q : ℕ → Type 0) (type : CmdType) (frag_seq : List ℕ) (parts : PartReplies A W)
      → Q err_other
      → Settles Q parts
      → Closes Q (joined_parts type frag_seq parts)
  unfolding joined_parts
  joined_parts-Closes Q type frag_seq parts_out_of_fuel other e = e
  joined_parts-Closes Q type frag_seq (stopped (some reply) ctx w) other e = (e, refl)
  joined_parts-Closes Q type frag_seq (stopped none ctx w) other e = (e, refl)
  joined_parts-Closes Q type frag_seq (collected parts ctx w) other e =
      elim (post_fragment-Ends ctx type parts frag_seq e) [
        | inl (reply, h, fine) ↦ rw (h, joined_parts) (fine, refl)
        | inr (h, blame) ↦ rw (h, blame, joined_parts) (other, refl)
      ]

  pub comes_to :
      (run : Run A W)
      → Closes (λ n. Unit) run
      → (r : Option Reply) × (ctx : RedisClusterContext A) × (w : W) × (run ≡ returned r ctx w)
        × (ctx.retry_count ≡ 0)
        × ((reply : Reply) → r ≡ some reply → redirected (cluster_reply_error_type r) ≡ false)
  comes_to out_of_fuel e = absurd e
  comes_to (returned none ctx w) (_, count) = (none, ctx, w, refl, count, λ reply h. absurd (cc h))
  comes_to (returned (some reply) ctx w) (fine, count) =
      (some reply, ctx, w, refl, count, λ reply' h. fine)

  pub blamed_none :
      (run : Run A W) (ctx : RedisClusterContext A) (w : W)
      → Closes (λ n. n ≢ 0) run
      → run ≡ returned none ctx w
      → ctx.err ≢ 0
  blamed_none run ctx w closes e = (subst (Closes (λ n. n ≢ 0)) e closes).0

pub ℤ-cases : (i : ℤ) → ((n : ℕ) × (i ≡ pos n)) ⊎ ((n : ℕ) × (i ≡ negsuc n))
ℤ-cases (pos n) = inl (n, refl)
ℤ-cases (negsuc n) = inr (n, refl)

pub commands_cases :
    (xs : List SubCommand)
    → (xs ≡ []) ⊎ ((x : SubCommand) × (rest : List SubCommand) × (xs ≡ x ∷ rest))
commands_cases [] = inl refl
commands_cases (x ∷ xs) = inr (x, xs, refl)

-- A negative slot comes with an error, unless the command is empty.
abbrev pub Blamed {ℓ} : {A : Type ℓ} → (ℕ → Type 0) → Fragments → RedisClusterContext A → Type 0
Blamed Q f cc = (n : ℕ) → f.slot ≡ negsuc n → Q cc.err

module _ {ℓ} {A W : Type ℓ} (net : Net A W) (Q : ℕ → Type 0) (blames : Blames net Q) where
  pub execute_plan-Closes :
      (type : CmdType) (text : Bytes) (f : Fragments) (ctx : RedisClusterContext A) (w : W)
      → Blamed Q f ctx
      → Closes Q (execute_plan net type text f ctx w)
  unfolding execute_plan set_error
  execute_plan-Closes type text f ctx w blamed = elim (ℤ-cases f.slot) [
    | inr (n, e) ↦ rw (e, execute_plan) (blamed n e, refl)
    | inl (slot, e) ↦ elim (Bool-cases (leb redis_cluster_slots slot)) [
      | inl h ↦ rw (e, h, execute_plan) (blames.other, refl)
      | inr h ↦ elim (commands_cases f.commands) [
        | inl none_left ↦
            rw (e, h, none_left, execute_plan)
              (finished_run-Closes Q _
                (execute-Ends net _ Q blames ctx.max_redirect_count ctx w refl))
        | inr (sub, commands, more) ↦
            rw (e, h, more, execute_plan)
              (joined_parts-Closes Q type (sequence f.frag_seq) _ blames.other
                (execute_parts-Settles net Q blames (sub ∷ commands) ctx w))
      ]
    ]
  ]
