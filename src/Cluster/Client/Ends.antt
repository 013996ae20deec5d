-- ===== src/Cluster/Client/Ends.antt =====
-- How the parts of a command end, and what their replies are joined to.
use mathlib.Core.List.{reverse}
use hiredis_vip.Base.{
  ℕ, Bytes, List, [], ◌∷◌, Option, none, some, false, ◌≡◌, ◌≢◌, refl, ◌⊎◌, inl, inr, arith,
  Bool-cases,
}
use hiredis_vip.Base.Int.{ℤ, pos}
use hiredis_vip.Command.Types.{CmdType}
use hiredis_vip.Cluster.Context.{RedisClusterContext, set_error, err_other}
use hiredis_vip.Cluster.Reply.{
  Reply, Replies, reply_string, reply_array, reply_integer, reply_nil, reply_status, reply_error,
  no_more, cluster_reply_error_type,
}
use hiredis_vip.Cluster.Net.{Net}
use hiredis_vip.Command.Keywords.{codes}
use hiredis_vip.Cluster.Execute.{Run, returned, out_of_fuel, redirected}
use hiredis_vip.Cluster.Execute.Ends.{Blames, Ends, execute-Ends}
use hiredis_vip.Cluster.Fragment.{SubCommand, is_mget, is_del}
use hiredis_vip.Cluster.Gather.{
  Part, Checked, passed, returns, wrong_type, check_parts, Gathered, gathered, short, gather, check,
  reply_of, elements_of, command_post_fragment,
}
use hiredis_vip.Cluster.Client.{
  is_error, PartReplies, with_part, collected, stopped, parts_out_of_fuel, request_of,
  execute_parts,
}

-- Each part has a reply, which is not an error.
abbrev pub Answered : List Part → Type 0
Answered [] = Unit
Answered ((slot, none) ∷ parts) = ⊥
Answered ((slot, some reply) ∷ parts) = (is_error reply ≡ false) × Answered parts

not_redirected :
    (reply : Reply)
    → is_error reply ≡ false
    → redirected (cluster_reply_error_type (some reply)) ≡ false
unfolding cluster_reply_error_type
not_redirected (reply_error str) e = absurd (cc e)
not_redirected (reply_string str) e = refl
not_redirected (reply_array rs) e = refl
not_redirected (reply_integer n) e = refl
not_redirected reply_nil e = refl
not_redirected (reply_status str) e = refl

-- The loop of `command_post_fragment` on such parts does not return.
check-returns :
    (type : CmdType) (reply : Reply) (count : ℤ) (r : Option Reply)
    → is_error reply ≡ false
    → check type reply count ≢ returns r
check-returns type (reply_error str) count r good = absurd (cc good)
check-returns type (reply_string str) count r good = ground arith
check-returns type (reply_array rs) count r good = ground arith
check-returns type (reply_integer n) count r good = ground arith
check-returns type reply_nil count r good = ground arith
check-returns type (reply_status str) count r good = ground arith

Checked-cases :
    (c : Checked)
    → ((n : ℤ) × (c ≡ passed n))
      ⊎ (((r : Option Reply) × (c ≡ returns r)) ⊎ ((str : Bytes) × (c ≡ wrong_type str)))
Checked-cases (passed n) = inl (n, refl)
Checked-cases (returns r) = inr (inl (r, refl))
Checked-cases (wrong_type str) = inr (inr (str, refl))

check_parts-Answered :
    (type : CmdType) (parts : List Part) (count : ℤ) (r : Option Reply)
    → Answered parts
    → check_parts type parts count ≢ returns r
unfolding check_parts
check_parts-Answered type [] count r good e = absurd (cc e)
check_parts-Answered type ((slot, none) ∷ parts) count r good e = absurd good
check_parts-Answered type ((slot, some reply) ∷ parts) count r (fine, good) e =
    elim (Checked-cases (check type reply count)) [
      | inl (n, h) ↦ check_parts-Answered type parts n r good (rw (h, check_parts) at e)
      | inr (inl (r', h)) ↦ check-returns type reply count r' fine h
      | inr (inr (str, h)) ↦ absurd (cc (rw (h, check_parts) at e))
    ]

Gathered-cases :
    (g : Gathered) → ((rs : Replies) × (g ≡ gathered rs)) ⊎ ((str : Bytes) × (g ≡ short str))
Gathered-cases (gathered rs) = inl (rs, refl)
Gathered-cases (short str) = inr (str, refl)

pub post_fragment-Ends {ℓ} :
    {A : Type ℓ} (ctx : RedisClusterContext A) (type : CmdType) (parts : List Part)
    (frag_seq : List ℕ)
    → Answered parts
    → ((reply : Reply) × ((command_post_fragment ctx type parts frag_seq).0 ≡ some reply)
        × (redirected (cluster_reply_error_type (some reply)) ≡ false))
      ⊎ (((command_post_fragment ctx type parts frag_seq).0 ≡ none)
          × ((command_post_fragment ctx type parts frag_seq).1.err ≡ err_other))
unfolding command_post_fragment set_error cluster_reply_error_type
post_fragment-Ends ctx type parts frag_seq good =
    elim (Checked-cases (check_parts type parts (pos 0))) [
      | inr (inl (r, h)) ↦ absurd (check_parts-Answered type parts (pos 0) r good h)
      | inr (inr (str, h)) ↦ inr (rw (h, command_post_fragment) (refl, refl))
      | inl (n, h) ↦ elim (Bool-cases (is_mget type)) [
        | inr h1 ↦ elim (Bool-cases (is_del type)) [
          | inl h2 ↦ inl (reply_integer n, rw (h, h1, h2, command_post_fragment) refl, refl)
          | inr h2 ↦
              inl (reply_status (codes "OK"), rw (h, h1, h2, command_post_fragment) refl, refl)
        ]
        | inl h1 ↦
            let slots = reverse frag_seq in
            let left : ℕ → ℕ = λ s. elements_of (reply_of parts s) in
            elim (Gathered-cases (gather slots (reply_of parts) left no_more)) [
              | inl (rs, h2) ↦
                  inl (reply_array rs, rw (h, h1, h2, command_post_fragment) refl, refl)
              | inr (str, h2) ↦ inr (rw (h, h1, h2, command_post_fragment) (refl, refl))
            ]
      ]
    ]

module _ {ℓ} {A W : Type ℓ} where
  -- The parts are answered, or one ends the command as a run ends.
  abbrev pub Settles : (ℕ → Type 0) → PartReplies A W → Type 0
  Settles Q (collected parts cc w) = Answered parts
  Settles Q (stopped none cc w) = Q cc.err
  Settles Q (stopped (some reply) cc w) = redirected (cluster_reply_error_type (some reply)) ≡ false
  Settles Q parts_out_of_fuel = ⊥

  with_part-Settles :
      (Q : ℕ → Type 0) (slot : ℕ) (reply : Reply) (rest : PartReplies A W)
      → is_error reply ≡ false
      → Settles Q rest
      → Settles Q (with_part (slot, some reply) rest)
  with_part-Settles Q slot reply (collected parts cc w) fine e = (fine, e)
  with_part-Settles Q slot reply (stopped none cc w) fine e = e
  with_part-Settles Q slot reply (stopped (some r) cc w) fine e = e
  with_part-Settles Q slot reply parts_out_of_fuel fine e = e

  pub Run-cases :
      (Q : ℕ → Type 0) (run : Run A W)
      → Ends Q run
      → ((c : RedisClusterContext A) × (w : W) × (run ≡ returned none c w) × Q c.err)
        ⊎ ((reply : Reply) × (c : RedisClusterContext A) × (w : W) × (run
              ≡ returned (some reply) c w)
            × (redirected (cluster_reply_error_type (some reply)) ≡ false))
  Run-cases Q out_of_fuel e = absurd e
  Run-cases Q (returned none c w) e = inl (c, w, refl, e)
  Run-cases Q (returned (some reply) c w) e = inr (reply, c, w, refl, e)

module _ {ℓ} {A W : Type ℓ} (net : Net A W) (Q : ℕ → Type 0) (blames : Blames net Q) where
  pub execute_parts-Settles :
      (commands : List SubCommand) (ctx : RedisClusterContext A) (w : W)
      → Settles Q (execute_parts net commands ctx w)
  unfolding execute_parts
  execute_parts-Settles [] ctx w = tt
  execute_parts-Settles (sub ∷ commands) ctx w =
      let ends = execute-Ends net (request_of sub) Q blames ctx.max_redirect_count ctx w refl in
      elim (Run-cases Q _ ends) [
        | inl (c, w', e, h) ↦ rw (e, execute_parts) h
        | inr (reply, c, w', e, h) ↦ elim (Bool-cases (is_error reply)) [
          | inl h' ↦ rw (e, h', execute_parts) h
          | inr h' ↦
              rw (e, h', execute_parts)
                (with_part-Settles Q sub.slot_num reply (execute_parts net commands c w') h'
                  (execute_parts-Settles commands c w'))
        ]
      ]
