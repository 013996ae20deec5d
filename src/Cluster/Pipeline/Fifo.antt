-- ===== src/Cluster/Pipeline/Fifo.antt =====
-- Connections that are queues: what a node answers is read in the order in which it was asked.
use hiredis_vip.Base.{
  ℕ, List, [], ◌∷◌, ◌++◌, append-nil, none, some, Bool, true, ◌==◌, if◌then◌else◌, Bytes, ◌≡◌, refl,
  sym, ap, subst, ◌∙◌, ==_iff, inl, inr, Bool-cases,
}
use hiredis_vip.Array.{u32}
use hiredis_vip.Cluster.Context.{RedisClusterContext, node_get_by_table}
use hiredis_vip.Cluster.Reply.{Reply}
use hiredis_vip.Cluster.Net.{Net, Conn, replied, ctx_get_by_node}
use hiredis_vip.Cluster.Execute.{Request}
use hiredis_vip.Cluster.Pipeline.{Lines, append_command_to_node}
use hiredis_vip.Cluster.Pipeline.Replies.{noted, get_reply_from_node}

abbrev pub tail : List Reply → List Reply
tail [] = []
tail (r ∷ rs) = rs

-- The replies of a node, among those of all.
unfoldable pub replies_of {ℓ} : {A : Type ℓ} → (A → A → Bool) → A → List (A × Reply) → List Reply
replies_of same y [] = []
replies_of same y ((x, r) ∷ items) =
    let rest = replies_of same y items in if same y x then r ∷ rest else rest

module _ {ℓ} {A W : Type ℓ} where
  -- The connections are up, and `queue` lists what can be read from a node: a command that is sent adds
  -- its answer at the end, and a read takes the first.
  pub record Fifo (net : Net A W) (lines : Lines A W) : Type ℓ where
    pub same : A → A → Bool
    pub same_refl : (x : A) → same x x ≡ true
    pub queue : A → W → List Reply
    pub answer : A → Bytes → Reply
    pub up : (x : A) (w : W) → (c : Conn) × (net.con x w ≡ some c) × (c.conn_err ≡ 0)
    pub sends : (x : A) (text : Bytes) (w : W) → (net.append_command x text w).0 ≡ none
    pub after_send :
        (x : A) (text : Bytes) (w : W) (y : A)
        → queue y (net.append_command x text w).1
          ≡ (if same y x then queue y w ++ (answer x text ∷ []) else queue y w)
    pub gets :
        (x : A) (w : W) (r : Reply) (rs : List Reply)
        → queue x w ≡ r ∷ rs
        → (lines.get_reply x w).0 ≡ replied r
    pub after_get :
        (x : A) (w : W) (r : Reply) (rs : List Reply)
        → queue x w ≡ r ∷ rs
        → (y : A)
        → queue y (lines.get_reply x w).1 ≡ (if same y x then tail (queue y w) else queue y w)

replies_of-append {ℓ} :
    {A : Type ℓ} (same : A → A → Bool) (y : A) (xs ys : List (A × Reply))
    → replies_of same y (xs ++ ys) ≡ replies_of same y xs ++ replies_of same y ys
unfolding replies_of
replies_of-append same y [] ys = refl
replies_of-append same y ((x, r) ∷ xs) ys = elim (Bool-cases (same y x)) [
  | inl h ↦ rw (h) (ap (λ l. r ∷ l) (replies_of-append same y xs ys))
  | inr h ↦ rw (h) (replies_of-append same y xs ys)
]

module _ {ℓ} {A W : Type ℓ} (net : Net A W) (lines : Lines A W) (fifo : Fifo net lines) where
  -- The items are what is to be read, in the order in which it was sent.
  abbrev pub Awaits : W → List (A × Reply) → Type ℓ
  Awaits w items = (y : A) → fifo.queue y w ≡ replies_of fifo.same y items

  connected :
      (x : A) (w : W)
      → (c : Conn) × ((ctx_get_by_node net x w).0 ≡ some c)
        × ((ctx_get_by_node net x w).1 ≡ w)
        × ((c.conn_err == 0) ≡ true)
  unfolding ctx_get_by_node
  connected x w =
      let (c, at, fine) = fifo.up x w in
      let fine' : (c.conn_err == 0) ≡ true = (==_iff c.conn_err 0).1 fine in
      (c, rw (at, fine', ctx_get_by_node) refl, rw (at, fine', ctx_get_by_node) refl, fine')

  awaits-snoc :
      (w : W) (x y : A) (r : Reply) (items : List (A × Reply))
      → fifo.queue y w ≡ replies_of fifo.same y items
      → (if fifo.same y x then fifo.queue y w ++ (r ∷ []) else fifo.queue y w)
        ≡ replies_of fifo.same y (items ++ ((x, r) ∷ []))
  unfolding replies_of
  awaits-snoc w x y r items e =
      let whole = replies_of-append fifo.same y items ((x, r) ∷ []) in
      elim (Bool-cases (fifo.same y x)) [
        | inl h ↦ rw (h, e) (sym (rw (h, replies_of) at whole))
        | inr h ↦ rw (h, e) (sym (append-nil _) ∙ sym (rw (h, replies_of) at whole))
      ]

  awaits-tail :
      (w : W) (x y : A) (r : Reply) (items : List (A × Reply))
      → fifo.queue y w ≡ replies_of fifo.same y ((x, r) ∷ items)
      → (if fifo.same y x then tail (fifo.queue y w) else fifo.queue y w)
        ≡ replies_of fifo.same y items
  unfolding replies_of
  awaits-tail w x y r items e = elim (Bool-cases (fifo.same y x)) [
    | inl h ↦ rw (h) (ap tail e ∙ rw (h, replies_of) refl)
    | inr h ↦ rw (h) (e ∙ rw (h, replies_of) refl)
  ]

  -- A command that is sent is awaited behind the others.
  pub append-Awaits :
      (command : Request) (ctx : RedisClusterContext A) (w : W) (x : A) (items : List (A × Reply))
      → node_get_by_table ctx (u32 command.slot_num) ≡ some x
      → Awaits w items
      → (w' : W) × (append_command_to_node net command ctx w ≡ (true, ctx, w'))
        × Awaits w' (items ++ ((x, fifo.answer x command.text) ∷ []))
  unfolding append_command_to_node
  append-Awaits command ctx w x items at awaits =
      let (c, conn, still, fine) = connected x w in
      let w1 = (ctx_get_by_node net x w).1 in
      let awaits1 : Awaits w1 items = subst (λ v. Awaits v items) (sym still) awaits in
      (
        (net.append_command x command.text w1).1,
        rw (at, conn, fine, fifo.sends x command.text w1, append_command_to_node) refl,
        λ y. fifo.after_send x command.text w1 y ∙ awaits-snoc w1 x y _ items (awaits1 y),
      )

  -- The first reply that is awaited is the one that is read.
  pub get-Awaits :
      (slot : ℕ) (ctx : RedisClusterContext A) (w : W) (x : A) (r : Reply)
      (items : List (A × Reply))
      → node_get_by_table ctx (u32 slot) ≡ some x
      → Awaits w ((x, r) ∷ items)
      → (w' : W) × (get_reply_from_node net lines slot ctx w ≡ (some r, noted r ctx, w'))
        × Awaits w' items
  unfolding get_reply_from_node replies_of
  get-Awaits slot ctx w x r items at awaits =
      let (c, conn, still, fine) = connected x w in
      let w1 = (ctx_get_by_node net x w).1 in
      let awaits1 : Awaits w1 ((x, r) ∷ items) =
        subst (λ v. Awaits v ((x, r) ∷ items)) (sym still) awaits in
      let head : fifo.queue x w1 ≡ r ∷ replies_of fifo.same x items =
        awaits1 x ∙ rw (fifo.same_refl x) refl in
      (
        (lines.get_reply x w1).1,
        rw (at, conn, fine, fifo.gets x w1 r _ head, get_reply_from_node) refl,
        λ y. fifo.after_get x w1 r _ head y ∙ awaits-tail w1 x y r items (awaits1 y),
      )
