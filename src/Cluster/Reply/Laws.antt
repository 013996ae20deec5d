-- ===== src/Cluster/Reply/Laws.antt =====
-- The redirections, told by the text of an error.
use hiredis_vip.Base.{
  ℕ, ◌<◌, [], ◌∷◌, ◌++◌, Option, none, some, true, ◌==◌, ltb, if◌then◌else◌, Bytes, length, ◌≡◌,
  refl, sym, ap, ap₂, ◌∙◌, ◌⊎◌, inl, inr, ◌↔◌, arith, Bool-cases, and-true, ==_iff, ltb→lt,
}
use hiredis_vip.Command.Keywords.{codes}
use hiredis_vip.Cluster.Reply.{
  Reply, reply_error, reply_string, reply_array, reply_integer, reply_nil, reply_status, ErrorType,
  not_err, err_moved, err_ask, err_tryagain, err_crossslot, err_clusterdown, err_sentinel,
  has_prefix, says, error_of, cluster_reply_error_type,
}

-- The redirections, the word that each begins with, and what the code takes each for.
pub data Redirect : Type 0 where
  moved ask tryagain crossslot clusterdown : Redirect

abbrev pub word : Redirect → Bytes
word moved = codes "MOVED"
word ask = codes "ASK"
word tryagain = codes "TRYAGAIN"
word crossslot = codes "CROSSSLOT"
word clusterdown = codes "CLUSTERDOWN"

abbrev pub type_of : Redirect → ErrorType
type_of moved = err_moved
type_of ask = err_ask
type_of tryagain = err_tryagain
type_of crossslot = err_crossslot
type_of clusterdown = err_clusterdown

abbrev word_of : ErrorType → Option Bytes
word_of err_moved = some (codes "MOVED")
word_of err_ask = some (codes "ASK")
word_of err_tryagain = some (codes "TRYAGAIN")
word_of err_crossslot = some (codes "CROSSSLOT")
word_of err_clusterdown = some (codes "CLUSTERDOWN")
word_of _ = none

word_of-type_of : (r : Redirect) → word_of (type_of r) ≡ some (word r)
word_of-type_of moved = refl
word_of-type_of ask = refl
word_of-type_of tryagain = refl
word_of-type_of crossslot = refl
word_of-type_of clusterdown = refl

-- A text that is longer than the word, and begins with it.
abbrev Begins : Bytes → Bytes → Type 0
Begins w str = (c : ℕ) × (rest : Bytes) × (str ≡ w ++ (c ∷ rest))

has_prefix-split :
    (word str : Bytes)
    → has_prefix word str ≡ true
    → length word < length str
    → (c : ℕ) × (rest : Bytes) × (str ≡ word ++ (c ∷ rest))
unfolding has_prefix
has_prefix-split [] [] h lt = absurd (omega arith)
has_prefix-split [] (b ∷ str) h lt = (b, str, refl)
has_prefix-split (w ∷ word) [] h lt = absurd (cc h)
has_prefix-split (w ∷ word) (b ∷ str) h lt =
    let (same, more) = and-true (w == b) (has_prefix word str) h in
    let (c, rest, e) = has_prefix-split word str more (omega arith) in
    (c, rest, ap₂ (λ (x : ℕ) (xs : Bytes). x ∷ xs) (sym ((==_iff w b).0 same)) e)

says-split : (w str : Bytes) → says w str ≡ true → Begins w str
unfolding says
says-split w str h =
    let (long, begins) = and-true (ltb (length w) (length str)) (has_prefix w str) h in
    has_prefix-split w str begins (ltb→lt (length w) (length str) long)

-- A test of the chain.
branch :
    (r : Redirect) (str w : Bytes) (t rest : ErrorType)
    → word_of t ≡ some w
    → (if says w str then t else rest) ≡ type_of r
    → Begins (word r) str ⊎ (rest ≡ type_of r)
branch r str w t rest named e = elim (Bool-cases (says w str)) [
  | inl h ↦
      let e' : t ≡ type_of r = rw (h) at e in
      let same : w ≡ word r = cc (sym named ∙ ap word_of e' ∙ word_of-type_of r) in
      inl (rw (same) at (says-split w str h))
  | inr h ↦ inr (rw (h) at e)
]

sentinel : (r : Redirect) → err_sentinel ≡ type_of r → ⊥
sentinel r e = absurd (cc (ap word_of e ∙ word_of-type_of r))

error_of-Begins : (r : Redirect) (str : Bytes) → error_of str ≡ type_of r → Begins (word r) str
unfolding error_of
error_of-Begins r str e = elim (branch r str _ err_moved _ refl e) [
  | inl b ↦ b
  | inr e1 ↦ elim (branch r str _ err_ask _ refl e1) [
    | inl b ↦ b
    | inr e2 ↦ elim (branch r str _ err_tryagain _ refl e2) [
      | inl b ↦ b
      | inr e3 ↦ elim (branch r str _ err_crossslot _ refl e3) [
        | inl b ↦ b
        | inr e4 ↦ elim (branch r str _ err_clusterdown _ refl e4) [
          | inl b ↦ b
          | inr e5 ↦ absurd (sentinel r e5)
        ]
      ]
    ]
  ]
]

error_of-word : (r : Redirect) (c : ℕ) (rest : Bytes) → error_of (word r ++ (c ∷ rest)) ≡ type_of r
unfolding error_of says has_prefix
error_of-word moved c rest = ground arith
error_of-word ask c rest = ground arith
error_of-word tryagain c rest = ground arith
error_of-word crossslot c rest = ground arith
error_of-word clusterdown c rest = ground arith

not_redirect : (r : Redirect) → not_err ≡ type_of r → ⊥
not_redirect r e = absurd (cc (ap word_of e ∙ word_of-type_of r))

-- A reply counts as a redirection exactly when it is an error whose text begins with the word of
-- the redirection and goes on behind it.
pub cluster_reply_error_type-word :
    (r : Redirect) (reply : Reply)
    → (cluster_reply_error_type (some reply) ≡ type_of r)
      ↔ ((c : ℕ) × (rest : Bytes) × (reply ≡ reply_error (word r ++ (c ∷ rest))))
unfolding cluster_reply_error_type
cluster_reply_error_type-word r (reply_error str) = (
  λ e. let (c, rest, e') = error_of-Begins r str e in (c, rest, ap reply_error e'),
  λ (c, rest, e). ap (λ x. cluster_reply_error_type (some x)) e ∙ error_of-word r c rest,
)
cluster_reply_error_type-word r (reply_string str) =
    (λ e. absurd (not_redirect r e), λ (c, rest, e). absurd (cc e))
cluster_reply_error_type-word r (reply_array xs) =
    (λ e. absurd (not_redirect r e), λ (c, rest, e). absurd (cc e))
cluster_reply_error_type-word r (reply_integer n) =
    (λ e. absurd (not_redirect r e), λ (c, rest, e). absurd (cc e))
cluster_reply_error_type-word r reply_nil =
    (λ e. absurd (not_redirect r e), λ (c, rest, e). absurd (cc e))
cluster_reply_error_type-word r (reply_status str) =
    (λ e. absurd (not_redirect r e), λ (c, rest, e). absurd (cc e))
