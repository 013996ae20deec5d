-- ===== src/Cluster/Reply.antt =====
-- hiredis.h: replies, and hircluster.c: the errors by which a server redirects a command.
use hiredis_vip.Base.{
  ℕ, List, [], ◌∷◌, Option, none, some, Bool, true, false, ◌&&◌, ◌==◌, ltb, if◌then◌else◌, Bytes,
  length,
}
use hiredis_vip.Base.Int.{ℤ}
use hiredis_vip.Command.Keywords.{codes}
mod Tests
pub mod Laws

-- `redisReply`: its type, and the fields that the type gives a meaning to.
mutual
  pub data Reply : Type 0 where
    reply_string : Bytes → Reply
    reply_array : Replies → Reply
    reply_integer : ℤ → Reply
    reply_nil : Reply
    reply_status : Bytes → Reply
    reply_error : Bytes → Reply

  -- The vector `element`; a pointer in it may be NULL.
  pub data Replies : Type 0 where
    no_more : Replies
    null_then : Replies → Replies
    reply_then : Reply → Replies → Replies

-- `enum CLUSTER_ERR_TYPE`, and REDIS_ERR for a reply that is NULL.
pub data ErrorType : Type 0 where
  redis_err not_err err_moved err_ask err_tryagain err_crossslot err_clusterdown err_sentinel :
      ErrorType

-- `strncmp(str, prefix, strlen(prefix)) == 0`
unfoldable pub has_prefix : Bytes → Bytes → Bool
has_prefix [] str = true
has_prefix (p ∷ prefix) [] = false
has_prefix (p ∷ prefix) (b ∷ str) = p == b && has_prefix prefix str

-- The test of a branch: the text is longer than the word, and begins with it.
unfoldable pub says : Bytes → Bytes → Bool
unfolding has_prefix
says word str = ltb (length word) (length str) && has_prefix word str

unfoldable pub error_of : Bytes → ErrorType
unfolding says
error_of str =
    if says (codes "MOVED") str
    then err_moved
    else if says (codes "ASK") str
    then err_ask
    else if says (codes "TRYAGAIN") str
    then err_tryagain
    else if says (codes "CROSSSLOT") str
    then err_crossslot
    else if says (codes "CLUSTERDOWN") str
    then err_clusterdown
    else err_sentinel

unfoldable pub cluster_reply_error_type : Option Reply → ErrorType
unfolding error_of
cluster_reply_error_type none = redis_err
cluster_reply_error_type (some (reply_error str)) = error_of str
cluster_reply_error_type (some (reply_string str)) = not_err
cluster_reply_error_type (some (reply_array element)) = not_err
cluster_reply_error_type (some (reply_integer n)) = not_err
cluster_reply_error_type (some reply_nil) = not_err
cluster_reply_error_type (some (reply_status str)) = not_err
