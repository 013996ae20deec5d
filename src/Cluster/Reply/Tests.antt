-- ===== src/Cluster/Reply/Tests.antt =====
-- A redirection to another master.
use hiredis_vip.Base.{ℕ, Bytes, ◌∷◌, ◌++◌, some, ◌≡◌, refl, ◌↔◌}
use hiredis_vip.Command.Keywords.{codes}
use hiredis_vip.Cluster.Reply.{reply_error, cluster_reply_error_type, err_moved, err_sentinel}
use hiredis_vip.Cluster.Reply.Laws.{moved, cluster_reply_error_type-word}

cluster_reply_error_type-word_example :
    (cluster_reply_error_type (some (reply_error (codes "MOVED 3999 127.0.0.1:6381"))) ≡ err_moved)
    ↔ ((c : ℕ) × (rest : Bytes) × (reply_error (codes "MOVED 3999 127.0.0.1:6381")
          ≡ reply_error (codes "MOVED" ++ (c ∷ rest))))
cluster_reply_error_type-word_example =
    cluster_reply_error_type-word moved (reply_error (codes "MOVED 3999 127.0.0.1:6381"))

bare_word : cluster_reply_error_type (some (reply_error (codes "MOVED"))) ≡ err_sentinel
unfolding cluster_reply_error_type
bare_word = refl
