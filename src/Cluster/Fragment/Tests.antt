-- ===== src/Cluster/Fragment/Tests.antt =====
-- An MGET of two keys that have different slots.
use hiredis_vip.Base.{List, [], ◌∷◌, ◌++◌, Bytes, none, some, true, ◌≡◌, ◌⊎◌}
use hiredis_vip.Command.Types.{KeyPos, req_redis_mget}
use hiredis_vip.Command.Keywords.{codes}
use hiredis_vip.Cluster.Fragment.{Fragments, command_pre_fragment, is_mset}
use hiredis_vip.Cluster.Fragment.Laws.{Whole, Parts, command_pre_fragment-slots}

abbrev crlf : Bytes
crlf = 13 ∷ 10 ∷ []

abbrev mget_a_b : Bytes
mget_a_b =
    codes "*3"
    ++ crlf
    ++ codes "$4"
    ++ crlf
    ++ codes "mget"
    ++ crlf
    ++ codes "$1"
    ++ crlf
    ++ codes "a"
    ++ crlf
    ++ codes "$1"
    ++ crlf
    ++ codes "b"
    ++ crlf

abbrev a_b : List KeyPos
a_b = record { key_start = 18; key_end = 19 } ∷ record { key_start = 25; key_end = 26 } ∷ []

-- What is on the stack before the numbers are written.
abbrev stack : Bytes
stack = 0 ∷ 0 ∷ 0 ∷ 0 ∷ 0 ∷ 0 ∷ 0 ∷ 0 ∷ 0 ∷ 0 ∷ 0 ∷ 0 ∷ []

command_pre_fragment-slots_example :
    ((f : Fragments) × (command_pre_fragment req_redis_mget mget_a_b a_b stack ≡ some f)
      × (Whole req_redis_mget mget_a_b a_b stack f ⊎ Parts req_redis_mget mget_a_b a_b stack f))
    ⊎ ((command_pre_fragment req_redis_mget mget_a_b a_b stack ≡ none)
        × (is_mset req_redis_mget ≡ true))
command_pre_fragment-slots_example = command_pre_fragment-slots req_redis_mget mget_a_b a_b stack
