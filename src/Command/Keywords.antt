-- ===== src/Command/Keywords.antt =====
-- command.c: the names of the commands, by their length, in the order in which they are tried.
use Prim.Native.Char.{code}
use Prim.Native.Nat.{bit_xor}
use Prim.Native.String.{String}
use hiredis_vip.Base.{
  ℕ, zero, suc, List, [], ◌∷◌, Bytes, length, ◌==◌, if◌then◌else◌, Bool, true, false, ◌||◌, ◌&&◌,
}
use hiredis_vip.Command.Types.{
  CmdType, unknown, req_redis_get, req_redis_set, req_redis_ttl, req_redis_del, req_redis_pttl,
  req_redis_decr, req_redis_dump, req_redis_hdel, req_redis_hget, req_redis_hlen, req_redis_hset,
  req_redis_incr, req_redis_llen, req_redis_lpop, req_redis_lrem, req_redis_lset, req_redis_rpop,
  req_redis_sadd, req_redis_spop, req_redis_srem, req_redis_type, req_redis_mget, req_redis_mset,
  req_redis_zadd, req_redis_zrem, req_redis_eval, req_redis_sort, req_redis_ping, req_redis_quit,
  req_redis_auth, req_redis_hkeys, req_redis_hmget, req_redis_hmset, req_redis_hvals,
  req_redis_hscan, req_redis_lpush, req_redis_ltrim, req_redis_rpush, req_redis_scard,
  req_redis_sdiff, req_redis_setex, req_redis_setnx, req_redis_smove, req_redis_sscan,
  req_redis_zcard, req_redis_zrank, req_redis_zscan, req_redis_pfadd, req_redis_append,
  req_redis_decrby, req_redis_exists, req_redis_expire, req_redis_getbit, req_redis_getset,
  req_redis_psetex, req_redis_hsetnx, req_redis_incrby, req_redis_lindex, req_redis_lpushx,
  req_redis_lrange, req_redis_rpushx, req_redis_setbit, req_redis_sinter, req_redis_strlen,
  req_redis_sunion, req_redis_zcount, req_redis_zrange, req_redis_zscore, req_redis_persist,
  req_redis_pexpire, req_redis_hexists, req_redis_hgetall, req_redis_hincrby, req_redis_linsert,
  req_redis_zincrby, req_redis_evalsha, req_redis_restore, req_redis_pfcount, req_redis_pfmerge,
  req_redis_expireat, req_redis_bitcount, req_redis_getrange, req_redis_setrange,
  req_redis_smembers, req_redis_zrevrank, req_redis_pexpireat, req_redis_rpoplpush,
  req_redis_sismember, req_redis_zrevrange, req_redis_zlexcount, req_redis_sdiffstore,
  req_redis_incrbyfloat, req_redis_sinterstore, req_redis_srandmember, req_redis_sunionstore,
  req_redis_zinterstore, req_redis_zunionstore, req_redis_zrangebylex, req_redis_hincrbyfloat,
  req_redis_zrangebyscore, req_redis_zremrangebylex, req_redis_zremrangebyrank,
  req_redis_zremrangebyscore, req_redis_zrevrangebyscore,
}
pub mod Laws

-- The bytes of an ASCII text.
abbrev pub codes : String → Bytes
codes String.[] = []
codes (String.◌∷◌ c s) = code c ∷ codes s

abbrev pub Keyword : Type 0
Keyword = Bytes × CmdType

-- `case 3`
unfoldable pub keywords_3 : List Keyword
keywords_3 =
    (codes "get", req_redis_get)
    ∷ (codes "set", req_redis_set)
    ∷ (codes "ttl", req_redis_ttl)
    ∷ (codes "del", req_redis_del)
    ∷ []

-- `case 4`
unfoldable pub keywords_4 : List Keyword
keywords_4 =
    (codes "pttl", req_redis_pttl)
    ∷ (codes "decr", req_redis_decr)
    ∷ (codes "dump", req_redis_dump)
    ∷ (codes "hdel", req_redis_hdel)
    ∷ (codes "hget", req_redis_hget)
    ∷ (codes "hlen", req_redis_hlen)
    ∷ (codes "hset", req_redis_hset)
    ∷ (codes "incr", req_redis_incr)
    ∷ (codes "llen", req_redis_llen)
    ∷ (codes "lpop", req_redis_lpop)
    ∷ (codes "lrem", req_redis_lrem)
    ∷ (codes "lset", req_redis_lset)
    ∷ (codes "rpop", req_redis_rpop)
    ∷ (codes "sadd", req_redis_sadd)
    ∷ (codes "spop", req_redis_spop)
    ∷ (codes "srem", req_redis_srem)
    ∷ (codes "type", req_redis_type)
    ∷ (codes "mget", req_redis_mget)
    ∷ (codes "mset", req_redis_mset)
    ∷ (codes "zadd", req_redis_zadd)
    ∷ (codes "zrem", req_redis_zrem)
    ∷ (codes "eval", req_redis_eval)
    ∷ (codes "sort", req_redis_sort)
    ∷ (codes "ping", req_redis_ping)
    ∷ (codes "quit", req_redis_quit)
    ∷ (codes "auth", req_redis_auth)
    ∷ []

-- `case 5`
unfoldable pub keywords_5 : List Keyword
keywords_5 =
    (codes "hkeys", req_redis_hkeys)
    ∷ (codes "hmget", req_redis_hmget)
    ∷ (codes "hmset", req_redis_hmset)
    ∷ (codes "hvals", req_redis_hvals)
    ∷ (codes "hscan", req_redis_hscan)
    ∷ (codes "lpush", req_redis_lpush)
    ∷ (codes "ltrim", req_redis_ltrim)
    ∷ (codes "rpush", req_redis_rpush)
    ∷ (codes "scard", req_redis_scard)
    ∷ (codes "sdiff", req_redis_sdiff)
    ∷ (codes "setex", req_redis_setex)
    ∷ (codes "setnx", req_redis_setnx)
    ∷ (codes "smove", req_redis_smove)
    ∷ (codes "sscan", req_redis_sscan)
    ∷ (codes "zcard", req_redis_zcard)
    ∷ (codes "zrank", req_redis_zrank)
    ∷ (codes "zscan", req_redis_zscan)
    ∷ (codes "pfadd", req_redis_pfadd)
    ∷ []

-- `case 6`
unfoldable pub keywords_6 : List Keyword
keywords_6 =
    (codes "append", req_redis_append)
    ∷ (codes "decrby", req_redis_decrby)
    ∷ (codes "exists", req_redis_exists)
    ∷ (codes "expire", req_redis_expire)
    ∷ (codes "getbit", req_redis_getbit)
    ∷ (codes "getset", req_redis_getset)
    ∷ (codes "psetex", req_redis_psetex)
    ∷ (codes "hsetnx", req_redis_hsetnx)
    ∷ (codes "incrby", req_redis_incrby)
    ∷ (codes "lindex", req_redis_lindex)
    ∷ (codes "lpushx", req_redis_lpushx)
    ∷ (codes "lrange", req_redis_lrange)
    ∷ (codes "rpushx", req_redis_rpushx)
    ∷ (codes "setbit", req_redis_setbit)
    ∷ (codes "sinter", req_redis_sinter)
    ∷ (codes "strlen", req_redis_strlen)
    ∷ (codes "sunion", req_redis_sunion)
    ∷ (codes "zcount", req_redis_zcount)
    ∷ (codes "zrange", req_redis_zrange)
    ∷ (codes "zscore", req_redis_zscore)
    ∷ []

-- `case 7`
unfoldable pub keywords_7 : List Keyword
keywords_7 =
    (codes "persist", req_redis_persist)
    ∷ (codes "pexpire", req_redis_pexpire)
    ∷ (codes "hexists", req_redis_hexists)
    ∷ (codes "hgetall", req_redis_hgetall)
    ∷ (codes "hincrby", req_redis_hincrby)
    ∷ (codes "linsert", req_redis_linsert)
    ∷ (codes "zincrby", req_redis_zincrby)
    ∷ (codes "evalsha", req_redis_evalsha)
    ∷ (codes "restore", req_redis_restore)
    ∷ (codes "pfcount", req_redis_pfcount)
    ∷ (codes "pfmerge", req_redis_pfmerge)
    ∷ []

-- `case 8`
unfoldable pub keywords_8 : List Keyword
keywords_8 =
    (codes "expireat", req_redis_expireat)
    ∷ (codes "bitcount", req_redis_bitcount)
    ∷ (codes "getrange", req_redis_getrange)
    ∷ (codes "setrange", req_redis_setrange)
    ∷ (codes "smembers", req_redis_smembers)
    ∷ (codes "zrevrank", req_redis_zrevrank)
    ∷ []

-- `case 9`
unfoldable pub keywords_9 : List Keyword
keywords_9 =
    (codes "pexpireat", req_redis_pexpireat)
    ∷ (codes "rpoplpush", req_redis_rpoplpush)
    ∷ (codes "sismember", req_redis_sismember)
    ∷ (codes "zrevrange", req_redis_zrevrange)
    ∷ (codes "zlexcount", req_redis_zlexcount)
    ∷ []

-- `case 11`
unfoldable pub keywords_11 : List Keyword
keywords_11 =
    (codes "incrbyfloat", req_redis_incrbyfloat)
    ∷ (codes "sinterstore", req_redis_sinterstore)
    ∷ (codes "srandmember", req_redis_srandmember)
    ∷ (codes "sunionstore", req_redis_sunionstore)
    ∷ (codes "zinterstore", req_redis_zinterstore)
    ∷ (codes "zunionstore", req_redis_zunionstore)
    ∷ (codes "zrangebylex", req_redis_zrangebylex)
    ∷ []

-- `case 10`, which has no `break` and goes on into `case 11`.
unfoldable pub keywords_10 : List Keyword
unfolding keywords_11
keywords_10 = (codes "sdiffstore", req_redis_sdiffstore) ∷ keywords_11

-- `case 12`
unfoldable pub keywords_12 : List Keyword
keywords_12 = (codes "hincrbyfloat", req_redis_hincrbyfloat) ∷ []

-- `case 13`
unfoldable pub keywords_13 : List Keyword
keywords_13 = (codes "zrangebyscore", req_redis_zrangebyscore) ∷ []

-- `case 14`
unfoldable pub keywords_14 : List Keyword
keywords_14 = (codes "zremrangebylex", req_redis_zremrangebylex) ∷ []

-- `case 15`
unfoldable pub keywords_15 : List Keyword
keywords_15 = (codes "zremrangebyrank", req_redis_zremrangebyrank) ∷ []

-- `case 16`
unfoldable pub keywords_16 : List Keyword
keywords_16 =
    (codes "zremrangebyscore", req_redis_zremrangebyscore)
    ∷ (codes "zrevrangebyscore", req_redis_zrevrangebyscore)
    ∷ []

-- `str3icmp` to `str16icmp` of hiutil.h: each byte is the letter, or the letter with bit 5 flipped.
unfoldable pub str_icmp : Bytes → Bytes → Bool
str_icmp m [] = true
str_icmp [] (c ∷ cs) = false
str_icmp (b ∷ m) (c ∷ cs) = ((b == c) || (b == bit_xor c 0x20)) && str_icmp m cs

-- The chain of tests of one case.
unfoldable pub find_keyword : Bytes → List Keyword → CmdType
find_keyword m [] = unknown
find_keyword m ((word, t) ∷ rest) = if str_icmp m word then t else find_keyword m rest

-- `switch (p - m)`
unfoldable pub keywords : ℕ → List Keyword
keywords n =
    if n == 3
    then keywords_3
    else if n == 4
    then keywords_4
    else if n == 5
    then keywords_5
    else if n == 6
    then keywords_6
    else if n == 7
    then keywords_7
    else if n == 8
    then keywords_8
    else if n == 9
    then keywords_9
    else if n == 10
    then keywords_10
    else if n == 11
    then keywords_11
    else if n == 12
    then keywords_12
    else if n == 13
    then keywords_13
    else if n == 14
    then keywords_14
    else if n == 15
    then keywords_15
    else if n == 16
    then keywords_16
    else []

unfoldable pub command_type : Bytes → CmdType
command_type m = find_keyword m (keywords (length m))
