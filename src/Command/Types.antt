-- ===== src/Command/Types.antt =====
-- command.h: the command types, and the part of `struct cmd` that the parser reads and writes.
use hiredis_vip.Base.{ℕ, Bool, Option}
use hiredis_vip.Array.{HiArray}

-- `cmd_type_t`
pub data CmdType : Type 0 where
  unknown req_redis_del req_redis_exists req_redis_expire req_redis_expireat req_redis_pexpire
        req_redis_pexpireat req_redis_persist req_redis_pttl req_redis_sort req_redis_ttl
        req_redis_type req_redis_append req_redis_bitcount req_redis_decr req_redis_decrby
        req_redis_dump req_redis_get req_redis_getbit req_redis_getrange req_redis_getset
        req_redis_incr req_redis_incrby req_redis_incrbyfloat req_redis_mget req_redis_mset
        req_redis_psetex req_redis_restore req_redis_set req_redis_setbit req_redis_setex
        req_redis_setnx req_redis_setrange req_redis_strlen req_redis_hdel req_redis_hexists
        req_redis_hget req_redis_hgetall req_redis_hincrby req_redis_hincrbyfloat req_redis_hkeys
        req_redis_hlen req_redis_hmget req_redis_hmset req_redis_hset req_redis_hsetnx
        req_redis_hscan req_redis_hvals req_redis_lindex req_redis_linsert req_redis_llen
        req_redis_lpop req_redis_lpush req_redis_lpushx req_redis_lrange req_redis_lrem
        req_redis_lset req_redis_ltrim req_redis_pfadd req_redis_pfcount req_redis_pfmerge
        req_redis_rpop req_redis_rpoplpush req_redis_rpush req_redis_rpushx req_redis_sadd
        req_redis_scard req_redis_sdiff req_redis_sdiffstore req_redis_sinter req_redis_sinterstore
        req_redis_sismember req_redis_smembers req_redis_smove req_redis_spop req_redis_srandmember
        req_redis_srem req_redis_sunion req_redis_sunionstore req_redis_sscan req_redis_zadd
        req_redis_zcard req_redis_zcount req_redis_zincrby req_redis_zinterstore req_redis_zlexcount
        req_redis_zrange req_redis_zrangebylex req_redis_zrangebyscore req_redis_zrank
        req_redis_zrem req_redis_zremrangebyrank req_redis_zremrangebylex req_redis_zremrangebyscore
        req_redis_zrevrange req_redis_zrevrangebyscore req_redis_zrevrank req_redis_zscore
        req_redis_zunionstore req_redis_zscan req_redis_eval req_redis_evalsha req_redis_ping
        req_redis_quit req_redis_auth rsp_redis_status rsp_redis_error rsp_redis_integer
        rsp_redis_bulk rsp_redis_multibulk sentinel :
      CmdType

-- `cmd_parse_result_t`
pub data CmdParseResult : Type 0 where
  parse_ok parse_enomem parse_error parse_repair parse_again : CmdParseResult

-- The states of the parser, `enum state` of `redis_parse_cmd`.
pub data State : Type 0 where
  start narg narg_lf req_type_len req_type_len_lf req_type req_type_lf key_len key_len_lf key key_lf
        arg1_len arg1_len_lf arg1 arg1_lf arg2_len arg2_len_lf arg2 arg2_lf arg3_len arg3_len_lf
        arg3 arg3_lf argn_len argn_len_lf argn argn_lf state_sentinel :
      State

-- `struct keypos`: where a key starts and ends, as positions in the command.
pub record KeyPos : Type 0 where
  pub key_start : ℕ
  pub key_end : ℕ

-- What `errstr` reports: the command type, the state and the position of the break.
pub record ParseFault : Type 0 where
  pub fault_type : CmdType
  pub fault_state : State
  pub position : ℕ

-- `struct cmd`, as far as the parser goes; positions are counted from `cmd->cmd`.
pub record Cmd : Type 0 where
  pub result : CmdParseResult
  pub errstr : Option ParseFault
  pub type : CmdType
  pub keys : HiArray KeyPos
  pub narg_start : Option ℕ
  pub narg_end : Option ℕ
  pub narg_count : ℕ
  pub quit : Bool
  pub noforward : Bool
