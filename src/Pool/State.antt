-- ===== src/Pool/State.antt =====
-- `struct continuum`, `struct server` and `struct server_pool` of nc_server.h, and what the pool
-- takes from the platform: the clock, the allocator, the C library and its floating point.
-- Socket addresses, the pool's client connections and the listener are left to other parts.
use wx_cache_proxy.Base.{ℕ, Bool, List, Option}

-- A point of the continuum. `name` is written for a debug line only and is left out.
pub record Point : Type 0 where
  pub index : ℕ
  pub value : ℕ

-- Connections are numbers; `s_conn_q` holds them from head to tail.
pub record Server : Type 0 where
  pub idx : ℕ
  pub pname : List ℕ
  pub name : List ℕ
  pub weight : ℕ
  pub ns_conn_q : ℕ
  pub s_conn_q : List ℕ
  pub next_retry : ℕ
  pub failure_count : ℕ

-- `dist_type_t`.
pub data Dist : Type 0 where
  dist_ketama dist_modula dist_random : Dist

-- `continuum` holds the entries below `ncontinuum`, that is, those that a dispatch may read.
pub record Pool : Type 0 where
  pub server : List Server
  pub ncontinuum : ℕ
  pub nserver_continuum : ℕ
  pub continuum : List Point
  pub nlive_server : ℕ
  pub next_rebuild : ℕ
  pub dist_type : Dist
  pub key_hash : List ℕ → ℕ
  pub hash_tag : List ℕ
  pub timeout : ℕ
  pub server_connections : ℕ
  pub server_retry_timeout : ℕ
  pub server_failure_limit : ℕ
  pub auto_eject_hosts : Bool
  pub preconnect : Bool

-- The operations on `float` that the distribution uses; `add_tiny` adds the constant 1e-10.
pub record FloatOps (F : Type 0) : Type 0 where
  pub of_u32 : ℕ → F
  pub div : F → F → F
  pub mul : F → F → F
  pub add_tiny : F → F
  pub floor : F → F
  pub to_u32 : F → ℕ

-- `qsort` by the points' values, the MD5 digest (16 bytes), and `snprintf` of "<name>-<number>".
pub record Platform (F : Type 0) : Type 0 where
  pub float : FloatOps F
  pub sort : List Point → List Point
  pub md5 : List ℕ → List ℕ
  pub host : List ℕ → ℕ → List ℕ

-- One rebuild's outside world: `nc_usec_now` (`none` for a negative result), and whether
-- `nc_realloc` succeeds.
pub record Moment : Type 0 where
  pub now : Option ℕ
  pub realloc_ok : Bool
