-- ===== src/Node/Settings.antt =====
-- The settings of cmd/node/main.go, from its flags and its environment, and the parts of a node
-- that they give. A flag that the command line sets is `some` value; `env` is os.Getenv.
use p2p_container_distributi.Prelude.{
  ℕ, ◌*◌, ◌≡◌, refl, not, [], Option, none, some, Bytes, bytes_eq, bytes_beq, ◌==◌, codes,
  if◌then◌else◌,
}
use p2p_container_distributi.Prelude.Int.{ℤ, pos}
use p2p_container_distributi.Cluster.{second}
use p2p_container_distributi.Replication.{Engine, new_engine}
use p2p_container_distributi.Storage.S3.Sign.{S3}
use p2p_container_distributi.Storage.S3.{new_s3}
use p2p_container_distributi.Node.{Setting, env_or, configure}

pub record Settings : Type 0 where
  pub node_id : Bytes
  pub listen_addr : Bytes
  pub advertise : Bytes
  pub peers : Bytes
  pub data_dir : Bytes
  pub s3_bucket : Bytes
  pub s3_region : Bytes
  pub heartbeat : ℕ
  pub rep_workers : ℤ

-- The command line, as the package `flag` reads it.
pub record Flags : Type 0 where
  pub text : Bytes → Option Bytes
  pub heartbeat_interval : Option ℕ
  pub replication_workers : Option ℤ

or_default : {A : Type 0} → Option A → A → A
or_default none fallback = fallback
or_default (some v) fallback = v

module _ (flags : Flags) (env : Bytes → Bytes) where
  -- flag.String(name, envOr(key, fallback), …)
  string_flag : Bytes → Bytes → Bytes → Bytes
  unfolding or_default env_or
  string_flag name key fallback = or_default (flags.text name) (env_or (env key) fallback)

  pub settings : Settings
  unfolding string_flag or_default
  settings = record {
    node_id = string_flag (codes "node-id") (codes "NODE_ID") (codes "node-1");
    listen_addr = string_flag (codes "listen") (codes "LISTEN_ADDR") (codes ":8080");
    advertise = string_flag (codes "advertise") (codes "ADVERTISE_ADDR") (codes "localhost:8080");
    peers = string_flag (codes "peers") (codes "PEERS") [];
    data_dir = string_flag (codes "data-dir") (codes "DATA_DIR") (codes "/var/lib/p2pcd/data");
    s3_bucket = string_flag (codes "s3-bucket") (codes "S3_BUCKET") [];
    s3_region = string_flag (codes "s3-region") (codes "AWS_REGION") (codes "us-east-1");
    heartbeat = or_default flags.heartbeat_interval (1 * second);
    rep_workers = or_default flags.replication_workers (pos 4);
  }

  -- The cold store: only where a bucket is set, with the credentials of the environment.
  unfoldable pub cold_store : Settings → Option S3
  cold_store s =
      if not (s.s3_bucket == [])
      then some (
          new_s3 s.s3_bucket s.s3_region (env (codes "AWS_ACCESS_KEY_ID"))
            (env (codes "AWS_SECRET_ACCESS_KEY")) (env (codes "AWS_SESSION_TOKEN")))
      else none

-- The engine of the node; the ring, the table and the callbacks are those of `configure`.
unfoldable pub engine_of : Settings → Engine
engine_of s = new_engine s.node_id s.rep_workers

unfoldable pub setting_of : (Bytes → Bytes) → ℕ → Settings → Setting
setting_of sha1 now s = configure sha1 now s.node_id s.advertise s.peers

abbrev no_flags : Flags
no_flags = record { text = λ name. none; heartbeat_interval = none; replication_workers = none }

default_id : (settings no_flags (λ key. [])).node_id ≡ codes "node-1"
unfolding settings string_flag or_default env_or bytes_beq
default_id = refl
