-- ===== src/Factories.antt =====
-- app/queue/factory.py and app/embeddings/factory.py: the backends that the settings ask for. `lower` is
-- `str.lower`, and `has_redis` says if the package `redis` can be imported. A backend stands as the
-- arguments of its constructor.
use lychee_facial_recognitio.Prelude.{ℕ, ◌≡◌, if◌then◌else◌, String, str_eq, eq_iff, Bool, arith}
use lychee_facial_recognitio.Settings.{AppSettings}

-- Where a database backend keeps its rows.
pub data Storage : Type 0 where
  sqlite : String → Storage
  pgvector : String → ℕ → String → String → String → Storage

pub data Backend : Type 0 where
  database : Storage → ℕ → Backend
  redis : String → ℕ → String → ℕ → ℕ → Backend

pub data Created (A : Type 0) : Type 0 where
  made : A → Created A
  value_error import_error : Created A

-- The queue of a store: on the same storage, or an error if the store has one.
abbrev pub queue_of : ℕ → Created Storage → Created Backend
queue_of max_size (made storage) = made (database storage max_size)
queue_of max_size value_error = value_error
queue_of max_size import_error = import_error

module _ {F : Type 0} (lower : String → String) where
  unfoldable pub create_store : AppSettings F → Created Storage
  create_store settings =
      let backend = lower settings.storage_backend in
      if str_eq backend "sqlite"
      then made (sqlite settings.storage_path)
      else (if str_eq backend "pgvector"
          then made (
              pgvector settings.pg_host settings.pg_port settings.pg_database settings.pg_user
                settings.pg_password)
          else value_error)

  unfoldable pub create_queue : Bool → AppSettings F → Created Backend
  create_queue has_redis settings =
      let backend = lower settings.queue_backend in
      let storage = lower settings.storage_backend in
      if str_eq backend "database"
      then (if str_eq storage "sqlite"
          then made (database (sqlite settings.storage_path) settings.queue_max_size)
          else (if str_eq storage "pgvector"
              then made (
                  database
                    (pgvector settings.pg_host settings.pg_port settings.pg_database
                      settings.pg_user settings.pg_password)
                    settings.queue_max_size)
              else value_error))
      else (if str_eq backend "redis"
          then (if has_redis
              then made (
                  redis settings.redis_host settings.redis_port settings.redis_password
                    settings.redis_db settings.queue_max_size)
              else import_error)
          else value_error)

  -- With the queue backend `database`, the queue is created exactly when the store is, and both are on
  -- the same SQLite path or the same PostgreSQL database; else the error is the store's.
  pub create_queue-create_store :
      (has_redis : Bool) (settings : AppSettings F)
      → lower settings.queue_backend ≡ "database"
      → create_queue has_redis settings ≡ queue_of settings.queue_max_size (create_store settings)
  unfolding create_queue create_store
  create_queue-create_store has_redis settings e =
      ground (arith, eq_iff (lower settings.queue_backend) "database")
