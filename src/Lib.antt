-- ===== src/Lib.antt =====
-- The face recognition service of Lychee (app/): a web service that queues photos, detects faces in
-- them, keeps the faces' embeddings in a store, and groups them. A request handler puts a job into the
-- job queue (app/queue); worker tasks take jobs out, run detection or clustering, and complete them;
-- detection adds embeddings to the store (app/embeddings), and a synchronisation session of the client
-- removes those that it no longer knows.
--
-- The files, and the code each is about:
--   Prelude            names of the libraries, Boolean tests, lists over native numbers
--   Sql                database sessions whose statements may fail; Sql.Sqlite has connections that are
--                      opened for each method, Sql.Postgres a connection that is kept, Sql.History
--                      sequences of requests and their answers
--   JobQueue           app/queue/base.py: `Job`, and the protocol `JobQueue` on an abstract queue;
--                      Protocol has its calls as data, Fifo what every backend inherits
--   DbQueue            app/queue/db_queue.py: the table `job_queue` and its statements; Sqlite is
--                      `SQLiteJobQueue` and Postgres is `PgJobQueue`, each with a child for its
--                      transactions and one for its refinement of the protocol
--   RedisQueue         app/queue/redis_queue.py: `RedisJobQueue` on its three keys; Commands has its methods
--                      command by command, Interleaved several processes on one Redis
--   Worker             app/queue/worker.py: `run_worker`, `_handle_detect`, `_maybe_dispatch_clustering`;
--                      Team has several workers at work together, await by await
--   FaceStore          app/embeddings: the statements on rows of faces; Sqlite is
--                      `SQLiteEmbeddingStore` (sqlite_store.py), Pgvector is `PgVectorEmbeddingStore`
--                      (pgvector_store.py), SyncSession a session of `sync_batch` and `purge_absent`
--                      over any store of store.py, Search is `similarity_search` of both; Protocol has
--                      the methods of store.py on one table of faces, Sqlite.Refinement relates the
--                      two tables of the SQLite store to it, and Sqlite.Roundtrip `add` to `get_all`
--   Settings           app/config.py: `AppSettings`, `to_diagnostics_payload`, `_pretty_config_error`
--   Async              how an `await` ends, and the statements try, except and finally
--   Detector           app/detection/detector.py: `FaceDetector`; Sorting and Filters have what
--                      `_detect_array` returns, Loading has `load`
--   DetectionJob       app/api/routes.py: `_run_detection_job`, `_send_error_callback`; World is the store,
--                      the disk and Lychee as a job sees them, Persistence what it stores, Outcome how a
--                      whole job ends
--   ClusteringJob      app/api/routes.py: `_run_clustering_job`, `_send_cluster_callback`
--   Cropper            app/detection/cropper.py; Region and Cover have where the square lies and what it
--                      shows, Thumbnail the picture that is made of it
--   Lifespan           app/main.py: `_default_lifespan`; World keeps what has happened
--   Matcher            app/matching/matcher.py: `FaceMatcher`
--   Routes             app/api/routes.py and app/api/dependencies.py: the handlers of /detect, /cluster,
--                      /match, /config and /queue, and `require_api_key`; Embeddings has the handlers
--                      over the store, / and /health
--   Suggestions        app/api/routes.py: `_generate_cross_cluster_suggestions`
--   Clusterer          app/clustering/clusterer.py: `FaceClusterer.cluster`
--   Factories          app/queue/factory.py and app/embeddings/factory.py
--   Tests              the theorems at concrete inputs
-- A function of the model has the name of the method that it models, without the leading underscore.
--
-- A method of a database backend is a function from a session to a result and a session. What happens
-- to each call of the driver (it runs, it raises, the connection is lost) is a function of the call's
-- number, over which the theorems quantify, so they cover every pattern of faults. The drivers follow
-- their documentation: a statement that raises changes nothing, in PostgreSQL it aborts the open
-- transaction until a rollback or the loss of the connection, and a connection that is closed or lost
-- forgets what is not committed; a PostgreSQL connection that is lost in a commit may leave the
-- transaction committed, although the call raises. Methods of one process follow each other: each runs
-- under the lock of its object, but for `size` and `position` of the SQLite queue, which are modelled
-- as if they did.
--
-- Job ids are those of the database's counter; in PostgreSQL that is a sequence, which no rollback
-- sets back: how many ids an insertion finds drawn already is an argument. The column `created_at`,
-- which nothing reads, is left out. JSON texts of Redis items stand as the records that they encode.
-- Embeddings, their blobs and the sharpness scores are type parameters, and the packing between an
-- embedding and its blob, the rowids that the vector table gives, the distance of two embeddings (one
-- for each store: sqlite-vec has L2 and pgvector the cosine distance) and its comparison are
-- arguments. The search of the databases ranks exactly: an approximate index is not modelled. What the
-- driver returns for a vector column, and what `float` reads, are arguments of `get_all` of the
-- pgvector store. `chunks_from` runs on fuel, the length of its list, and `run_worker` on a number of
-- passes, for the loop has no end.
--
-- DBSCAN of scikit-learn is an argument of `cluster`, and so are the conversion to float32, the norm
-- of a vector and the division of two numbers; `str.lower` is one of the factories. A job writes its
-- faces by `add`, which in both stores takes the place of a row of the same face id.
--
-- Floats are a type with the operations that the detector uses; a theorem names the laws that it
-- needs. DeepFace, OpenCV, pathlib's `resolve` and `is_file`, and `str` of a number are arguments. A
-- job runs over services of which each call may return, raise or be cancelled; in DetectionJob.World
-- the answers are functions of a clock, over which the theorems quantify. What is posted counts as
-- sent, answered or not.
--
-- The cropper's coordinates are exact: integers in units of a fraction of a pixel, which its file
-- gives, in place of floats. Pillow is a record of functions. FastAPI checks the key before it
-- validates the body of a request. Start-up and shut-down run over services like those of a job;
-- Lifespan.World logs what they do.
--
-- Not modelled: how pydantic reads the settings and the requests' bodies, other than the two bounds on
-- those of /embeddings; the range check of `ClusterSuggestion.confidence`, which would refuse a score
-- that is not between 0 and 1; `create_app`, which builds the FastAPI object, and the format of the
-- log; the locks of the detector; the interleavings of several processes on one database, and commands
-- of Redis that fail.
pub mod Prelude
pub mod Sql
pub mod JobQueue
pub mod DbQueue
pub mod RedisQueue
pub mod FaceStore
pub mod Tests
pub mod Worker
pub mod Suggestions
pub mod Factories
pub mod Settings
pub mod Routes
pub mod Clusterer
pub mod Async
pub mod Detector
pub mod Cropper
pub mod Lifespan
pub mod Matcher
pub mod DetectionJob
pub mod ClusteringJob
