-- ===== src/Lib.antt =====
-- The fraud detection platform: what scores a transaction, what is stored of it, and who decides which
-- model does the scoring. Paths are from the root of the repository.
--
-- A transaction comes in by the API or by a file. `compute_features` turns it and the history of its
-- card into a feature vector; `build_feature_row` turns that into the row of a model; the model of the
-- registry, or the rules of the fallback where it is missing or raises, gives a score; `decide` turns the
-- score into a risk level, a decision and a routing to the review queue. The database keeps
-- transactions, predictions, review cases, the analysts' answers and the approvals of models. The stream
-- consumer fills the histories that the features come from; the drift check reads the predictions back and calls
-- for retraining; analysts work through the review queue under tokens with roles.
--
-- Common: lists, texts, sorting, dictionaries and results over the native numbers. Common.Floating is
-- the interface of Python's `float`: `Floating` has its operations, `IsOrdered` the laws of IEEE 754
-- on comparisons, NaN included; the instance `Micros` meets them.
-- Config, src/common/config.py: `Settings` and its defaults.
-- Schemas, src/common/schemas.py and src/feature_engineering/validation.py: `Transaction` and
-- `validate`. A time is a number of microseconds and, where there is a zone, its offset.
-- Pii, src/common/pii.py: masking, with the digest for a parameter; Secrets, src/common/secrets.py: the
-- settings under a decoded secret.
-- Features, src/feature_engineering/features.py: `try_features` is the source's `compute_features` with its
-- exceptions, and `compute_features` is what it gives without one; the two rules.
-- Scoring.Decision, src/api/decision.py: `decide`.
-- Scoring.Fallback, src/api/fallback.py: `RuleBasedFallback.score` is `fallback_score`.
-- Scoring.FeatureRow, src/ml/model_features.py: a data frame of one row is the list of its cells.
-- Scoring.Inference, src/api/inference.py: `ModelState` is a record, and `reload`,
-- `score_transaction` and `explain_transaction` are functions of it. `Engine` has the model's and
-- the explainer's calls; the two readings of the clock are arguments.
-- Batch, src/api/batch.py and src/api/routes/batch.py: Parse is `parse_transactions_csv`, Score is
-- `score_batch`, Timeseries and Payload make the dashboard's numbers, Upload is the endpoint and Template its
-- sample file. The interfaces `Csv` and `Calendar` stand for pandas, pydantic's conversion and the formats
-- of dates.
-- Storage, src/storage/postgres_models.py and src/storage/postgres_client.py: a `Database` is the
-- contents of its tables, and each method is a function on it. A row's `uuid4()` and `now()` are a
-- `Stamp`.
-- Storage.Trail: the runs of the client's writes, in any order, as a step relation.
-- Governance.Registry, src/ml/registry.py: `World` has the database and MLflow's state. `Mlflow` is
-- the interface of its client, and `IsMlflow` states what is documented of a transition and of a
-- registration.
-- Governance.Promotion, src/ml/auto_promote.py: `evaluate_validation_gate` and `maybe_auto_promote`, with
-- the metrics of a run for a parameter.
-- Stream, src/feature_engineering/feature_store.py and src/feature_engineering/spark_consumer.py: Redis is
-- the interface of redis-py, with `IsRedis` for its documented commands; Store is `RedisFeatureStore`, with
-- the texts of pydantic and json as a `Codec`; Consumer is `process_batch` with what it calls. A store is a
-- state that is passed on, also by an exception.
-- Drift, src/ml/drift.py, and Drift.Check, dags/drift_detection_dag.py: the report over the interface `Stats`
-- of scipy and numpy, the check of a model on the stored predictions and the choice of the next task.
-- Monitoring, src/monitoring/business_metrics.py: `compute_snapshot`, and the gauges pushed of it.
-- Generator, src/ingestion/transaction_generator.py: `Rng` is the interface of random.Random and Faker, whose
-- state `Gen` passes on; Traffic has the transactions and `stream`.
-- Dataset, src/ml/dataset.py: `build_training_dataset` is `generate_training_dataset`, and its loop is
-- `rows_from`; `build_feedback_dataset`.
-- Training, src/ml/train.py: `evaluate` is `_evaluate` and `fairness_report` is `_fairness_report`, over the
-- interface `Metrics` of scikit-learn; `sorted` goes by an order of texts that is an argument. Tracking is what
-- a run logs, over MLflow's interface with its documented laws `IsTracking`; Learning has the interface of the
-- learners, SMOTE and the split; Run and Pipeline have the two trainings and `run`.
-- ModelCard, src/ml/model_card.py: `render_model_card`.
-- Dags, dags/drift_detection_dag.py, dags/retrain_pipeline_dag.py and dags/automated_promotion_dag.py: a drift
-- cycle, from the check through the retraining to the promotions.
-- Producer, src/ingestion/producer.py: `publish` and `run` over the interface `Kafka` of confluent_kafka.
-- ReviewUi, streamlit_app/review_ui.py: a session of the page, whose calls are the endpoints of Api over a
-- connection that may fail.
-- Api.Auth, src/api/auth.py and src/api/routes/auth.py: tokens over the interface `Jwt` of PyJWT, and roles.
-- Api.Score, src/api/routes/score.py: the endpoint of a score, with what it stores.
-- Api.Review, src/api/routes/review.py and src/api/routes/transactions.py; Api.Health,
-- src/api/routes/health.py; Api.Explain, src/api/explain.py and src/api/routes/explain.py.
-- Startup, scripts/wait_for_services.py: `main` is what a container does before its command, over the interface
-- `Platform` of the clock and of sockets, whose laws `IsClock` hold where the clock is not set back.
-- Tests: data, and the properties at it.
--
-- The loop of `stream` has a bound on its rounds, the number of transactions asked for; each round gives one
-- at least, so that the bound is never met early. The loop of `wait_until` has a bound on the tests of its
-- condition, one for each second of the timeout and one more, since each round sleeps for a second. Every
-- other loop of the source runs over a list, and is recursion on it.
--
-- Not modelled: sorting keys that are NaN; what the features raise in the stream consumer, whose times Spark
-- makes all without a zone, and in training, whose times all have one; the widths of columns but those of a
-- drift report's windows; what a row's exception says beyond its text; the log, and the pushes to Prometheus; a
-- failure of the database or of Redis in the middle of a call; the connections to Kafka, Spark and Airflow; the
-- fitting of models. These call the parts above or libraries. Presentation and deployment have no logic of
-- their own.
pub mod Common
pub mod Config
pub mod Http
pub mod Pii
pub mod Secrets
pub mod Schemas
pub mod Features
pub mod Scoring
pub mod Batch
pub mod Storage
pub mod Governance
pub mod Stream
pub mod Drift
pub mod Monitoring
pub mod Training
pub mod ModelCard
pub mod Dags
pub mod Producer
pub mod ReviewUi
pub mod Startup
pub mod Generator
pub mod Dataset
pub mod Api
pub mod Tests
