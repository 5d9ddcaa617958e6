-- ===== src/Lib.antt =====
-- The crypto CDC pipeline: what its Python programs do, and why that is right.
--
-- The pipeline carries the trades of two exchanges through MySQL, Debezium, Kafka and Flink into
-- ClickHouse. The Python programs around it collect the trades, trade on a test exchange to have a
-- ledger to compare with, and watch the whole. They meet in tables and files: the producer fills
-- the table crypto_trades, the trader its virtual_* tables, the health check reads ClickHouse and
-- writes alerts, and the watchdog reads a heartbeat file from outside.
--
-- Base and its children hold what the parts share: Boolean tests on the native numbers
-- (Base/Tests), lists measured by them (Base/Lists), and signed integers (Base/Int), for Python's
-- `int`.
--
-- Producer: producer/producer.py.
--   Writer: `MySQLWriter`. `flush`, `insert_direct`, `close` and `reconnect` keep their names;
--   MySQL is the parameter `Env.db`, which answers the n-th batch. `flush_loop` takes the number
--   of passes, MAX_BATCHES_PER_FLUSH, as its measure; `close` runs on fuel, one flush a unit.
--   GapFill: `fetch_gap_rows`. The REST API is a parameter that answers each attempt at each
--   request. The measures are the five attempts and the fifty pages of the code. Ordered says
--   what the API documents of its parameters; how far it gives trades past the second of `to` and
--   before the day of `daysAgo` are parameters. Pages cuts its list into the pages of the code.
--   Fill: `gap_fill`, which joins the two, with the row of `record_repair`, and
--   `fetch_krw_markets`, whose ten attempts are its measure.
--   Session: `parse_trade` and `subscribe_upbit`, as a machine: an event is what the connection
--   does, an effect what the session asks of the writer, the connection and `gap_fill`. An
--   exception anywhere in the block of the connection is the event `broken`. Not modelled:
--   shutdown, the SIGUSR1 hook, `main`.
-- Binance: binance-collector/collector.py. `chunks`, `Conn` with `on_delivery` and `run` (as a
--   machine fed with what the connection does: Connection), and the refresh of `main` (Refresh).
--   Not modelled: the requests for the symbols, the depth snapshots, the reports.
-- Orderbook: orderbook-collector/collector.py, `fetch_markets` and `run`, as a machine fed with
--   what the exchange and librdkafka do; the queue of librdkafka is a number. Accounts is about
--   its counters, Guard about its markets. Not modelled: latencies, the counters of an interval.
-- Trader: virtual-trader/trader.py.
--   Plan: `SymbolFilters`, `quantize`, `plan_orders`, over exact decimals in whole units.
--   Ledger: `order_row_from_report`, `fill_row_from_report`, the SQL of `UPSERT_ORDER` and
--   `INSERT_FILL` and the reset of the exchange, on tables that are lists; Positions is
--   `snapshot_positions`.
--   Events: `on_event`, with its deduplication. Cycle: `cycle`, `place`, `amend_then_cancel`,
--   `check_reset`; the exchange is a parameter. Api: `WsApi` and the pass of `run` that connects,
--   as a machine fed with what callers, clock and exchange do; an id is a number, and sending on a
--   connection whose reader has ended is the documented error of the library. Reconcile:
--   `compare_ledger` and `my_summary`; a parameter reads decimals. Main: the loop of `run` and its
--   timers, an iteration a tick, which an exception of a job ends; how long a job takes is an
--   argument. Not modelled: the requests and signatures.
-- Onboard: scripts/ops/onboard_table.py, `main` as a list of effects on the connector, Kafka,
--   ClickHouse and two files (which are lists of lines and of sections). Backed is about every
--   state between two effects, Undo about removal and reruns; Stored and Erased hold their
--   lemmas. The objects of ClickHouse and the source of dbt have names without the database. Columns: `map_column` and `generate_ddl`, over what they read in the types of MySQL.
--   Not modelled: the texts of the DDL, `--dml-check`, the counts that are only printed.
-- Watchdog: scripts/ops/cdc-watchdog.py, `judge`, `should_send` and `main`. The text of the
--   messages is not modelled.
-- WebSocket: scripts/lib/minws.py, `_read`, `_send_frame` and `recv`, over a socket that is the
--   list of chunks it will return. `recv` runs on fuel, one frame a unit. Not modelled: the
--   handshake, `recv_json`, `close`.
-- Health: airflow/dags/health_check.py.
--   Checks: the conditions of `_evaluate_health`, one function for each check, composed in the
--   code's order by `unhealthy`; Stages holds `INCIDENT_STAGE` and `_incident_stage`.
--   Alerts: the deduplication of `_evaluate_health` (`to_send`, `notify`) and
--   `escalate_persistent`, over a table of rows. Connect: `_check_kafka_connect`; the REST API of
--   Kafka Connect is a parameter. Coverage: `_check_market_coverage`. Not modelled: the queries
--   of the checks, the texts, the rows of pipeline_incidents, the restart that `_evaluate_health`
--   asks for itself when no trades arrive.
-- Backup: airflow/dags/backup_daily.py. A directory is its name and the base it was made on.
--   Chain and Restore are about the local chain of increments, Remote about both sides after the
--   shell commands of the retention, Parquet about `_export_parquet`; Days and Pruned hold their
--   lemmas. Not modelled: the files in a directory, the transfer, and the ages of the Parquet
--   files.
-- Daily: airflow/dags/daily_pipeline.py. `_validate_coin`, `_quality_gate` (Gate) and
--   `_check_duplicates` (Slices, which reads the SQL of a slice as a count over a list of rows).
--   The rounding of the pass rate is that of exact quotients; doubles agree with it below 2000
--   coins, where no quotient is a tie at the threshold. Not modelled: the queries of the report
--   and the tasks of dbt.
-- Quality: airflow/dags/quality_alerts.py, `_judge` over the answers of its queries. Not modelled:
--   the rules themselves, which are SQL and formats.
-- Reconcile: airflow/dags/reconcile_trades.py. The exchange is a parameter, and a request or a body
--   may raise; the list of the markets is given. The measures are the four attempts at the candles of a market and the three at its daily candles. Not modelled: the
--   SQL of the comparison, names and warnings in the market master.
-- Schema: scripts/ops/validate-topic-schemas.py. Values are the values of json.loads with the
--   equality of Python (finite floats as z / 2 ^ k); Schema is `check`, by recursion on the schema,
--   against the predicate of Schema/Conforms; Run is `sample` and `main`, to which what the
--   consumer prints is a parameter. Not modelled: the texts of the violations.
-- Poller: scripts/labels/poll_market_state.py (Poller, Replay), poll_market_events.py (Flags) and
--   poll_exchange_notices.py (Notices), each run with the answers of the exchange and the success
--   of its writes as arguments. The tables are lists, the latest run first. Not modelled: the
--   texts of the notices, the order of the `gone` rows of a run.
-- Notify: airflow/dags/market_alerts_notify.py, `_notify`, with the rows of its SQL as an argument;
--   what `send_health_alert` sends is the first ten of what it is given, if Slack takes it.
-- Logs: airflow/dags/log_retention.py, `_prune`, over a tree of directories. Not modelled: the
--   kinds of the errors, the sizes in MB.
-- Slack: airflow/plugins/callbacks/slack_callbacks.py. Chunks is about `send_text_report`; Report
--   holds `send_daily_report`, with `_send_report` of the daily pipeline, whose blocks are what
--   they show before formatting; AfterGate puts it behind the gate. Callbacks holds the callbacks
--   of failed, finished and late tasks. Not modelled: the fixed words of the blocks.
--
-- Times are whole milliseconds or seconds, as the code of the part has them; floats are a
-- parameter type or exact numbers. Not modelled are waits, logs and the text of messages, and the
-- parts that are not Python: Flink jobs, dbt models, schemas, dashboards and connector settings.
pub mod Backup
pub mod Base
pub mod Binance
pub mod Daily
pub mod Health
pub mod Logs
pub mod Notify
pub mod Onboard
pub mod Orderbook
pub mod Poller
pub mod Producer
pub mod Quality
pub mod Reconcile
pub mod Schema
pub mod Slack
pub mod Trader
pub mod Watchdog
pub mod WebSocket
