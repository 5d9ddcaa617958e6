-- ===== src/Health.antt =====
-- airflow/dags/health_check.py: the ten-minute health check of the pipeline.
pub mod Checks
pub mod Alerts
pub mod Connect
pub mod Coverage
mod Tests
