-- ===== src/Workflow.antt =====
-- Workflows: era/workflows/definition.py, era/models/workflow.py, era/services/workflow_service.py.
pub mod Definition
pub mod Dag
pub mod Redact
pub mod Register
pub mod Render
pub mod Run
pub mod Receipt
pub mod Step
pub mod Waiting
pub mod Engine
pub mod Service
mod Tests
