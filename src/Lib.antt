-- ===== src/Lib.antt =====
-- A model of the core of ERA, an agent runtime that lets a language model act through providers
-- (email, payments, files, devices) only by way of a permission engine, confirmations by people,
-- and an audit log.
--
-- The parts, and how they interact. A caller hands an action to `ExecutionService` of
-- era/services/execution_service.py: `request` asks the permission engine, and then refuses, stores a
-- confirmation, or authorizes and dispatches; `approve` and `deny` resolve a stored confirmation. A
-- dispatch passes the circuit breaker of the provider, the checks of the parameters, the provider's
-- `validate`, and its `execute` under the retry loop and a timeout. What happens is written to the
-- audit log, with the parameters redacted.
--
-- Where each part is modelled:
--   Prelude      names of the libraries, Boolean tests, lists, dicts, results, text
--   Core         Enums (era/core/enums.py), Result (era/core/result.py), Retry (era/core/retry.py),
--                Breaker (era/core/circuit_breaker.py)
--   Value        JSON values and their equality
--   Security     Redaction (era/security/redaction.py), Params and Schema (validate_params and
--                validate_param_schema of era/security/validation.py)
--   Permission   Catalog (ActionCatalog of era/core/tool_registry.py), Policy (era/schemas/policy.py,
--                era/services/policy.py), Engine (era/services/permission_engine.py), Roles
--                (era/security/rbac.py); Grounds has the engine's theorems
--   Gate         Records (era/core/context.py, era/schemas/actions.py, era/models), World (the state,
--                the exceptions, `transaction` of era/db.py), Audit (era/services/audit_service.py),
--                Confirm (era/services/confirmation_service.py), Dual
--                (era/services/dual_approval.py), and of era/services/execution_service.py: Calls (the
--                provider's calls, with era/core/timeout.py), Dispatch (`_run_provider`), Service (the
--                other internals), Request, Approve, Deny; AuditFirst has the theorems on what precedes a dispatch
--   Chain        the hash chain: era/repositories/audit.py, with `append` of era/repositories/sqlite.py
--   Idempotency  era/services/idempotency.py
--   Limits       era/providers/_rate_limit.py
--   ApiLimits    FixedWindowRateLimiter of era/api/rate_limit.py
--   Jobs         era/services/jobs.py
--   Cron         era/core/cron.py
--   Leader       era/services/scheduler_leader.py
--   Agents       era/agents: Budget (budget.py; Caps has its uses), Tasks (task_manager.py), Loop
--                (`_drive` of loop.py)
--   Vault        Reference and Service (era/security/vault.py, era/services/vault_service.py); Round and
--                Service.Resolve have the theorems
--   Workflow     era/workflows/definition.py: Definition (the models and their validators), Dag
--                (`_validate_dag`), Render (placeholders), Redact (`redact_run_params`),
--                Register (`validate_workflow_definition`); of
--                era/services/workflow_service.py: Run (era/models/workflow.py and the state), Receipt,
--                Step (`_execute_step`), Waiting (`_handle_waiting_step`), Engine (`_advance`), Service
--                (`start`, `resume`, `cancel`; Calls has `resolve_ambiguous` and sequences of calls)
-- A helper stands for the code behind a branch, and its comment or the name says which.
--
-- Conventions. The gate's state is a record `World`: the database (audit log, confirmations,
-- approvals, policy), the two clocks, the breakers, the calls that reached a provider, each with the
-- audit log that was committed when it began, and the outcomes of the coming commits, any of which may
-- fail. A method is a function of the world that returns or raises. `Env` holds what the service is
-- built from and what it takes from outside: the hash, JSON text, fresh ids and challenges, how a
-- provider answers its n-th call and how long it takes, the check of a parameter schema, the
-- sanitizing of results and messages. Times are whole ticks where Python has float seconds or ISO
-- timestamps, which compare alike; a backoff factor is a fraction and a delay is rounded down. Time
-- passes in calls and sleeps only. A call that overruns its timeout ends at the cut-off, and what its
-- thread still did counts as done before. Floats in values are dyadic fractions. Lower-casing is that
-- of ASCII letters. Branches that answer a value of the wrong type have no counterpart.
--
-- What other callers do to the records of the idempotency service, in the gaps before a run creates its
-- own and while its dispatch runs, is a parameter.
--
-- The gate's audit log is the list of the entries that were handed to the repository; the chain's log
-- is the list of its rows in the order of their numbers.
--
-- A workflow's state is `EngineState`: the run, its step rows, the requests that it made of the execution
-- service, and how many readings it took of what may change. `Services` is the interface to the rest: the
-- clock, the execution service, confirmations, the audit log, governance and the catalog, each of which
-- may answer every reading differently. The steps of a batch, which the source runs in threads, run one
-- after another; timestamps are left out. The service's state is the list of all runs. The vault's cipher
-- is a parameter, and `IsAead` says what is asked of it.
--
-- Bounds. The loop of `with_retry` is recursion on the attempts that are left, which `max_attempts`
-- bounds as in the source. `drive`, the agent loop, takes fuel for its turns, and enough fuel exists
-- from every state. `advance`, the workflow engine, takes fuel for its rounds: the source bounds them by
-- a wall-clock budget, and one round for each unit of it, and one more, are enough.
-- `next_after` searches for 2,635,200 rounds, as the source does.
--
-- Not modelled: threads and locks (steps are sequential), the meta field of audit entries in the
-- gate, schedules, the texts of cron fields, the operations around workflows, what the agent loop does for one
-- task (a parameter), the agent's planner and brain, authentication, the providers
-- themselves, the HTTP interface, configuration, and the queries of the repositories.
pub mod Prelude
pub mod Core
pub mod Value
pub mod Security
pub mod Permission
pub mod Gate
pub mod Chain
pub mod Limits
pub mod Cron
pub mod Jobs
pub mod Leader
pub mod Idempotency
pub mod Agents
pub mod ApiLimits
pub mod Vault
pub mod Workflow
