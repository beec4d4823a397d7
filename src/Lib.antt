-- ===== src/Lib.antt =====
-- The lab's control plane for LLM agents: what stands between a model's answer and the execution of
-- the tool call that it proposes.
--
-- The program. A request comes with a scenario, retrieved chunks and tool output. An adapter turns it
-- into candidate output, a text and perhaps a tool call, which is untrusted. The pipeline filters the
-- text; the broker checks the call's arguments, the integrity of its provenance, the policy and the
-- approval; the simulator pretends to execute; one event goes to the audit file. Tokens of approval
-- are consumed in a registry that is global to the process. The policy is a file that is read again in
-- every turn; a script checks it and compares its canonical hash with one on file. The configuration
-- comes from the environment and is checked before the application is built, which limits the
-- length of bodies, asks for an API key and runs a turn for POST /run.
--
-- Which file models what; the paths are those under src/agent_control_plane/ of the repository.
--   Models, Models/*     models.py, and the classes of approval_tokens.py: records and data types of
--                        the same names, JSON values
--   Platform, Platform/* what the program takes from Python and pydantic: digests, the calendar,
--                        pydantic's verdict, base64, `\w`, the order of a set; datetime's comparison
--   Json, Json/*         `json.dumps` with sort_keys and separators, `sorted` on texts
--   Regex, Regex/*       the part of `re` that the patterns need, as lists of matches in the order
--                        in which backtracking tries them
--   Host                 the environment, files, YAML, pydantic's ToolPolicy and `int`, as parameters
--   Policy/*             policy_types.py (Types), policy_engine.py (Engine, Loading), provenance.py,
--                        policy_integrity.py (Validation, Hash), and scripts/validate_policy.py of
--                        the repository's root (Script)
--   Integrity, Integrity/*  provenance_integrity.py
--   Approval/*           approval_tokens.py (Fingerprint, Tokens), approval_gate.py (Gate)
--   Schemas              schemas.py
--   Broker               tool_broker.py: broker_tool_request, with the part after the integrity check
--                        as authorize_tool and the part after the gate as gated_decision
--   Simulator            simulator.py
--   Agent/*              agent_core.py (Scenarios, Core), prompt.py (Prompt), llm_adapter.py (Adapter)
--   Filter/*             output_filter.py: Patterns, Measures, Detectors, Context, Decision
--   Audit/*              audit_logger.py (Event, Redaction, Logger, Reading), observability.py
--   Pipeline/*           pipeline.py: Events, and run_protected and run_vulnerable (Protected,
--                        Vulnerable) as functions on a World of registry and audit lines (State),
--                        what follows the write of an event (Logging),
--                        and run_protected with the policy file that it reads first (Turn)
--   Config, Config/*     config.py: AppConfig and its checks, load_config_from_env (Environment)
--   Api, Api/*           api.py: requests and responses (Types), the middleware, the key, /run and
--                        the handlers (Api), create_app and get_app (Application), with
--                        create_llm_adapter_from_config of llm_adapter.py
--   Demo, Demo/*         demo.py: the scripted turns and what is printed
--   Base, Base/*         equality, results with exceptions, texts, lines, whole numbers, membership
--   Tests/*              the repository's policy and scenarios run, and the theorems at those data
-- The laws of a component stand in its Laws file or in files named for what they prove. The contract
-- of approval tokens is the monitor of Pipeline/Monitor, and Pipeline/Monitor/Refinement compares the
-- turns with it; Pipeline/Guarded and Api/* put the components together.
--
-- How it is modelled. An exception is the value `raised e` of Result, so that what the code does when
-- something raises is part of every statement. State that the code mutates, the registry and the
-- audit file, is passed and returned. The clock is an argument: its reading at the expiry check and
-- the time stamp of the event; with it comes `audit_fault`, what OSError says where the event of the
-- turn cannot be appended to the audit file, which leaves the file as it was. The token of a request
-- is marked before its event is written, so a turn can consume it and raise. `write_text` of Host is
-- what the write of a file answers. Every function is structural recursion, so nothing runs out of fuel.
-- Entropy is compared with its threshold in whole numbers. The platform's functions are parameters;
-- a theorem that relies on what is documented of one has it as a named hypothesis.
--
-- Not modelled. YAML, pydantic and FastAPI themselves: a document is what `safe_load` gives, with
-- texts as keys and without floats and dates; a body of /run is what pydantic has accepted; routing
-- and CORS are left out. Path.resolve, mkdir, the arguments of the command line, and the scripts
-- that check the repository's files. A turn is one step: turns of several threads are not
-- interleaved within. A body's length is what its Content-Length says, as in the middleware.
pub mod Base
pub mod Models
pub mod Platform
pub mod Json
pub mod Host
pub mod Policy
pub mod Integrity
pub mod Approval
pub mod Schemas
pub mod Broker
pub mod Simulator
pub mod Agent
pub mod Regex
pub mod Filter
pub mod Audit
pub mod Config
pub mod Pipeline
pub mod Api
pub mod Demo
pub mod Tests
