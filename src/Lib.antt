-- ===== src/Lib.antt =====
-- A model of the SecOC simulation: AUTOSAR Secure Onboard Communication in Python, where ECUs
-- exchange authenticated PDUs over a simulated CAN bus.
--
-- The parts and their files. Paths of the code are from the repository's root.
--   Base          what all parts share: Python's exceptions as values, a method as a function from
--                 a state to a state and an outcome, byte strings, dictionaries, arrays and tables,
--                 tests on numbers.
--   Config        the constants of sim/config.py.
--   Nvm           sim/nvm.py: the store and the file behind it, `_encode` and `_decode`; the keys
--                 that the other parts store under.
--   Freshness     sim/freshness_manager.py: reconstruction of a truncated counter and its window.
--   Profile       sim/security_profile.py: profiles, loading, lookup, update.
--   Pdu           sim/pdu_manager.py and sim/serialization.py: the layout of a Secured I-PDU.
--   Crypto        sim/hsm.py, sim/cryif.py, sim/csm.py, sim/hmac_crypto.py: keys, jobs, MACs.
--   Keys          sim/key_storage.py and sim/key_manager.py.
--   Monitor       sim/dem.py (class DEM), sim/security_events.py, sim/event_logger.py,
--                 sim/ecu_state.py, sim/security_policy_engine.py, sim/fault_manager.py.
--   Bus           sim/can_bus.py, sim/can_interface.py, sim/can_fd_interface.py, sim/pdu_router.py.
--   Secoc         sim/secoc.py and sim/authenticator.py: a node is the record `Stack` of the objects
--                 that SecOC is built from; `Setup` holds what stays fixed. `Secoc.Reception` is the
--                 specification of a reception, as a relation without control flow.
--   Ecu           sim/ecu_base.py, sim/sender_ecu.py, sim/receiver_ecu.py.
--   Audit         sim/dem.py (class HashChainedLog).
--   Boot          sim/integrity_checker.py and sim/secure_boot.py.
--   Schedule      sim/bus_scheduler.py.
--   Attack        sim/message_injector.py, sim/message_frame.py, sim/replay_attack.py,
--                 sim/mitm_attack.py, sim/fuzzing_engine.py.
--   Signals       sim/signal_packager.py: layouts, fields of bits, the buffers of the packager.
--   Profiler      sim/performance_profiler.py.
--   Vectors       sim/test_vectors.py.
--   Scenarios     sim/scenario_runner.py: running a scenario by name, its result, and some of the
--                 scenarios.
--   Api           api/state.py, api/events.py, api/websocket.py, api/models.py, api/main.py and,
--                 under api/routers, secoc.py, auth.py, diagnostics.py and test_scenarios.py: the
--                 application state, its endpoints, its clients. `Api.Requests` has a request of each
--                 kind that changes something as a step.
--   Examples      tests, and for each property an input at which its conditions hold.
--
-- How they interact. An ECU sends through its node: the node takes the profile of the PDU, the last
-- accepted counter value from the memory and a MAC from the crypto stack, and the router puts the
-- frame on the bus. A received frame is parsed by its profile, its counter value is reconstructed
-- and tested against the window, its MAC is recomputed; then the value is committed and the frame
-- published, or the failure is logged and counted, and the fifth failure of a PDU locks the ECU. The
-- dashboard drives one such node by its endpoints, and after each request that changed it tells its
-- clients the new diagnostic events and the state of the ECU. The signal packager stands alone.
--
-- How the code is carried over. A method that may raise returns its object beside the outcome, since
-- what it wrote before it raised stays written. Objects that share another object (the memory, the
-- HSM, the event memory, the ECU state, the bus) are parts of one state. Numbers are natural: the
-- code stores counters, lengths and versions. Loops are structural recursion, so no fuel is used.
-- Bytes are natural numbers; that they are below 256 is a condition where it matters. Identifiers of
-- PDUs are texts.
--
-- Parameters. hashlib, hmac and the cryptography package are the record `Crypto.Library`, with the
-- documented lengths of their results as its laws, and where they become text that they are bytes;
-- the operating system's random bytes are a function of the number of the draw. The time that a
-- node measures round a MAC is a function of the number of the operation. The digest of the audit journal
-- is an argument. Python's numbers, of which the values of signals are made, are the record
-- `Signals.Numbers`, and the floats in which the profiler measures are `Profiler.Floats`. Whether a text is sent to a client is a function of the number of the
-- broadcast. Other readings of a clock are arguments.
--
-- Not modelled: of sim/scenario_runner.py the scenarios 01 to 03, 12 to 14, 16 and 20, which are
-- scripts over the objects above; `get_counter` of sim/nvm.py, which only reads; sim/logger.py and
-- sim/time_utils.py, which read clocks and write logs; FastAPI, its parsing of requests and its
-- scheduling of tasks: requests run one after the other. Timestamps of diagnostic events and log
-- lines are left out.
pub mod Base
pub mod Config
pub mod Nvm
pub mod Freshness
pub mod Profile
pub mod Pdu
pub mod Crypto
pub mod Monitor
pub mod Bus
pub mod Keys
pub mod Secoc
pub mod Ecu
pub mod Audit
pub mod Boot
pub mod Schedule
pub mod Signals
pub mod Api
pub mod Profiler
pub mod Scenarios
pub mod Attack
pub mod Examples
pub mod Vectors
