-- ===== src/Lib.antt =====
-- A model of the BREAD provider for anolis: the CRUMBS session, the device adapters, discovery and the
-- runtime that serves them (src/crumbs, src/devices, src/core and what they use of src/config).
--
-- The provider finds BREAD boards on an I2C bus, keeps an inventory of them, and serves reads and
-- function calls from a runtime. A call goes from the runtime (Runtime: BreadProviderRuntime::call) to
-- the adapter of the device's family (DeviceAdapter: call, adapter_for), which builds a frame without a
-- session (Rlht.Frame and Dcmt.Frame: build_frame) and then transmits it (Rlht, Dcmt: transmit). Every
-- SET goes through SetConfirm (transmit_confirmed), which reads the device's acknowledgement before and
-- after it sends. All of these reach the bus through Session (src/crumbs/session.cpp), which validates,
-- retries, and keeps statistics and a recovery signal per address. After a recovery the runtime drives
-- the safe outputs (SafeOutputs) and arms the watchdog (Watchdog), and until the first call of the
-- runtime Keepalive feeds the armed watchdogs. Start-up probes the boards (Startup), checks their
-- versions (Compatibility) and builds the inventory (Inventory).
--
-- The files and the code:
--   Base: names of the libraries, tests on numbers, lists, integers, texts.
--   Frames, Transport: the data of src/crumbs/session.hpp and its abstract transport.
--   Session: the class of src/crumbs/session.cpp; Session.Retry is execute_with_retry, Session.History
--     is the sequences of calls and what they show.
--   SessionApi: the methods that clients use, as a record; SessionApi.Log adds logs of sends and queries.
--   Contracts: what is used of the CRUMBS library and of bread-crumbs-contracts.
--   Wire: what is used of the I2C bus of the SDK and of the CRUMBS codec, with their documented laws.
--   CrumbsTransport: src/crumbs/crumbs_transport.cpp, the transport over both; CrumbsTransport.Link
--     relates it to an abstract link.
--   CannedBus: src/crumbs/crumbs_canned_bus.cpp, the canned devices of mock mode; CannedBus.Port is the
--     bus interface, and CannedBus.Sessions runs the session over the transport over it.
--   Config: the resolved configuration, its texts and load_config (src/config/provider_config.cpp);
--     Config.Schema is src/config/config_schema.cpp.
--   Devices: the data of src/devices/common and of the protocol messages.
--   AdapterHelpers: src/devices/common/adapter_helpers.hpp.
--   Compatibility: src/devices/common/bread_compatibility.cpp.
--   SetConfirm: src/devices/common/set_confirm.cpp.
--   Watchdog: src/devices/common/watchdog.cpp.
--   Keepalive: src/devices/common/watchdog_keepalive.cpp.
--   Rlht, Dcmt: src/devices/rlht/rlht_adapter.cpp and src/devices/dcmt/dcmt_adapter.cpp.
--   DeviceAdapter, SafeOutputs: src/devices/common/device_adapter.cpp and safe_outputs.cpp.
--   Inventory: src/devices/common/inventory.cpp.
--   Startup: src/core/startup.cpp.
--   Runtime: src/core/runtime_state.cpp and src/core/bread_provider_runtime.cpp; Runtime.Health and
--     Runtime.Reports are what the runtime reports, Runtime.Opening is start-up up to an open session.
--   Program: src/core/main.cpp and src/core/host_check.cpp; Program.CommandLine is the reading of options.
--   Tests: concrete contracts, a bus and a device, and runs on them.
--
-- State is passed explicitly: an action takes a state and gives a result and the state after. A
-- session is a state over a transport, whose world `W` is everything outside the provider; a client
-- is written over the record SessionApi and any state. Each method that holds a mutex is one step,
-- so a list of calls stands for any interleaving of threads. Numbers are unbounded naturals; where
-- the code has a narrower integer that a value may leave, the wrap-around is written out (the
-- 64-bit counters, the 32-bit retry count, the bytes and 16-bit values of a payload, the 8-bit
-- addresses that are cast), but for the int counters of the canned bus, which count its writes and
-- drops. Times are whole milliseconds. Loops with a bound in the code recurse on the rounds left,
-- which start at that bound. The thread of the keep-alive (Keepalive.Thread) is given a tick for
-- each millisecond to its deadline and one more, which is enough since a tick asks for a later
-- time.
--
-- Parameters, whose code is not in this repository: the opcodes, flags, parsers and checks of the
-- contracts and of CRUMBS (Contracts), the CRUMBS codec and the scan of its controller, the I2C bus
-- (Wire), the clocks, IEEE doubles (Doubles), YAML nodes with the validator of the SDK (Config.Load), the
-- fault injection of the SDK, its host checks and run loop (Program), and its spelling of a claim key.
-- The laws of the codec, of the bus's statuses and of the host checks are hypotheses of the theorems
-- that use them; Tests.SampleBus and Tests.ProgramRuns have instances.
--
-- Not modelled: logging but for the lines that main writes, the Linux I2C bus, time stamps, and
-- descriptions of functions, signals and settings.
pub mod Base
pub mod Frames
pub mod Transport
pub mod Wire
pub mod CrumbsTransport
pub mod CannedBus
pub mod Session
pub mod Contracts
pub mod SessionApi
pub mod Config
pub mod Devices
pub mod Compatibility
pub mod AdapterHelpers
pub mod SetConfirm
pub mod Watchdog
pub mod Keepalive
pub mod Rlht
pub mod Dcmt
pub mod DeviceAdapter
pub mod SafeOutputs
pub mod Inventory
pub mod Startup
pub mod Runtime
pub mod Program
pub mod Tests
