-- ===== src/Lib.antt =====
-- Verification of the Univac bridge replacement: the Python program under src/ of the repository.
--
-- The program reads the ship's serial lines and a TCP command stream (network_layer), runs interlocks
-- and control laws in a 50 Hz loop (control_core), sends framed sentences to actuators and weapons
-- (network_layer again), keeps chained audit ledgers, and checks them before it boots (config).
--
-- Files, and the code they model:
--   Base, Text, Floats   numbers, texts as lists of character codes, Python's `float` as an interface;
--                        Floats.Milli is one concrete instance, used by the tests
--   Nmea                 the checksum, the frame and the fields of a sentence, which
--                        src/network_layer/nmea_serial_parser.py and four more classes repeat
--   Serializers          actuator_serial_serializer.py, bridge_network_interface.py,
--                        asymmetric_network_serializer.py, weapon_serial_serializer.py,
--                        shore_weapon_serializer.py
--   Feedback             actuator_telemetry_receiver.py
--   Sensors              weapon_serial_parser.py, weapon_async_parser.py, nmea_serial_parser.py,
--                        aviation_telemetry_bridge.py
--   Routing              the sender of bridge_network_interface.py, bridge_network_router.py,
--                        serial_port_listener.py
--   Encoders             cray_gray_code_parser.py, univac_mac_aligner.py,
--                        univac_architecture_hal.py, hex_spectrum_modulator.py
--   Tcp                  tcp_command_listener.py
--   Ledger               flag_fault_logger.py, bilge_audit_logger.py, shore_audit_logger.py, the header
--                        of data_logger_node.py, and src/config/boot_verification_suite.py
--   Watchdog             hardware_watchdog.py, multi_ledger_watchdog.py
--   Control              of src/control_core: bilge_authority_router.py, bilge_gating_subroutine.py,
--                        anchor_interlock_subroutine.py, flag_changer_subroutine.py and
--                        central_warning_registry.py
--   Plant                base_infrastructure_core.py, jammer_targeting_system.py of src/control_core
--   Engine               bridge_execution_engine.py, asymmetric_roll_stabilizer.py,
--                        asymmetric_trim_subroutine.py and cognitive_ring_processor.py of
--                        src/control_core, wave_matrix_processor.py and the tables of
--                        bank_suction_lookup.py of src/hydrodynamics, and
--                        hydro_coordinated_predictor.py
--   Config               config_manager.py, hardware_network_validator.py, hardware_serial_validator.py
--                        of src/config
--   Tests                runs at concrete inputs
-- A class is a record of the attributes that change, a method a function to the new record, with the
-- method's name; a dictionary argument is a record of the keys that are read, `none` standing for a
-- missing key; strings that only name a state are constructors.
--
-- How the parts interact: what the serializers frame is what the parsers' checksum test accepts
-- (Serializers.Packets and Sensors use Nmea.Fields); the boot suite of Ledger.Verify reads what the
-- writer of Ledger writes; the loggers report to the supervisor of Watchdog.Ledgers; the gate of
-- Control.Bilge is one of the vectors that Control.Authority chooses from; Plant.Infrastructure gives
-- Ledger.Shore its snapshots, Plant.Jammer the weapon serializer its rows. Routing.Router joins the
-- instrument parser, the serializers, the feedback receiver and the UDP sender; Engine.Wire puts the
-- engine, on the profile of Config.Profile, in front of it.
--
-- Parameters: floats (Floats.Floating, with IEEE ordering and the alphabet of printed numbers as
-- Floats.FloatLaws), SHA-256, `json.loads` and
-- `math` (Floats.Math, with the monotonicity of rounding and `exp` as Floats.Math.MathLaws). Clocks are arguments. Threads are runs
-- of steps: each critical section, line, chunk or round is one step. Where a stop gives up waiting for
-- a thread and a start adds another, the ledger writers go on by the events of overlapping writers, and
-- the port readers are counted.
--
-- Loops: all are structural, but for the shift loop of the Gray decoder (Encoders.Gray), which runs
-- on the register's value as fuel: each round halves the register. The digits of a number in hexadecimal
-- and decimal are printed with the number plus one as fuel, for the same reason.
--
-- Not modelled: sockets, serial ports and terminal output as such; the consoles and main.py, which
-- wire the parts; the engine's subsystems, which a failing import always leaves out; what
-- process_bank_forces would compute behind the name that its module does not import; the float formulas of the ballistics and museum modules, whose content is
-- numeric.
pub mod Base
pub mod Text
pub mod Nmea
pub mod Floats
pub mod Feedback
pub mod Serializers
pub mod Ledger
pub mod Tcp
pub mod Control
pub mod Watchdog
pub mod Encoders
pub mod Sensors
pub mod Plant
pub mod Routing
pub mod Config
pub mod Engine
pub mod Tests
