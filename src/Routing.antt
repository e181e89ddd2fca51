-- ===== src/Routing.antt =====
-- network_layer/bridge_network_interface.py, bridge_network_router.py and serial_port_listener.py:
-- the UDP sender, the router that joins parser, serializers and feedback receiver, and the thread
-- that reads the serial port.
pub mod Udp
pub mod Router
pub mod Listener
pub mod Forward
pub mod Latch
pub mod Wire
