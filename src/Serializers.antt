-- ===== src/Serializers.antt =====
-- The serializers of network_layer: what the bridge engine computes, printed as framed sentences.
-- `bytes` are lists of code points; `.encode('ascii')` is the identity on ASCII text. A missing
-- key of a dictionary is `none`.
pub mod Actuator
pub mod Weapon
pub mod Packets
pub mod Weapons
