-- ===== src/Control.antt =====
-- control_core: the authority router, the environmental, anchor and flag interlocks and the warning
-- registry. A dictionary argument is a record of the keys that are read, `none` for a key that is
-- missing; `time.time()` is an argument where its value is used.
pub mod Authority
pub mod Bilge
pub mod Anchor
pub mod Flags
pub mod Warnings
