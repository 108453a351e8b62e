-- ===== src/Mqtt.antt =====
-- src/regtable_mqtt.h and src/regtable_mqtt.c: the MQTT adapter.
pub mod Handle
pub mod Poll
pub mod Appender
pub mod Meta
pub mod Init
pub mod Announce
mod Examples
