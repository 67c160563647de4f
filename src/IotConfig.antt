-- ===== src/IotConfig.antt =====
-- iot_config/src/lora_field.rs and iot_config/src/helium_netids.rs: the LoRaWAN fields, the addresses
-- that belong to a net id, and the checkout of addresses for the Helium net ids.
pub mod Fields
pub mod Text
pub mod NetIds
pub mod Helium
pub mod Constraints
pub mod Checkout
mod Tests
