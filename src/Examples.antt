-- ===== src/Examples.antt =====
-- The statements of the development on concrete inputs.
mod Queue
mod Codecs
mod Changes
mod Walking
mod Wire
mod Channels
mod Delivery
mod Requests
mod Addresses
