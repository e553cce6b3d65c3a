-- ===== src/Tests.antt =====
-- The theorems at concrete inputs, and runs of the model.
mod Session
mod Recovery
mod Exchange
mod Md5
mod Packets
mod Sproto
mod Arrays
mod Account
mod Documents
mod Client
mod Entering
mod Json
mod Transport
