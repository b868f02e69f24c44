-- ===== src/Tests.antt =====
-- Concrete runs of the model, one module per part.
mod Data
mod Texts
mod Playout
mod Access
mod EventBus
mod Chat
mod Editorial
mod Paging
mod Rooms
mod Http
mod Streams
