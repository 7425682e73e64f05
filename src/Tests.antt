-- ===== src/Tests.antt =====
-- The theorems at concrete inputs, with a codec, a clock and a URL parser that hold to what the
-- theorems ask of them.
mod World
mod Caching
mod Lookups
mod Choosing
mod Helpers
mod Keys
mod Agents
mod Commands
mod Stores
mod Builds
mod Registries
mod Archives
