-- ===== src/Tests.antt =====
-- Tests by evaluation, and each result at an input that meets its conditions.
mod HttpTests
mod SendTests
mod WorkersTests
mod ServerTests
mod RoutingTests
mod ServeTests
mod CallsTests
mod LoopTests
mod ConfigTests
mod LifeTests
mod MainTests
