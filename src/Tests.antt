-- ===== src/Tests.antt =====
-- Runs of the program at concrete inputs.
mod Fixtures
mod CoreTests
mod NodeTests
mod ManagerTests
mod UploadTests
mod RoundtripTests
mod EdgeTests
