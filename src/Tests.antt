-- ===== src/Tests.antt =====
-- The theorems and the definitions at concrete inputs.
mod ReleaseTests
mod StepsTests
mod RegistryTests
mod RangesTests
mod LinksTests
mod OwnershipTests
mod AllocationTests
mod StreamsTests
mod FilesTests
mod DiscoveryTests
mod ProcessTests
mod LexerTests
mod JsonTests
mod ParserTests
mod FrontTests
