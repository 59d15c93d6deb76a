-- ===== src/Core/Security/Tests.antt =====
-- An access token read back in time.
use keel_be.Prelude.{arith}
use keel_be.Core.Security.{Decodes}
use keel_be.Fixtures.{crypto, claims_of_ada}

crypto-Decodes : Decodes crypto "dev-only-change-me" claims_of_ada
crypto-Decodes = record { before = λ now h. ground arith; after = λ now h. ground arith }
