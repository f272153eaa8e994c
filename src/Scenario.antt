-- ===== src/Scenario.antt =====
-- A small fleet for the tests: one host with a finding, its agent under a policy that remediates, an
-- approved plan, and a change set at its stages. The parts are the modules below.
mod Doubles
mod Fleet
mod Envelope
mod Jobs
mod Creation
unfoldable pub use Doubles.*
unfoldable pub use Fleet.*
unfoldable pub use Envelope.*
unfoldable pub use Jobs.*
unfoldable pub use Creation.*
use lsa.Base.{Bool, true, false, ◌≡◌, refl, Result, ok, err}

module _ {ℓ} {A : Type ℓ} where
  abbrev pub returns : Result A → Bool
  returns (ok a) = true
  returns (err e) = false

  -- What a call has returned, or else a value that stands in.
  abbrev pub returned : A → Result A → A
  returned d (ok a) = a
  returned d (err e) = d

  pub returns-eq-ok : (d : A) (r : Result A) → returns r ≡ true → r ≡ ok (returned d r)
  returns-eq-ok d (ok a) h = refl
  returns-eq-ok d (err e) h = cc
