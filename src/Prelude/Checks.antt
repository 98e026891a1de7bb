-- ===== src/Prelude/Checks.antt =====
-- A chain of checks that stops at the first one that fails.
use mathlib.Core.Path.{◌≡◌, refl}
use mathlib.Core.Logic.{◌↔◌}
use mathlib.Core.Bool.{Bool, true, false}
use mathlib.Core.Option.{Option, none, some}
use tg_proxy_relay.Prelude.Tests.{if◌then◌else◌}

-- The chain passes when the check in front and the rest of it do.
pub check_iff :
    {A : Type 0} (failed : Bool) (e : A) (rest : Option A)
    → ((if failed then some e else rest) ≡ none) ↔ ((failed ≡ false) × (rest ≡ none))
check_iff true e rest = (λ h. absurd cc, λ h. absurd (cc (h.0)))
check_iff false e rest = (λ h. (refl, h), λ h. h.1)
