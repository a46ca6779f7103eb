-- ===== src/E2e/Safety.antt =====
-- The end-to-end scripts together.
use stir_main.Host.Emits.{Emits}
use stir_main.E2e.Contained.{Contained}
use stir_main.E2e.EconomicExchange.{main as economic_exchange}
use stir_main.E2e.EconomicExchange.Contained.{main-Contained as economic_exchange-Contained}
use stir_main.E2e.Marketplace.{main as marketplace}
use stir_main.E2e.Marketplace.Contained.{main-Contained as marketplace-Contained}
use stir_main.E2e.References.{main as references}
use stir_main.E2e.References.Contained.{main-Contained as references-Contained}
use stir_main.E2e.Authority.{main as authority}
use stir_main.E2e.Authority.Contained.{main-Contained as authority-Contained}
use stir_main.E2e.OrdinaryGovernance.{main as ordinary_governance}
use stir_main.E2e.OrdinaryGovernance.Contained.{main-Contained as ordinary_governance-Contained}
use stir_main.E2e.ConsentRetention.{main as consent_retention}
use stir_main.E2e.ConsentRetention.Contained.{main-Contained as consent_retention-Contained}
use stir_main.E2e.MultiSource.{main as multi_source}
use stir_main.E2e.MultiSource.Contained.{main-Contained as multi_source-Contained}
use stir_main.E2e.Independence.{main as independence}
use stir_main.E2e.Independence.Contained.{main-Contained as independence-Contained}
use stir_main.E2e.ValueGovernance.{main as value_governance}
use stir_main.E2e.ValueGovernance.Contained.{main-Contained as value_governance-Contained}
use stir_main.E2e.Audit.{main as audit}
use stir_main.E2e.Audit.Contained.{main-Contained as audit-Contained}
use stir_main.E2e.Ledger.{main as ledger}
use stir_main.E2e.Ledger.Contained.{main-Contained as ledger-Contained}
use stir_main.E2e.Isolation.{main as isolation}
use stir_main.E2e.Isolation.Contained.{main-Contained as isolation-Contained}
use stir_main.E2e.Listing.{main as listing}
use stir_main.E2e.Listing.Contained.{main-Contained as listing-Contained}
use stir_main.E2e.SevenKeys.{main as seven_keys}
use stir_main.E2e.SevenKeys.Contained.{main-Contained as seven_keys-Contained}
use stir_main.E2e.Boundary.{main as boundary}
use stir_main.E2e.Boundary.Contained.{main-Contained as boundary-Contained}

-- Whatever the stack, the database and the machine answer, and wherever they stop, the end-to-end
-- scripts run no program but docker: they locate and send SQL to the containers of a compose project
-- that is named and is not `stir-dev`, inspect containers, and run compose on the project
-- `stir-claude-mvp`. Else they only send requests, draw, look at the clock, read files, print, set the
-- project's name and note their fixtures.
pub scripts-Contained :
    Emits Contained economic_exchange
    × Emits Contained marketplace
    × Emits Contained references
    × Emits Contained authority
    × Emits Contained ordinary_governance
    × Emits Contained consent_retention
    × Emits Contained multi_source
    × Emits Contained independence
    × Emits Contained value_governance
    × Emits Contained audit
    × Emits Contained ledger
    × Emits Contained isolation
    × Emits Contained listing
    × Emits Contained seven_keys
    × Emits Contained boundary
scripts-Contained = (
  economic_exchange-Contained, marketplace-Contained, references-Contained, authority-Contained,
  ordinary_governance-Contained, consent_retention-Contained, multi_source-Contained,
  independence-Contained, value_governance-Contained, audit-Contained, ledger-Contained,
  isolation-Contained, listing-Contained, seven_keys-Contained, boundary-Contained,
)
