-- ===== src/E2e/ConsentRetention/Contained.antt =====
-- The scripts of the module above do nothing but what `Contained` allows.
use stir_main.Base.{String, ℕ, List}
use stir_main.Json.{Json}
use stir_main.Host.Emits.{Emits}
use stir_main.E2e.Contained.{Contained, contained_rules}
use stir_main.E2e.EconomicExchange.Steps.Contained.{make_user-Contained}
use stir_main.E2e.ConsentRetention.Anonymize.{role, fixtures, agree, backdate, anonymize}
use stir_main.E2e.ConsentRetention.Withdraw.{hold_one, set_retention, withdraw}
use stir_main.E2e.ConsentRetention.{consent_of_each, main}

role-Contained :
    (admin : Json) (suffix t key : String) (permissions : List Json)
    → Emits Contained (role admin suffix t key permissions)
unfolding role
role-Contained admin suffix t key permissions = search contained_rules depth 200 fits 20000

fixtures-Contained : Emits Contained fixtures
unfolding fixtures
fixtures-Contained =
    search (contained_rules, make_user-Contained, role-Contained) depth 200 fits 20000

agree-Contained :
    (p a : Json) (base : String) (definition listing : Json) (amount : String)
    (offeror_consent acceptor_consent : Json)
    → Emits Contained (agree p a base definition listing amount offeror_consent acceptor_consent)
unfolding agree
agree-Contained p a base definition listing amount offeror_consent acceptor_consent =
    search contained_rules depth 200 fits 20000

backdate-Contained :
    (tenant : String) (observation_id : Json) (days : ℕ)
    → Emits Contained (backdate tenant observation_id days)
unfolding backdate
backdate-Contained tenant observation_id days = search contained_rules depth 200 fits 20000

anonymize-Contained :
    (tenant base : String) (a old_a_obs : Json)
    → Emits Contained (anonymize tenant base a old_a_obs)
unfolding anonymize
anonymize-Contained tenant base a old_a_obs = search contained_rules depth 200 fits 20000

hold_one-Contained :
    (tenant base : String) (a p definition : Json) (ref : String) (listing old_a : Json)
    → Emits Contained (hold_one tenant base a p definition ref listing old_a)
unfolding hold_one
hold_one-Contained tenant base a p definition ref listing old_a =
    search (contained_rules, agree-Contained, backdate-Contained, anonymize-Contained) depth 200
      fits 20000

set_retention-Contained :
    (admin : Json) (tenant base : String) (a p community definition : Json) (ref : String)
    (listing : Json)
    → Emits Contained (set_retention admin tenant base a p community definition ref listing)
unfolding set_retention
set_retention-Contained admin tenant base a p community definition ref listing =
    search (contained_rules, agree-Contained, hold_one-Contained) depth 200 fits 20000

withdraw-Contained :
    (admin : Json) (tenant base : String) (carlos bea a p community definition : Json)
    (ref : String) (listing bilateral_obs pedro_consent ana_consent : Json)
    → Emits Contained (
        withdraw admin tenant base carlos bea a p community definition ref listing bilateral_obs
          pedro_consent ana_consent)
unfolding withdraw
withdraw-Contained admin tenant base carlos bea a p community definition ref listing bilateral_obs
      pedro_consent ana_consent =
    search (contained_rules, set_retention-Contained) depth 200 fits 20000

consent_of_each-Contained :
    (admin : Json) (tenant base : String) (carlos bea a p community definition : Json)
    (ref : String) (listing : Json)
    → Emits Contained
        (consent_of_each admin tenant base carlos bea a p community definition ref listing)
unfolding consent_of_each
consent_of_each-Contained admin tenant base carlos bea a p community definition ref listing =
    search (contained_rules, agree-Contained, withdraw-Contained) depth 200 fits 20000

pub main-Contained : Emits Contained main
unfolding main
main-Contained =
    search (contained_rules, fixtures-Contained, consent_of_each-Contained) depth 200 fits 20000
