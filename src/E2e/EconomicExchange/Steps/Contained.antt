-- ===== src/E2e/EconomicExchange/Steps/Contained.antt =====
-- The scripts of the module above do nothing but what `Contained` allows.
use stir_main.Base.{String}
use stir_main.Json.{Json}
use stir_main.Host.Emits.{Emits}
use stir_main.E2e.Contained.{Contained, contained_rules}
use stir_main.E2e.EconomicExchange.Steps.{
  make_user, open_and_accept, run_exchange, activate_economic, new_keypair, sign_authorization,
}

pub new_keypair-Contained : Emits Contained new_keypair
unfolding new_keypair
new_keypair-Contained = search contained_rules depth 40

pub sign_authorization-Contained :
    (key : String) (payload_text : Json) → Emits Contained (sign_authorization key payload_text)
unfolding sign_authorization
sign_authorization-Contained key payload_text = search contained_rules depth 40

pub make_user-Contained :
    (admin : Json) (tenant : String) (role_id : Json) (label suffix : String)
    → Emits Contained (make_user admin tenant role_id label suffix)
unfolding make_user
make_user-Contained admin tenant role_id label suffix = search contained_rules depth 200 fits 20000

pub open_and_accept-Contained :
    (base_a : String) (ana pedro : Json) (direction title category : String)
    (first_amount counter_amount : Json)
    → Emits Contained
        (open_and_accept base_a ana pedro direction title category first_amount counter_amount)
unfolding open_and_accept
open_and_accept-Contained base_a ana pedro direction title category first_amount counter_amount =
    search contained_rules depth 200 fits 20000

pub run_exchange-Contained :
    (base_a : String) (initiator_session owner_session agreement_id : Json)
    (initiator_key owner_key : String × String × Json)
    → Emits Contained
        (run_exchange base_a initiator_session owner_session agreement_id initiator_key owner_key)
unfolding run_exchange
run_exchange-Contained base_a initiator_session owner_session agreement_id initiator_key owner_key =
    search (contained_rules, sign_authorization-Contained) depth 200 fits 20000

pub activate_economic-Contained :
    (base_a : String) (session : Json) → Emits Contained (activate_economic base_a session)
unfolding activate_economic
activate_economic-Contained base_a session =
    search (contained_rules, new_keypair-Contained) depth 200 fits 20000
