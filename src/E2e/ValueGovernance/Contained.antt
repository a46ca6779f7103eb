-- ===== src/E2e/ValueGovernance/Contained.antt =====
-- The scripts of the module above do nothing but what `Contained` allows.
use stir_main.Base.{String, List}
use stir_main.Json.{Json}
use stir_main.Host.Emits.{Emits}
use stir_main.E2e.Contained.{Contained, contained_rules}
use stir_main.E2e.References.Contained.{fixtures-Contained}
use stir_main.E2e.Login.Contained.{make_login-Contained}
use stir_main.E2e.ValueGovernance.DecideCase.{agree, isolate, dismiss_case, decide_case}
use stir_main.E2e.ValueGovernance.KeepDailyCut.{
  tighten_policy, refuse_platform_admin, keep_daily_cut,
}
use stir_main.E2e.ValueGovernance.{raw_history, main}

agree-Contained :
    (a : Json) (base : String) (definition listing : Json) (amount : String)
    (buyer_token consent : Json)
    → Emits Contained (agree a base definition listing amount buyer_token consent)
unfolding agree
agree-Contained a base definition listing amount buyer_token consent =
    search contained_rules depth 200 fits 20000

isolate-Contained :
    (base : String) (bea definition : Json) (ref : String)
    → Emits Contained (isolate base bea definition ref)
unfolding isolate
isolate-Contained base bea definition ref = search contained_rules depth 200 fits 20000

dismiss_case-Contained :
    (tenant base : String) (bea a diego definition : Json) (ref : String) (dismissable : Json)
    → Emits Contained (dismiss_case tenant base bea a diego definition ref dismissable)
unfolding dismiss_case
dismiss_case-Contained tenant base bea a diego definition ref dismissable =
    search (contained_rules, isolate-Contained) depth 200 fits 20000

decide_case-Contained :
    (tenant base : String) (bea a diego definition : Json) (ref : String)
    (agreement_rows : List Json)
    → Emits Contained (decide_case tenant base bea a diego definition ref agreement_rows)
unfolding decide_case
decide_case-Contained tenant base bea a diego definition ref agreement_rows =
    search (contained_rules, dismiss_case-Contained) depth 200 fits 20000

tighten_policy-Contained :
    (tenant base : String) (bea a p diego definition : Json) (ref : String)
    (agreement_rows : List Json)
    → Emits Contained (tighten_policy tenant base bea a p diego definition ref agreement_rows)
unfolding tighten_policy
tighten_policy-Contained tenant base bea a p diego definition ref agreement_rows =
    search (contained_rules, decide_case-Contained) depth 200 fits 20000

refuse_platform_admin-Contained :
    (tenant base : String) (bea a p admin diego definition : Json) (ref : String)
    (agreement_rows : List Json)
    → Emits Contained
        (refuse_platform_admin tenant base bea a p admin diego definition ref agreement_rows)
unfolding refuse_platform_admin
refuse_platform_admin-Contained tenant base bea a p admin diego definition ref agreement_rows =
    search (contained_rules, tighten_policy-Contained) depth 200 fits 20000

keep_daily_cut-Contained :
    (tenant base : String) (bea a p admin diego definition : Json) (ref : String)
    (listing the_first manifest : Json)
    → Emits Contained
        (keep_daily_cut tenant base bea a p admin diego definition ref listing the_first manifest)
unfolding keep_daily_cut
keep_daily_cut-Contained tenant base bea a p admin diego definition ref listing the_first manifest =
    search (contained_rules, agree-Contained, refuse_platform_admin-Contained) depth 200 fits 20000

raw_history-Contained :
    (tenant base : String) (bea a p admin diego : Json)
    → Emits Contained (raw_history tenant base bea a p admin diego)
unfolding raw_history
raw_history-Contained tenant base bea a p admin diego =
    search (contained_rules, agree-Contained, keep_daily_cut-Contained) depth 200 fits 20000

pub main-Contained : Emits Contained main
unfolding main
main-Contained =
    search (contained_rules, fixtures-Contained, make_login-Contained, raw_history-Contained) depth
      200 fits 20000
