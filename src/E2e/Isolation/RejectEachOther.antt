-- ===== src/E2e/Isolation/RejectEachOther.antt =====
-- scripts/multitenant.py: reject each other.
use stir_main.Base.{Bool, List, String, [], ℕ, ◌<>◌, ◌=s=◌, ◌∷◌}
use stir_main.Base.Text.{splitlines}
use stir_main.Compose.{sql}
use stir_main.E2e.Isolation.RejectOne.{reject_one}
use stir_main.Host.Exec.{Exec, for_each, pure, ◌>>=◌, ◌>>◌}
use stir_main.Json.{Json, str}
use stir_main.Py.{
  before_last, dict, dumps, eq, expect_or, fold_each, item, list, map_each, pick, print, strings,
  subset, write_under_root,
}
use stir_main.Py.Texts.{join, split_at}

unfoldable pub database_roles : List String → List Json → Exec Unit
database_roles tenants listings = do
  flags ←
      sql
        "select current_user,rolsuper,rolbypassrls,has_schema_privilege(current_user,'stir','CREATE'),has_database_privilege(current_user,'idax','CREATE') from pg_roles where rolname=current_user;"
        Bool.true
  expect_or flags (flags =s= "idax_backend|f|f|f|f")
  print ("Runtime identity:" <> " " <> flags)
  memberships ←
      sql
        "select r.rolname from pg_auth_members m join pg_roles r on r.oid=m.roleid join pg_roles u on u.oid=m.member where u.rolname=current_user order by r.rolname;"
        Bool.true
  expect_or memberships
      (subset (str "idax_app" ∷ str "idax_admin" ∷ []) (strings (splitlines memberships)))
  print ("Granted roles:" <> " " <> join ", " (split_at 10 memberships))
  table ←
      sql
        "select relname,relrowsecurity,relforcerowsecurity from pg_class where oid='stir.listing'::regclass;"
        Bool.true
  expect_or table (table =s= "listing|t|t")
  print ("RLS enabled/forced:" <> " " <> table)
  print (
      "Policies:"
      <> " "
      <> (← sql
          "select policyname,roles,cmd,qual,with_check from pg_policies where schemaname='stir' order by tablename,policyname;"
          Bool.true))
  runtime_sessions ←
      sql
        "select distinct usename from pg_stat_activity where datname='idax' and backend_type='client backend' and application_name='PostgreSQL JDBC Driver';"
        Bool.false
  observed ← pure (strings (splitlines runtime_sessions))
  expect_or runtime_sessions (
      subset observed (str "idax_backend" ∷ str "idax_governed_verifier" ∷ str "stir_auditor" ∷ []))
  expect_or runtime_sessions
      (subset (str "idax_backend" ∷ str "idax_governed_verifier" ∷ []) observed)
  print ("Live JDBC session identities:" <> " " <> runtime_sessions)
  the_count ← sql "select count(*) from stir.listing;" Bool.true
  expect_or the_count (the_count =s= "0")
  for_each ("idax_app" ∷ "idax_admin" ∷ []) (λ role. do
    output ←
        sql
          ("begin; set local role "
            <> role
            <> "; select set_config('app.tenant_id','"
            <> (← pick 0 tenants)
            <> "',true); select count(*) from stir.listing where tenant_id='"
            <> (← pick 1 tenants)
            <> "'; select count(*) from stir.listing where tenant_id='"
            <> (← pick 0 tenants)
            <> "'; rollback;")
          Bool.true
    expect_or output
        (eq (list (strings (before_last 2 (splitlines output)))) (list (strings ("0" ∷ "1" ∷ [])))))
  write_under_root ".local/e2e-fixtures.json"
      (← dumps (
        dict (
          ("tenants", list (strings tenants))
          ∷ ("listingIds", list (← map_each listings (λ r. item r "id")))
          ∷ [])))
  print
      "PASS: A/B ordinary owner read/update; foreign UUID read/update/close 404; foreign path denied; cross-tenant query isolated; contradictory X-Tenant denied; owner forgery rejected."
  print
      "PASS: live idax_backend login NOSUPERUSER/NOBYPASSRLS/no schema or database CREATE; no tenant sees zero rows; idax_app and idax_admin both isolate A/B."

unfoldable pub reject_each_other : String → List String → List Json → List Json → Exec Unit
reject_each_other suffix tenants sessions listings = do
  listings ← fold_each {A = ℕ} (0 ∷ 1 ∷ []) listings (reject_one suffix tenants sessions)
  database_roles tenants listings
